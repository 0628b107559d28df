-- ===== src/Store/Finalize.antt =====
-- `Finalize` of the multi-store: it comes to an end, and leaves nothing cached.
use molaris.Prelude.{
  ℕ, zero, suc, ◌≡◌, refl, ap, ◌∙◌, Option, none, some, List, [], ◌∷◌, arith, length, take, last_or,
  length-take, ok, lookup, insert, nat_eq,
}
use molaris.Stack
use molaris.Stack.{Stack, items}
use molaris.Stack.Items.{Holds, pop-Holds, size-eq-length}
use molaris.Store.{
  StoreKey, CacheKv, MapMultiStore, Store, or_root, put_map, write_committed, write_to, write_entry,
  write_revision, finalize_revisions, finalize_root, finalize,
}
use molaris.Store.Maps.{AreMaps, StoreGuards, peek-maps, put_map-StoreGuards}

-- The last entry of a list of maps is a map, and those before it are maps.
last_or-AreMaps :
    {M : Type 0} (x : Option M) (xs : List (Option M))
    → AreMaps (x ∷ xs)
    → (cms : M) × (last_or (x ∷ xs) none ≡ some cms) × AreMaps (take (length xs) (x ∷ xs))
last_or-AreMaps none xs h = absurd h
last_or-AreMaps (some cms) [] h = (cms, refl, tt)
last_or-AreMaps (some cms) (none ∷ xs) h = absurd h
last_or-AreMaps (some cms) (some d ∷ xs) h = last_or-AreMaps (some d) xs h

module _ {S : Type 0} (kv : CacheKv S) where
  -- What a write into the layers below leaves as it was.
  abbrev Written : Store S → Store S → Type 0
  Written s s' =
      (s'.journal.size ≡ s.journal.size) × (s'.read_only ≡ s.read_only) × StoreGuards kv s' []

  write_committed-Written :
      (s : Store S) (key : StoreKey) (c : S) (base : Option S)
      → StoreGuards kv s []
      → Written s (write_committed kv s key c base)
  write_committed-Written s key c none g = (refl, refl, g)
  write_committed-Written s key c (some base) g = (
    refl,
    refl,
    record {
      maps = g.maps;
      are_maps = g.are_maps;
      layers = record { held = g.layers.held; marks = tt };
    },
  )

  put_map-size :
      (s : Store S) (o : Option (MapMultiStore S)) (cms : MapMultiStore S)
      → (put_map kv s o cms).journal.size ≡ s.journal.size
  put_map-size s none cms = refl
  put_map-size s (some old) cms = refl

  write_to-Written :
      (s : Store S) (key : StoreKey) (c : S) (cms : MapMultiStore S) (parent : Option S)
      → (g : StoreGuards kv s []) → Written s (write_to kv s key c (last_or g.maps none) cms parent)
  write_to-Written s key c cms none g = write_committed-Written s key c (lookup key s.committed) g
  write_to-Written s key c cms (some parent) g =
      let m = insert key (kv.write c parent) cms in
      let (g', rooted, e, r) = put_map-StoreGuards kv s m [] g in
      (put_map-size s (last_or g.maps none) m, r, g')

  write_revision-Written :
      (revision : MapMultiStore S) (s : Store S)
      → StoreGuards kv s []
      → (s' : Store S) × (write_revision kv revision s ≡ ok s') × Written s s'
  unfolding write_revision write_entry
  write_revision-Written [] s g = (s, refl, (refl, refl, g))
  write_revision-Written ((key, c) ∷ rest) s g =
      let cms = or_root s.root (last_or g.maps none) in
      let (n, r, g1) = write_to-Written s key c cms (lookup key cms) g in
      let (s', e, (n', r', g')) = write_revision-Written rest _ g1 in
      (s', rw (peek-maps kv s [] g) e, (n' ∙ n, r' ∙ r, g'))

  -- A pop of the journal: nil from an empty one, and the newest map otherwise.
  pop_empty : (s : Store S) → s.journal.size ≡ 0 → Stack.pop none s.journal ≡ ok (s.journal, none)
  unfolding Stack.pop
  pop_empty s e = rw e refl

  pop-StoreGuards :
      (s : Store S) (n : ℕ)
      → s.journal.size ≡ suc n
      → StoreGuards kv s []
      → (j : Stack (Option (MapMultiStore S))) × (revision : MapMultiStore S) × (Stack.pop none
            s.journal
          ≡ ok (j, some revision))
        × (j.size ≡ n)
        × StoreGuards kv (record s { journal = j }) []
  pop-StoreGuards s n size g = go g.maps g.are_maps g.layers.held
    where
      go :
          (xs : List (Option (MapMultiStore S)))
          → AreMaps xs
          → Holds s.journal xs
          → (j : Stack (Option (MapMultiStore S))) × (revision : MapMultiStore S) × (Stack.pop none
                s.journal
              ≡ ok (j, some revision))
            × (j.size ≡ n)
            × StoreGuards kv (record s { journal = j }) []
      go [] are h = absurd (omega (arith, size, size-eq-length h))
      go (x ∷ xs) are h =
          let (j, e, h') = pop-Holds none s.journal x xs h in
          let (cms, last, are') = last_or-AreMaps x xs are in
          (
            j,
            cms,
            e ∙ ap (λ o. ok (j, o)) last,
            omega (
              arith,
              size,
              size-eq-length h,
              size-eq-length h',
              length-take (length xs) (x ∷ xs),
            ),
            record {
              maps = take (length xs) (x ∷ xs);
              are_maps = are';
              layers = record { held = h'; marks = tt };
            },
          )

  finalize_revisions-lem :
      (n : ℕ) (s : Store S)
      → s.journal.size ≡ n
      → StoreGuards kv s []
      → (s' : Store S) × (finalize_revisions kv (suc n) s ≡ ok s')
        × (s'.journal.size ≡ 0)
        × (s'.read_only ≡ s.read_only)
        × StoreGuards kv s' []
  unfolding finalize_revisions
  finalize_revisions-lem zero s size g = (s, rw (pop_empty s size) refl, size, refl, g)
  finalize_revisions-lem (suc n) s size g =
      let (j, revision, e, size', g1) = pop-StoreGuards s n size g in
      let (s2, e2, (n2, r2, g2)) = write_revision-Written revision (record s { journal = j }) g1 in
      let (s', e', z, r', g') = finalize_revisions-lem n s2 (n2 ∙ size') g2 in
      (s', rw (e, e2) e', z, r' ∙ r2, g')

  finalize_root-Written :
      (root : MapMultiStore S) (s : Store S)
      → StoreGuards kv s []
      → Written s (finalize_root kv root s) × ((finalize_root kv root s).root ≡ [])
  unfolding finalize_root
  finalize_root-Written [] s g = (
    (
      refl,
      refl,
      record {
        maps = g.maps;
        are_maps = g.are_maps;
        layers = record { held = g.layers.held; marks = tt };
      },
    ),
    refl,
  )
  finalize_root-Written ((key, c) ∷ rest) s g =
      let (n, r, g1) = write_committed-Written s key c (lookup key s.committed) g in
      let ((n', r', g'), e) = finalize_root-Written rest _ g1 in ((n' ∙ n, r' ∙ r, g'), e)

  -- `Finalize` comes to an end, and the journal and the root are empty afterwards.
  pub finalize-terminates :
      (s : Store S)
      → StoreGuards kv s []
      → (s' : Store S) × (finalize kv s ≡ ok s')
        × (s'.journal.size ≡ 0)
        × (s'.root ≡ [])
        × (s'.read_only ≡ s.read_only)
        × StoreGuards kv s' []
  unfolding finalize
  finalize-terminates s g =
      let (s1, e, z, r, g1) = finalize_revisions-lem s.journal.size s refl g in
      let ((n, r', g'), root) = finalize_root-Written s1.root s1 g1 in
      (finalize_root kv s1.root s1, rw e refl, n ∙ z, root, r' ∙ r, g')
