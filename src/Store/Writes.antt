-- ===== src/Store/Writes.antt =====
-- `Finalize` of the multi-store, a loop over a map at a time: which store it changes under which key.
use molaris.Prelude.{
  ◌≡◌, refl, sym, ap, ◌∙◌, subst, inl, inr, false, Option, none, some, List, [], ◌∷◌, ==_iff,
  ==_refl, Bool-cases, Option-cases, ok, eqb, lookup, insert, IsFresh, HasDistinctKeys,
  lookup-insert_self, lookup-insert_ne, lookup-IsFresh, HasDistinctKeys-insert, nat_eq,
}
use molaris.Store.{
  StoreKey, CacheKv, MapMultiStore, Store, put_map, write_committed, write_to, write_entry,
  write_revision, finalize_root,
}
use molaris.Store.Columns.{below_after, base_after}
use molaris.Store.Levels.{peeked, HasLevels, peek-levels, top-levels, put_map-levels}

module _ {S : Type 0} (kv : CacheKv S) where
  -- What one write of the loop does to the newest level and to the committed stores, for every key.
  record WritesEntry (key : StoreKey) (c : S) (top : MapMultiStore S) (s : Store S)
      (top' : MapMultiStore S) (s' : Store S) : Type 0 where
    here_below : lookup key top' ≡ below_after kv (some c) (lookup key top)
    here_base :
        lookup key s'.committed ≡ base_after kv (some c) (lookup key top) (lookup key s.committed)
    else_below : (j : StoreKey) → eqb key j ≡ false → lookup j top' ≡ lookup j top
    else_base : (j : StoreKey) → eqb key j ≡ false → lookup j s'.committed ≡ lookup j s.committed
    distinct : HasDistinctKeys top'
    same_flag : s'.read_only ≡ s.read_only

  -- What the loop over a revision does to them.
  pub record WritesLevel (t top : MapMultiStore S) (s : Store S) (top' : MapMultiStore S)
      (s' : Store S) : Type 0 where
    pub all_below : (j : StoreKey) → lookup j top' ≡ below_after kv (lookup j t) (lookup j top)
    pub all_base :
        (j : StoreKey)
        → lookup j s'.committed ≡ base_after kv (lookup j t) (lookup j top) (lookup j s.committed)
    pub distinct : HasDistinctKeys top'
    pub same_flag : s'.read_only ≡ s.read_only

  pub put_map-same :
      (s : Store S) (o : Option (MapMultiStore S)) (cms : MapMultiStore S)
      → ((put_map kv s o cms).committed ≡ s.committed)
        × ((put_map kv s o cms).read_only ≡ s.read_only)
  put_map-same s none cms = (refl, refl)
  put_map-same s (some old) cms = (refl, refl)

  -- A write into the level below.
  write_to-some :
      (s : Store S) (key : StoreKey) (c p : S) (top : MapMultiStore S)
      (o : Option (MapMultiStore S))
      → lookup key top ≡ some p
      → HasDistinctKeys top
      → WritesEntry key c top s
          (insert key (kv.write c p) top)
          (put_map kv s o (insert key (kv.write c p) top))
  write_to-some s key c p top o e d =
      let m = insert key (kv.write c p) top in
      let (same, flag) = put_map-same s o m in
      record {
        here_below =
            lookup-insert_self key (kv.write c p) top ∙ ap (below_after kv (some c)) (sym e);
        here_base =
            ap (lookup key) same
            ∙ ap (λ h. base_after kv (some c) h (lookup key s.committed)) (sym e);
        else_below = λ j ne. lookup-insert_ne key j (kv.write c p) top ne;
        else_base = λ j ne. ap (lookup j) same;
        distinct = HasDistinctKeys-insert key (kv.write c p) top d;
        same_flag = flag;
      }

  -- A write into the committed store.
  write_to-none :
      (s : Store S) (key : StoreKey) (c : S) (top : MapMultiStore S) (o : Option S)
      → lookup key top ≡ none
      → lookup key s.committed ≡ o
      → HasDistinctKeys top
      → WritesEntry key c top s top (write_committed kv s key c o)
  write_to-none s key c top none e b d = record {
    here_below = e ∙ ap (below_after kv (some c)) (sym e);
    here_base = rw (e, b) refl;
    else_below = λ j ne. refl;
    else_base = λ j ne. refl;
    distinct = d;
    same_flag = refl;
  }
  write_to-none s key c top (some base) e b d = record {
    here_below = e ∙ ap (below_after kv (some c)) (sym e);
    here_base = lookup-insert_self key (kv.write c base) s.committed ∙ rw (e, b) refl;
    else_below = λ j ne. refl;
    else_base = λ j ne. lookup-insert_ne key j (kv.write c base) s.committed ne;
    distinct = d;
    same_flag = refl;
  }

  -- The levels after a write into the committed store are those before.
  write_committed-levels :
      (s : Store S) (key : StoreKey) (c : S) (o : Option S) (top : MapMultiStore S)
      (below : List (MapMultiStore S))
      → HasLevels s top below
      → HasLevels (write_committed kv s key c o) top below
  write_committed-levels s key c none top below h = h
  write_committed-levels s key c (some base) top below h = record {
    held = h.held;
    rooted = h.rooted;
  }

  write_entry-levels :
      (s : Store S) (key : StoreKey) (c : S) (top : MapMultiStore S)
      (below : List (MapMultiStore S))
      → HasLevels s top below
      → HasDistinctKeys top
      → (s' : Store S) × (top' : MapMultiStore S) × (write_entry kv s key c ≡ ok s')
        × HasLevels s' top' below
        × WritesEntry key c top s top' s'
  unfolding write_entry
  write_entry-levels s key c top below h d =
      let o = peeked top below in
      let runs : write_entry kv s key c ≡ ok (write_to kv s key c o top (lookup key top)) =
        rw (peek-levels s top below h, top-levels s top below h) refl in
      elim (Option-cases (lookup key top)) [
        | inl e ↦ (
          write_committed kv s key c (lookup key s.committed),
          top,
          runs ∙ rw e refl,
          write_committed-levels s key c (lookup key s.committed) top below h,
          write_to-none s key c top (lookup key s.committed) e refl d,
        )
        | inr (p, e) ↦ (
          put_map kv s o (insert key (kv.write c p) top),
          insert key (kv.write c p) top,
          runs ∙ rw e refl,
          put_map-levels kv s top (insert key (kv.write c p) top) below h,
          write_to-some s key c p top o e d,
        )
      ]

  -- An entry and then the rest of its revision.
  WritesEntry-then :
      (s s1 s' : Store S) (top top1 top' rest : MapMultiStore S) (key : StoreKey) (c : S)
      → IsFresh key rest
      → WritesEntry key c top s top1 s1
      → WritesLevel rest top1 s1 top' s'
      → WritesLevel ((key, c) ∷ rest) top s top' s'
  unfolding lookup
  WritesEntry-then s s1 s' top top1 top' rest key c fresh w1 w' = record {
    all_below = λ j. elim (Bool-cases (eqb key j)) [
      | inl same ↦
          subst (λ i. lookup i top' ≡ below_after kv (lookup i ((key, c) ∷ rest)) (lookup i top))
            ((==_iff key j).0 same)
            (w'.all_below key
              ∙ ap (λ o. below_after kv o (lookup key top1)) (lookup-IsFresh key rest fresh)
              ∙ w1.here_below
              ∙ rw (==_refl key) refl)
      | inr other ↦
          w'.all_below j
          ∙ ap (below_after kv (lookup j rest)) (w1.else_below j other)
          ∙ rw other refl
    ];
    all_base = λ j. elim (Bool-cases (eqb key j)) [
      | inl same ↦
          subst
            (λ i.
              lookup i s'.committed
              ≡ base_after kv (lookup i ((key, c) ∷ rest)) (lookup i top) (lookup i s.committed))
            ((==_iff key j).0 same)
            (w'.all_base key
              ∙ ap (λ o. base_after kv o (lookup key top1) (lookup key s1.committed))
                  (lookup-IsFresh key rest fresh)
              ∙ w1.here_base
              ∙ rw (==_refl key) refl)
      | inr other ↦
          w'.all_base j
          ∙ ap (λ h. base_after kv (lookup j rest) h (lookup j s1.committed))
              (w1.else_below j other)
          ∙ ap (base_after kv (lookup j rest) (lookup j top)) (w1.else_base j other)
          ∙ rw other refl
    ];
    distinct = w'.distinct;
    same_flag = w'.same_flag ∙ w1.same_flag;
  }

  pub write_revision-levels :
      (t : MapMultiStore S) (s : Store S) (top : MapMultiStore S) (below : List (MapMultiStore S))
      → HasLevels s top below
      → HasDistinctKeys t
      → HasDistinctKeys top
      → (s' : Store S) × (top' : MapMultiStore S) × (write_revision kv t s ≡ ok s')
        × HasLevels s' top' below
        × WritesLevel t top s top' s'
  unfolding write_revision lookup
  write_revision-levels [] s top below h dt d = (
    s,
    top,
    refl,
    h,
    record { all_below = λ j. refl; all_base = λ j. refl; distinct = d; same_flag = refl },
  )
  write_revision-levels ((key, c) ∷ rest) s top below h (fresh, dt) d =
      let (s1, top1, e1, h1, w1) = write_entry-levels s key c top below h d in
      let (s', top', e', h', w') = write_revision-levels rest s1 top1 below h1 dt w1.distinct in
      (s', top', rw e1 e', h', WritesEntry-then s s1 s' top top1 top' rest key c fresh w1 w')

  -- The loop over the root writes into the committed stores only; there is no level below it.
  pub finalize_root-levels :
      (t : MapMultiStore S) (s : Store S)
      → HasDistinctKeys t
      → WritesLevel t [] s [] (finalize_root kv t s)
  unfolding finalize_root lookup
  finalize_root-levels [] s d = record {
    all_below = λ j. refl;
    all_base = λ j. refl;
    distinct = tt;
    same_flag = refl;
  }
  finalize_root-levels ((key, c) ∷ rest) s (fresh, d) =
      let s1 = write_committed kv s key c (lookup key s.committed) in
      WritesEntry-then s s1 (finalize_root kv rest s1) [] [] [] rest key c fresh
        (write_to-none s key c [] (lookup key s.committed) refl refl tt)
        (finalize_root-levels rest s1 d)

  write_committed-journal :
      (s : Store S) (key : StoreKey) (c : S) (o : Option S)
      → (write_committed kv s key c o).journal ≡ s.journal
  write_committed-journal s key c none = refl
  write_committed-journal s key c (some base) = refl

  pub finalize_root-journal :
      (t : MapMultiStore S) (s : Store S)
      → ((finalize_root kv t s).journal ≡ s.journal) × ((finalize_root kv t s).root ≡ [])
  unfolding finalize_root
  finalize_root-journal [] s = (refl, refl)
  finalize_root-journal ((key, c) ∷ rest) s =
      let (e, r) =
        finalize_root-journal rest (write_committed kv s key c (lookup key s.committed)) in
      (e ∙ write_committed-journal s key c (lookup key s.committed), r)
