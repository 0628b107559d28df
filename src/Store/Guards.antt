-- ===== src/Store/Guards.antt =====
-- The multi-store keeps the contract of a `Controllable`: whatever is written through it between a
-- snapshot and its revert, the revert brings every value back.
use molaris.Prelude.{
  ◌≡◌, refl, sym, ap, ◌∙◌, subst, fun_ext, inl, inr, false, Option, none, some, List, [], ◌∷◌, ◌++◌,
  arith, ◌==◌, if◌then◌else◌, ==_iff, Bool-cases, Option-cases, length, take, last_or,
  last_or-append, ℤ, pos, ok, eqb, lookup, insert, nat_eq,
}
use mathlib.Core.Path.{ap₂}
use molaris.Stack.Layers.{LayerGuards, push-LayerGuards, revert-LayerGuards}
use molaris.Store.{
  StoreKey, CacheKv, MapMultiStore, Store, or_root, put_map, cached, get_kv_store, change, wrap_all,
  snapshot, revert_to_snapshot, get_committed_kv_store,
}
use molaris.Store.Views.{
  CacheKvLaw, StoreView, reads_of, or_else, map_view, map_view-wrap_all, map_view-insert,
  reads_of-wrap,
}
use molaris.Store.Maps.{
  AreMaps-append, AreMaps-take, StoreGuards, view_with, store_view, store_view-maps, peek-maps,
  Placed, put_map-StoreGuards,
}

module _ {S : Type 0} (kv : CacheKv S) (law : CacheKvLaw kv) where
  cached_lem :
      (s : Store S) (key : StoreKey) (base : S) (cms : MapMultiStore S)
      → lookup key s.committed ≡ some base
      → (c : S) × (cached kv s key (lookup key cms) ≡ ok c)
        × (reads_of kv (some c) ≡ map_view kv s.committed cms key)
  unfolding cached get_committed_kv_store
  cached_lem s key base cms mount = elim (Option-cases (lookup key cms)) [
    | inl e ↦ (
      kv.wrap base,
      rw (e, mount) refl,
      reads_of-wrap kv law base ∙ sym (ap₂ (λ a b. reads_of kv (or_else kv a b)) e mount),
    )
    | inr (c, e) ↦
        (c, rw e refl, ap (λ o. reads_of kv (or_else kv o (lookup key s.committed))) (sym e))
  ]

  store_view-put :
      (s : Store S) (ps : List (ℤ × StoreView kv)) (cms : MapMultiStore S)
      (o : Option (MapMultiStore S))
      → (q : Placed kv s ps cms o)
      → store_view kv (put_map kv s o cms) ≡ map_view kv s.committed cms
  store_view-put s ps cms o (g', rooted, ec, er) =
      store_view-maps kv (put_map kv s o cms) ps g' ∙ ap₂ (map_view kv) ec rooted

  -- A map in which one store is replaced by one that shows the same shows the same.
  map_view-same :
      (committed : List (StoreKey × S)) (cms : MapMultiStore S) (key : StoreKey) (c : S)
      → reads_of kv (some c) ≡ map_view kv committed cms key
      → map_view kv committed (insert key c cms) ≡ map_view kv committed cms
  map_view-same committed cms key c same = fun_ext (λ j. go j)
    where
      go : (j : StoreKey) → map_view kv committed (insert key c cms) j ≡ map_view kv committed cms j
      go j = map_view-insert kv law committed cms key c j ∙ (elim (Bool-cases (eqb key j)) [
        | inl e ↦ rw e (same ∙ ap (map_view kv committed cms) ((==_iff key j).0 e))
        | inr e ↦ rw e refl
      ])

  -- `GetKVStore` of a mounted store returns a store that shows what the multi-store shows, and it
  -- changes nothing that is shown.
  pub get_kv_store-StoreGuards :
      (s : Store S) (key : StoreKey) (base : S) (ps : List (ℤ × StoreView kv))
      → lookup key s.committed ≡ some base
      → StoreGuards kv s ps
      → (s' : Store S) × (c : S) × (get_kv_store kv s key ≡ ok (s', c))
        × (reads_of kv (some c) ≡ store_view kv s key)
        × (store_view kv s' ≡ store_view kv s)
        × (s'.committed ≡ s.committed)
        × (s'.read_only ≡ s.read_only)
        × StoreGuards kv s' ps
  unfolding get_kv_store cached get_committed_kv_store
  get_kv_store-StoreGuards s key base ps mount g =
      let o = last_or g.maps none in
      let cms = or_root s.root o in
      let (c, ec, rc) = cached_lem s key base cms mount in
      let q = put_map-StoreGuards kv s (insert key c cms) ps g in
      let (g', rooted, em, er) = q in
      (
        put_map kv s o (insert key c cms),
        c,
        rw (peek-maps kv s ps g, ec) refl,
        rc ∙ ap (λ v. v key) (sym (store_view-maps kv s ps g)),
        store_view-put s ps (insert key c cms) o q
            ∙ map_view-same s.committed cms key c rc
            ∙ sym (store_view-maps kv s ps g),
        em,
        er,
        g',
      )

  -- A write through a mounted store, which is not read-only, changes what is read under its key as it
  -- changes the store, and nothing else; every restore point is kept.
  pub change-StoreGuards :
      (f : S → S) (s : Store S) (key : StoreKey) (base : S) (ps : List (ℤ × StoreView kv))
      → lookup key s.committed ≡ some base
      → s.read_only ≡ false
      → StoreGuards kv s ps
      → (s' : Store S) × (c : S) × (change kv f key s ≡ ok s')
        × (reads_of kv (some c) ≡ store_view kv s key)
        × ((j : StoreKey)
            → store_view kv s' j
              ≡ (if key == j then reads_of kv (some (f c)) else store_view kv s j))
        × (s'.committed ≡ s.committed)
        × (s'.read_only ≡ s.read_only)
        × StoreGuards kv s' ps
  unfolding change
  change-StoreGuards f s key base ps mount writable g =
      let (s1, c, e1, rc, v1, m1, r1, g1) = get_kv_store-StoreGuards s key base ps mount g in
      let o = last_or g1.maps none in
      let cms = or_root s1.root o in
      let q = put_map-StoreGuards kv s1 (insert key (f c) cms) ps g1 in
      let (g2, rooted, m2, r2) = q in
      (
        put_map kv s1 o (insert key (f c) cms),
        c,
        rw (e1, peek-maps kv s1 ps g1, writable) refl,
        rc,
        λ j.
            ap (λ v. v j) (store_view-put s1 ps (insert key (f c) cms) o q)
            ∙ map_view-insert kv law s1.committed cms key (f c) j
            ∙ ap (λ v. if key == j then reads_of kv (some (f c)) else v j)
                (sym (store_view-maps kv s1 ps g1) ∙ v1),
        m2 ∙ m1,
        r2 ∙ r1,
        g2,
      )

  -- A snapshot shows the same and can be returned to.
  pub snapshot-StoreGuards :
      (s : Store S) (ps : List (ℤ × StoreView kv))
      → StoreGuards kv s ps
      → (s' : Store S) × (id : ℤ) × (snapshot kv s ≡ ok (s', id))
        × (store_view kv s' ≡ store_view kv s)
        × (s'.committed ≡ s.committed)
        × (s'.read_only ≡ s.read_only)
        × StoreGuards kv s' ((id, store_view kv s) ∷ ps)
  unfolding snapshot
  snapshot-StoreGuards s ps g =
      let o = last_or g.maps none in
      let cms = wrap_all kv (or_root s.root o) in
      let (j, e, layers) =
        push-LayerGuards (view_with kv s) none s.journal g.maps (some cms) ps g.layers in
      let s' : Store S = record s { journal = j } in
      let shown = sym (store_view-maps kv s ps g) in
      let guards : StoreGuards kv s' ((pos (length g.maps), store_view kv s) ∷ ps) = record {
        maps = g.maps ++ some cms ∷ [];
        are_maps = AreMaps-append g.maps cms g.are_maps;
        layers =
            subst
              (λ v.
                LayerGuards (view_with kv s) j (g.maps ++ some cms ∷ [])
                  ((pos (length g.maps), v) ∷ ps))
              shown layers;
      } in
      (
        s',
        pos (length g.maps),
        rw (peek-maps kv s ps g, e) (ap (λ i. ok (s', i)) (ground arith)),
        store_view-maps kv s' _ guards
            ∙ ap (λ x. map_view kv s.committed (or_root s.root x))
                (last_or-append g.maps (some cms) none)
            ∙ map_view-wrap_all kv law s.committed (or_root s.root o)
            ∙ shown,
        refl,
        refl,
        guards,
      )

  -- A revert to the newest restore point brings every value back.
  pub revert-StoreGuards :
      (s : Store S) (id : ℤ) (v : StoreView kv) (ps : List (ℤ × StoreView kv))
      → StoreGuards kv s ((id, v) ∷ ps)
      → (s' : Store S) × (revert_to_snapshot kv s id ≡ ok s')
        × (store_view kv s' ≡ v)
        × (s'.committed ≡ s.committed)
        × (s'.read_only ≡ s.read_only)
        × StoreGuards kv s' ps
  unfolding revert_to_snapshot
  revert-StoreGuards s id v ps g =
      let (j, n, x, e, same, layers) =
        revert-LayerGuards (view_with kv s) none s.journal g.maps id v ps g.layers in
      let s' : Store S = record s { journal = j } in
      let guards : StoreGuards kv s' ps = record {
        maps = take n g.maps;
        are_maps = AreMaps-take n g.maps g.are_maps;
        layers = layers;
      } in
      (s', rw e refl, store_view-maps kv s' ps guards ∙ same, refl, refl, guards)
