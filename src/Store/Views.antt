-- ===== src/Store/Views.antt =====
-- What the multi-store shows: for every store key and every key in that store, the value that is read.
use molaris.Prelude.{
  ◌≡◌, refl, sym, ap, ◌∙◌, fun_ext, inl, inr, Option, none, some, List, [], ◌∷◌, if◌then◌else◌,
  Bool-cases, Option-cases, last_or, eqb, lookup, insert, lookup-insert, bytes_eq, nat_eq,
}
use molaris.Store.{Bytes, StoreKey, CacheKv, MapMultiStore, or_root, wrap_all}

-- The laws of the SDK's cached stores: `Set`, `Delete` and `Get` are those of a map, and a new cache
-- shows what it is cached over.
pub record CacheKvLaw {S : Type 0} (kv : CacheKv S) : Type 0 where
  pub get-put :
      (k j : Bytes) (v : Bytes) (s : S)
      → kv.get (kv.put k v s) j ≡ (if eqb k j then some v else kv.get s j)
  pub get-delete :
      (k j : Bytes) (s : S) → kv.get (kv.delete k s) j ≡ (if eqb k j then none else kv.get s j)
  pub get-wrap : (s : S) (k : Bytes) → kv.get (kv.wrap s) k ≡ kv.get s k

module _ {S : Type 0} (kv : CacheKv S) where
  -- The value that is read, and `none` under a store key that is not mounted.
  abbrev pub StoreView : Type 0
  StoreView = StoreKey → Bytes → Option (Option Bytes)

  abbrev pub reads_of : Option S → Bytes → Option (Option Bytes)
  reads_of none k = none
  reads_of (some c) k = some (kv.get c k)

  abbrev pub or_else : Option S → Option S → Option S
  or_else none b = b
  or_else (some c) b = some c

  abbrev pub map_view : List (StoreKey × S) → MapMultiStore S → StoreView
  map_view committed cms key = reads_of (or_else (lookup key cms) (lookup key committed))

  -- The maps of the journal, oldest first, over the root.
  abbrev pub maps_view :
      List (StoreKey × S) → MapMultiStore S → List (Option (MapMultiStore S)) → StoreView
  maps_view committed root xs = map_view committed (or_root root (last_or xs none))

module _ {S : Type 0} (kv : CacheKv S) (law : CacheKvLaw kv) where
  pub lookup-wrap_all :
      (cms : MapMultiStore S) (key : StoreKey) (c : S)
      → lookup key cms ≡ some c
      → lookup key (wrap_all kv cms) ≡ some (kv.wrap c)
  unfolding lookup
  lookup-wrap_all [] key c h = absurd (cc)
  lookup-wrap_all ((j, b) ∷ cms) key c h = elim (Bool-cases (eqb j key)) [
    | inl same ↦
        let found : some b ≡ some c = rw same at h in
        let is : b ≡ c = cc in rw same (ap (λ x. some (kv.wrap x)) is)
    | inr other ↦ rw other (lookup-wrap_all cms key c (rw other at h))
  ]

  pub lookup-wrap_all-none :
      (cms : MapMultiStore S) (key : StoreKey)
      → lookup key cms ≡ none
      → lookup key (wrap_all kv cms) ≡ none
  unfolding lookup
  lookup-wrap_all-none [] key h = refl
  lookup-wrap_all-none ((j, b) ∷ cms) key h = elim (Bool-cases (eqb j key)) [
    | inl same ↦ let h' : some b ≡ none = rw same at h in absurd (cc)
    | inr other ↦ rw other (lookup-wrap_all-none cms key (rw other at h))
  ]

  pub reads_of-wrap : (c : S) → reads_of kv (some (kv.wrap c)) ≡ reads_of kv (some c)
  reads_of-wrap c = fun_ext (λ k. ap some (law.get-wrap c k))

  -- Caching every store of a map shows the same.
  pub map_view-wrap_all :
      (committed : List (StoreKey × S)) (cms : MapMultiStore S)
      → map_view kv committed (wrap_all kv cms) ≡ map_view kv committed cms
  map_view-wrap_all committed cms = fun_ext (λ key. go key)
    where
      go :
          (key : StoreKey)
          → map_view kv committed (wrap_all kv cms) key ≡ map_view kv committed cms key
      go key = elim (Option-cases (lookup key cms)) [
        | inl e ↦
            ap (λ o. reads_of kv (or_else kv o (lookup key committed)))
              (lookup-wrap_all-none cms key e ∙ sym e)
        | inr (c, e) ↦
            ap (λ o. reads_of kv (or_else kv o (lookup key committed)))
              (lookup-wrap_all cms key c e)
            ∙ reads_of-wrap c
            ∙ ap (λ o. reads_of kv (or_else kv o (lookup key committed))) (sym e)
      ]

  -- Putting a store into a map changes what is read under its key.
  pub map_view-insert :
      (committed : List (StoreKey × S)) (cms : MapMultiStore S) (key : StoreKey) (c : S)
      (j : StoreKey)
      → map_view kv committed (insert key c cms) j
        ≡ (if eqb key j then reads_of kv (some c) else map_view kv committed cms j)
  map_view-insert committed cms key c j = elim (Bool-cases (eqb key j)) [
    | inl same ↦
        ap (λ o. reads_of kv (or_else kv o (lookup j committed)))
          (lookup-insert key j c cms ∙ ap (λ b. if b then some c else lookup j cms) same)
        ∙ rw same refl
    | inr other ↦
        ap (λ o. reads_of kv (or_else kv o (lookup j committed)))
          (lookup-insert key j c cms ∙ ap (λ b. if b then some c else lookup j cms) other)
        ∙ rw other refl
  ]
