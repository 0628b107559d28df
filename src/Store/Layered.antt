-- ===== src/Store/Layered.antt =====
-- The maps of the multi-store stay cached one over the other: from a new store on, through every
-- snapshot, every revert to one and every change by `Set` or `Delete`.
use molaris.Prelude.{
  suc, ◌≡◌, refl, sym, ap, ◌∙◌, subst, inl, inr, false, Option, none, some, List, [], ◌∷◌, ◌++◌,
  map, arith, ==_iff, Bool-cases, Option-cases, length, ℤ, sub_ℕ, pos, ok, eqb, AreDistinct, lookup,
  insert, keys, lookup-insert_self, lookup-insert_ne, HasDistinctKeys-insert, bytes_eq, nat_eq,
}
use molaris.Stack.Items.{new-Holds, push-Holds}
use molaris.Store.{
  StoreKey, CacheKv, MapMultiStore, Store, init_journal_capacity, put_map, wrap_all, new_store_from,
  cached, get_committed_kv_store, get_kv_store, change, snapshot, revert_to_snapshot, Bytes,
}
use molaris.Store.Views.{CacheKvLaw, lookup-wrap_all, lookup-wrap_all-none}
use molaris.Store.Columns.{IsOver, over_wrap, over_put, over_delete, AreNone, IsOverNext, IsColumn}
use molaris.Store.Levels.{
  journaled, peeked, peek-levels, top-levels, put_map-levels, pop_to_size-levels,
}
use molaris.Store.Writes.{put_map-same}
use molaris.Store.Committed.{column, AllDistinct, IsLayered}

-- What `Set` and `Delete` do to a store keeps it over what it was cached over.
abbrev pub IsChange : {S : Type 0} → CacheKv S → (S → S) → Type 0
IsChange kv f = (p c : _) → IsOver kv p c → IsOver kv p (f c)

module _ {S : Type 0} (kv : CacheKv S) where
  pub new_store_from-IsLayered :
      (ms : List (StoreKey × S)) → IsLayered kv (new_store_from kv ms) [] []
  unfolding new_store_from lookup
  new_store_from-IsLayered ms = record {
    levels = record { held = new-Holds none init_journal_capacity (omega arith); rooted = refl };
    columns = λ j. tt;
    distinct_keys = (tt, tt);
  }

  keys-wrap_all : (cms : MapMultiStore S) → keys (wrap_all kv cms) ≡ keys cms
  keys-wrap_all [] = refl
  keys-wrap_all ((key, c) ∷ rest) = ap (key ∷◌) (keys-wrap_all rest)

  -- A new cache on top of a column.
  IsColumn-wrap :
      (law : CacheKvLaw kv) (cms : MapMultiStore S) (j : StoreKey) (xs : List (Option S))
      (base : Option S)
      → IsColumn kv (lookup j cms ∷ xs) base
      → IsColumn kv (lookup j (wrap_all kv cms) ∷ lookup j cms ∷ xs) base
  IsColumn-wrap law cms j xs base col = elim (Option-cases (lookup j cms)) [
    | inl e ↦ rw (e, lookup-wrap_all-none kv law cms j e) (rw e at col)
    | inr (c, e) ↦
        let col' : IsColumn kv (some c ∷ xs) base = rw e at col in
        rw (e, lookup-wrap_all kv law cms j c e) (over_wrap (kv.wrap c) refl, col')
  ]

  pub snapshot-IsLayered :
      (law : CacheKvLaw kv) (s : Store S) (top : MapMultiStore S) (below : List (MapMultiStore S))
      → IsLayered kv s top below
      → (s' : Store S) × (id : ℤ) × (snapshot kv s ≡ ok (s', id))
        × IsLayered kv s' (wrap_all kv top) (top ∷ below)
  unfolding snapshot
  snapshot-IsLayered law s top below l =
      let (j, e, h) =
        push-Holds none s.journal (journaled top below) (some (wrap_all kv top)) l.levels.held in
      (
        record s { journal = j },
        sub_ℕ (suc (length (journaled top below))) 1,
        rw (peek-levels s top below l.levels, top-levels s top below l.levels, e) refl,
        record {
          levels = record { held = h; rooted = l.levels.rooted };
          columns = λ k.
              IsColumn-wrap law top k (map (lookup k) below) (lookup k s.committed) (l.columns k);
          distinct_keys =
              (subst AreDistinct (sym (keys-wrap_all top)) l.distinct_keys.0, l.distinct_keys);
        },
      )

  -- The store under a key, or a new cache over the committed one.
  abbrev store_over : S → Option S → S
  store_over base none = kv.wrap base
  store_over base (some c) = c

  IsColumn-AreNone : (xs : List (Option S)) (base : Option S) → AreNone kv xs → IsColumn kv xs base
  IsColumn-AreNone [] base n = tt
  IsColumn-AreNone (none ∷ xs) base n = n
  IsColumn-AreNone (some c ∷ xs) base n = absurd n

  IsOverNext-AreNone :
      (xs : List (Option S)) (b c : S) → AreNone kv xs → IsOver kv b c → IsOverNext kv c xs (some b)
  IsOverNext-AreNone [] b c n o = o
  IsOverNext-AreNone (none ∷ xs) b c n o = o
  IsOverNext-AreNone (some d ∷ xs) b c n o = absurd n

  IsOverNext-change :
      (f : S → S) (c : S) (xs : List (Option S)) (base : Option S)
      → IsChange kv f
      → IsOverNext kv c xs base
      → IsOverNext kv (f c) xs base
  IsOverNext-change f c (some p ∷ xs) base change o = change p c o
  IsOverNext-change f c (none ∷ xs) (some b) change o = change b c o
  IsOverNext-change f c (none ∷ xs) none change o = o
  IsOverNext-change f c [] (some b) change o = change b c o
  IsOverNext-change f c [] none change o = o

  IsColumn-change :
      (f : S → S) (x : Option S) (xs : List (Option S)) (b : S)
      → IsChange kv f
      → IsColumn kv (x ∷ xs) (some b)
      → IsColumn kv (some (f (store_over b x)) ∷ xs) (some b)
  IsColumn-change f none xs b keeps n = (
    IsOverNext-AreNone xs b (f (kv.wrap b)) n (keeps b (kv.wrap b) (over_wrap (kv.wrap b) refl)),
    IsColumn-AreNone xs (some b) n,
  )
  IsColumn-change f (some c) xs b keeps (o, col) = (IsOverNext-change f c xs (some b) keeps o, col)

  cached-ok :
      (s : Store S) (key : StoreKey) (base : S) (x : Option S)
      → lookup key s.committed ≡ some base
      → cached kv s key x ≡ ok (store_over base x)
  unfolding cached get_committed_kv_store
  cached-ok s key base none mount = rw mount refl
  cached-ok s key base (some c) mount = refl

  -- The map with the changed store, which `GetKVStore` has put there before.
  abbrev changed_map : (S → S) → StoreKey → S → MapMultiStore S → MapMultiStore S
  changed_map f key base top =
      let c = store_over base (lookup key top) in insert key (f c) (insert key c top)

  column-changed_map :
      (f : S → S) (key : StoreKey) (base : S) (top : MapMultiStore S)
      (below : List (MapMultiStore S)) (committed : List (StoreKey × S))
      → lookup key committed ≡ some base
      → IsChange kv f
      → ((j : StoreKey) → IsColumn kv (column kv j top below) (lookup j committed))
      → (j : StoreKey)
      → IsColumn kv (column kv j (changed_map f key base top) below) (lookup j committed)
  column-changed_map f key base top below committed mount keeps cols j =
      let c = store_over base (lookup key top) in
      elim (Bool-cases (eqb key j)) [
        | inl same ↦
            subst
              (λ i.
                IsColumn kv (column kv i (changed_map f key base top) below) (lookup i committed))
              ((==_iff key j).0 same)
              (rw (lookup-insert_self key (f c) (insert key c top), mount)
                (IsColumn-change f (lookup key top) (map (lookup key) below) base keeps
                  (subst (IsColumn kv (column kv key top below)) mount (cols key))))
        | inr other ↦
            subst (λ x. IsColumn kv (x ∷ map (lookup j) below) (lookup j committed))
              (sym (
                lookup-insert_ne key j (f c) (insert key c top) other
                ∙ lookup-insert_ne key j c top other))
              (cols j)
      ]

  pub change-IsLayered :
      (f : S → S) (s : Store S) (key : StoreKey) (base : S) (top : MapMultiStore S)
      (below : List (MapMultiStore S))
      → IsChange kv f
      → lookup key s.committed ≡ some base
      → s.read_only ≡ false
      → IsLayered kv s top below
      → (s' : Store S) × (top' : MapMultiStore S) × (change kv f key s ≡ ok s')
        × IsLayered kv s' top' below
  unfolding change get_kv_store
  change-IsLayered f s key base top below keeps mount writable l =
      let o = peeked top below in
      let c = store_over base (lookup key top) in
      let top1 = insert key c top in
      let s1 = put_map kv s o top1 in
      let h1 = put_map-levels kv s top top1 below l.levels in
      let top2 = insert key (f c) top1 in
      let s2 = put_map kv s1 (peeked top1 below) top2 in
      let (m1, r1) = put_map-same kv s o top1 in
      let (m2, r2) = put_map-same kv s1 (peeked top1 below) top2 in
      let gets : get_kv_store kv s key ≡ ok (s1, c) =
        rw
          (
            peek-levels s top below l.levels,
            top-levels s top below l.levels,
            cached-ok s key base (lookup key top) mount,
          )
          refl in
      (
        s2,
        top2,
        rw (gets, peek-levels s1 top1 below h1, top-levels s1 top1 below h1, writable) refl,
        record {
          levels = put_map-levels kv s1 top1 top2 below h1;
          columns = λ j.
              subst (λ m. IsColumn kv (column kv j top2 below) (lookup j m)) (sym (m2 ∙ m1))
                (column-changed_map f key base top below s.committed mount keeps l.columns j);
          distinct_keys = (
            HasDistinctKeys-insert key (f c) top1
                (HasDistinctKeys-insert key c top l.distinct_keys.0),
            l.distinct_keys.1,
          );
        },
      )

  -- A revert to a snapshot takes the levels that came after it off.
  IsColumn-rest :
      (x : Option S) (xs : List (Option S)) (base : Option S)
      → IsColumn kv (x ∷ xs) base
      → IsColumn kv xs base
  IsColumn-rest none xs base n = IsColumn-AreNone xs base n
  IsColumn-rest (some c) xs base (o, col) = col

  column-revert :
      (j : StoreKey) (top next : MapMultiStore S) (later rest : List (MapMultiStore S))
      (base : Option S)
      → IsColumn kv (column kv j top (later ++ next ∷ rest)) base
      → IsColumn kv (column kv j next rest) base
  column-revert j top next [] rest base col =
      IsColumn-rest (lookup j top) (column kv j next rest) base col
  column-revert j top next (m ∷ later) rest base col =
      column-revert j m next later rest base
        (IsColumn-rest (lookup j top) (column kv j m (later ++ next ∷ rest)) base col)

  AllDistinct-revert :
      (later rest : List (MapMultiStore S)) → AllDistinct kv (later ++ rest) → AllDistinct kv rest
  AllDistinct-revert [] rest d = d
  AllDistinct-revert (m ∷ later) rest d = AllDistinct-revert later rest d.1

  pub revert_to_snapshot-IsLayered :
      (s : Store S) (top next : MapMultiStore S) (later rest : List (MapMultiStore S))
      → IsLayered kv s top (later ++ next ∷ rest)
      → (s' : Store S) × (revert_to_snapshot kv s (pos (length rest)) ≡ ok s')
        × IsLayered kv s' next rest
  unfolding revert_to_snapshot
  revert_to_snapshot-IsLayered s top next later rest l =
      let (j, e, h) = pop_to_size-levels s top next later rest l.levels in
      (
        record s { journal = j },
        rw e refl,
        record {
          levels = h;
          columns = λ k. column-revert k top next later rest (lookup k s.committed) (l.columns k);
          distinct_keys = AllDistinct-revert later (next ∷ rest) l.distinct_keys.1;
        },
      )

  pub put-IsChange : (k v : Bytes) → IsChange kv (kv.put k v)
  put-IsChange k v p c o = over_put (kv.put k v c) c k v o refl

  pub delete-IsChange : (k : Bytes) → IsChange kv (kv.delete k)
  delete-IsChange k p c o = over_delete (kv.delete k c) c k o refl
