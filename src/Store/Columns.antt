-- ===== src/Store/Columns.antt =====
-- What is cached over what in the multi-store: for a store key, the store of every level, newest first,
-- over the committed one. Writing a level down drops the top of every column.
use molaris.Prelude.{◌≡◌, refl, ap, fun_ext, Option, none, some, List, [], ◌∷◌, nat_eq}
use molaris.Store.{Bytes, CacheKv}
use molaris.Store.Views.{reads_of, or_else}

-- A store that was cached over `p` and then changed by `Set` and `Delete` only.
pub data IsOver {S : Type 0} (kv : CacheKv S) (p : S) : S → Type 0 where
  over_wrap : (c : S) → c ≡ kv.wrap p → IsOver kv p c
  over_put : (c d : S) (k v : Bytes) → IsOver kv p d → c ≡ kv.put k v d → IsOver kv p c
  over_delete : (c d : S) (k : Bytes) → IsOver kv p d → c ≡ kv.delete k d → IsOver kv p c

-- The laws of `Write`, which calls `Set` and `Delete` of the parent for what was changed: the parent
-- then reads as the child did, and it still is what it was cached over, changed by `Set` and `Delete`.
pub record CacheKvWriteLaw {S : Type 0} (kv : CacheKv S) : Type 0 where
  pub get-write : (p c : S) (k : Bytes) → IsOver kv p c → kv.get (kv.write c p) k ≡ kv.get c k
  pub write-IsOver : (q p c : S) → IsOver kv p c → IsOver kv q p → IsOver kv q (kv.write c p)

module _ {S : Type 0} (kv : CacheKv S) where
  abbrev pub AreNone : List (Option S) → Type 0
  AreNone [] = Unit {0}
  AreNone (none ∷ xs) = AreNone xs
  AreNone (some c ∷ xs) = ⊥

  -- What the newest store of a column is cached over: the next one, or the committed one.
  abbrev pub IsOverNext : S → List (Option S) → Option S → Type 0
  IsOverNext c (some p ∷ xs) base = IsOver kv p c
  IsOverNext c (none ∷ xs) (some b) = IsOver kv b c
  IsOverNext c (none ∷ xs) none = ⊥
  IsOverNext c [] (some b) = IsOver kv b c
  IsOverNext c [] none = ⊥

  -- A column has no gap: what is cached in a level is cached in every later one.
  abbrev pub IsColumn : List (Option S) → Option S → Type 0
  IsColumn [] base = Unit {0}
  IsColumn (none ∷ xs) base = AreNone xs
  IsColumn (some c ∷ xs) base = IsOverNext c xs base × IsColumn xs base

  -- The store of a level written down: into the store of the level below, or the committed one.
  abbrev pub below_after : Option S → Option S → Option S
  below_after none h = h
  below_after (some c) none = none
  below_after (some c) (some p) = some (kv.write c p)

  abbrev pub base_after : Option S → Option S → Option S → Option S
  base_after none h base = base
  base_after (some c) (some p) base = base
  base_after (some c) none none = none
  base_after (some c) none (some b) = some (kv.write c b)

module _ {S : Type 0} (kv : CacheKv S) (law : CacheKvWriteLaw kv) where
  IsOverNext-write :
      (p c : S) (xs : List (Option S)) (base : Option S)
      → IsOver kv p c
      → IsOverNext kv p xs base
      → IsOverNext kv (kv.write c p) xs base
  IsOverNext-write p c (some q ∷ xs) base o h = law.write-IsOver q p c o h
  IsOverNext-write p c (none ∷ xs) (some b) o h = law.write-IsOver b p c o h
  IsOverNext-write p c (none ∷ xs) none o h = h
  IsOverNext-write p c [] (some b) o h = law.write-IsOver b p c o h
  IsOverNext-write p c [] none o h = h

  reads_of-write :
      (p c : S) → IsOver kv p c → reads_of kv (some (kv.write c p)) ≡ reads_of kv (some c)
  reads_of-write p c o = fun_ext (λ k. ap some (law.get-write p c k o))

  -- Dropping the top keeps the column.
  pub IsColumn-below_after :
      (x h : Option S) (xs : List (Option S)) (base : Option S)
      → IsColumn kv (x ∷ h ∷ xs) base
      → IsColumn kv (below_after kv x h ∷ xs) (base_after kv x h base)
  IsColumn-below_after none none xs base col = col
  IsColumn-below_after none (some p) xs base col = absurd col
  IsColumn-below_after (some c) (some p) xs base (o, (over, col)) =
      (IsOverNext-write p c xs base o over, col)
  IsColumn-below_after (some c) none xs (some b) (o, col) = col
  IsColumn-below_after (some c) none xs none (o, col) = absurd o

  -- Dropping the top keeps what is read.
  pub reads_of-below_after :
      (x h : Option S) (xs : List (Option S)) (base : Option S)
      → IsColumn kv (x ∷ h ∷ xs) base
      → reads_of kv (or_else kv (below_after kv x h) (base_after kv x h base))
        ≡ reads_of kv (or_else kv x base)
  reads_of-below_after none none xs base col = refl
  reads_of-below_after none (some p) xs base col = absurd col
  reads_of-below_after (some c) (some p) xs base (o, rest) = reads_of-write p c o
  reads_of-below_after (some c) none xs (some b) (o, col) = reads_of-write b c o
  reads_of-below_after (some c) none xs none (o, col) = absurd o

  -- The lowest level is written into the committed store, which then reads as the level did.
  pub reads_of-base_after :
      (x base : Option S)
      → IsColumn kv (x ∷ []) base
      → reads_of kv (base_after kv x none base) ≡ reads_of kv (or_else kv x base)
  reads_of-base_after none base col = refl
  reads_of-base_after (some c) (some b) (o, rest) = reads_of-write b c o
  reads_of-base_after (some c) none (o, rest) = absurd o
