-- ===== src/Prelude/Maps.antt =====
-- Go's maps as association lists with one entry for a key. A range over a map takes the entries in
-- the list's order.
use mathlib.Core.Path.{◌≡◌, refl, subst, ap, sym}
use mathlib.Core.Logic.{◌↔◌, inl, inr}
use mathlib.Core.Bool.{Bool, true, false, ◌&&◌}
use mathlib.Core.Option.{Option, none, some}
use mathlib.Core.List.{List, [], ◌∷◌, ◌++◌}
use Prim.Native.Nat.{ℕ}
use molaris.Prelude.Tests.{if◌then◌else◌, ◌==◌, ==_iff, Bool-cases}

-- Go's `==` on a comparable type.
pub record Eq {ℓ} (A : Type ℓ) : Type ℓ where
  pub beq : A → A → Bool
  pub beq_iff : (a b : A) → (beq a b ≡ true) ↔ (a ≡ b)

instance abbrev pub nat_eq : Eq ℕ
nat_eq = record { beq = ◌==◌; beq_iff = ==_iff }

abbrev pub eqb {ℓ} : {A : Type ℓ} ⦃e : Eq A⦄ → A → A → Bool
eqb ⦃e⦄ = e.beq

module _ {ℓ} {A : Type ℓ} ⦃e : Eq A⦄ where
  abbrev pub list_beq : List A → List A → Bool
  list_beq [] [] = true
  list_beq [] (y ∷ ys) = false
  list_beq (x ∷ xs) [] = false
  list_beq (x ∷ xs) (y ∷ ys) = eqb x y && list_beq xs ys

  list_beq→≡ : (xs ys : List A) → list_beq xs ys ≡ true → xs ≡ ys
  list_beq→≡ [] [] h = refl
  list_beq→≡ [] (y ∷ ys) h = cc
  list_beq→≡ (x ∷ xs) [] h = cc
  list_beq→≡ (x ∷ xs) (y ∷ ys) h = elim (Bool-cases (eqb x y)) [
    | inl same ↦ cc ((e.beq_iff x y).0 same, list_beq→≡ xs ys (rw same at h))
    | inr other ↦ let h' : false ≡ true = rw other at h in cc
  ]

  list_beq_refl : (xs : List A) → list_beq xs xs ≡ true
  list_beq_refl [] = refl
  list_beq_refl (x ∷ xs) = rw ((e.beq_iff x x).1 refl) (list_beq_refl xs)

  pub list_beq_iff : (xs ys : List A) → (list_beq xs ys ≡ true) ↔ (xs ≡ ys)
  list_beq_iff xs ys =
      (list_beq→≡ xs ys, λ h. subst (λ zs. list_beq xs zs ≡ true) h (list_beq_refl xs))

-- `==` on byte strings.
instance abbrev pub bytes_eq : Eq (List ℕ)
bytes_eq = record { beq = list_beq; beq_iff = list_beq_iff }

module _ {ℓ} {K : Type ℓ} ⦃e : Eq K⦄ where
  pub eqb_refl : (k : K) → eqb k k ≡ true
  eqb_refl k = (e.beq_iff k k).1 refl

  pub eqb_sym : (j k : K) → eqb j k ≡ false → eqb k j ≡ false
  eqb_sym j k h = elim (Bool-cases (eqb k j)) [
    | inl same ↦ cc ((e.beq_iff j k).1 (sym ((e.beq_iff k j).0 same)))
    | inr other ↦ other
  ]

  abbrev pub IsFreshIn : K → List K → Type 0
  IsFreshIn k [] = Unit {0}
  IsFreshIn k (j ∷ js) = (eqb j k ≡ false) × IsFreshIn k js

  abbrev pub AreDistinct : List K → Type 0
  AreDistinct [] = Unit {0}
  AreDistinct (j ∷ js) = IsFreshIn j js × AreDistinct js

module _ {ℓ κ} {K : Type ℓ} {V : Type κ} ⦃e : Eq K⦄ where
  unfoldable pub lookup : K → List (K × V) → Option V
  lookup k [] = none
  lookup k ((j, v) ∷ m) = if eqb j k then some v else lookup k m

  unfoldable pub insert : K → V → List (K × V) → List (K × V)
  insert k v [] = (k, v) ∷ []
  insert k v ((j, w) ∷ m) = if eqb j k then (k, v) ∷ m else (j, w) ∷ insert k v m

  unfoldable pub delete : K → List (K × V) → List (K × V)
  delete k [] = []
  delete k ((j, v) ∷ m) = if eqb j k then m else (j, v) ∷ delete k m

  abbrev pub keys : List (K × V) → List K
  keys [] = []
  keys ((j, v) ∷ m) = j ∷ keys m

  abbrev pub IsFresh : K → List (K × V) → Type 0
  IsFresh k m = IsFreshIn k (keys m)

  -- One entry for a key.
  abbrev pub HasDistinctKeys : List (K × V) → Type 0
  HasDistinctKeys m = AreDistinct (keys m)

  pub lookup-insert_self : (k : K) (v : V) (m : List (K × V)) → lookup k (insert k v m) ≡ some v
  unfolding lookup insert
  lookup-insert_self k v [] = rw ((e.beq_iff k k).1 refl)
  lookup-insert_self k v ((j, w) ∷ m) = elim (Bool-cases (eqb j k)) [
    | inl same ↦ rw (same, lookup, (e.beq_iff k k).1 refl)
    | inr other ↦ rw (other, lookup, other) (lookup-insert_self k v m)
  ]

  pub lookup-insert_ne :
      (k l : K) (v : V) (m : List (K × V)) → eqb k l ≡ false → lookup l (insert k v m) ≡ lookup l m
  unfolding lookup insert
  lookup-insert_ne k l v [] h = rw h
  lookup-insert_ne k l v ((j, w) ∷ m) h = elim (Bool-cases (eqb j k)) [
    | inl same ↦ rw (same, lookup, h, (e.beq_iff j k).0 same, h)
    | inr other ↦
        rw (other, lookup) (ap (λ o. if eqb j l then some w else o) (lookup-insert_ne k l v m h))
  ]

  pub lookup-insert :
      (k l : K) (v : V) (m : List (K × V))
      → lookup l (insert k v m) ≡ (if eqb k l then some v else lookup l m)
  lookup-insert k l v m = elim (Bool-cases (eqb k l)) [
    | inl same ↦ rw (same, ← (e.beq_iff k l).0 same) (lookup-insert_self k v m)
    | inr other ↦ rw other (lookup-insert_ne k l v m other)
  ]

  pub IsFresh-insert :
      (j k : K) (v : V) (m : List (K × V))
      → eqb k j ≡ false
      → IsFresh j m
      → IsFresh j (insert k v m)
  unfolding insert
  IsFresh-insert j k v [] h f = (h, tt)
  IsFresh-insert j k v ((i, w) ∷ m) h f = elim (Bool-cases (eqb i k)) [
    | inl same ↦ rw same (h, f.1)
    | inr other ↦ rw other (f.0, IsFresh-insert j k v m h f.1)
  ]

  pub lookup-IsFresh : (k : K) (m : List (K × V)) → IsFresh k m → lookup k m ≡ none
  unfolding lookup
  lookup-IsFresh k [] f = refl
  lookup-IsFresh k ((j, w) ∷ m) f = rw f.0 (lookup-IsFresh k m f.1)

  pub HasDistinctKeys-insert :
      (k : K) (v : V) (m : List (K × V)) → HasDistinctKeys m → HasDistinctKeys (insert k v m)
  unfolding insert
  HasDistinctKeys-insert k v [] d = (tt, tt)
  HasDistinctKeys-insert k v ((j, w) ∷ m) d = elim (Bool-cases (eqb j k)) [
    | inl same ↦ let e : j ≡ k = (e.beq_iff j k).0 same in rw same (rw e at d.0, d.1)
    | inr other ↦
        rw other (IsFresh-insert j k v m (eqb_sym j k other) d.0, HasDistinctKeys-insert k v m d.1)
  ]

  -- Where the keys are distinct, an entry is found wherever it stands, and replaced there.
  IsFresh-middle :
      (j k : K) (v : V) (done rest : List (K × V))
      → IsFresh j (done ++ (k, v) ∷ rest)
      → eqb j k ≡ false
  IsFresh-middle j k v [] rest f = eqb_sym k j f.0
  IsFresh-middle j k v ((i, w) ∷ done) rest f = IsFresh-middle j k v done rest f.1

  pub lookup-middle :
      (k : K) (v : V) (done rest : List (K × V))
      → HasDistinctKeys (done ++ (k, v) ∷ rest)
      → lookup k (done ++ (k, v) ∷ rest) ≡ some v
  unfolding lookup
  lookup-middle k v [] rest d = rw ((e.beq_iff k k).1 refl)
  lookup-middle k v ((j, w) ∷ done) rest d =
      rw (IsFresh-middle j k v done rest d.0) (lookup-middle k v done rest d.1)

  pub insert-middle :
      (k : K) (v v' : V) (done rest : List (K × V))
      → HasDistinctKeys (done ++ (k, v) ∷ rest)
      → insert k v' (done ++ (k, v) ∷ rest) ≡ done ++ (k, v') ∷ rest
  unfolding insert
  insert-middle k v v' [] rest d = rw ((e.beq_iff k k).1 refl)
  insert-middle k v v' ((j, w) ∷ done) rest d =
      rw (IsFresh-middle j k v done rest d.0) (ap ((j, w) ∷◌) (insert-middle k v v' done rest d.1))

  pub keys-append : (m n : List (K × V)) → keys (m ++ n) ≡ keys m ++ keys n
  keys-append [] n = refl
  keys-append ((j, v) ∷ m) n = ap (j ∷◌) (keys-append m n)
