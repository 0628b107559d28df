-- ===== src/Abi/Names.antt =====
-- The name of an event in underscore format is its name in mixed case again.
use molaris.Prelude.{
  ℕ, ◌≡◌, refl, ap, ◌∙◌, ◌≢◌, inl, inr, Bool, true, false, List, [], ◌∷◌, map, arith, if◌then◌else◌,
  ne→==, Bool-cases,
}
use molaris.Abi.{
  Str, underscore, is_upper, upper, lower, cons_first, split, capitalize, join, mix_parts,
  under_rest, to_mixed_case, to_under_score,
}

abbrev pub HasNoUnderscore : Str → Type 0
HasNoUnderscore [] = Unit {0}
HasNoUnderscore (c ∷ s) = (c ≢ underscore) × HasNoUnderscore s

-- No capital at the start.
abbrev pub StartsLower : Str → Type 0
StartsLower [] = Unit {0}
StartsLower (c ∷ s) = is_upper c ≡ false

mix_parts-cons_first :
    (c : ℕ) (parts : List Str) → mix_parts (cons_first c parts) ≡ c ∷ mix_parts parts
mix_parts-cons_first c [] = refl
mix_parts-cons_first c (part ∷ parts) = refl

join-cons_first :
    (c : ℕ) (parts : List Str)
    → join (map capitalize (cons_first c parts)) ≡ upper c ∷ mix_parts parts
join-cons_first c [] = refl
join-cons_first c (part ∷ parts) = refl

split-other :
    (c : ℕ) (s : Str) → c ≢ underscore → mix_parts (split (c ∷ s)) ≡ c ∷ mix_parts (split s)
split-other c s n = rw (ne→== c underscore n) (mix_parts-cons_first c (split s))

lower-other : (c : ℕ) → is_upper c ≡ false → lower c ≡ c
lower-other c e = rw e refl

-- A capital in lower case is not the underscore, and is the capital again in upper case.
lower-capital : (c : ℕ) → is_upper c ≡ true → (lower c ≢ underscore) × (upper (lower c) ≡ c)
lower-capital c e = (ground arith, ground arith)

-- A capital is an underscore and a small letter, from which the capital comes back.
split-capital :
    (c : ℕ) (s : Str)
    → is_upper c ≡ true
    → mix_parts (split (underscore ∷ lower c ∷ s)) ≡ c ∷ mix_parts (split s)
split-capital c s e =
    let (other, again) = lower-capital c e in
    rw (ne→== (lower c) underscore other) (join-cons_first (lower c) (split s))
    ∙ ap (λ x. x ∷ mix_parts (split s)) again

mix-under_rest : (s : Str) → HasNoUnderscore s → mix_parts (split (map lower (under_rest s))) ≡ s
mix-under_rest [] h = refl
mix-under_rest (c ∷ s) (n, h) = elim (Bool-cases (is_upper c)) [
  | inl e ↦
      ap (λ t. mix_parts (split (map lower t))) (if_true _ _ e)
      ∙ split-capital c (map lower (under_rest s)) e
      ∙ ap (c ∷◌) (mix-under_rest s h)
  | inr e ↦
      ap (λ t. mix_parts (split (map lower t))) (if_false _ _ e)
      ∙ ap (λ x. mix_parts (split (x ∷ map lower (under_rest s)))) (lower-other c e)
      ∙ split-other c (map lower (under_rest s)) n
      ∙ ap (c ∷◌) (mix-under_rest s h)
]
  where
    if_true : {b : Bool} (x y : Str) → b ≡ true → (if b then x else y) ≡ x
    if_true x y e = rw e refl

    if_false : {b : Bool} (x y : Str) → b ≡ false → (if b then x else y) ≡ y
    if_false x y e = rw e refl

-- A name without underscores that does not start with a capital is its own underscore format, put in
-- mixed case.
pub to_mixed_case-to_under_score :
    (s : Str) → HasNoUnderscore s → StartsLower s → to_mixed_case (to_under_score s) ≡ s
unfolding to_mixed_case to_under_score
to_mixed_case-to_under_score [] h l = refl
to_mixed_case-to_under_score (c ∷ s) (n, h) l =
    ap (λ x. mix_parts (split (x ∷ map lower (under_rest s)))) (lower-other c l)
    ∙ split-other c (map lower (under_rest s)) n
    ∙ ap (c ∷◌) (mix-under_rest s h)
