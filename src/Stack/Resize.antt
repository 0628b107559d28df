-- ===== src/Stack/Resize.antt =====
-- What `expandIfRequired` and `shrinkIfRequired` keep: the entries and the invariant.
use molaris.Prelude.{
  ℕ, zero, suc, ◌*◌, ◌/◌, ◌≤◌, ◌<◌, ◌≡◌, refl, ap, inl, inr, List, [], ◌∷◌, arith, ltb, ltb→lt,
  Bool-cases, length, get_elem?, take, replicate, length-append, length-replicate, take-append,
}
use molaris.Stack.{
  Stack, items, IsValid, expand_if_required, shrink_if_required, copy_into, new, resize_ratio,
}

module _ {ℓ} {A : Type ℓ} (zero_value : A) where
  pub length-copy_into : (n : ℕ) (xs : List A) → length (copy_into zero_value n xs) ≡ n
  unfolding copy_into
  length-copy_into zero xs = refl
  length-copy_into (suc n) [] = ap suc (length-replicate n zero_value)
  length-copy_into (suc n) (x ∷ xs) = ap suc (length-copy_into n xs)

  pub take-copy_into :
      (k n : ℕ) (xs : List A)
      → k ≤ n
      → k ≤ length xs
      → take k (copy_into zero_value n xs) ≡ take k xs
  unfolding copy_into
  take-copy_into zero n xs h l = refl
  take-copy_into (suc k) zero xs h l = absurd (omega arith)
  take-copy_into (suc k) (suc n) [] h l = absurd (omega arith)
  take-copy_into (suc k) (suc n) (x ∷ xs) h l =
      ap (x ∷◌) (take-copy_into k n xs (omega arith) (omega arith))

  pub get_elem?-copy_into :
      (k n : ℕ) (xs : List A)
      → k < n
      → k < length xs
      → get_elem? (copy_into zero_value n xs) k ≡ get_elem? xs k
  unfolding copy_into
  get_elem?-copy_into k zero xs h l = absurd (omega arith)
  get_elem?-copy_into k (suc n) [] h l = absurd (omega arith)
  get_elem?-copy_into zero (suc n) (x ∷ xs) h l = refl
  get_elem?-copy_into (suc k) (suc n) (x ∷ xs) h l =
      get_elem?-copy_into k n xs (omega arith) (omega arith)

  pub new-IsValid : (n : ℕ) → 1 ≤ n → IsValid (new zero_value n)
  unfolding new
  new-IsValid n h = record {
    within = omega arith;
    filled = length-replicate n zero_value;
    grows = h;
  }

  pub expand_if_required-IsValid :
      (s : Stack A) → IsValid s → IsValid (expand_if_required zero_value s)
  unfolding expand_if_required
  expand_if_required-IsValid s v = ground (
    arith,
    length-append s.buf (replicate (s.capacity * 2 / 2) zero_value),
    length-replicate (s.capacity * 2 / 2) zero_value,
  )

  -- There is room for one more entry.
  pub size-lt-expand_if_required :
      (s : Stack A)
      → IsValid s
      → (expand_if_required zero_value s).size < length (expand_if_required zero_value s).buf
  unfolding expand_if_required
  size-lt-expand_if_required s v = ground (
    arith,
    length-append s.buf (replicate (s.capacity * 2 / 2) zero_value),
    length-replicate (s.capacity * 2 / 2) zero_value,
  )

  pub size-expand_if_required : (s : Stack A) → (expand_if_required zero_value s).size ≡ s.size
  unfolding expand_if_required
  size-expand_if_required s = ground arith

  pub items-expand_if_required :
      (s : Stack A) → IsValid s → items (expand_if_required zero_value s) ≡ items s
  unfolding expand_if_required
  items-expand_if_required s v =
      ground (arith, take-append s.size s.buf (replicate (s.capacity * 2 / 2) zero_value))

  pub shrink_if_required-IsValid :
      (s : Stack A) → IsValid s → IsValid (shrink_if_required zero_value s)
  unfolding shrink_if_required
  shrink_if_required-IsValid s v = ground (arith, length-copy_into (s.capacity / 2) s.buf)

  pub size-shrink_if_required : (s : Stack A) → (shrink_if_required zero_value s).size ≡ s.size
  unfolding shrink_if_required
  size-shrink_if_required s = ground arith

  pub items-shrink_if_required :
      (s : Stack A) → IsValid s → items (shrink_if_required zero_value s) ≡ items s
  unfolding shrink_if_required
  items-shrink_if_required s v = elim (Bool-cases (ltb s.size (s.capacity / resize_ratio))) [
    | inl fits ↦
        let small = ltb→lt s.size (s.capacity / resize_ratio) fits in
        let filled = v.filled in
        rw fits
          (take-copy_into s.size (s.capacity / resize_ratio) s.buf (omega arith) (omega arith))
    | inr full ↦ rw full
  ]

  -- The entry just above the new top survives the shrinking.
  pub get_elem?-shrink_if_required :
      (s : Stack A)
      → IsValid s
      → s.size < s.capacity
      → get_elem? (shrink_if_required zero_value s).buf s.size ≡ get_elem? s.buf s.size
  unfolding shrink_if_required
  get_elem?-shrink_if_required s v h =
      ground (arith, get_elem?-copy_into s.size (s.capacity / 2) s.buf)
