-- ===== src/Appendable.antt =====
-- lib/ds/stack/appendable_stack.go: the stack that grows by the built-in `append`. `head` is one less
-- than the size, and -1 for an empty stack.
use molaris.Prelude.{
  ℕ, suc, ◌≡◌, ◌||◌, List, [], ◌∷◌, ◌++◌, arith, if◌then◌else◌, length, get_elem?, get_or,
  length-append, get_elem?-eq-get_or, get_elem?-none, get_or-append_left, ℤ, sub_ℕ, ◌+ℤ◌, ◌-ℤ◌,
  ltb_ℤ, eqb_ℤ, pos, negsuc, Exec, checked, out_of_bounds, bad_index, ok, panics, ◌>>=◌,
}

pub record AStack {ℓ} (A : Type ℓ) : Type ℓ where
  pub head : ℤ
  pub buf : List A

-- `buf[i]`
abbrev pub index {ℓ} : {A : Type ℓ} → List A → ℤ → Exec A
index buf (negsuc _) = panics bad_index
index buf (pos i) = checked (get_elem? buf i)

module _ {ℓ} {A : Type ℓ} (zero_value : A) where
  pub new_a : AStack A
  new_a = record { head = negsuc 0; buf = [] }

  pub size : AStack A → ℤ
  size a = a.head +ℤ pos 1

  pub capacity : AStack A → ℤ
  capacity a = size a

  pub peek : AStack A → Exec A
  peek a = if eqb_ℤ a.head (negsuc 0) then ok zero_value else index a.buf a.head

  pub peek_at : AStack A → ℤ → Exec A
  peek_at a i = if ltb_ℤ i (pos 0) || ltb_ℤ a.head i then panics out_of_bounds else index a.buf i

  pub push : AStack A → A → AStack A × ℤ
  push a i =
      let a' = record a { buf = a.buf ++ i ∷ []; head = a.head +ℤ pos 1 } in (a', a'.head +ℤ pos 1)

  pub pop : AStack A → Exec (AStack A × A)
  pop a = if eqb_ℤ a.head (negsuc 0) then ok (a, zero_value) else do
    v ← index a.buf (a.head -ℤ pos 1 +ℤ pos 1)
    ok (record a { head = a.head -ℤ pos 1 }, v)

  pub pop_to_size : AStack A → ℤ → Exec (AStack A × A)
  pop_to_size a new_size =
      if ltb_ℤ new_size (pos 0) || ltb_ℤ (a.head +ℤ pos 1) new_size
      then panics out_of_bounds
      else do v ← index a.buf new_size; ok (record a { head = new_size -ℤ pos 1 }, v)

-- A stack that has only been pushed to: the buffer ends at `head`.
abbrev pub Grown {ℓ} : {A : Type ℓ} → AStack A → ℕ → Type 0
Grown a n = (a.head ≡ sub_ℕ n 1) × (length a.buf ≡ n)

module _ {A : Type 0} (zero_value : A) where
  pub push-Grown :
      (a : AStack A) (n : ℕ) (x : A) → Grown a n → Grown (push zero_value a x).0 (suc n)
  unfolding push ◌+ℤ◌
  push-Grown a n x (h, l) = (ground arith, omega (arith, length-append a.buf (x ∷ []), l))

  -- After a pop, a push writes behind the popped entry and not over it: `Peek` then shows the popped
  -- entry again, whatever was pushed.
  pub peek-push-pop :
      (a : AStack A) (n : ℕ) (x : A)
      → Grown a (suc n)
      → (a' : AStack A) × (pop zero_value a ≡ ok (a', get_or a.buf n zero_value))
        × (peek zero_value (push zero_value a' x).0 ≡ ok (get_or a.buf n zero_value))
  unfolding pop push peek ◌+ℤ◌ ◌-ℤ◌
  peek-push-pop a n x (h, l) = (
    record a { head = a.head -ℤ pos 1 },
    ground (arith, get_elem?-eq-get_or a.buf n zero_value),
    ground (
      arith,
      get_elem?-eq-get_or (a.buf ++ x ∷ []) n zero_value,
      get_or-append_left a.buf (x ∷ []) n zero_value,
      length-append a.buf (x ∷ []),
    ),
  )

  -- `PopToSize` to the present size panics where the other stack changes nothing.
  pub pop_to_size_same :
      (a : AStack A) (n : ℕ) → Grown a n → pop_to_size zero_value a (pos n) ≡ panics bad_index
  unfolding pop_to_size ◌+ℤ◌ ◌-ℤ◌
  pop_to_size_same a n (h, l) = ground (arith, get_elem?-none a.buf n)
