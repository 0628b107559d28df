-- ===== src/Stack.antt =====
-- lib/ds/stack/stack.go and cloneable_stack.go: a last-in-first-out stack in a buffer that doubles
-- when it is full and halves when less than half of it is used. The type's zero value is `zero_value`.
pub mod Resize
pub mod Items
pub mod Clone
pub mod Layers
use molaris.Prelude.{
  ℕ, zero, suc, ◌+◌, ◌-◌, ◌*◌, ◌/◌, ◌≤◌, ◌≡◌, List, [], ◌∷◌, ◌++◌, ltb, leb, ◌==◌, if◌then◌else◌,
  length, get_elem?, set, take, replicate, ℤ, pos, negsuc, Exec, checked, out_of_bounds, bad_index,
  ok, panics, ◌>>=◌,
}

abbrev pub resize_ratio : ℕ
resize_ratio = 2

abbrev pub two : ℕ
two = 2

pub record Stack {ℓ} (A : Type ℓ) : Type ℓ where
  pub size : ℕ
  pub capacity : ℕ
  pub buf : List A

module _ {ℓ} {A : Type ℓ} (zero_value : A) where
  unfoldable pub new : ℕ → Stack A
  new initial_capacity = record {
    size = 0;
    capacity = initial_capacity;
    buf = replicate initial_capacity zero_value;
  }

  unfoldable pub expand_if_required : Stack A → Stack A
  expand_if_required s = if ltb s.size s.capacity then s else record s {
    buf = s.buf ++ replicate (s.capacity * resize_ratio / two) zero_value;
    capacity = s.capacity * resize_ratio;
  }

  -- `copy(newBuf, s.buf)`: as many entries as both hold.
  unfoldable pub copy_into : ℕ → List A → List A
  copy_into zero xs = []
  copy_into (suc n) xs = elim xs [
    | [] ↦ replicate (suc n) zero_value
    | x ∷ rest ↦ x ∷ copy_into n rest
  ]

  unfoldable pub shrink_if_required : Stack A → Stack A
  shrink_if_required s =
      if ltb s.size (s.capacity / resize_ratio)
      then record s {
        buf = copy_into (s.capacity / resize_ratio) s.buf;
        capacity = s.capacity / resize_ratio;
      }
      else s

  unfoldable pub peek : Stack A → Exec A
  peek s = if s.size == 0 then ok zero_value else checked (get_elem? s.buf (s.size - 1))

  -- A negative index is below `size`, and the access to the buffer fails.
  unfoldable pub peek_at : Stack A → ℤ → Exec A
  peek_at s (negsuc _) = panics bad_index
  peek_at s (pos index) =
      if leb s.size index then panics out_of_bounds else checked (get_elem? s.buf index)

  -- `s.buf[i] = v`
  unfoldable pub write : List A → ℕ → A → Exec (List A)
  write buf i v = if ltb i (length buf) then ok (set buf i v) else panics bad_index

  unfoldable pub push : Stack A → A → Exec (Stack A × ℕ)
  push s i = do
    let s' = expand_if_required s
    buf ← write s'.buf s'.size i
    ok (record s' { buf = buf; size = s'.size + 1 }, s'.size + 1)

  unfoldable pub pop : Stack A → Exec (Stack A × A)
  pop s = if s.size == 0 then ok (s, zero_value) else do
    let s' = shrink_if_required (record s { size = s.size - 1 })
    v ← checked (get_elem? s'.buf s'.size)
    ok (s', v)

  unfoldable pub pop_to_size : Stack A → ℤ → Exec (Stack A × A)
  pop_to_size s (negsuc _) = panics bad_index
  pop_to_size s (pos new_size) =
      if ltb s.size new_size
      then panics out_of_bounds
      else if new_size == s.size
      then ok (s, zero_value)
      else do
        v ← checked (get_elem? s.buf new_size)
        ok (shrink_if_required (record s { size = new_size }), v)

-- The abstract view: the entries below `size`, oldest first.
abbrev pub items {ℓ} : {A : Type ℓ} → Stack A → List A
items s = take s.size s.buf

-- The buffer fills the capacity, which is never 0.
pub record IsValid {ℓ} {A : Type ℓ} (s : Stack A) : Type 0 where
  pub within : s.size ≤ s.capacity
  pub filled : length s.buf ≡ s.capacity
  pub grows : 1 ≤ s.capacity
