-- ===== src/Stack/Clone.antt =====
-- `cloneableStack.Clone` and the copy loops that the journals write out by hand: a stack made with
-- the capacity of the old one (or its size), into which every entry is pushed, oldest first.
use molaris.Prelude.{
  ℕ, zero, suc, ◌+◌, ◌≤◌, ◌≡◌, refl, List, [], ◌∷◌, ◌++◌, map, append-nil, append_assoc, length,
  length-append, pos, Exec, bad_index, ok, panics, ◌>>=◌,
}
use molaris.Stack.{Stack, new, push, peek_at, write, expand_if_required}
use molaris.Stack.Items.{Holds, push-Holds, peek_at-middle, new-Holds, size-eq-length}

module _ {ℓ} {A : Type ℓ} (zero_value : A) where
  -- `for i := …; i < s.Size(); i++ { to.Push(f(s.PeekAt(i))) }`, with `rounds` rounds to go.
  unfoldable pub push_all_from : (A → A) → ℕ → Stack A → ℕ → Stack A → Exec (Stack A)
  push_all_from f zero s i to = ok to
  push_all_from f (suc rounds) s i to = do
    x ← peek_at zero_value s (pos i)
    r ← push zero_value to (f x)
    push_all_from f rounds s (i + 1) r.0

  unfoldable pub clone : (A → A) → Stack A → Exec (Stack A)
  clone copy_entry s = push_all_from copy_entry s.size s 0 (new zero_value s.capacity)

  -- The loop appends the image of every entry from `i` on.
  pub push_all_from-Holds :
      (f : A → A) (s : Stack A) (done rest : List A) (to : Stack A) (ys : List A)
      → Holds s (done ++ rest)
      → Holds to ys
      → (to' : Stack A) × (push_all_from f (length rest) s (length done) to ≡ ok to')
        × Holds to' (ys ++ map f rest)
  unfolding push_all_from
  push_all_from-Holds f s done [] to ys h k = (to, refl, rw append-nil k)
  push_all_from-Holds f s done (x ∷ rest) to ys h k =
      let (to', e, k') = push-Holds zero_value to ys (f x) k in
      let (to'', e', k'') =
        push_all_from-Holds f s (done ++ x ∷ []) rest to' (ys ++ f x ∷ []) (rw append_assoc h) k' in
      (
        to'',
        rw (peek_at-middle zero_value s done rest x h, e, ← length-append done (x ∷ [])) e',
        rw append_assoc at k'',
      )

  -- A clone holds the images of the entries.
  pub clone-Holds :
      (f : A → A) (s : Stack A) (xs : List A)
      → Holds s xs
      → (s' : Stack A) × (clone f s ≡ ok s') × Holds s' (map f xs)
  unfolding clone
  clone-Holds f s xs h = simp (size-eq-length h) (
      push_all_from-Holds f s [] xs (new zero_value s.capacity) [] h
        (new-Holds zero_value s.capacity h.valid.grows))

-- A stack made with capacity 0 never accepts an entry, since doubling leaves it at 0.
module _ {ℓ} {A : Type ℓ} (zero_value : A) where
  pub push-new_zero : (x : A) → push zero_value (new zero_value 0) x ≡ panics bad_index
  unfolding push new write expand_if_required
  push-new_zero x = refl

module _ {ℓ} {A : Type ℓ} (zero_value : A) where
  -- The loop of the journals' `Clone`: the new stack has the old one's size for its capacity.
  unfoldable pub copy_all : (A → A) → Stack A → Exec (Stack A)
  copy_all copy_entry s = push_all_from zero_value copy_entry s.size s 0 (new zero_value s.size)

  pub copy_all-Holds :
      (f : A → A) (s : Stack A) (xs : List A)
      → Holds s xs
      → 1 ≤ length xs
      → (s' : Stack A) × (copy_all f s ≡ ok s') × Holds s' (map f xs)
  unfolding copy_all
  copy_all-Holds f s xs h l = simp (size-eq-length h) (
      push_all_from-Holds zero_value f s [] xs (new zero_value (length xs)) [] h
        (new-Holds zero_value (length xs) l))

  -- The copy of an empty stack has capacity 0.
  pub copy_all_empty : (f : A → A) (s : Stack A) → Holds s [] → copy_all f s ≡ ok (new zero_value 0)
  unfolding copy_all push_all_from
  copy_all_empty f s h = let e : s.size ≡ 0 = size-eq-length h in simp e

  -- `for i := …; i < s.Size(); i++ { … = append(…, s.PeekAt(i)) }`
  unfoldable pub collect_from : ℕ → Stack A → ℕ → Exec (List A)
  collect_from zero s i = ok []
  collect_from (suc rounds) s i = do
    x ← peek_at zero_value s (pos i)
    xs ← collect_from rounds s (i + 1)
    ok (x ∷ xs)

  pub collect_from-Holds :
      (s : Stack A) (done rest : List A)
      → Holds s (done ++ rest)
      → collect_from (length rest) s (length done) ≡ ok rest
  unfolding collect_from
  collect_from-Holds s done [] h = refl
  collect_from-Holds s done (x ∷ rest) h = rw (
    peek_at-middle zero_value s done rest x h,
    ← length-append done (x ∷ []),
    collect_from-Holds s (done ++ x ∷ []) rest (rw append_assoc h),
  )
