-- ===== src/Journal/Refund.antt =====
-- eth/core/state/journal/refund.go: the refund counter, as a stack of its past values.
use molaris.Prelude.{
  ℕ, ◌+◌, ◌-◌, ◌%◌, ◌≤◌, ◌≡◌, refl, subst, List, [], ◌∷◌, length, last_or, last_or-append, map_id,
  ℤ, pos, Exec, bad_index, ok, panics, ◌>>=◌,
}
use molaris.Stack
use molaris.Stack.{Stack, items}
use molaris.Stack.Clone.{copy_all, copy_all-Holds, copy_all_empty, push-new_zero}
use molaris.Stack.Items.{Holds, peek-Holds}
use molaris.Journal.Marks.{StackGuards, push-StackGuards, revert-StackGuards, holds}
use molaris.Journal.{init_capacity, u64_mod}

abbrev pub Refund : Type 0
Refund = Stack ℕ

unfoldable pub new_refund : Refund
new_refund = Stack.new 0 init_capacity

unfoldable pub get_refund : Refund → Exec ℕ
get_refund r = Stack.peek 0 r

unfoldable pub add_refund : Refund → ℕ → Exec Refund
add_refund r gas = do top ← Stack.peek 0 r; p ← Stack.push 0 r ((top + gas) % u64_mod); ok p.0

-- `uint64` subtraction wraps.
unfoldable pub sub_refund : Refund → ℕ → Exec Refund
sub_refund r gas = do
  top ← Stack.peek 0 r
  p ← Stack.push 0 r ((top + u64_mod - gas) % u64_mod)
  ok p.0

unfoldable pub snapshot : Refund → Exec (Refund × ℤ)
snapshot r = ok (r, pos r.size)

unfoldable pub revert_to_snapshot : Refund → ℤ → Exec Refund
revert_to_snapshot r id = do p ← Stack.pop_to_size 0 r id; ok p.0

unfoldable pub finalize : Refund → Refund
unfolding new_refund
finalize r = new_refund

unfoldable pub clone : Refund → Exec Refund
clone r = copy_all 0 (λ x. x) r

-- The counter that the journal shows.
abbrev pub counter : Refund → ℕ
counter r = last_or (items r) 0

pub get_refund-counter : (r : Refund) → Stack.IsValid r → get_refund r ≡ ok (counter r)
unfolding get_refund
get_refund-counter r v = peek-Holds 0 r (items r) (holds r v)

-- Adding gas is the addition of `uint64` on the counter, and keeps every restore point.
pub add_refund-Guards :
    (r : Refund) (gas : ℕ) (ps : List (ℤ × List ℕ))
    → StackGuards r ps
    → (r' : Refund) × (add_refund r gas ≡ ok r')
      × (counter r' ≡ (counter r + gas) % u64_mod)
      × StackGuards r' ps
unfolding add_refund
add_refund-Guards r gas ps g =
    let x : ℕ = (counter r + gas) % u64_mod in
    let (r', n, e, ei, g') = push-StackGuards 0 r x ps g in
    (
      r',
      rw (peek-Holds 0 r (items r) (holds r g.sound), e) refl,
      rw ei (last_or-append (items r) x 0),
      g',
    )

-- Subtracting gas is that of `uint64` on the counter, which wraps below 0, and keeps every restore
-- point.
pub sub_refund-Guards :
    (r : Refund) (gas : ℕ) (ps : List (ℤ × List ℕ))
    → StackGuards r ps
    → (r' : Refund) × (sub_refund r gas ≡ ok r')
      × (counter r' ≡ (counter r + u64_mod - gas) % u64_mod)
      × StackGuards r' ps
unfolding sub_refund
sub_refund-Guards r gas ps g =
    let x : ℕ = (counter r + u64_mod - gas) % u64_mod in
    let (r', n, e, ei, g') = push-StackGuards 0 r x ps g in
    (
      r',
      rw (peek-Holds 0 r (items r) (holds r g.sound), e) refl,
      rw ei (last_or-append (items r) x 0),
      g',
    )

pub revert-Guards :
    (r : Refund) (id : ℤ) (v : List ℕ) (ps : List (ℤ × List ℕ))
    → StackGuards r ((id, v) ∷ ps)
    → (r' : Refund) × (revert_to_snapshot r id ≡ ok r') × (items r' ≡ v) × StackGuards r' ps
unfolding revert_to_snapshot
revert-Guards r id v ps g =
    let (r', x, e, ei, g') = revert-StackGuards 0 r id v ps g in (r', rw e refl, ei, g')

-- The clone of a journal with a value in it shows the same values.
pub clone-Holds :
    (r : Refund) (xs : List ℕ)
    → Holds r xs
    → 1 ≤ length xs
    → (r' : Refund) × (clone r ≡ ok r') × Holds r' xs
unfolding clone
clone-Holds r xs h l =
    let (r', e, h') = copy_all-Holds 0 (λ x. x) r xs h l in (r', e, subst (Holds r') (map_id xs) h')

-- The clone of a fresh journal cannot be written to.
pub add_refund-clone_empty :
    (r : Refund) (gas : ℕ)
    → Holds r []
    → (r' : Refund) × (clone r ≡ ok r') × (add_refund r' gas ≡ panics bad_index)
unfolding clone add_refund Stack.new Stack.peek
add_refund-clone_empty r gas h =
    (Stack.new 0 0, copy_all_empty 0 (λ x. x) r h, rw (push-new_zero 0 ((0 + gas) % u64_mod)) refl)
