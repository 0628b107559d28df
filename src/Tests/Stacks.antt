-- ===== src/Tests/Stacks.antt =====
-- The stacks and the registry at concrete inputs.
use molaris.Prelude.{ℕ, ◌+◌, ◌≡◌, refl, [], ◌∷◌, arith, pos, ok}
use molaris.Stack
use molaris.Stack.{Stack, items, IsValid}
use molaris.Stack.Items.{Holds, push-Holds, pop_to_size-Holds}
use molaris.Stack.Clone.{clone, clone-Holds}
use molaris.Appendable
use molaris.Appendable.{AStack, Grown, peek-push-pop, pop_to_size_same}

-- A full stack, so that a push has to grow it.
abbrev pub full_stack : Stack ℕ
full_stack = record { size = 2; capacity = 2; buf = 7 ∷ 8 ∷ [] }

pub full_stack-Holds : Holds full_stack (7 ∷ 8 ∷ [])
full_stack-Holds = record {
  valid = record { within = omega arith; filled = refl; grows = omega arith };
  entries = refl;
}

push-Holds_example :
    (s' : Stack ℕ) × (Stack.push 0 full_stack 9 ≡ ok (s', 3)) × Holds s' (7 ∷ 8 ∷ 9 ∷ [])
push-Holds_example = push-Holds 0 full_stack (7 ∷ 8 ∷ []) 9 full_stack-Holds

pop_to_size-Holds_example :
    (s' : Stack ℕ) × (Stack.pop_to_size 0 full_stack (pos 1) ≡ ok (s', 8)) × Holds s' (7 ∷ [])
pop_to_size-Holds_example =
    pop_to_size-Holds 0 full_stack (7 ∷ 8 ∷ []) 1 full_stack-Holds (omega arith)

clone-Holds_example :
    (s' : Stack ℕ) × (clone 0 (λ x. x + 1) full_stack ≡ ok s') × Holds s' (8 ∷ 9 ∷ [])
clone-Holds_example = clone-Holds 0 (λ x. x + 1) full_stack (7 ∷ 8 ∷ []) full_stack-Holds

abbrev grown_stack : AStack ℕ
grown_stack = record { head = pos 1; buf = 7 ∷ 8 ∷ [] }

peek-push-pop_example :
    (a' : AStack ℕ) × (Appendable.pop 0 grown_stack ≡ ok (a', 8))
    × (Appendable.peek 0 (Appendable.push 0 a' 9).0 ≡ ok 8)
peek-push-pop_example = peek-push-pop 0 grown_stack 1 9 (refl, refl)
