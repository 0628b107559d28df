-- ===== src/Bank/Guards.antt =====
-- The bank manager keeps the contract of a `Controllable`: a revert brings back the balance changes
-- that are to be committed, and the balances that stand for them.
use molaris.Prelude.{
  ◌≡◌, refl, sym, ap, ◌∙◌, subst, ◌⊎◌, inl, inr, true, none, some, List, [], ◌∷◌, ◌++◌, append-nil,
  append_assoc, arith, ◌==◌, ne→==, Bool-cases, length, take, last_or, length-append,
  last_or-append, ℤ, ◌-ℤ◌, eqb_ℤ, pos, ok, lookup, insert, nat_eq,
}
use mathlib.Core.Path.{ap₂}
use molaris.Stack
use molaris.Stack.{Stack}
use molaris.Stack.Items.{peek-Holds, size-eq-length}
use molaris.Stack.Layers.{
  LayerGuards, forget-LayerGuards, push-LayerGuards, revert-LayerGuards, set-LayerGuards,
  last-cases,
}
use molaris.Journal.{Address}
use molaris.Bank.{
  BankKeeper, BalanceChange, State, empty_state, Manager, get_cur_state, set_cur_state, get_balance,
  set_balance, snapshot, revert_to_snapshot,
}

-- The changes of all states, oldest first, and the balances of the newest.
abbrev pub all_changes : List State → List BalanceChange
all_changes [] = []
all_changes (s ∷ xs) = s.balance_changes ++ all_changes xs

abbrev pub BankView : Type 0
BankView = List BalanceChange × List (Address × ℤ)

abbrev pub view_of : List State → BankView
view_of xs = (all_changes xs, (last_or xs empty_state).dirty_balances)

pub record BankGuards (m : Manager) (ps : List (ℤ × BankView)) : Type 0 where
  pub states : List State
  pub layers : LayerGuards view_of m.states states ps

abbrev pub bank_view : Manager → BankView
bank_view m = view_of (Stack.items m.states)

pub bank_view-states :
    (m : Manager) (ps : List (ℤ × BankView)) (g : BankGuards m ps) → bank_view m ≡ view_of g.states
bank_view-states m ps g = ap view_of g.layers.held.entries

pub forget-BankGuards :
    (m : Manager) (p : ℤ × BankView) (ps : List (ℤ × BankView))
    → BankGuards m (p ∷ ps)
    → BankGuards m ps
forget-BankGuards m p ps g = record {
  states = g.states;
  layers = forget-LayerGuards view_of m.states g.states p ps g.layers;
}

all_changes-append :
    (xs : List State) (s : State) → all_changes (xs ++ s ∷ []) ≡ all_changes xs ++ s.balance_changes
all_changes-append [] s = append-nil s.balance_changes
all_changes-append (x ∷ xs) s =
    ap (x.balance_changes ++◌) (all_changes-append xs s)
    ∙ sym (append_assoc x.balance_changes (all_changes xs) s.balance_changes)

-- A state without changes on top shows the same.
view_of-fresh :
    (xs : List State)
    → view_of (
        xs
        ++ record { balance_changes = []; dirty_balances = (last_or xs empty_state).dirty_balances }
          ∷ [])
      ≡ view_of xs
view_of-fresh xs =
    let fresh : State = record {
      balance_changes = [];
      dirty_balances = (last_or xs empty_state).dirty_balances;
    } in
    ap₂ (λ a b. (a, b)) (all_changes-append xs fresh ∙ append-nil (all_changes xs))
      (ap (λ s. s.dirty_balances) (last_or-append xs fresh empty_state))

-- The current state is there, or an empty one is pushed, which shows the same.
pub get_cur_state-BankGuards :
    (m : Manager) (ps : List (ℤ × BankView))
    → BankGuards m ps
    → (m' : Manager) × (below : List State) × (top : State) × (get_cur_state m ≡ ok (m', top))
      × (view_of (below ++ top ∷ []) ≡ bank_view m)
      × (m'.read_only ≡ m.read_only)
      × LayerGuards view_of m'.states (below ++ top ∷ []) ps
unfolding get_cur_state
get_cur_state-BankGuards m ps g =
    go g.states g.layers (last-cases g.states) (bank_view-states m ps g)
  where
    go :
        (xs : List State)
        → LayerGuards view_of m.states xs ps
        → (xs ≡ []) ⊎ ((below : List State) × (top : State) × (xs ≡ below ++ top ∷ []))
        → bank_view m ≡ view_of xs
        → (m' : Manager) × (below : List State) × (top : State) × (get_cur_state m ≡ ok (m', top))
          × (view_of (below ++ top ∷ []) ≡ bank_view m)
          × (m'.read_only ≡ m.read_only)
          × LayerGuards view_of m'.states (below ++ top ∷ []) ps
    go xs layers (inl e) shows =
        let layers0 = subst (λ ys. LayerGuards view_of m.states ys ps) e layers in
        let none_yet : (m.states.size == 0) ≡ true =
          ap (λ n. n == 0) (size-eq-length layers0.held) in
        let (s, push, guards) =
          push-LayerGuards view_of empty_state m.states [] empty_state ps layers0 in
        let top = peek-Holds empty_state s (empty_state ∷ []) guards.held in
        (
          record m { states = s },
          [],
          empty_state,
          rw (none_yet, push, top) refl,
          sym (shows ∙ ap view_of e),
          refl,
          forget-LayerGuards view_of s (empty_state ∷ []) _ ps guards,
        )
    go xs layers (inr (below, top, e)) shows =
        let layers' = subst (λ ys. LayerGuards view_of m.states ys ps) e layers in
        let size = size-eq-length layers'.held in
        (
          m,
          below,
          top,
          rw
              (
                ne→== m.states.size 0
                    (λ z. absurd (omega (arith, z, size, length-append below (top ∷ [])))),
                peek-Holds empty_state m.states (below ++ top ∷ []) layers'.held,
                last_or-append below top empty_state,
              )
              refl,
          sym (shows ∙ ap view_of e),
          refl,
          layers',
        )

-- A snapshot shows the same and can be returned to.
pub snapshot-BankGuards :
    (m : Manager) (ps : List (ℤ × BankView))
    → BankGuards m ps
    → (m' : Manager) × (id : ℤ) × (snapshot m ≡ ok (m', id))
      × (bank_view m' ≡ bank_view m)
      × BankGuards m' ((id, bank_view m) ∷ ps)
unfolding snapshot
snapshot-BankGuards m ps g =
    let (m1, below, top, e1, shows, _, layers) = get_cur_state-BankGuards m ps g in
    let xs = below ++ top ∷ [] in
    let fresh : State = record { balance_changes = []; dirty_balances = top.dirty_balances } in
    let (s, e2, layers2) = push-LayerGuards view_of empty_state m1.states xs fresh ps layers in
    let m' : Manager = record m { states = s } in
    let guards : BankGuards m' ((pos (length xs), bank_view m) ∷ ps) = record {
      states = xs ++ fresh ∷ [];
      layers =
          subst (λ v. LayerGuards view_of s (xs ++ fresh ∷ []) ((pos (length xs), v) ∷ ps)) shows
            layers2;
    } in
    (
      m',
      pos (length xs),
      rw (e1, e2) (ap (λ i. ok (m', i)) (ground arith)),
      bank_view-states m' _ guards
          ∙ ap (λ d. view_of (xs ++ record { balance_changes = []; dirty_balances = d } ∷ []))
              (ap (λ t. t.dirty_balances) (sym (last_or-append below top empty_state)))
          ∙ view_of-fresh xs
          ∙ shows,
      guards,
    )

-- A revert to the newest restore point brings back the changes and the balances.
pub revert-BankGuards :
    (m : Manager) (id : ℤ) (v : BankView) (ps : List (ℤ × BankView))
    → BankGuards m ((id, v) ∷ ps)
    → (m' : Manager) × (revert_to_snapshot m id ≡ ok m') × (bank_view m' ≡ v) × BankGuards m' ps
unfolding revert_to_snapshot
revert-BankGuards m id v ps g =
    let (s, n, x, e, same, layers) =
      revert-LayerGuards view_of empty_state m.states g.states id v ps g.layers in
    let m' : Manager = record m { states = s } in
    let guards : BankGuards m' ps = record { states = take n g.states; layers = layers } in
    (m', rw e refl, bank_view-states m' ps guards ∙ same, guards)

module _ {B Error : Type 0} (keeper : BankKeeper B Error) where
  -- A balance that is set keeps every restore point.
  pub set_balance-BankGuards :
      (m : Manager) (bank : B) (addr : Address) (new_balance : ℤ) (ps : List (ℤ × BankView))
      → BankGuards m ps
      → (m' : Manager) × (set_balance keeper m bank addr new_balance ≡ ok m') × BankGuards m' ps
  unfolding set_balance get_balance
  set_balance-BankGuards m bank addr new_balance ps g =
      let (m1, below, top, e1, shows, _, layers) = get_cur_state-BankGuards m ps g in
      let g1 : BankGuards m1 ps = record { states = below ++ top ∷ []; layers = layers } in
      let old : ℤ = elim (lookup addr top.dirty_balances) [
        | some b ↦ b
        | none ↦ keeper.balance bank addr
      ] in
      let delta = new_balance -ℤ old in
      let (m2, below2, top2, e2, _, _, layers2) = get_cur_state-BankGuards m1 ps g1 in
      let t : State = record {
        balance_changes = top2.balance_changes ++ record { addr = addr; delta = delta } ∷ [];
        dirty_balances = insert addr new_balance top2.dirty_balances;
      } in
      elim (Bool-cases (eqb_ℤ delta (pos 0))) [
        | inl same ↦ (m1, rw (e1, same) refl, g1)
        | inr changed ↦ (
          set_cur_state m2 t,
          rw (e1, changed, e2) refl,
          record {
            states = below2 ++ t ∷ [];
            layers = set-LayerGuards view_of empty_state m2.states below2 top2 t ps layers2;
          },
        )
      ]
