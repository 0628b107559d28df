-- ===== src/Bank.antt =====
-- cosmos/x/evm/plugins/state/bank/manager.go: the balance changes of a transaction, which go to the
-- Cosmos bank when it is committed. The bank keeper is a parameter, with its state passed through.
pub mod Balances
pub mod Guards
use molaris.Prelude.{
  ℕ, zero, suc, ◌+◌, ◌-◌, Bool, false, Option, none, some, List, [], ◌∷◌, ◌++◌, ◌==◌, if◌then◌else◌,
  set, ℤ, sub_ℕ, ◌-ℤ◌, ltb_ℤ, eqb_ℤ, pos, Exec, ◌>>=◌, ok, lookup, insert, nat_eq,
}
use molaris.Stack
use molaris.Stack.{Stack}
use molaris.Journal.{Address}

abbrev pub init_capacity : ℕ
init_capacity = 16

-- `BankKeeper`: balances of the one denomination, and the four moves, each with its error; and
-- `NewIntFromBigInt` of the SDK, which panics for a number that is too large.
pub record BankKeeper (B Error : Type 0) : Type 0 where
  pub balance : B → Address → ℤ
  pub mint : B → ℤ → B × Option Error
  pub send_to_account : B → Address → ℤ → B × Option Error
  pub send_to_module : B → Address → ℤ → B × Option Error
  pub burn : B → ℤ → B × Option Error
  pub int_from_big_int : ℤ → Exec ℤ

pub record BalanceChange : Type 0 where
  pub addr : Address
  pub delta : ℤ

pub record State : Type 0 where
  pub balance_changes : List BalanceChange
  pub dirty_balances : List (Address × ℤ)

abbrev pub empty_state : State
empty_state = record { balance_changes = []; dirty_balances = [] }

-- The stack holds pointers; every state stands in it once, so a change through the pointer to the top
-- is a change of the top entry.
pub record Manager : Type 0 where
  pub states : Stack State
  pub read_only : Bool

unfoldable pub new_manager : Manager
new_manager = record { states = Stack.new empty_state init_capacity; read_only = false }

unfoldable pub get_cur_state : Manager → Exec (Manager × State)
get_cur_state m =
    if m.states.size == 0
    then (Stack.push empty_state m.states empty_state >>= λ p.
        Stack.peek empty_state p.0 >>= λ s. ok (record m { states = p.0 }, s))
    else (Stack.peek empty_state m.states >>= λ s. ok (m, s))

-- A change of `*m.states.Peek()`.
abbrev pub set_cur_state : Manager → State → Manager
set_cur_state m s = record m {
  states = record (m.states) { buf = set m.states.buf (m.states.size - 1) s };
}

-- The change of the current state, where the balance differs.
abbrev pub journal_change : Manager → Address → ℤ → ℤ → Exec Manager
journal_change m addr new_balance delta = do
  q ← get_cur_state m
  ok (
      set_cur_state q.0 (record {
        balance_changes = (q.1).balance_changes ++ record { addr = addr; delta = delta } ∷ [];
        dirty_balances = insert addr new_balance (q.1).dirty_balances;
      }))

module _ {B Error : Type 0} (keeper : BankKeeper B Error) where
  unfoldable pub get_balance : Manager → B → Address → Exec (Manager × ℤ)
  get_balance m bank addr = do
    r ← get_cur_state m
    ok (
      r.0,
      elim (lookup addr (r.1).dirty_balances) [ some b ↦ b | none ↦ keeper.balance bank addr ],
    )

  unfoldable pub set_balance : Manager → B → Address → ℤ → Exec Manager
  set_balance m bank addr new_balance = get_balance m bank addr >>= λ r.
      let delta = new_balance -ℤ r.1 in
      if eqb_ℤ delta (pos 0) then ok r.0 else journal_change r.0 addr new_balance delta

  -- The first error ends the call.
  abbrev pub and_then :
      Exec (B × Option Error) → (B → Exec (B × Option Error)) → Exec (B × Option Error)
  and_then r next = r >>= λ x. elim x.1 [ some err ↦ ok (x.0, some err) | none ↦ next x.0 ]

  -- The case of one change, by the sign of its delta.
  unfoldable pub commit_change : B → BalanceChange → Exec (B × Option Error)
  commit_change bank change =
      if ltb_ℤ (pos 0) change.delta
      then (keeper.int_from_big_int change.delta >>= λ amount.
          and_then (ok (keeper.mint bank amount))
            (λ b. ok (keeper.send_to_account b change.addr amount)))
      else if ltb_ℤ change.delta (pos 0)
      then (keeper.int_from_big_int (pos 0 -ℤ change.delta) >>= λ amount.
          and_then (ok (keeper.send_to_module bank change.addr amount))
            (λ b. ok (keeper.burn b amount)))
      else ok (bank, none)

  unfoldable pub commit_changes : B → List BalanceChange → Exec (B × Option Error)
  commit_changes bank [] = ok (bank, none)
  commit_changes bank (change ∷ rest) =
      and_then (commit_change bank change) (λ b. commit_changes b rest)

  -- `for i := 0; i < m.states.Size(); i++`, with `rounds` rounds to go.
  unfoldable pub commit_from : ℕ → Stack State → ℕ → B → Exec (B × Option Error)
  commit_from zero states i bank = ok (bank, none)
  commit_from (suc rounds) states i bank = Stack.peek_at empty_state states (pos i) >>= λ s.
      and_then (commit_changes bank s.balance_changes) (λ b. commit_from rounds states (i + 1) b)

  -- The balances that are logged before and after are left out.
  unfoldable pub commit : Manager → B → Exec (Manager × B × Option Error)
  commit m bank = do
    r ← get_cur_state m
    q ← commit_from (r.0).states.size (r.0).states 0 bank
    ok (r.0, q.0, q.1)

unfoldable pub snapshot : Manager → Exec (Manager × ℤ)
snapshot m = do
  r ← get_cur_state m
  p ←
      Stack.push empty_state (r.0).states
        (record { balance_changes = []; dirty_balances = (r.1).dirty_balances })
  ok (record m { states = p.0 }, sub_ℕ p.1 1)

unfoldable pub revert_to_snapshot : Manager → ℤ → Exec Manager
revert_to_snapshot m id = do
  p ← Stack.pop_to_size empty_state m.states id
  ok (record m { states = p.0 })

unfoldable pub finalize : Manager → Manager
finalize m = m
