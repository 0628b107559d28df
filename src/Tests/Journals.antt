-- ===== src/Tests/Journals.antt =====
-- The journals at concrete inputs.
use molaris.Prelude.{
  ℕ, ◌≡◌, refl, true, false, ◌&&◌, [], ◌∷◌, map, arith, ◌==◌, if◌then◌else◌, ℤ, ◌-ℤ◌, pos,
  bad_index, ok, panics,
}
use molaris.Stack
use molaris.Stack.{Stack, items}
use molaris.Stack.Items.{Holds, new-Holds}
use molaris.Journal.{Address, Hash}
use molaris.Journal.Marks.{StackGuards}
use molaris.Journal.Refund
use molaris.Journal.Refund.{
  Refund, counter, add_refund-Guards, sub_refund-Guards, add_refund-clone_empty,
}
use molaris.Journal.Logs
use molaris.Journal.Logs.{Log, Logs, stamp, add_log-Guards, get_logs-Holds}
use molaris.Journal.Transient
use molaris.Journal.Transient.{
  TransientState, TransientStorage, current, get_value, set_value, get_value-set_value,
  set_transient_state-Guards,
}
use molaris.Journal.Suicides
use molaris.Journal.Suicides.{
  Suicides, SuicideStatePlugin, IsContract, contains, suicide, suicide_once, suicide_twice,
  suicide-revert-snapshot, has_suicided-Holds, get_suicides-Holds,
}

-- A journal with two entries and room for two more, and a restore point with the first of them.
module _ {A : Type 0} (zero_value : A) where
  abbrev two_entries : A → A → Stack A
  two_entries x y = record { size = 2; capacity = 4; buf = x ∷ y ∷ zero_value ∷ zero_value ∷ [] }

  two_entries-Guards : (x y : A) → StackGuards (two_entries x y) ((pos 1, x ∷ []) ∷ [])
  two_entries-Guards x y = record {
    sound = record { within = omega arith; filled = refl; grows = omega arith };
    marks = (1, refl, omega arith, refl, tt);
  }

  two_entries-Holds : (x y : A) → Holds (two_entries x y) (x ∷ y ∷ [])
  two_entries-Holds x y = record { valid = (two_entries-Guards x y).sound; entries = refl }

add_refund-clone_empty_example :
    (r' : Refund) × (Refund.clone (Stack.new 0 32) ≡ ok r')
    × (Refund.add_refund r' 10 ≡ panics bad_index)
add_refund-clone_empty_example =
    add_refund-clone_empty (Stack.new 0 32) 10 (new-Holds 0 32 (omega arith))

abbrev log : ℕ → Log ℕ
log n = record { payload = n; block_number = 0; block_hash = 0; tx_hash = 1; tx_index = 1 }

abbrev two_logs : Logs ℕ
two_logs = record { stack = two_entries (log 0) (log 5) (log 7); tx_hash = 9; tx_index = 3 }

add_log-Guards_example :
    (l' : Logs ℕ) × (Logs.add_log (log 0) two_logs (log 8) ≡ ok l')
    × (items l'.stack ≡ log 5 ∷ log 7 ∷ record (log 8) { tx_hash = 9; tx_index = 3 } ∷ [])
    × (l'.tx_hash ≡ 9)
    × (l'.tx_index ≡ 3)
    × StackGuards l'.stack ((pos 1, log 5 ∷ []) ∷ [])
add_log-Guards_example =
    add_log-Guards (log 0) two_logs (log 8) ((pos 1, log 5 ∷ []) ∷ [])
      (two_entries-Guards (log 0) (log 5) (log 7))

get_logs-Holds_example :
    (l' : Logs ℕ) × (Logs.get_logs (log 0) two_logs 100 200
      ≡ ok (l', map (stamp (log 0) 100 200) (log 5 ∷ log 7 ∷ [])))
    × Holds l'.stack (map (stamp (log 0) 100 200) (log 5 ∷ log 7 ∷ []))
get_logs-Holds_example =
    get_logs-Holds (log 0) two_logs (log 5 ∷ log 7 ∷ []) 100 200
      (two_entries-Holds (log 0) (log 5) (log 7))

abbrev storage : TransientState
storage = (1, (2, 30) ∷ []) ∷ []

set_transient_state-Guards_example :
    (t' : TransientStorage) × (Transient.set_transient_state (two_entries [] storage storage) 1 2 31
      ≡ ok t')
    × ((a : Address) (k : Hash)
        → get_value (current t') a k ≡ (
            if (1 == a) && (2 == k)
            then 31
            else get_value (current (two_entries [] storage storage)) a k))
    × StackGuards t' ((pos 1, storage ∷ []) ∷ [])
set_transient_state-Guards_example =
    set_transient_state-Guards (two_entries [] storage storage) 1 2 31 ((pos 1, storage ∷ []) ∷ [])
      (two_entries-Guards [] storage storage)

-- A plugin whose state is one balance, and where every account has code.
abbrev ssp : SuicideStatePlugin ℤ
ssp = record {
  get_code_hash = λ st a. 7;
  get_balance = λ st a. st;
  sub_balance = λ st a v. st -ℤ v;
}

abbrev two_suicides : Suicides
two_suicides = record { journal = two_entries 0 5 7; last_snapshot = pos 2 }

two_suicides-IsContract : IsContract ssp 3 (pos 50) 9
two_suicides-IsContract = record {
  has_account = λ e. absurd (omega (arith, e));
  has_code = λ e. absurd (omega (arith, e));
}

suicide_twice_example :
    (s' : Suicides) × (suicide ssp 3 two_suicides (pos 50) 9 ≡ ok (s', pos 50 -ℤ pos 50, true))
    × (suicide ssp 3 s' (pos 0) 10 ≡ ok (s', pos 0, false))
suicide_twice_example =
    suicide_twice ssp 3 two_suicides (pos 50) (pos 0) 9 10 ((two_entries-Guards 0 5 7).sound) refl
      two_suicides-IsContract

suicide-revert-snapshot_example :
    (s1 : Suicides) × (s2 : Suicides) × (s3 : Suicides) × (Suicides.snapshot two_suicides
      ≡ ok (s1, pos 2))
    × (Suicides.revert_to_snapshot s1 (pos 2) ≡ ok s2)
    × (suicide ssp 3 s2 (pos 50) 9 ≡ ok (s3, pos 50 -ℤ pos 50, true))
    × (items s3.journal ≡ 5 ∷ 7 ∷ 9 ∷ [])
suicide-revert-snapshot_example =
    suicide-revert-snapshot ssp 3 two_suicides (pos 50) 9 ((pos 1, 5 ∷ []) ∷ [])
      (two_entries-Guards 0 5 7) two_suicides-IsContract
