-- ===== src/Tests/Plugins.antt =====
-- The plugins of the Cosmos host at concrete inputs.
use molaris.Prelude.{
  ℕ, ◌+◌, ◌-◌, ◌*◌, ◌/◌, ◌%◌, ◌≤◌, ◌<◌, ◌≡◌, refl, ◌≢◌, ◌↔◌, ◌⊎◌, inl, inr, true, false, Option,
  none, some, List, [], ◌∷◌, ◌++◌, arith, ◌==◌, if◌then◌else◌, replicate, pos, bad_index, ok,
  panics, lookup, nat_eq,
}
use molaris.Journal.{Address, u64_mod}
use molaris.Gas.{Meters, MetersLaw, GasPlugin, consume_tx_gas, consume_tx_gas_wraps}
use molaris.Precompile
use molaris.Precompile.{Containers, get_active, get_active_lem}
use molaris.Events
use molaris.Events.{Built, log, not_registered, failed, Factory, emit_events}
use molaris.Events.Guards.{EventGuards, emit_events-Guards}
use molaris.Bank
use molaris.Bank.{BankKeeper, State, get_balance, set_balance}
use molaris.Bank.Balances.{HasStates, set_balance-HasStates, revert-set_balance-snapshot}
use molaris.Mempool.{EthTx, Transactions, outbids, replaces, outbids_iff, replaces_asym}
use molaris.Mempool.Reader.{PoolTx, tx_of, pending, queued, pending_from_zero}
use molaris.Mempool.Reader.Contiguous.{sent_by, entry_of, pending-AreContiguous}
use molaris.Keys.{
  Conversions, address_from_slot_key, slot_from_slot_key, slot_key_for, slot_key_roundtrip,
}

-- A meter is what was consumed and the limit.
abbrev meters : Meters (ℕ × ℕ)
meters = record {
  gas_consumed = λ m. m.0 % u64_mod;
  gas_remaining = λ m. m.1 % u64_mod - m.0 % u64_mod;
  limit = λ m. m.1 % u64_mod;
  consume_gas = λ m amount. ok (m.0 % u64_mod + amount, m.1);
}

meters_law : MetersLaw meters
meters_law = record {
  gas_consumed-lt = λ m. omega arith;
  limit-lt = λ m. omega arith;
  consume_gas-ok = λ m amount h. ((m.0 % u64_mod + amount, m.1), refl, omega arith, refl);
}

abbrev gas_plugin : ℕ → GasPlugin (ℕ × ℕ)
gas_plugin used = record {
  gas_meter = (100, 1000);
  block_gas_meter = (used, 2000);
  consensus_max_gas = 0;
}

consume_tx_gas_wraps_example :
    (m : ℕ × ℕ) × (consume_tx_gas meters (gas_plugin (u64_mod - 50)) 10
      ≡ ok (record (gas_plugin (u64_mod - 50)) { gas_meter = m }, none))
    × (meters.gas_consumed m ≡ 110)
    × (meters.limit m ≡ 1000)
    × (2000 < u64_mod - 50 + meters.gas_consumed m)
consume_tx_gas_wraps_example =
    consume_tx_gas_wraps meters meters_law (gas_plugin (u64_mod - 50)) 10 (omega arith)
      (omega arith) (omega arith)

abbrev containers : Containers ℕ ℕ ℕ ℕ
containers = record {
  registry_key = λ c. c;
  required_gas = λ c i. i;
  run = λ c i. (c, none);
  empty_output = 0;
  err_out_of_gas = 1;
  istanbul = (1, 1) ∷ (2, 2) ∷ [];
  berlin = (1, 1) ∷ [];
  byzantium = [];
  homestead = [];
}

abbrev istanbul : Precompile.Rules
istanbul = record { is_istanbul = true; is_berlin = true; is_byzantium = true; is_homestead = true }

get_active_lem_example :
    get_active containers istanbul
    ≡ (elim (Precompile.get_default_precompiles containers istanbul) [
      | [] ↦ ok []
      | p ∷ ps ↦ panics bad_index
    ])
get_active_lem_example = get_active_lem containers istanbul

-- An even event is registered, and its log is half of it.
abbrev factory : Factory ℕ ℕ (List ℕ)
factory = record {
  build = λ e. if e % 2 == 0 then log (e / 2) else not_registered;
  add_log = λ d l. d ++ l ∷ [];
}

abbrev running : Events.Manager ℕ (List ℕ)
running = record { events = 6 ∷ 7 ∷ []; ldb = some (3 ∷ []); read_only = false }

convertible : (b : Built ℕ) → (b ≡ log 4) ⊎ (b ≡ not_registered) → b ≢ failed
convertible b (inl e) f = cc
convertible b (inr e) f = cc

emit_events-Guards_example :
    (m : Events.Manager ℕ (List ℕ)) × (emit_events factory running (8 ∷ 9 ∷ []) ≡ ok m)
    × (m.events ≡ 6 ∷ 7 ∷ 8 ∷ 9 ∷ [])
    × (m.ldb ≡ some (3 ∷ 4 ∷ []))
    × EventGuards factory m ((pos 1, 6 ∷ []) ∷ [])
emit_events-Guards_example =
    emit_events-Guards factory running (3 ∷ []) (8 ∷ 9 ∷ []) ((pos 1, 6 ∷ []) ∷ []) refl refl
      (convertible (factory.build 8) (inl refl), (convertible (factory.build 9) (inr refl), tt))
      (1, refl, omega arith, refl, tt)

abbrev keeper : BankKeeper ℕ ℕ
keeper = record {
  balance = λ b a. pos b;
  mint = λ b n. (b, none);
  send_to_account = λ b a n. (b, none);
  send_to_module = λ b a n. (b, none);
  burn = λ b n. (b, none);
  int_from_big_int = λ n. ok n;
}

abbrev top : State
top = record { balance_changes = []; dirty_balances = (5, pos 70) ∷ [] }

abbrev manager : Bank.Manager
manager = record { states = record { size = 1; capacity = 1; buf = top ∷ [] }; read_only = false }

manager-HasStates : HasStates manager [] top
manager-HasStates = record {
  valid = record { within = omega arith; filled = refl; grows = omega arith };
  entries = refl;
}

set_balance-HasStates_example :
    (m : Bank.Manager) × (t : State) × (set_balance keeper manager 10 6 (pos 30) ≡ ok m)
    × HasStates m [] t
    × ((a : Address)
        → get_balance keeper m 10 a
          ≡ ok (m, if 6 == a then pos 30 else Bank.Balances.shown keeper top 10 a))
set_balance-HasStates_example =
    set_balance-HasStates keeper manager [] top 10 6 (pos 30) manager-HasStates

abbrev transactions : Transactions (ℕ × ℕ) ℕ
transactions = record {
  as_eth_tx = λ t. some (record { gas_fee_cap = t.0; gas_tip_cap = t.1 });
  default_priority = λ t. 0;
  effective_gas_tip_value = λ t b. t.gas_tip_cap;
}

abbrev low : EthTx
low = record { gas_fee_cap = 100; gas_tip_cap = 10 }

abbrev high : EthTx
high = record { gas_fee_cap = 110; gas_tip_cap = 11 }

outbids_iff_example :
    (outbids transactions 10 low high ≡ true)
    ↔ ((100 < 110) × (10 < 11) × (110 * 100 / 100 ≤ 110) × (110 * 10 / 100 ≤ 11))
outbids_iff_example = outbids_iff transactions 10 low high (omega arith)

replaced : replaces transactions 10 (100, 10) (110, 11) ≡ true
unfolding replaces outbids
replaced = refl

replaces_asym_example : replaces transactions 10 (110, 11) (100, 10) ≡ false
replaces_asym_example = replaces_asym transactions 10 (100, 10) (110, 11) replaced

abbrev conversions : Conversions
conversions = record {
  bytes_to_address = λ b. b;
  bytes_to_hash = λ b. b;
  bytes_to_address-id = λ b h. refl;
  bytes_to_hash-id = λ b h. refl;
}

slot_key_roundtrip_example :
    (address_from_slot_key conversions (slot_key_for (replicate 20 7) (replicate 32 9))
      ≡ ok (replicate 20 7))
    × (slot_from_slot_key conversions (slot_key_for (replicate 20 7) (replicate 32 9))
        ≡ ok (replicate 32 9))
slot_key_roundtrip_example =
    slot_key_roundtrip conversions (replicate 20 7) (replicate 32 9) refl refl

-- The transactions of two senders in turn, with one in between that is no Ethereum transaction.
abbrev pool : List (Option PoolTx)
pool =
    some (tx_of 7 3 30)
    ∷ some (tx_of 8 5 50)
    ∷ none
    ∷ some (tx_of 8 6 60)
    ∷ some (tx_of 7 4 40)
    ∷ []

abbrev nonces : Address → ℕ
nonces a = if a == 7 then 3 else 5

pending-AreContiguous_example :
    lookup 7 (pending nonces pool) ≡ entry_of (tx_of 7 3 30 ∷ tx_of 7 4 40 ∷ [])
unfolding sent_by
pending-AreContiguous_example =
    pending-AreContiguous nonces 7 pool (omega arith) (omega arith) (refl, refl, (refl, refl, tt))

pending_from_zero_example :
    (lookup 7 (pending (λ a. 0) (some (tx_of 7 0 30) ∷ some (tx_of 7 1 40) ∷ []))
      ≡ some (tx_of 7 0 30 ∷ []))
    × (lookup 7 (queued (λ a. 0) (some (tx_of 7 0 30) ∷ some (tx_of 7 1 40) ∷ [])) ≡ none)
pending_from_zero_example = pending_from_zero (λ a. 0) 7 30 40 refl
