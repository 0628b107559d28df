-- ===== src/Gas.antt =====
-- cosmos/x/evm/plugins/gas/plugin.go: the gas of a transaction, on the gas meters of the Cosmos
-- context. The meters are the SDK's, a parameter here.
use molaris.Prelude.{
  ℕ, ◌+◌, ◌-◌, ◌%◌, ◌≤◌, ◌<◌, ◌≡◌, refl, Bool, true, false, Option, none, some, arith, ltb, ◌==◌,
  if◌then◌else◌, ge→ltb, ℤ, pos, negsuc, Exec, nil_access, ok, panics, ◌>>=◌,
}
use molaris.Journal.{u64_mod}

-- The SDK's `GasMeter`.
pub record Meters (M : Type 0) : Type 0 where
  pub gas_consumed : M → ℕ
  pub gas_remaining : M → ℕ
  pub limit : M → ℕ
  pub consume_gas : M → ℕ → Exec M

-- A meter counts in `uint64`, and accepts what stays within its limit.
pub record MetersLaw {M : Type 0} (meters : Meters M) : Type 0 where
  pub gas_consumed-lt : (m : M) → meters.gas_consumed m < u64_mod
  pub limit-lt : (m : M) → meters.limit m < u64_mod
  pub consume_gas-ok :
      (m : M) (amount : ℕ)
      → meters.gas_consumed m + amount ≤ meters.limit m
      → (m' : M) × (meters.consume_gas m amount ≡ ok m')
        × (meters.gas_consumed m' ≡ meters.gas_consumed m + amount)
        × (meters.limit m' ≡ meters.limit m)

pub data GasError : Type 0 where
  gas_uint_overflow out_of_gas block_out_of_gas : GasError

pub record GasPlugin (M : Type 0) : Type 0 where
  pub gas_meter : M
  pub block_gas_meter : M
  pub consensus_max_gas : ℕ

-- What the plugin reads of the context; `max_gas` is `none` without block parameters.
pub record Context (M : Type 0) : Type 0 where
  pub gas_meter : Option M
  pub block_gas_meter : Option M
  pub max_gas : Option ℤ

-- `uint64(x)` of an `int64`.
abbrev pub to_u64 : ℤ → ℕ
to_u64 (pos n) = n % u64_mod
to_u64 (negsuc n) = u64_mod - (n + 1)

unfoldable pub add_uint64_overflow : ℕ → ℕ → ℕ × Bool
add_uint64_overflow a b = if ltb (u64_mod - 1 - a) b then (0, true) else ((a + b) % u64_mod, false)

module _ {M : Type 0} (meters : Meters M) where
  unfoldable pub reset_meters : GasPlugin M → Context M → Exec (GasPlugin M)
  reset_meters p ctx = elim ctx.gas_meter [
    | none ↦ panics nil_access
    | some g ↦ elim ctx.block_gas_meter [
      | none ↦ panics nil_access
      | some b ↦ ok (record {
        gas_meter = g;
        block_gas_meter = b;
        consensus_max_gas = elim ctx.max_gas [ none ↦ p.consensus_max_gas | some n ↦ to_u64 n ];
      })
    ]
  ]

  unfoldable pub tx_gas_remaining : GasPlugin M → ℕ
  tx_gas_remaining p = meters.gas_remaining p.gas_meter

  unfoldable pub block_gas_limit : GasPlugin M → ℕ
  block_gas_limit p =
      let limit = meters.limit p.block_gas_meter in
      if limit == 0 then p.consensus_max_gas else limit

  unfoldable pub block_gas_consumed : GasPlugin M → ℕ
  block_gas_consumed p = meters.gas_consumed p.block_gas_meter

  unfoldable pub consume_tx_gas : GasPlugin M → ℕ → Exec (GasPlugin M × Option GasError)
  consume_tx_gas p amount =
      let r = add_uint64_overflow (meters.gas_consumed p.gas_meter) amount in
      if r.1
      then ok (p, some gas_uint_overflow)
      else if ltb (meters.limit p.gas_meter) r.0
      then ok (p, some out_of_gas)
      else if ltb (meters.limit p.block_gas_meter)
          ((meters.gas_consumed p.block_gas_meter + r.0) % u64_mod)
      then ok (p, some block_out_of_gas)
      else do m ← meters.consume_gas p.gas_meter amount; ok (record p { gas_meter = m }, none)

-- The overflow test is exact: the sum is returned where it is a `uint64`, and 0 with the flag
-- otherwise.
pub add_uint64_overflow_lem :
    (a b : ℕ)
    → a < u64_mod
    → b < u64_mod
    → add_uint64_overflow a b ≡ (if ltb (a + b) u64_mod then (a + b, false) else (0, true))
unfolding add_uint64_overflow
add_uint64_overflow_lem a b h k = ground arith

module _ {M : Type 0} (meters : Meters M) (law : MetersLaw meters) where
  sum-eq :
      (m : M) (amount : ℕ)
      → meters.gas_consumed m + amount < u64_mod
      → add_uint64_overflow (meters.gas_consumed m) amount ≡ (meters.gas_consumed m + amount, false)
  unfolding add_uint64_overflow
  sum-eq m amount h = ground arith

  -- What passes the tests of the source is consumed.
  accepted :
      (p : GasPlugin M) (amount : ℕ)
      → meters.gas_consumed p.gas_meter + amount ≤ meters.limit p.gas_meter
      → (meters.gas_consumed p.block_gas_meter + (meters.gas_consumed p.gas_meter + amount))
          % u64_mod
        ≤ meters.limit p.block_gas_meter
      → (m : M) × (consume_tx_gas meters p amount ≡ ok (record p { gas_meter = m }, none))
        × (meters.gas_consumed m ≡ meters.gas_consumed p.gas_meter + amount)
        × (meters.limit m ≡ meters.limit p.gas_meter)
  unfolding consume_tx_gas
  accepted p amount h k =
      let (m, e, ec, el) = law.consume_gas-ok p.gas_meter amount h in
      let l = law.limit-lt p.gas_meter in
      (
        m,
        rw
            (
              sum-eq p.gas_meter amount (omega arith),
              ge→ltb (meters.limit p.gas_meter) (meters.gas_consumed p.gas_meter + amount) h,
              ge→ltb (meters.limit p.block_gas_meter) _ k,
              e,
            )
            refl,
        ec,
        el,
      )

  -- Gas within the limits of the transaction and of the block is consumed: the call returns without
  -- an error, the transaction's meter counts the amount, and nothing else changes.
  pub consume_tx_gas_within :
      (p : GasPlugin M) (amount : ℕ)
      → meters.gas_consumed p.gas_meter + amount ≤ meters.limit p.gas_meter
      → meters.gas_consumed p.block_gas_meter + (meters.gas_consumed p.gas_meter + amount)
        ≤ meters.limit p.block_gas_meter
      → (m : M) × (consume_tx_gas meters p amount ≡ ok (record p { gas_meter = m }, none))
        × (meters.gas_consumed m ≡ meters.gas_consumed p.gas_meter + amount)
        × (meters.limit m ≡ meters.limit p.gas_meter)
  consume_tx_gas_within p amount h k =
      let bl = law.limit-lt p.block_gas_meter in accepted p amount h (omega arith)

  -- Gas beyond the transaction's limit is refused with an error and nothing is consumed, also where
  -- the sum is no `uint64`.
  pub consume_tx_gas_beyond :
      (p : GasPlugin M) (amount : ℕ)
      → amount < u64_mod
      → meters.limit p.gas_meter < meters.gas_consumed p.gas_meter + amount
      → consume_tx_gas meters p amount
        ≡ ok (
          p,
          some (
              if ltb (meters.gas_consumed p.gas_meter + amount) u64_mod
              then out_of_gas
              else gas_uint_overflow),
        )
  unfolding consume_tx_gas add_uint64_overflow
  consume_tx_gas_beyond p amount h k = let c = law.gas_consumed-lt p.gas_meter in ground arith

  -- The sum for the block is taken in `uint64` without a test: where it is too large for one but wraps
  -- to no more than the block's limit, the call returns without an error, the transaction's meter counts
  -- the amount under the limit it had, and what the block had consumed and that meter are together
  -- above the block's limit.
  pub consume_tx_gas_wraps :
      (p : GasPlugin M) (amount : ℕ)
      → meters.gas_consumed p.gas_meter + amount ≤ meters.limit p.gas_meter
      → u64_mod ≤ meters.gas_consumed p.block_gas_meter + (meters.gas_consumed p.gas_meter + amount)
      → meters.gas_consumed p.block_gas_meter + (meters.gas_consumed p.gas_meter + amount)
        ≤ u64_mod + meters.limit p.block_gas_meter
      → (m : M) × (consume_tx_gas meters p amount ≡ ok (record p { gas_meter = m }, none))
        × (meters.gas_consumed m ≡ meters.gas_consumed p.gas_meter + amount)
        × (meters.limit m ≡ meters.limit p.gas_meter)
        × (meters.limit p.block_gas_meter
            < meters.gas_consumed p.block_gas_meter + meters.gas_consumed m)
  consume_tx_gas_wraps p amount h k w =
      let bl = law.limit-lt p.block_gas_meter in
      let l = law.limit-lt p.gas_meter in
      let (m, e, ec, el) = accepted p amount h (omega arith) in (m, e, ec, el, omega (arith, ec))
