-- ===== src/Mempool.antt =====
-- cosmos/x/evm/plugins/txpool/mempool/mempool_policy.go: which transaction takes the place of another
-- one of the same nonce, and the priority of a transaction.
pub mod Reader
use molaris.Prelude.{
  ℕ, ◌+◌, ◌*◌, ◌/◌, ◌%◌, ◌^◌, ◌≤◌, ◌<◌, ◌≡◌, refl, ap, ◌∙◌, ◌↔◌, Bool, true, false, ◌||◌, Option,
  none, some, arith, ltb, leb, if◌then◌else◌, lt→ltb, ge→leb, ℤ, sub_ℕ, ltb_ℤ, pos, negsuc,
}
use molaris.Journal.{u64_mod}

-- What the policy reads of an Ethereum transaction.
pub record EthTx : Type 0 where
  pub gas_fee_cap : ℕ
  pub gas_tip_cap : ℕ

-- `GetAsEthTx` is `none` where the SDK's transaction does not wrap an Ethereum one.
pub record Transactions (Tx Priority : Type 0) : Type 0 where
  pub as_eth_tx : Tx → Option EthTx
  pub default_priority : Tx → Priority
  pub effective_gas_tip_value : EthTx → ℕ → Priority

-- `int64(x)` of a `uint64`.
abbrev pub to_i64 : ℕ → ℤ
to_i64 n = if ltb (n % u64_mod) (2 ^ 63) then pos (n % u64_mod) else sub_ℕ (n % u64_mod) u64_mod

-- `a * price / 100` of big integers, rounded down.
abbrev pub percent_of : ℤ → ℕ → ℤ
percent_of (pos a) price = pos (a * price / 100)
percent_of (negsuc a) price = sub_ℕ 0 (((a + 1) * price + 99) / 100)

to_i64_small : (n : ℕ) → n < 2 ^ 63 → to_i64 n ≡ pos n
to_i64_small n h =
    let whole : n % u64_mod ≡ n = omega arith in
    ap (λ k. if ltb k (2 ^ 63) then pos k else sub_ℕ k u64_mod) whole
    ∙ rw (lt→ltb n (2 ^ 63) h) refl

test_iff :
    (old_fee old_tip new_fee new_tip f t : ℕ)
    → ((if leb new_fee old_fee || leb new_tip old_tip
          then false
          else if ltb_ℤ (pos new_fee) (pos f) || ltb_ℤ (pos new_tip) (pos t)
          then false
          else true)
        ≡ true)
      ↔ ((old_fee < new_fee) × (old_tip < new_tip) × (f ≤ new_fee) × (t ≤ new_tip))
test_iff old_fee old_tip new_fee new_tip f t =
    (λ e. (ground arith, ground arith, ground arith, ground arith), λ e. ground arith)

module _ {Tx Priority : Type 0} (txs : Transactions Tx Priority) where
  unfoldable pub get_tx_priority : ℕ → Tx → Priority
  get_tx_priority base_fee tx = elim (txs.as_eth_tx tx) [
    | none ↦ txs.default_priority tx
    | some eth_tx ↦ txs.effective_gas_tip_value eth_tx base_fee
  ]

  -- The test of two Ethereum transactions. The sum `100 + int64(PriceBump)` wraps.
  unfoldable pub outbids : ℕ → EthTx → EthTx → Bool
  outbids price_bump old_tx new_tx =
      if leb new_tx.gas_fee_cap old_tx.gas_fee_cap || leb new_tx.gas_tip_cap old_tx.gas_tip_cap
      then false
      else let a = to_i64 (100 + price_bump) in
        let threshold_fee_cap = percent_of a old_tx.gas_fee_cap in
        let threshold_tip = percent_of a old_tx.gas_tip_cap in
        if ltb_ℤ (pos new_tx.gas_fee_cap) threshold_fee_cap
          || ltb_ℤ (pos new_tx.gas_tip_cap) threshold_tip
        then false
        else true

  -- `Func`
  unfoldable pub replaces : ℕ → Tx → Tx → Bool
  replaces price_bump old_tx new_tx = elim (txs.as_eth_tx old_tx) [
    | none ↦ false
    | some o ↦ elim (txs.as_eth_tx new_tx) [ none ↦ false | some n ↦ outbids price_bump o n ]
  ]

  -- For a price bump that is small enough for the sum, one Ethereum transaction replaces another
  -- exactly if both its fee cap and its tip are higher, and each reaches the old one raised by the
  -- bump and rounded down.
  pub outbids_iff :
      (price_bump : ℕ) (old_tx new_tx : EthTx)
      → price_bump + 100 < 2 ^ 63
      → (outbids price_bump old_tx new_tx ≡ true) ↔ (
          (old_tx.gas_fee_cap < new_tx.gas_fee_cap)
          × (old_tx.gas_tip_cap < new_tx.gas_tip_cap)
          × ((100 + price_bump) * old_tx.gas_fee_cap / 100 ≤ new_tx.gas_fee_cap)
          × ((100 + price_bump) * old_tx.gas_tip_cap / 100 ≤ new_tx.gas_tip_cap))
  unfolding outbids
  outbids_iff price_bump old_tx new_tx h = rw (to_i64_small (100 + price_bump) (omega arith)) (
      test_iff old_tx.gas_fee_cap old_tx.gas_tip_cap new_tx.gas_fee_cap new_tx.gas_tip_cap
        ((100 + price_bump) * old_tx.gas_fee_cap / 100)
        ((100 + price_bump) * old_tx.gas_tip_cap / 100))

  higher :
      (price_bump : ℕ) (o n : EthTx) → outbids price_bump o n ≡ true → o.gas_fee_cap < n.gas_fee_cap
  unfolding outbids
  higher price_bump o n h = ground arith

  lower :
      (price_bump : ℕ) (o n : EthTx)
      → o.gas_fee_cap < n.gas_fee_cap
      → outbids price_bump n o ≡ false
  unfolding outbids
  lower price_bump o n h = rw (ge→leb n.gas_fee_cap o.gas_fee_cap (omega arith)) refl

  -- A transaction that has replaced another is not replaced by it again, whatever the price bump.
  pub replaces_asym :
      (price_bump : ℕ) (old_tx new_tx : Tx)
      → replaces price_bump old_tx new_tx ≡ true
      → replaces price_bump new_tx old_tx ≡ false
  unfolding replaces
  replaces_asym price_bump old_tx new_tx h = go (txs.as_eth_tx old_tx) (txs.as_eth_tx new_tx) h
    where
      go :
          (o n : Option EthTx)
          → (elim o [
            | none ↦ false
            | some x ↦ elim n [ none ↦ false | some y ↦ outbids price_bump x y ]
          ])
            ≡ true
          → (elim n [
            | none ↦ false
            | some y ↦ elim o [ none ↦ false | some x ↦ outbids price_bump y x ]
          ])
            ≡ false
      go none n e = absurd (cc)
      go (some x) none e = refl
      go (some x) (some y) e = lower price_bump x y (higher price_bump x y e)
