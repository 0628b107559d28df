-- ===== src/Mempool/Reader.antt =====
-- cosmos/x/evm/plugins/txpool/mempool/mempool_reader.go: which transactions of the pool are pending and
-- which are queued. The pool's selection, in its order, and the nonces of the state are parameters; a
-- transaction that is not an Ethereum one is `none`.
pub mod Contiguous
use molaris.Prelude.{
  ℕ, suc, ◌+◌, ◌-◌, ◌%◌, ◌<◌, ◌≡◌, refl, sym, ap, ◌∙◌, Bool, true, false, Option, none, some, List,
  [], ◌∷◌, ◌++◌, arith, leb, ◌==◌, if◌then◌else◌, ==_iff, ==_refl, lookup, insert, nat_eq,
}
use molaris.Journal.{Address, Hash, u64_mod}

pub record PoolTx : Type 0 where
  pub sender : Address
  pub nonce : ℕ
  pub hash : Hash

-- The two maps that a scan builds.
pub record Scan : Type 0 where
  pub pending_nonces : List (Address × ℕ)
  pub found : List (Address × List PoolTx)

abbrev pub start : Scan
start = record { pending_nonces = []; found = [] }

abbrev pub nonce_or_zero : Option ℕ → ℕ
nonce_or_zero none = 0
nonce_or_zero (some n) = n

abbrev pub txs_of : Option (List PoolTx) → List PoolTx
txs_of none = []
txs_of (some txs) = txs

-- `m[addr] = append(m[addr], tx)`
abbrev pub add_tx : List (Address × List PoolTx) → PoolTx → List (Address × List PoolTx)
add_tx m tx = insert tx.sender (txs_of (lookup tx.sender m) ++ tx ∷ []) m

-- `nonce - sdbNonce >= 1` of `uint64`.
abbrev pub has_gap : ℕ → ℕ → Bool
has_gap nonce sdb_nonce = leb 1 ((nonce + u64_mod - sdb_nonce) % u64_mod)

unfoldable pub pending_step : (Address → ℕ) → Scan → PoolTx → Scan
pending_step nr s tx =
    let pending_nonce = nonce_or_zero (lookup tx.sender s.pending_nonces) in
    if pending_nonce == 0
    then (if has_gap tx.nonce (nr tx.sender) then s else record {
      pending_nonces = insert tx.sender tx.nonce s.pending_nonces;
      found = add_tx s.found tx;
    })
    else if tx.nonce == ((pending_nonce + 1) % u64_mod)
    then record {
      pending_nonces = insert tx.sender ((pending_nonce + 1) % u64_mod) s.pending_nonces;
      found = add_tx s.found tx;
    }
    else s

unfoldable pub queued_step : (Address → ℕ) → Scan → PoolTx → Scan
queued_step nr s tx = elim (lookup tx.sender s.pending_nonces) [
  | none ↦
      if has_gap tx.nonce (nr tx.sender)
      then record s { found = add_tx s.found tx }
      else record s { pending_nonces = insert tx.sender tx.nonce s.pending_nonces }
  | some pending_nonce ↦
      if tx.nonce == ((pending_nonce + 1) % u64_mod)
      then record s {
        pending_nonces = insert tx.sender ((pending_nonce + 1) % u64_mod) s.pending_nonces;
      }
      else record s { found = add_tx s.found tx }
]

-- The loop over the selection.
unfoldable pub scan : (Scan → PoolTx → Scan) → Scan → List (Option PoolTx) → Scan
scan step s [] = s
scan step s (none ∷ rest) = scan step s rest
scan step s (some tx ∷ rest) = scan step (step s tx) rest

unfoldable pub pending : (Address → ℕ) → List (Option PoolTx) → List (Address × List PoolTx)
pending nr selected = (scan (pending_step nr) start selected).found

unfoldable pub queued : (Address → ℕ) → List (Option PoolTx) → List (Address × List PoolTx)
queued nr selected = (scan (queued_step nr) start selected).found

pub no_gap : (n m : ℕ) → n ≡ m → has_gap n m ≡ false
no_gap n m e = ground arith

gap_of_one : (m : ℕ) → m ≡ 0 → has_gap 1 m ≡ true
gap_of_one m e = ground arith

abbrev seen_one : Address → ℕ → PoolTx → Scan
seen_one a n tx = record { pending_nonces = (a, n) ∷ []; found = (a, tx ∷ []) ∷ [] }

pending_step-first :
    (nr : Address → ℕ) (tx : PoolTx)
    → tx.nonce ≡ nr tx.sender
    → pending_step nr start tx ≡ seen_one tx.sender tx.nonce tx
unfolding pending_step lookup insert
pending_step-first nr tx e = rw (no_gap tx.nonce (nr tx.sender) e) refl

queued_step-first :
    (nr : Address → ℕ) (tx : PoolTx)
    → tx.nonce ≡ nr tx.sender
    → queued_step nr start tx ≡ record { pending_nonces = (tx.sender, tx.nonce) ∷ []; found = [] }
unfolding queued_step lookup insert
queued_step-first nr tx e = rw (no_gap tx.nonce (nr tx.sender) e) refl

pub next_nonce : (n : ℕ) → suc n < u64_mod → (n + 1) % u64_mod ≡ suc n
next_nonce n h = omega arith

queued_step-next :
    (nr : Address → ℕ) (n : ℕ) (s : Scan) (tx : PoolTx)
    → suc n < u64_mod
    → lookup tx.sender s.pending_nonces ≡ some n
    → tx.nonce ≡ suc n
    → queued_step nr s tx ≡ record s { pending_nonces = insert tx.sender (suc n) s.pending_nonces }
unfolding queued_step
queued_step-next nr n s tx high e next =
    rw (queued_step, e, next_nonce n high, (==_iff tx.nonce (suc n)).1 next) refl

abbrev pub tx_of : Address → ℕ → Hash → PoolTx
tx_of a n h = record { sender = a; nonce = n; hash = h }

-- A sender whose account has nonce 0 and who has sent the transactions 0 and 1 has only the first
-- pending, and the second is not queued either: the map's zero value is taken for a sender that was
-- not seen.
pub pending_from_zero :
    (nr : Address → ℕ) (a : Address) (h0 h1 : Hash)
    → nr a ≡ 0
    → (lookup a (pending nr (some (tx_of a 0 h0) ∷ some (tx_of a 1 h1) ∷ []))
        ≡ some (tx_of a 0 h0 ∷ []))
      × (lookup a (queued nr (some (tx_of a 0 h0) ∷ some (tx_of a 1 h1) ∷ [])) ≡ none)
unfolding pending queued scan pending_step queued_step lookup insert
pending_from_zero nr a h0 h1 e = (
  ap (λ x. lookup a (pending_step nr x (tx_of a 1 h1)).found)
        (pending_step-first nr (tx_of a 0 h0) (sym e))
      ∙ rw (==_refl a, gap_of_one (nr a) e, ==_refl a) refl,
  ap (λ x. lookup a (queued_step nr x (tx_of a 1 h1)).found)
        (queued_step-first nr (tx_of a 0 h0) (sym e))
      ∙ ap (λ x. lookup a x.found)
          (queued_step-next nr 0 (record { pending_nonces = (a, 0) ∷ []; found = [] })
            (tx_of a 1 h1) (omega arith) (rw (==_refl a) refl) refl),
)
