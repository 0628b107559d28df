-- ===== src/Mempool/Reader/Contiguous.antt =====
-- The pending transactions of a sender in a selection with others in between.
use molaris.Prelude.{
  ℕ, suc, ◌+◌, ◌%◌, ◌≤◌, ◌<◌, ◌≡◌, refl, sym, ap, ◌∙◌, inl, inr, false, Option, none, some, List,
  [], ◌∷◌, ◌++◌, append-nil, append_assoc, arith, ◌==◌, if◌then◌else◌, ne→==, ==_iff, Bool-cases,
  length, lookup, insert, lookup-insert_self, lookup-insert_ne, nat_eq,
}
use molaris.Journal.{Address, u64_mod}
use molaris.Mempool.Reader.{
  PoolTx, Scan, start, nonce_or_zero, add_tx, has_gap, pending_step, scan, pending, no_gap,
  next_nonce,
}

-- The transactions of one sender from a nonce on, without a gap.
abbrev pub AreContiguous : Address → ℕ → List PoolTx → Type 0
AreContiguous a n [] = Unit {0}
AreContiguous a n (tx ∷ rest) = (tx.sender ≡ a) × (tx.nonce ≡ n) × AreContiguous a (suc n) rest

pending_step-next :
    (nr : Address → ℕ) (n : ℕ) (s : Scan) (done : List PoolTx) (tx : PoolTx)
    → 1 ≤ n
    → suc n < u64_mod
    → lookup tx.sender s.pending_nonces ≡ some n
    → lookup tx.sender s.found ≡ some done
    → tx.nonce ≡ suc n
    → pending_step nr s tx ≡ record {
      pending_nonces = insert tx.sender (suc n) s.pending_nonces;
      found = insert tx.sender (done ++ tx ∷ []) s.found;
    }
unfolding pending_step
pending_step-next nr n s done tx low high e f next = simp (
  e,
  f,
  ne→== n 0 (λ z. absurd (omega (arith, z, low))),
  next_nonce n high,
  (==_iff tx.nonce (suc n)).1 next,
)

-- The transactions of one sender in a selection, in its order.
unfoldable pub sent_by : Address → List (Option PoolTx) → List PoolTx
sent_by a [] = []
sent_by a (none ∷ rest) = sent_by a rest
sent_by a (some tx ∷ rest) = if tx.sender == a then tx ∷ sent_by a rest else sent_by a rest

-- What a scan knows of a sender is its entries in both maps.
record SameFor (a : Address) (s t : Scan) : Type 0 where
  nonce_kept : lookup a t.pending_nonces ≡ lookup a s.pending_nonces
  found_kept : lookup a t.found ≡ lookup a s.found

-- A transaction of another sender does not touch them.
pending_step-other :
    (nr : Address → ℕ) (a : Address) (s : Scan) (tx : PoolTx)
    → (tx.sender == a) ≡ false
    → SameFor a s (pending_step nr s tx)
unfolding pending_step
pending_step-other nr a s tx other =
    let pending_nonce = nonce_or_zero (lookup tx.sender s.pending_nonces) in
    let kept : SameFor a s s = record { nonce_kept = refl; found_kept = refl } in
    let added : (n : ℕ)
        → SameFor a s (record {
          pending_nonces = insert tx.sender n s.pending_nonces;
          found = add_tx s.found tx;
        }) =
      λ n. record {
        nonce_kept = lookup-insert_ne tx.sender a n s.pending_nonces other;
        found_kept = lookup-insert_ne tx.sender a _ s.found other;
      } in
    elim (Bool-cases (pending_nonce == 0)) [
      | inl unseen ↦ elim (Bool-cases (has_gap tx.nonce (nr tx.sender))) [
        | inl gap ↦ rw (unseen, gap) kept
        | inr fits ↦ rw (unseen, fits) (added tx.nonce)
      ]
      | inr seen ↦ elim (Bool-cases (tx.nonce == ((pending_nonce + 1) % u64_mod))) [
        | inl next ↦ rw (seen, next) (added ((pending_nonce + 1) % u64_mod))
        | inr later ↦ rw (seen, later) kept
      ]
    ]

-- A sender that was seen, in a selection that goes on with its next nonces.
pending-rest :
    (nr : Address → ℕ) (a : Address) (selected : List (Option PoolTx)) (n : ℕ) (s : Scan)
    (done : List PoolTx)
    → 1 ≤ n
    → n + length (sent_by a selected) < u64_mod
    → lookup a s.pending_nonces ≡ some n
    → lookup a s.found ≡ some done
    → AreContiguous a (suc n) (sent_by a selected)
    → lookup a (scan (pending_step nr) s selected).found ≡ some (done ++ sent_by a selected)
unfolding scan sent_by
pending-rest nr a [] n s done low high e f c = f ∙ ap some (sym (append-nil done))
pending-rest nr a (none ∷ rest) n s done low high e f c =
    pending-rest nr a rest n s done low high e f c
pending-rest nr a (some tx ∷ rest) n s done low high e f c = elim (Bool-cases (tx.sender == a)) [
  | inl same ↦
      let mine : tx.sender ≡ a = (==_iff tx.sender a).0 same in
      let (is, next, c') : AreContiguous a (suc n) (tx ∷ sent_by a rest) = rw same at c in
      let high' : n + suc (length (sent_by a rest)) < u64_mod = rw same at high in
      let step =
        pending_step-next nr n s done tx low (omega (arith, high'))
          (ap (λ k. lookup k s.pending_nonces) mine ∙ e) (ap (λ k. lookup k s.found) mine ∙ f)
          next in
      let t : Scan = record {
        pending_nonces = insert tx.sender (suc n) s.pending_nonces;
        found = insert tx.sender (done ++ tx ∷ []) s.found;
      } in
      ap (λ x. lookup a (scan (pending_step nr) x rest).found) step
      ∙ pending-rest nr a rest (suc n) t (done ++ tx ∷ []) (omega arith) (omega (arith, high'))
          (ap (λ k. lookup a (insert k (suc n) s.pending_nonces)) mine
            ∙ lookup-insert_self a (suc n) s.pending_nonces)
          (ap (λ k. lookup a (insert k (done ++ tx ∷ []) s.found)) mine
            ∙ lookup-insert_self a (done ++ tx ∷ []) s.found)
          c'
      ∙ ap some (append_assoc done (tx ∷ []) (sent_by a rest))
      ∙ rw same refl
  | inr other ↦
      let k = pending_step-other nr a s tx other in
      pending-rest nr a rest n (pending_step nr s tx) done low (rw other at high) (k.nonce_kept ∙ e)
        (k.found_kept ∙ f) (rw other at c)
      ∙ rw other refl
]

-- What the map holds for a sender with these transactions: no entry where there are none.
abbrev pub entry_of : List PoolTx → Option (List PoolTx)
entry_of [] = none
entry_of (tx ∷ txs) = some (tx ∷ txs)

-- The first transaction of a sender, with the nonce of its account.
pending_step-unseen :
    (nr : Address → ℕ) (s : Scan) (tx : PoolTx)
    → lookup tx.sender s.pending_nonces ≡ none
    → lookup tx.sender s.found ≡ none
    → tx.nonce ≡ nr tx.sender
    → pending_step nr s tx ≡ record {
      pending_nonces = insert tx.sender tx.nonce s.pending_nonces;
      found = insert tx.sender (tx ∷ []) s.found;
    }
unfolding pending_step
pending_step-unseen nr s tx e f first = simp (e, f, no_gap tx.nonce (nr tx.sender) first)

-- A sender that was not seen.
pending-unseen :
    (nr : Address → ℕ) (a : Address) (selected : List (Option PoolTx)) (s : Scan)
    → 1 ≤ nr a
    → nr a + length (sent_by a selected) ≤ u64_mod
    → lookup a s.pending_nonces ≡ none
    → lookup a s.found ≡ none
    → AreContiguous a (nr a) (sent_by a selected)
    → lookup a (scan (pending_step nr) s selected).found ≡ entry_of (sent_by a selected)
unfolding scan sent_by
pending-unseen nr a [] s low high e f c = f
pending-unseen nr a (none ∷ rest) s low high e f c = pending-unseen nr a rest s low high e f c
pending-unseen nr a (some tx ∷ rest) s low high e f c = elim (Bool-cases (tx.sender == a)) [
  | inl same ↦
      let mine : tx.sender ≡ a = (==_iff tx.sender a).0 same in
      let (is, first, c') : AreContiguous a (nr a) (tx ∷ sent_by a rest) = rw same at c in
      let high' : nr a + suc (length (sent_by a rest)) ≤ u64_mod = rw same at high in
      let step =
        pending_step-unseen nr s tx (ap (λ k. lookup k s.pending_nonces) mine ∙ e)
          (ap (λ k. lookup k s.found) mine ∙ f) (first ∙ ap nr (sym mine)) in
      let t : Scan = record {
        pending_nonces = insert tx.sender tx.nonce s.pending_nonces;
        found = insert tx.sender (tx ∷ []) s.found;
      } in
      ap (λ x. lookup a (scan (pending_step nr) x rest).found) step
      ∙ pending-rest nr a rest (nr a) t (tx ∷ []) low (omega (arith, high'))
          (ap (λ k. lookup a (insert k tx.nonce s.pending_nonces)) mine
            ∙ lookup-insert_self a tx.nonce s.pending_nonces
            ∙ ap some first)
          (ap (λ k. lookup a (insert k (tx ∷ []) s.found)) mine
            ∙ lookup-insert_self a (tx ∷ []) s.found)
          c'
      ∙ rw same refl
  | inr other ↦
      let k = pending_step-other nr a s tx other in
      pending-unseen nr a rest (pending_step nr s tx) low (rw other at high) (k.nonce_kept ∙ e)
        (k.found_kept ∙ f) (rw other at c)
      ∙ rw other refl
]

-- In any selection, with transactions of other senders and such that are no Ethereum ones in between:
-- where the nonce of a sender's account is not 0, its transactions follow on the account without a gap
-- in the selection's order, and their nonces are `uint64`s, all of them are pending, in that order, and
-- a sender without a transaction has no entry.
pub pending-AreContiguous :
    (nr : Address → ℕ) (a : Address) (selected : List (Option PoolTx))
    → 1 ≤ nr a
    → nr a + length (sent_by a selected) ≤ u64_mod
    → AreContiguous a (nr a) (sent_by a selected)
    → lookup a (pending nr selected) ≡ entry_of (sent_by a selected)
unfolding pending lookup
pending-AreContiguous nr a selected low high c =
    pending-unseen nr a selected start low high refl refl c
