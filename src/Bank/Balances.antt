-- ===== src/Bank/Balances.antt =====
-- What the balances read after a change, and what a revert brings back.
use molaris.Prelude.{
  ◌+◌, ◌-◌, ◌≡◌, refl, sym, ap, ◌∙◌, subst, inl, inr, true, none, some, List, [], ◌∷◌, ◌++◌, arith,
  ◌==◌, if◌then◌else◌, ne→==, ==_iff, Bool-cases, length, set, length-append, take_all, take-append,
  last_or-append, ℤ, pos_part, neg_part, ◌-ℤ◌, eqb_ℤ, -ℤ_parts, eq_of_parts, pos, ok, lookup,
  insert, lookup-insert, nat_eq,
}
use molaris.Stack.Items.{
  Holds, push-Holds, peek-Holds, pop_to_size-Holds, set-Holds, size-eq-length,
}
use molaris.Journal.{Address}
use molaris.Bank.{
  BankKeeper, State, empty_state, Manager, get_cur_state, set_cur_state, get_balance, set_balance,
  snapshot, revert_to_snapshot,
}

-- The manager's states, the current one last.
abbrev pub HasStates : Manager → List State → State → Type 0
HasStates m below top = Holds m.states (below ++ top ∷ [])

get_cur_state-HasStates :
    (m : Manager) (below : List State) (top : State)
    → HasStates m below top
    → get_cur_state m ≡ ok (m, top)
unfolding get_cur_state
get_cur_state-HasStates m below top h =
    rw
      (
        ne→== m.states.size 0
            (λ e. absurd (omega (arith, e, size-eq-length h, length-append below (top ∷ [])))),
        peek-Holds empty_state m.states (below ++ top ∷ []) h,
        last_or-append below top empty_state,
      )
      refl

-- A manager without states gets an empty one.
pub get_cur_state_empty :
    (m : Manager)
    → Holds m.states []
    → (m' : Manager) × (get_cur_state m ≡ ok (m', empty_state)) × HasStates m' [] empty_state
unfolding get_cur_state
get_cur_state_empty m h =
    let (s, e, k) = push-Holds empty_state m.states [] empty_state h in
    let none_yet : (m.states.size == 0) ≡ true = ap (λ n. n == 0) (size-eq-length h) in
    (
      record m { states = s },
      rw (none_yet, e, peek-Holds empty_state s (empty_state ∷ []) k) refl,
      k,
    )

module _ {B Error : Type 0} (keeper : BankKeeper B Error) where
  -- The balance that a state shows: its own entry, or what the bank holds.
  abbrev pub shown : State → B → Address → ℤ
  shown s bank addr = elim (lookup addr s.dirty_balances) [
    | some b ↦ b
    | none ↦ keeper.balance bank addr
  ]

  get_balance-shown :
      (m : Manager) (below : List State) (top : State) (bank : B) (addr : Address)
      → HasStates m below top
      → get_balance keeper m bank addr ≡ ok (m, shown top bank addr)
  unfolding get_balance
  get_balance-shown m below top bank addr h = rw (get_cur_state-HasStates m below top h) refl

  shown-insert :
      (s t : State) (bank : B) (addr a : Address) (new_balance : ℤ)
      → t.dirty_balances ≡ insert addr new_balance s.dirty_balances
      → shown t bank a ≡ (if addr == a then new_balance else shown s bank a)
  shown-insert s t bank addr a new_balance e =
      ap (λ m. elim (lookup a m) [ some b ↦ b | none ↦ keeper.balance bank a ]) e
      ∙ ap (λ o. elim o [ some b ↦ b | none ↦ keeper.balance bank a ])
          (lookup-insert addr a new_balance s.dirty_balances)
      ∙ (elim (Bool-cases (addr == a)) [ inl same ↦ rw same refl | inr other ↦ rw other refl ])

  no_change : (old new_balance : ℤ) → eqb_ℤ (new_balance -ℤ old) (pos 0) ≡ true → new_balance ≡ old
  no_change old new_balance z = eq_of_parts new_balance old (
      omega (
        arith,
        -ℤ_parts new_balance old,
        (==_iff (pos_part (new_balance -ℤ old) + 0) (0 + neg_part (new_balance -ℤ old))).0 z,
      ))

  shown-same :
      (s : State) (bank : B) (addr a : Address) (new_balance : ℤ)
      → new_balance ≡ shown s bank addr
      → shown s bank a ≡ (if addr == a then new_balance else shown s bank a)
  shown-same s bank addr a new_balance e = elim (Bool-cases (addr == a)) [
    | inl same ↦ rw same (sym (e ∙ ap (shown s bank) ((==_iff addr a).0 same)))
    | inr other ↦ rw other refl
  ]

  set_cur_state-HasStates :
      (m : Manager) (below : List State) (top t : State)
      → HasStates m below top
      → HasStates (set_cur_state m t) below t
  set_cur_state-HasStates m below top t h =
      let last : length below ≡ m.states.size - 1 =
        omega (arith, size-eq-length h, length-append below (top ∷ [])) in
      subst (λ i. Holds (record (m.states) { buf = set m.states.buf i t }) (below ++ t ∷ [])) last
        (set-Holds empty_state m.states below [] top t h)

  -- A balance that is set is read back, and no other changes; the states below are kept.
  pub set_balance-HasStates :
      (m : Manager) (below : List State) (top : State) (bank : B) (addr : Address) (new_balance : ℤ)
      → HasStates m below top
      → (m' : Manager) × (top' : State) × (set_balance keeper m bank addr new_balance ≡ ok m')
        × HasStates m' below top'
        × ((a : Address)
            → get_balance keeper m' bank a
              ≡ ok (m', if addr == a then new_balance else shown top bank a))
  unfolding set_balance
  set_balance-HasStates m below top bank addr new_balance h =
      let old = shown top bank addr in
      let delta = new_balance -ℤ old in
      elim (Bool-cases (eqb_ℤ delta (pos 0))) [
        | inl z ↦ (
          m,
          top,
          rw (get_balance-shown m below top bank addr h, z) refl,
          h,
          λ a.
              get_balance-shown m below top bank a h
              ∙ ap (λ v. ok (m, v))
                  (shown-same top bank addr a new_balance (no_change old new_balance z)),
        )
        | inr changed ↦
            let t : State = record {
              balance_changes = top.balance_changes ++ record { addr = addr; delta = delta } ∷ [];
              dirty_balances = insert addr new_balance top.dirty_balances;
            } in
            let k = set_cur_state-HasStates m below top t h in
            (
              set_cur_state m t,
              t,
              rw
                  (
                    get_balance-shown m below top bank addr h,
                    changed,
                    get_cur_state-HasStates m below top h,
                  )
                  refl,
              k,
              λ a.
                  get_balance-shown (set_cur_state m t) below t bank a k
                  ∙ ap (λ v. ok (set_cur_state m t, v))
                      (shown-insert top t bank addr a new_balance refl),
            )
      ]

  -- A balance that is set after a snapshot is what it was once the snapshot is reverted: the id of the
  -- snapshot brings back the states that stood there.
  pub revert-set_balance-snapshot :
      (m : Manager) (below : List State) (top : State) (bank : B) (addr : Address) (new_balance : ℤ)
      → HasStates m below top
      → (m1 : Manager) × (m2 : Manager) × (m3 : Manager) × (snapshot m
          ≡ ok (m1, pos (length below + 1)))
        × (set_balance keeper m1 bank addr new_balance ≡ ok m2)
        × (revert_to_snapshot m2 (pos (length below + 1)) ≡ ok m3)
        × HasStates m3 below top
        × ((a : Address) → get_balance keeper m3 bank a ≡ ok (m3, shown top bank a))
  unfolding snapshot revert_to_snapshot
  revert-set_balance-snapshot m below top bank addr new_balance h =
      let fresh : State = record { balance_changes = []; dirty_balances = top.dirty_balances } in
      let (s1, e1, h1) = push-Holds empty_state m.states (below ++ top ∷ []) fresh h in
      let m1 : Manager = record m { states = s1 } in
      let (m2, t, e2, h2, reads) =
        set_balance-HasStates m1 (below ++ top ∷ []) fresh bank addr new_balance h1 in
      let count : length (below ++ top ∷ []) ≡ length below + 1 = length-append below (top ∷ []) in
      let (s3, e3, h3) =
        pop_to_size-Holds empty_state m2.states ((below ++ top ∷ []) ++ t ∷ []) (length below + 1)
          h2 (omega (arith, count, length-append (below ++ top ∷ []) (t ∷ []))) in
      let m3 : Manager = record m2 { states = s3 } in
      let kept : HasStates m3 below top =
        subst (Holds s3)
          (take-append (length below + 1) (below ++ top ∷ []) (t ∷ []) (omega (arith, count))
            ∙ take_all (length below + 1) (below ++ top ∷ []) (omega (arith, count)))
          h3 in
      (
        m1,
        m2,
        m3,
        rw (get_cur_state-HasStates m below top h, e1, count) (ap (λ i. ok (m1, i)) (ground arith)),
        e2,
        rw e3 refl,
        kept,
        λ a. get_balance-shown m3 below top bank a kept,
      )
