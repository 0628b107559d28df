-- ===== src/Journal/Suicides.antt =====
-- eth/core/state/journal/suicides.go: the accounts that destruct in the present transaction. The
-- state plugin that it calls is a parameter, with its state passed through.
use molaris.Prelude.{
  ℕ, zero, suc, ◌+◌, ◌≤◌, ◌<◌, ◌≡◌, refl, sym, ap, ◌∙◌, subst, ◌≢◌, ◌⊎◌, inl, inr, Bool, true,
  false, ◌||◌, List, [], ◌∷◌, ◌++◌, arith, ◌==◌, if◌then◌else◌, lt→ltb, ge→ltb, ne→==, Bool-cases,
  length, get_or, take, length-append, take_all, take-suc, ℤ, ltb_ℤ, pos, negsuc, Exec, ◌>>=◌, ok,
}
use molaris.Stack
use molaris.Stack.{Stack, items}
use molaris.Stack.Clone.{copy_all, collect_from, collect_from-Holds}
use molaris.Stack.Items.{Holds, size-eq-length, peek_at-Holds}
use molaris.Journal.Marks.{
  StackGuards, push-StackGuards, snapshot-StackGuards, revert-StackGuards, size-length-items,
}
use molaris.Journal.{init_capacity, Address, Hash, zero_hash}

-- `suicideStatePlugin`
pub record SuicideStatePlugin (S : Type 0) : Type 0 where
  pub get_code_hash : S → Address → Hash
  pub get_balance : S → Address → ℤ
  pub sub_balance : S → Address → ℤ → S

pub record Suicides : Type 0 where
  pub journal : Stack Address
  pub last_snapshot : ℤ

unfoldable pub new_suicides : Suicides
new_suicides = record { journal = Stack.new 0 init_capacity; last_snapshot = negsuc 0 }

module _ {S : Type 0} (ssp : SuicideStatePlugin S) (empty_code_hash : Hash) where
  unfoldable pub suicide : Suicides → S → Address → Exec (Suicides × S × Bool)
  suicide s st addr =
      let ch = ssp.get_code_hash st addr in
      if ltb_ℤ s.last_snapshot (pos s.journal.size)
      then ok (s, st, false)
      else if (ch == zero_hash) || (ch == empty_code_hash)
      then ok (s, st, false)
      else do
        let st' = ssp.sub_balance st addr (ssp.get_balance st addr)
        p ← Stack.push 0 s.journal addr
        ok (record s { journal = p.0 }, st', true)

-- `for i := …Size() - 1; i >= 0; i--`, with `n` entries to look at.
unfoldable pub suicided_below : Stack Address → Address → ℕ → Exec Bool
suicided_below s addr zero = ok false
suicided_below s addr (suc n) =
    let rest = suicided_below s addr n in
    (Stack.peek_at 0 s (pos n) >>= λ a. if a == addr then ok true else rest)

unfoldable pub has_suicided : Suicides → Address → Exec Bool
has_suicided s addr = suicided_below s.journal addr s.journal.size

unfoldable pub get_suicides : Suicides → Exec (List Address)
get_suicides s = collect_from 0 s.journal.size s.journal 0

unfoldable pub snapshot : Suicides → Exec (Suicides × ℤ)
snapshot s = ok (record s { last_snapshot = pos s.journal.size }, pos s.journal.size)

unfoldable pub revert_to_snapshot : Suicides → ℤ → Exec Suicides
revert_to_snapshot s id = do p ← Stack.pop_to_size 0 s.journal id; ok (record s { journal = p.0 })

unfoldable pub finalize : Suicides → Suicides
unfolding new_suicides
finalize s = new_suicides

unfoldable pub clone : Suicides → Exec Suicides
clone s = do j ← copy_all 0 (λ addr. addr) s.journal; ok (record s { journal = j })

abbrev pub contains : List Address → Address → Bool
contains [] addr = false
contains (x ∷ xs) addr = (x == addr) || contains xs addr

contains-append :
    (xs : List Address) (x addr : Address)
    → contains (xs ++ x ∷ []) addr ≡ ((x == addr) || contains xs addr)
contains-append [] x addr = refl
contains-append (y ∷ xs) x addr = ground (arith, contains-append xs x addr)

suicided_below-Holds :
    (s : Stack Address) (addr : Address) (xs : List Address) (n : ℕ)
    → Holds s xs
    → n ≤ length xs
    → suicided_below s addr n ≡ ok (contains (take n xs) addr)
unfolding suicided_below
suicided_below-Holds s addr xs zero h l = refl
suicided_below-Holds s addr xs (suc n) h l =
    rw
      (
        peek_at-Holds 0 s xs n h l,
        take-suc n xs 0 l,
        contains-append (take n xs) (get_or xs n 0) addr,
      )
      (ground (arith, suicided_below-Holds s addr xs n h (omega arith)))

-- `HasSuicided` tells whether the account is among the journaled ones.
pub has_suicided-Holds :
    (s : Suicides) (addr : Address) (xs : List Address)
    → Holds s.journal xs
    → has_suicided s addr ≡ ok (contains xs addr)
unfolding has_suicided
has_suicided-Holds s addr xs h =
    suicided_below-Holds s.journal addr xs s.journal.size h (omega (arith, size-eq-length h))
    ∙ ap (λ ys. ok (contains ys addr))
        (take_all s.journal.size xs (omega (arith, size-eq-length h)))

-- `GetSuicides` lists the accounts in the order of their destruction.
pub get_suicides-Holds :
    (s : Suicides) (xs : List Address) → Holds s.journal xs → get_suicides s ≡ ok xs
unfolding get_suicides
get_suicides-Holds s xs h = simp (size-eq-length h) (collect_from-Holds 0 s.journal [] xs h)

module _ {S : Type 0} (ssp : SuicideStatePlugin S) (empty_code_hash : Hash) where
  -- The account has code.
  pub record IsContract (st : S) (addr : Address) : Type 0 where
    pub has_account : ssp.get_code_hash st addr ≢ zero_hash
    pub has_code : ssp.get_code_hash st addr ≢ empty_code_hash

  -- Where the guard allows it, a contract's whole balance is taken and its address is journaled, and
  -- every restore point of the journal is kept.
  pub suicide_once :
      (s : Suicides) (st : S) (addr : Address) (ps : List (ℤ × List Address))
      → StackGuards s.journal ps
      → ltb_ℤ s.last_snapshot (pos s.journal.size) ≡ false
      → IsContract st addr
      → (s' : Suicides) × (suicide ssp empty_code_hash s st addr
          ≡ ok (s', ssp.sub_balance st addr (ssp.get_balance st addr), true))
        × (items s'.journal ≡ items s.journal ++ addr ∷ [])
        × StackGuards s'.journal ps
  unfolding suicide
  suicide_once s st addr ps g allowed c =
      let (j, n, e, ei, g') = push-StackGuards 0 s.journal addr ps g in
      (
        record s { journal = j },
        rw
            (
              allowed,
              ne→== (ssp.get_code_hash st addr) 0 c.has_account,
              ne→== (ssp.get_code_hash st addr) empty_code_hash c.has_code,
              e,
            )
            refl,
        ei,
        g',
      )

  -- After a snapshot a contract can be destroyed, and then no account any more before the next
  -- snapshot: every further call is refused with nothing changed.
  pub suicide_twice :
      (s : Suicides) (st st' : S) (addr other : Address)
      → Stack.IsValid s.journal
      → s.last_snapshot ≡ pos s.journal.size
      → IsContract st addr
      → (s' : Suicides) × (suicide ssp empty_code_hash s st addr
          ≡ ok (s', ssp.sub_balance st addr (ssp.get_balance st addr), true))
        × (suicide ssp empty_code_hash s' st' other ≡ ok (s', st', false))
  unfolding suicide
  suicide_twice s st st' addr other v last c =
      let (j, n, e, ei, g) =
        push-StackGuards 0 s.journal addr [] (record { sound = v; marks = tt }) in
      let grown : s.journal.size < j.size = omega (
        arith,
        size-length-items j g.sound,
        size-length-items s.journal v,
        ap length ei,
        length-append (items s.journal) (addr ∷ []),
      ) in
      (
        record s { journal = j },
        rw
            (
              subst (λ z. ltb_ℤ z (pos s.journal.size) ≡ false) (sym last)
                  (ge→ltb (s.journal.size + 0) (s.journal.size + 0) (omega arith)),
              ne→== (ssp.get_code_hash st addr) 0 c.has_account,
              ne→== (ssp.get_code_hash st addr) empty_code_hash c.has_code,
              e,
            )
            refl,
        rw
            (subst (λ z. ltb_ℤ z (pos j.size) ≡ true) (sym last)
              (lt→ltb (s.journal.size + 0) (j.size + 0) (omega (arith, grown))))
            refl,
      )

  -- A destruction always returns; the plugin is left alone or loses the account's balance, and every
  -- restore point of the journal is kept.
  pub suicide_total :
      (s : Suicides) (st : S) (addr : Address)
      → Stack.IsValid s.journal
      → (s' : Suicides) × (st' : S) × (b : Bool) × (suicide ssp empty_code_hash s st addr
          ≡ ok (s', st', b))
        × ((st' ≡ st) ⊎ (st' ≡ ssp.sub_balance st addr (ssp.get_balance st addr)))
        × ((ps : List (ℤ × List Address)) → StackGuards s.journal ps → StackGuards s'.journal ps)
  unfolding suicide
  suicide_total s st addr v =
      let refused = ltb_ℤ s.last_snapshot (pos s.journal.size) in
      let ch = ssp.get_code_hash st addr in
      let no_code = (ch == zero_hash) || (ch == empty_code_hash) in
      let (j, n, e, ei, g) =
        push-StackGuards 0 s.journal addr [] (record { sound = v; marks = tt }) in
      elim (Bool-cases refused) [
        | inl r ↦ (s, st, false, rw r refl, inl refl, λ ps k. k)
        | inr r ↦ elim (Bool-cases no_code) [
          | inl c ↦ (s, st, false, rw (r, c) refl, inl refl, λ ps k. k)
          | inr c ↦ (
            record s { journal = j },
            ssp.sub_balance st addr (ssp.get_balance st addr),
            true,
            rw (r, c, e) refl,
            inr refl,
            λ ps k.
                let (j', n', e', ei', g') = push-StackGuards 0 s.journal addr ps k in
                let same : ◌≡◌ {A = Exec (Stack Address × ℕ)} (ok (j', n')) (ok (j, n)) =
                  sym e' ∙ e in
                let js : j' ≡ j = cc in subst (λ x. StackGuards x ps) js g',
          )
        ]
      ]

  -- Accounts without code are never journaled.
  pub suicide_no_code :
      (s : Suicides) (st : S) (addr : Address)
      → (ssp.get_code_hash st addr ≡ zero_hash) ⊎ (ssp.get_code_hash st addr ≡ empty_code_hash)
      → suicide ssp empty_code_hash s st addr ≡ ok (s, st, false)
  unfolding suicide
  suicide_no_code s st addr h = ground arith

  -- A revert does not take the guard back: after an inner snapshot is taken and reverted, the same
  -- call can destroy an account again, however many it has destroyed since its own snapshot.
  pub suicide-revert-snapshot :
      (s : Suicides) (st : S) (addr : Address) (ps : List (ℤ × List Address))
      → StackGuards s.journal ps
      → IsContract st addr
      → (s1 : Suicides) × (s2 : Suicides) × (s3 : Suicides) × (snapshot s
          ≡ ok (s1, pos s.journal.size))
        × (revert_to_snapshot s1 (pos s.journal.size) ≡ ok s2)
        × (suicide ssp empty_code_hash s2 st addr
            ≡ ok (s3, ssp.sub_balance st addr (ssp.get_balance st addr), true))
        × (items s3.journal ≡ items s.journal ++ addr ∷ [])
  unfolding snapshot revert_to_snapshot
  suicide-revert-snapshot s st addr ps g c =
      let (j, x, e, ei, g') =
        revert-StackGuards 0 s.journal (pos s.journal.size) (items s.journal) ps
          (snapshot-StackGuards s.journal ps g) in
      let s2 : Suicides = record { journal = j; last_snapshot = pos s.journal.size } in
      let same : j.size ≡ s.journal.size =
        omega (
          arith,
          size-length-items j g'.sound,
          size-length-items s.journal g.sound,
          ap length ei,
        ) in
      let (s3, e', ei', g'') =
        suicide_once s2 st addr ps g'
          (ge→ltb (s.journal.size + 0) (j.size + 0) (omega (arith, same))) c in
      (
        record s { last_snapshot = pos s.journal.size },
        s2,
        s3,
        refl,
        rw e refl,
        e',
        ei' ∙ ap (λ ys. ys ++ addr ∷ []) ei,
      )

pub revert-Guards :
    (s : Suicides) (id : ℤ) (v : List Address) (ps : List (ℤ × List Address))
    → StackGuards s.journal ((id, v) ∷ ps)
    → (s' : Suicides) × (revert_to_snapshot s id ≡ ok s')
      × (items s'.journal ≡ v)
      × StackGuards s'.journal ps
unfolding revert_to_snapshot
revert-Guards s id v ps g =
    let (j, x, e, ei, g') = revert-StackGuards 0 s.journal id v ps g in
    (record s { journal = j }, rw e refl, ei, g')
