-- ===== src/Journal/Logs.antt =====
-- eth/core/state/journal/logs.go: the logs of the present transaction. `Payload` stands for what
-- go-ethereum's log carries beside the fields that this code sets.
use molaris.Prelude.{
  ℕ, zero, suc, ◌+◌, ◌≡◌, refl, List, [], ◌∷◌, ◌++◌, map, append_assoc, length, set, length-append,
  ℤ, pos, Exec, ok, ◌>>=◌,
}
use molaris.Stack
use molaris.Stack.{Stack, items}
use molaris.Stack.Clone.{copy_all, collect_from, collect_from-Holds}
use molaris.Stack.Items.{Holds, size-eq-length, peek_at-middle, set-Holds}
use molaris.Journal.Marks.{StackGuards, push-StackGuards, revert-StackGuards}
use molaris.Journal.{init_capacity, Hash}

pub record Log (Payload : Type 0) : Type 0 where
  pub payload : Payload
  pub block_number : ℕ
  pub block_hash : Hash
  pub tx_hash : Hash
  pub tx_index : ℕ

pub record Logs (Payload : Type 0) : Type 0 where
  pub stack : Stack (Log Payload)
  pub tx_hash : Hash
  pub tx_index : ℕ

module _ {Payload : Type 0} (zero_log : Log Payload) where
  unfoldable pub new_logs : Logs Payload
  new_logs = record { stack = Stack.new zero_log init_capacity; tx_hash = 0; tx_index = 0 }

  unfoldable pub set_tx_context : Logs Payload → Hash → ℕ → Logs Payload
  unfolding new_logs
  set_tx_context l thash ti = record new_logs { tx_hash = thash; tx_index = ti }

  unfoldable pub add_log : Logs Payload → Log Payload → Exec (Logs Payload)
  add_log l log = do
    p ← Stack.push zero_log l.stack (record log { tx_hash = l.tx_hash; tx_index = l.tx_index })
    ok (record l { stack = p.0 })

  unfoldable pub logs : Logs Payload → Exec (List (Log Payload))
  logs l = collect_from zero_log l.stack.size l.stack 0

  abbrev pub stamp : ℕ → Hash → Log Payload → Log Payload
  stamp number hash log = record log { block_hash = hash; block_number = number }

  -- The loop of `GetLogs` writes through the pointers that the journal holds.
  unfoldable pub stamp_from : ℕ → Hash → ℕ → Stack (Log Payload) → ℕ → Exec (Stack (Log Payload))
  stamp_from number hash zero s i = ok s
  stamp_from number hash (suc rounds) s i = do
    log ← Stack.peek_at zero_log s (pos i)
    stamp_from number hash rounds (record s { buf = set s.buf i (stamp number hash log) }) (i + 1)

  unfoldable pub get_logs : Logs Payload → ℕ → Hash → Exec (Logs Payload × List (Log Payload))
  get_logs l number hash = do
    s ← stamp_from number hash l.stack.size l.stack 0
    buf ← collect_from zero_log s.size s 0
    ok (record l { stack = s }, buf)

  unfoldable pub snapshot : Logs Payload → Exec (Logs Payload × ℤ)
  snapshot l = ok (l, pos l.stack.size)

  unfoldable pub revert_to_snapshot : Logs Payload → ℤ → Exec (Logs Payload)
  revert_to_snapshot l id = do
    p ← Stack.pop_to_size zero_log l.stack id
    ok (record l { stack = p.0 })

  abbrev pub finalize : Logs Payload → Logs Payload
  finalize l = l

  unfoldable pub clone : Logs Payload → Exec (Logs Payload)
  clone l = do s ← copy_all zero_log (λ log. log) l.stack; ok (record l { stack = s })

  -- A log is journaled with the transaction's hash and index, whatever the caller put there, and
  -- every restore point is kept.
  pub add_log-Guards :
      (l : Logs Payload) (log : Log Payload) (ps : List (ℤ × List (Log Payload)))
      → StackGuards l.stack ps
      → (l' : Logs Payload) × (add_log l log ≡ ok l')
        × (items l'.stack
            ≡ items l.stack ++ record log { tx_hash = l.tx_hash; tx_index = l.tx_index } ∷ [])
        × (l'.tx_hash ≡ l.tx_hash)
        × (l'.tx_index ≡ l.tx_index)
        × StackGuards l'.stack ps
  unfolding add_log
  add_log-Guards l log ps g =
      let x : Log Payload = record log { tx_hash = l.tx_hash; tx_index = l.tx_index } in
      let (s, n, e, ei, g') = push-StackGuards zero_log l.stack x ps g in
      (record l { stack = s }, rw e refl, ei, refl, refl, g')

  -- `Logs` lists the entries, oldest first.
  pub logs-Holds : (l : Logs Payload) (xs : List (Log Payload)) → Holds l.stack xs → logs l ≡ ok xs
  unfolding logs
  logs-Holds l xs h = simp (size-eq-length h) (collect_from-Holds zero_log l.stack [] xs h)

  pub revert-Guards :
      (l : Logs Payload) (id : ℤ) (v : List (Log Payload)) (ps : List (ℤ × List (Log Payload)))
      → StackGuards l.stack ((id, v) ∷ ps)
      → (l' : Logs Payload) × (revert_to_snapshot l id ≡ ok l')
        × (items l'.stack ≡ v)
        × StackGuards l'.stack ps
  unfolding revert_to_snapshot
  revert-Guards l id v ps g =
      let (s, x, e, ei, g') = revert-StackGuards zero_log l.stack id v ps g in
      (record l { stack = s }, rw e refl, ei, g')

  stamp_from-Holds :
      (number : ℕ) (hash : Hash) (s : Stack (Log Payload)) (done rest : List (Log Payload))
      → Holds s (done ++ rest)
      → (s' : Stack (Log Payload)) × (stamp_from number hash (length rest) s (length done) ≡ ok s')
        × (s'.size ≡ s.size)
        × Holds s' (done ++ map (stamp number hash) rest)
  unfolding stamp_from
  stamp_from-Holds number hash s done [] h = (s, refl, refl, h)
  stamp_from-Holds number hash s done (x ∷ rest) h =
      let y : Log Payload = stamp number hash x in
      let t : Stack (Log Payload) = record s { buf = set s.buf (length done) y } in
      let (s', e, n, h') =
        stamp_from-Holds number hash t (done ++ y ∷ []) rest
          (rw append_assoc (set-Holds zero_log s done rest x y h)) in
      (
        s',
        rw (peek_at-middle zero_log s done rest x h, ← length-append done (y ∷ [])) e,
        n,
        rw append_assoc at h',
      )

  -- `GetLogs` returns the entries with the block's number and hash on each, and leaves the journal
  -- holding the same stamped logs.
  pub get_logs-Holds :
      (l : Logs Payload) (xs : List (Log Payload)) (number : ℕ) (hash : Hash)
      → Holds l.stack xs
      → (l' : Logs Payload) × (get_logs l number hash ≡ ok (l', map (stamp number hash) xs))
        × Holds l'.stack (map (stamp number hash) xs)
  unfolding get_logs
  get_logs-Holds l xs number hash h =
      let (s', e, n, h') = stamp_from-Holds number hash l.stack [] xs h in
      (
        record l { stack = s' },
        simp (size-eq-length h, e, size-eq-length h', collect_from-Holds zero_log s' [] _ h'),
        h',
      )
