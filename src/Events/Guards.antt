-- ===== src/Events/Guards.antt =====
-- The event manager keeps the contract of a `Controllable`: a revert leaves the events that stood at
-- the snapshot. The logs that a precompile has added to the journal are left to the journal.
use molaris.Prelude.{
  ◌≡◌, refl, ◌≢◌, true, false, some, List, [], ◌∷◌, ◌++◌, arith, ge→ltb, length, take,
  length-append, length-take, ℤ, ◌>>=◌, write_protection, ok, panics,
}
use molaris.Journal.Marks.{Marks, Marks-append, Marks-take, Marks-weaken}
use molaris.Events.{
  Built, log, not_registered, failed, Factory, Manager, convert_all, convert_to_log, add_built,
  emit_events, revert_to_snapshot,
}

module _ {E L Db : Type 0} (plf : Factory E L Db) where
  abbrev pub EventGuards : Manager E Db → List (ℤ × List E) → Type 0
  EventGuards m ps = Marks (length m.events) m.events ps

  abbrev pub with_log : Built L → List L → List L
  with_log (log l) ls = l ∷ ls
  with_log not_registered ls = ls
  with_log failed ls = ls

  -- The logs that a list of events stands for.
  abbrev pub logs_of : List E → List L
  logs_of [] = []
  logs_of (event ∷ rest) = with_log (plf.build event) (logs_of rest)

  abbrev pub AreConvertible : List E → Type 0
  AreConvertible [] = Unit {0}
  AreConvertible (event ∷ rest) = (plf.build event ≢ failed) × AreConvertible rest

  abbrev pub add_logs : Db → List L → Db
  add_logs d [] = d
  add_logs d (l ∷ ls) = add_logs (plf.add_log d l) ls

  add_built-with_log :
      (d : Db) (b : Built L) (rest : List E) (ls : List L)
      → b ≢ failed
      → ((x : Db) → convert_all plf x rest ≡ ok (add_logs x ls))
      → (add_built plf d b >>= λ x. convert_all plf x rest) ≡ ok (add_logs d (with_log b ls))
  unfolding add_built
  add_built-with_log d (log l) rest ls c all = all (plf.add_log d l)
  add_built-with_log d not_registered rest ls c all = all d
  add_built-with_log d failed rest ls c all = absurd (c refl)

  convert_all-logs_of :
      (d : Db) (events : List E)
      → AreConvertible events
      → convert_all plf d events ≡ ok (add_logs d (logs_of events))
  unfolding convert_all convert_to_log
  convert_all-logs_of d [] c = refl
  convert_all-logs_of d (event ∷ rest) (c, cs) =
      add_built-with_log d (plf.build event) rest (logs_of rest) c
        (λ x. convert_all-logs_of x rest cs)

  -- While a precompile runs, and may write, emitting events that can be converted appends them, adds
  -- the logs of the registered ones to the journal in order, and keeps every restore point.
  pub emit_events-Guards :
      (m : Manager E Db) (d : Db) (events : List E) (ps : List (ℤ × List E))
      → m.ldb ≡ some d
      → m.read_only ≡ false
      → AreConvertible events
      → EventGuards m ps
      → (m' : Manager E Db) × (emit_events plf m events ≡ ok m')
        × (m'.events ≡ m.events ++ events)
        × (m'.ldb ≡ some (add_logs d (logs_of events)))
        × EventGuards m' ps
  unfolding emit_events
  emit_events-Guards m d events ps running writable c g = (
    record m { events = m.events ++ events; ldb = some (add_logs d (logs_of events)) },
    rw (running, emit_events, writable, convert_all-logs_of d events c) refl,
    refl,
    refl,
    Marks-weaken (length m.events) (length (m.events ++ events)) (m.events ++ events) ps
        (omega (arith, length-append m.events events))
        (Marks-append (length m.events) m.events events ps (omega arith) g),
  )

  -- In read-only mode a precompile cannot emit events: the call panics.
  pub emit_events_read_only :
      (m : Manager E Db) (d : Db) (events : List E)
      → m.ldb ≡ some d
      → m.read_only ≡ true
      → emit_events plf m events ≡ panics write_protection
  unfolding emit_events
  emit_events_read_only m d events running guarded = rw (running, emit_events, guarded) refl

  -- A revert to the newest restore point succeeds, leaves the events that stood there, and keeps the
  -- older restore points.
  pub revert-EventGuards :
      (m : Manager E Db) (id : ℤ) (v : List E) (ps : List (ℤ × List E))
      → EventGuards m ((id, v) ∷ ps)
      → (m' : Manager E Db) × (revert_to_snapshot plf m id ≡ ok m')
        × (m'.events ≡ v)
        × EventGuards m' ps
  unfolding revert_to_snapshot
  revert-EventGuards m id v ps (n, e, le, t, rest) = (
    record m { events = take n m.events },
    rw (e, ge→ltb (length m.events) n le) refl,
    t,
    Marks-weaken n (length (take n m.events)) (take n m.events) ps
        (omega (arith, length-take n m.events)) (Marks-take n n m.events ps (omega arith) rest),
  )
