-- ===== src/Events.antt =====
-- cosmos/x/evm/plugins/state/events/manager.go: the Cosmos events of a transaction, which are also
-- added as logs to the EVM's journal while a precompile runs. The log factory and the journal are
-- parameters.
pub mod Guards
use molaris.Prelude.{
  Bool, false, Option, none, some, List, [], ◌∷◌, ◌++◌, ltb, if◌then◌else◌, length, take, ℤ, pos,
  negsuc, Exec, ◌>>=◌, bad_index, write_protection, bad_conversion, ok, panics,
}

-- `plf.Build`: a log, `ErrEthEventNotRegistered`, or another error.
pub data Built (L : Type 0) : Type 0 where
  log : L → Built L
  not_registered failed : Built L

pub record Factory (E L Db : Type 0) : Type 0 where
  pub build : E → Built L
  pub add_log : Db → L → Db

pub record Manager (E Db : Type 0) : Type 0 where
  pub events : List E
  pub ldb : Option Db
  pub read_only : Bool

module _ {E L Db : Type 0} (plf : Factory E L Db) where
  -- A new manager on the event manager of a context.
  unfoldable pub new_manager_from : List E → Manager E Db
  new_manager_from em = record { events = em; ldb = none; read_only = false }

  unfoldable pub is_read_only : Manager E Db → Bool
  is_read_only m = m.read_only

  unfoldable pub set_read_only : Manager E Db → Bool → Manager E Db
  set_read_only m read_only = record m { read_only = read_only }

  unfoldable pub begin_precompile_execution : Manager E Db → Db → Manager E Db
  begin_precompile_execution m ldb = record m { ldb = some ldb }

  unfoldable pub end_precompile_execution : Manager E Db → Manager E Db
  end_precompile_execution m = record m { ldb = none }

  -- What `convertToLog` does with the outcome of `Build`.
  unfoldable pub add_built : Db → Built L → Exec Db
  add_built ldb (log l) = ok (plf.add_log ldb l)
  add_built ldb not_registered = ok ldb
  add_built ldb failed = panics bad_conversion

  unfoldable pub convert_to_log : Db → E → Exec Db
  convert_to_log ldb event = add_built ldb (plf.build event)

  unfoldable pub convert_all : Db → List E → Exec Db
  convert_all ldb [] = ok ldb
  convert_all ldb (event ∷ rest) = convert_to_log ldb event >>= λ d. convert_all d rest

  unfoldable pub emit_event : Manager E Db → E → Exec (Manager E Db)
  emit_event m event =
      let m' : Manager E Db = record m { events = m.events ++ event ∷ [] } in
      elim m.ldb [
        | none ↦ ok m'
        | some d ↦
            if m.read_only
            then panics write_protection
            else (convert_to_log d event >>= λ d'. ok (record m' { ldb = some d' }))
      ]

  unfoldable pub emit_events : Manager E Db → List E → Exec (Manager E Db)
  emit_events m events =
      let m' : Manager E Db = record m { events = m.events ++ events } in
      elim m.ldb [
        | none ↦ ok m'
        | some d ↦
            if m.read_only
            then panics write_protection
            else (convert_all d events >>= λ d'. ok (record m' { ldb = some d' }))
      ]

  unfoldable pub snapshot : Manager E Db → Exec (Manager E Db × ℤ)
  snapshot m = ok (m, pos (length m.events))

  -- A slice expression panics beyond the capacity, which is taken to be the length.
  unfoldable pub revert_to_snapshot : Manager E Db → ℤ → Exec (Manager E Db)
  revert_to_snapshot m (negsuc n) = panics bad_index
  revert_to_snapshot m (pos id) =
      if ltb (length m.events) id
      then panics bad_index
      else ok (record m { events = take id m.events })

  unfoldable pub finalize : Manager E Db → Manager E Db
  finalize m = m
