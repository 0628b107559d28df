-- ===== src/StateDb/Prepare.antt =====
-- `NewStateDB` and `Prepare`: what the invariant is at the start, and what `Prepare` does to it.
use molaris.Prelude.{
  ℕ, ◌≡◌, refl, Option, none, some, List, [], ◌∷◌, arith, ok, lookup, insert, nat_eq,
}
use molaris.Stack
use molaris.Stack.{Stack, items}
use molaris.Stack.Items.{push-Holds, peek-Holds, new-Holds}
use molaris.Registry
use molaris.Snapshot
use molaris.Snapshot.Guards.{views}
use molaris.Journal.Marks.{StackGuards-new}
use molaris.Journal.Refund
use molaris.Journal.Logs
use molaris.Journal.Suicides
use molaris.Journal.Transient
use molaris.Journal.AccessList.{AccessJournal, new_accesslist}
use molaris.Journal.AccessList.Guards.{AccessGuards}
use molaris.StateDb.Host.{Host, PluginLaw}
use molaris.StateDb.Objects.{
  Key, plugin_key, logs_key, refund_key, access_list_key, suicides_key, transient_key, key_eq,
  Object, plugin, logs, refund, access_list, suicides, transient, methods, object_key,
}
use molaris.StateDb.Laws.{objects_law}
use molaris.StateDb.Operations.{StateDb, registered, new_state_db}
use molaris.StateDb.Invariant.{Invariant, HasKinds}

module _ (h : Host) where
  pub new_accesslist-AccessGuards :
      (al : AccessJournal h.AccessSet) × (new_accesslist h.lists ≡ ok al) × AccessGuards al []
  unfolding new_accesslist
  new_accesslist-AccessGuards =
      let (j, e, k) =
        push-Holds {A = Option ℕ} none (Stack.new none 32) [] (some 0)
          (new-Holds none 32 (omega arith)) in
      (
        record { objects = h.lists.new_list ∷ []; access_list = some 0; journal = j },
        rw (e, peek-Holds none j (some 0 ∷ []) k) refl,
        record {
          below = [];
          top = 0;
          journaled = k;
          pointed = refl;
          allocated = omega arith;
          points = tt;
        },
      )

module _ (h : Host) (law : PluginLaw h) where
  abbrev start : h.Plugin → AccessJournal h.AccessSet → List (Key × Object h)
  start sp al =
      (plugin_key, plugin sp)
      ∷ (logs_key, logs (Logs.new_logs h.zero_log))
      ∷ (refund_key, refund Refund.new_refund)
      ∷ (access_list_key, access_list al)
      ∷ (suicides_key, suicides Suicides.new_suicides)
      ∷ (transient_key, transient Transient.new_transient_storage)
      ∷ []

  -- A new state database has the invariant, with no restore point.
  pub new_state_db-Invariant :
      (sp : h.Plugin)
      → law.PluginGuards sp []
      → (sdb : StateDb h) × (new_state_db h sp ≡ ok sdb) × Invariant h law sdb []
  unfolding new_state_db Registry.register insert lookup Snapshot.new_controller object_key
      Logs.new_logs Refund.new_refund Suicides.new_suicides Transient.new_transient_storage
  new_state_db-Invariant sp g =
      let (al, e, ga) = new_accesslist-AccessGuards h in
      (
        record {
          ctrl = record { items = start sp al; journal = Stack.new [] 32 };
          access_list_field = registered;
          transient_field = registered;
        },
        rw e refl,
        record {
          guards = record {
            distinct = (
              (refl, (refl, (refl, (refl, (refl, tt))))),
              (
                (refl, (refl, (refl, (refl, tt)))),
                ((refl, (refl, (refl, tt))), ((refl, (refl, tt)), ((refl, tt), (tt, tt)))),
              ),
            );
            revisions = [];
            journaled = new-Holds [] 32 (omega arith);
            history = [];
            marked = tt;
            guarded = (
              [],
              [],
              refl,
              ([], refl, g),
              (
                [],
                [],
                refl,
                ([], refl, StackGuards-new h.zero_log 32 (omega arith)),
                (
                  [],
                  [],
                  refl,
                  ([], refl, StackGuards-new 0 32 (omega arith)),
                  (
                    [],
                    [],
                    refl,
                    ([], refl, ga),
                    (
                      [],
                      [],
                      refl,
                      ([], refl, StackGuards-new 0 32 (omega arith)),
                      ([], [], refl, ([], refl, StackGuards-new [] 32 (omega arith)), tt),
                    ),
                  ),
                ),
              ),
            );
          };
          kinds = kinds al;
          access_sound = tt;
          transient_sound = tt;
        },
      )
    where
      kinds :
          (al : AccessJournal h.AccessSet)
          → HasKinds h law (views (methods h) (objects_law h law) (start sp al))
      kinds al plugin_key = (_, refl, refl)
      kinds al logs_key = (_, refl, refl)
      kinds al refund_key = (_, refl, refl)
      kinds al access_list_key = (_, refl, refl)
      kinds al suicides_key = (_, refl, refl)
      kinds al transient_key = (_, refl, refl)
