-- ===== src/StateDb/Stable.antt =====
-- Each operation of the journals is stable: on an object of its kind it succeeds and keeps whatever
-- restore points there are.
use molaris.Prelude.{ℕ, ◌≡◌, refl, subst, Option, List, [], ℤ, Exec, >>=-eq-ok, ok}
use molaris.Journal.Marks.{StackGuards}
use molaris.Journal.Refund.{Refund}
use molaris.Journal.Logs.{Logs, Log}
use molaris.Journal.Transient.{TransientStorage, TransientState}
use molaris.Journal.AccessList.{AccessJournal}
use molaris.Journal.AccessList.Guards.{AccessGuards}
use molaris.StateDb.Host.{Host, PluginLaw}
use molaris.StateDb.Objects.{
  Key, plugin_key, logs_key, refund_key, access_list_key, transient_key, key_eq, Object, plugin,
  logs, refund, access_list, transient,
}
use molaris.StateDb.Laws.{View, view, Guards}
use molaris.StateDb.Operations.{
  StateDb, Field, registered, detached, on_plugin, on_logs, on_refund, on_access_list, on_transient,
  on_access_list_field, on_transient_field,
}
use molaris.StateDb.Invariant.{
  view_key, Invariant, IsStable, in_controller-Invariant, AccessField, TransientField,
}

module _ (h : Host) (law : PluginLaw h) where
  pub on_logs-IsStable :
      (f : Logs h.Payload → Exec (Logs h.Payload))
      → ((x : Logs h.Payload) (qs : List (ℤ × List (Log h.Payload)))
          → StackGuards x.stack qs
          → (y : Logs h.Payload) × (f x ≡ ok y) × StackGuards y.stack qs)
      → IsStable h law logs_key (on_logs h f)
  on_logs-IsStable f keeps = record { steps = steps; same_kind = same_kind }
    where
      steps :
          (o : Object h)
          → view_key h law (view h law o) ≡ logs_key
          → (ps : List (ℤ × View h law)) → Guards h law o ps
          → (o' : Object h) × (on_logs h f o ≡ ok o') × Guards h law o' ps
      steps (logs x) k ps (qs, e, g) =
          let (y, fx, g') = keeps x qs g in (logs y, rw fx refl, (qs, e, g'))
      steps _ k ps g = absurd (cc)

      same_kind :
          (o o' : Object h)
          → view_key h law (view h law o) ≡ logs_key
          → on_logs h f o ≡ ok o'
          → view_key h law (view h law o') ≡ logs_key
      same_kind (logs x) o' k e =
          let (y, fx, eo) = >>=-eq-ok (f x) (λ q. ok (logs q)) e in
          let is : o' ≡ logs y = cc in rw is refl
      same_kind _ o' k e = absurd (cc)

  pub on_plugin-IsStable :
      (f : h.Plugin → Exec h.Plugin)
      → ((x : h.Plugin) (qs : List (ℤ × law.PluginView))
          → law.PluginGuards x qs
          → (y : h.Plugin) × (f x ≡ ok y) × law.PluginGuards y qs)
      → IsStable h law plugin_key (on_plugin h f)
  on_plugin-IsStable f keeps = record { steps = steps; same_kind = same_kind }
    where
      steps :
          (o : Object h)
          → view_key h law (view h law o) ≡ plugin_key
          → (ps : List (ℤ × View h law)) → Guards h law o ps
          → (o' : Object h) × (on_plugin h f o ≡ ok o') × Guards h law o' ps
      steps (plugin x) k ps (qs, e, g) =
          let (y, fx, g') = keeps x qs g in (plugin y, rw fx refl, (qs, e, g'))
      steps _ k ps g = absurd (cc)

      same_kind :
          (o o' : Object h)
          → view_key h law (view h law o) ≡ plugin_key
          → on_plugin h f o ≡ ok o'
          → view_key h law (view h law o') ≡ plugin_key
      same_kind (plugin x) o' k e =
          let (y, fx, eo) = >>=-eq-ok (f x) (λ q. ok (plugin q)) e in
          let is : o' ≡ plugin y = cc in rw is refl
      same_kind _ o' k e = absurd (cc)

  pub on_refund-IsStable :
      (f : Refund → Exec (Refund))
      → ((x : Refund) (qs : List (ℤ × List ℕ))
          → StackGuards x qs
          → (y : Refund) × (f x ≡ ok y) × StackGuards y qs)
      → IsStable h law refund_key (on_refund h f)
  on_refund-IsStable f keeps = record { steps = steps; same_kind = same_kind }
    where
      steps :
          (o : Object h)
          → view_key h law (view h law o) ≡ refund_key
          → (ps : List (ℤ × View h law)) → Guards h law o ps
          → (o' : Object h) × (on_refund h f o ≡ ok o') × Guards h law o' ps
      steps (refund x) k ps (qs, e, g) =
          let (y, fx, g') = keeps x qs g in (refund y, rw fx refl, (qs, e, g'))
      steps _ k ps g = absurd (cc)

      same_kind :
          (o o' : Object h)
          → view_key h law (view h law o) ≡ refund_key
          → on_refund h f o ≡ ok o'
          → view_key h law (view h law o') ≡ refund_key
      same_kind (refund x) o' k e =
          let (y, fx, eo) = >>=-eq-ok (f x) (λ q. ok (refund q)) e in
          let is : o' ≡ refund y = cc in rw is refl
      same_kind _ o' k e = absurd (cc)

  pub on_access_list-IsStable :
      (f : AccessJournal h.AccessSet → Exec (AccessJournal h.AccessSet))
      → ((x : AccessJournal h.AccessSet) (qs : List (ℤ × Option h.AccessSet))
          → AccessGuards x qs
          → (y : AccessJournal h.AccessSet) × (f x ≡ ok y) × AccessGuards y qs)
      → IsStable h law access_list_key (on_access_list h f)
  on_access_list-IsStable f keeps = record { steps = steps; same_kind = same_kind }
    where
      steps :
          (o : Object h)
          → view_key h law (view h law o) ≡ access_list_key
          → (ps : List (ℤ × View h law)) → Guards h law o ps
          → (o' : Object h) × (on_access_list h f o ≡ ok o') × Guards h law o' ps
      steps (access_list x) k ps (qs, e, g) =
          let (y, fx, g') = keeps x qs g in (access_list y, rw fx refl, (qs, e, g'))
      steps _ k ps g = absurd (cc)

      same_kind :
          (o o' : Object h)
          → view_key h law (view h law o) ≡ access_list_key
          → on_access_list h f o ≡ ok o'
          → view_key h law (view h law o') ≡ access_list_key
      same_kind (access_list x) o' k e =
          let (y, fx, eo) = >>=-eq-ok (f x) (λ q. ok (access_list q)) e in
          let is : o' ≡ access_list y = cc in rw is refl
      same_kind _ o' k e = absurd (cc)

  pub on_transient-IsStable :
      (f : TransientStorage → Exec (TransientStorage))
      → ((x : TransientStorage) (qs : List (ℤ × List TransientState))
          → StackGuards x qs
          → (y : TransientStorage) × (f x ≡ ok y) × StackGuards y qs)
      → IsStable h law transient_key (on_transient h f)
  on_transient-IsStable f keeps = record { steps = steps; same_kind = same_kind }
    where
      steps :
          (o : Object h)
          → view_key h law (view h law o) ≡ transient_key
          → (ps : List (ℤ × View h law)) → Guards h law o ps
          → (o' : Object h) × (on_transient h f o ≡ ok o') × Guards h law o' ps
      steps (transient x) k ps (qs, e, g) =
          let (y, fx, g') = keeps x qs g in (transient y, rw fx refl, (qs, e, g'))
      steps _ k ps g = absurd (cc)

      same_kind :
          (o o' : Object h)
          → view_key h law (view h law o) ≡ transient_key
          → on_transient h f o ≡ ok o'
          → view_key h law (view h law o') ≡ transient_key
      same_kind (transient x) o' k e =
          let (y, fx, eo) = >>=-eq-ok (f x) (λ q. ok (transient q)) e in
          let is : o' ≡ transient y = cc in rw is refl
      same_kind _ o' k e = absurd (cc)

  -- On the access list and the transient storage, wherever the field points.
  pub on_access_list_field-Invariant :
      (f : AccessJournal h.AccessSet → Exec (AccessJournal h.AccessSet)) (sdb : StateDb h)
      (ps : List (ℤ × List (Key × View h law)))
      → ((x : AccessJournal h.AccessSet) (qs : List (ℤ × Option h.AccessSet))
          → AccessGuards x qs
          → (y : AccessJournal h.AccessSet) × (f x ≡ ok y) × AccessGuards y qs)
      → Invariant h law sdb ps
      → (sdb' : StateDb h) × (on_access_list_field h f sdb ≡ ok sdb') × Invariant h law sdb' ps
  unfolding on_access_list_field
  on_access_list_field-Invariant f sdb ps keeps inv = go sdb.access_list_field refl
    where
      go :
          (x : Field (AccessJournal h.AccessSet))
          → sdb.access_list_field ≡ x
          → (sdb' : StateDb h) × (on_access_list_field h f sdb ≡ ok sdb') × Invariant h law sdb' ps
      go registered e =
          let (s, es, i) =
            in_controller-Invariant h law access_list_key (on_access_list h f) sdb ps
              (on_access_list-IsStable f keeps) inv in
          (s, rw (e, on_access_list_field) es, i)
      go (detached al) e =
          let (y, fy, g) = keeps al [] (subst (AccessField h law) e inv.access_sound) in
          (
            record sdb { access_list_field = detached y },
            rw (e, on_access_list_field, fy) refl,
            record {
              guards = inv.guards;
              kinds = inv.kinds;
              access_sound = g;
              transient_sound = inv.transient_sound;
            },
          )

  pub on_transient_field-Invariant :
      (f : TransientStorage → Exec TransientStorage) (sdb : StateDb h)
      (ps : List (ℤ × List (Key × View h law)))
      → ((x : TransientStorage) (qs : List (ℤ × List TransientState))
          → StackGuards x qs
          → (y : TransientStorage) × (f x ≡ ok y) × StackGuards y qs)
      → Invariant h law sdb ps
      → (sdb' : StateDb h) × (on_transient_field h f sdb ≡ ok sdb') × Invariant h law sdb' ps
  unfolding on_transient_field
  on_transient_field-Invariant f sdb ps keeps inv = go sdb.transient_field refl
    where
      go :
          (x : Field TransientStorage)
          → sdb.transient_field ≡ x
          → (sdb' : StateDb h) × (on_transient_field h f sdb ≡ ok sdb') × Invariant h law sdb' ps
      go registered e =
          let (s, es, i) =
            in_controller-Invariant h law transient_key (on_transient h f) sdb ps
              (on_transient-IsStable f keeps) inv in
          (s, rw (e, on_transient_field) es, i)
      go (detached t) e =
          let (y, fy, g) = keeps t [] (subst (TransientField h law) e inv.transient_sound) in
          (
            record sdb { transient_field = detached y },
            rw (e, on_transient_field, fy) refl,
            record {
              guards = inv.guards;
              kinds = inv.kinds;
              access_sound = inv.access_sound;
              transient_sound = g;
            },
          )
