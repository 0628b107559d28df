-- ===== src/Plugin/Hosted.antt =====
-- The state database over the Cosmos plugin: the plugin keeps the contract that the state database asks
-- of it.
use molaris.Prelude.{
  ◌≡◌, refl, sym, ap, ◌∙◌, subst, false, some, List, [], ◌∷◌, ℤ, pos, Exec, ok, panics, lookup,
  nat_eq,
}
use molaris.Store.Views.{CacheKvLaw}
use molaris.Journal.{Address}
use molaris.Journal.Logs.{Log}
use molaris.Journal.AccessList.{AccessLists}
use molaris.StateDb.Host.{Host, PluginLaw}
use molaris.StateDb.Operations.{StateDb, new_state_db}
use molaris.StateDb.Invariant.{Invariant, shown}
use molaris.StateDb.Frames.{Actions, call, perform, failed_call_leaves_no_trace}
use molaris.StateDb.Prepare.{new_state_db-Invariant}
use molaris.Plugin
use molaris.Plugin.{Chain, Context, Plugin, reset}
use molaris.Plugin.Accounts.{delete_accounts}
use molaris.Plugin.Codes.{get_code_hash, get_code, empty_code_hash}
use molaris.Plugin.Controlled.{snapshot, revert_to_snapshot, finalize}
use molaris.Plugin.Restore.{
  PluginView, plugin_view, snapshot-IsGuarded, revert-IsGuarded, forget-IsGuarded,
}
use molaris.Plugin.Sound.{IsSound, IsSound-restored}
use molaris.Plugin.Calls.{sub_balance-IsSafe}
use molaris.Plugin.Undo
use molaris.Plugin.Undo.{Call, perform-IsSafe}
use molaris.Plugin.Start.{reset-IsSound}

-- What go-ethereum gives the journals.
pub record GethTypes : Type 1 where
  pub Payload : Type 0
  pub AccessSet : Type 0
  pub lists : AccessLists AccessSet
  pub zero_log : Log Payload

-- The answer of a call that returns, and the plugin after it.
abbrev pub answer : {P A : Type 0} → A → Exec (P × A) → A
answer d (ok r) = r.1
answer d (panics e) = d

abbrev pub after : {P : Type 0} → P → Exec P → P
after p (ok q) = q
after p (panics e) = p

module _ (c : Chain) (geth : GethTypes) where
  -- The plugin as the host of a state database. The journal of suicides takes only the answers of the
  -- plugin's reads, with a default where one panics.
  abbrev pub host_of : Host
  host_of = record {
    Plugin = Plugin c;
    Error = c.Error;
    PluginCall = Call;
    Payload = geth.Payload;
    AccessSet = geth.AccessSet;
    plugin_snapshot = snapshot c;
    plugin_revert = revert_to_snapshot c;
    plugin_finalize = finalize c;
    commit_to_bank = Plugin.commit_to_bank c;
    delete_accounts = delete_accounts c;
    error = Plugin.error c;
    get_code = λ p a. get_code c a p;
    call_plugin = Undo.perform c;
    ssp = record {
      get_code_hash = λ p a. answer 0 (get_code_hash c a p);
      get_balance = λ p a. answer (pos 0) (Plugin.get_balance c a p);
      sub_balance = λ p a amount. after p (Plugin.sub_balance c a amount p);
    };
    lists = geth.lists;
    zero_log = geth.zero_log;
    empty_code_hash = empty_code_hash c;
  }

module _ (c : Chain) (geth : GethTypes) (law : CacheKvLaw c.kv) where
  -- What was shown where the plugin can go on from: writable, with both stores mounted.
  abbrev pub IsUsable : PluginView c → Type 0
  IsUsable v =
      (v.read_only ≡ false)
      × ((b : c.S) × (lookup c.store_key v.committed ≡ some b))
      × ((b : c.S) × (lookup c.ak.store_key v.committed ≡ some b))

  abbrev pub AreUsable : List (ℤ × PluginView c) → Type 0
  AreUsable [] = Unit {0}
  AreUsable ((id, v) ∷ ps) = IsUsable v × AreUsable ps

  -- A sound plugin that may write, as it could at every restore point.
  abbrev pub IsReady : Plugin c → List (ℤ × PluginView c) → Type 0
  IsReady p ps = (p.cms.read_only ≡ false) × IsSound c law p ps × AreUsable ps

  view-IsUsable :
      (p : Plugin c) (ps : List (ℤ × PluginView c)) → IsReady p ps → IsUsable (plugin_view c law p)
  view-IsUsable p ps (writable, s, _) =
      (writable, (s.base, s.mounted), (s.account_base, s.account_mounted))

  pub snapshot-IsReady :
      (p : Plugin c) (ps : List (ℤ × PluginView c))
      → IsReady p ps
      → (p' : Plugin c) × (id : ℤ) × (snapshot c p ≡ ok (p', id))
        × (plugin_view c law p' ≡ plugin_view c law p)
        × IsReady p' ((id, plugin_view c law p) ∷ ps)
  snapshot-IsReady p ps (writable, s, usable) =
      let (p', id, e, same, g) = snapshot-IsGuarded c law p ps s.guarded in
      (
        p',
        id,
        e,
        same,
        (
          ap (λ v. v.read_only) same ∙ writable,
          IsSound-restored c law p p' ps _ (ap (λ v. v.committed) same) g s,
          (view-IsUsable p ps (writable, s, usable), usable),
        ),
      )

  pub revert-IsReady :
      (p : Plugin c) (id : ℤ) (v : PluginView c) (ps : List (ℤ × PluginView c))
      → IsReady p ((id, v) ∷ ps)
      → (p' : Plugin c) × (revert_to_snapshot c p id ≡ ok p')
        × (plugin_view c law p' ≡ v)
        × IsReady p' ps
  revert-IsReady p id v ps (writable, s, ((ro, (b, mb), (a, ma)), usable)) =
      let (p', e, back, g) = revert-IsGuarded c law p id v ps s.guarded in
      let stands = ap (λ w. w.committed) back in
      (
        p',
        e,
        back,
        (
          ap (λ w. w.read_only) back ∙ ro,
          record {
            base = b;
            mounted = ap (lookup c.store_key) stands ∙ mb;
            account_base = a;
            account_mounted = ap (lookup c.ak.store_key) stands ∙ ma;
            guarded = g;
          },
          usable,
        ),
      )

  pub forget-IsReady :
      (p : Plugin c) (q : ℤ × PluginView c) (ps : List (ℤ × PluginView c))
      → IsReady p (q ∷ ps)
      → IsReady p ps
  forget-IsReady p (id, v) ps (writable, s, (_, usable)) = (
    writable,
    IsSound-restored c law p p ((id, v) ∷ ps) ps refl
        (forget-IsGuarded c law p (id, v) ps s.guarded) s,
    usable,
  )

  pub perform-IsReady :
      (m : Call) (p : Plugin c) (ps : List (ℤ × PluginView c))
      → IsReady p ps
      → (p' : Plugin c) × (Undo.perform c m p ≡ ok p') × IsReady p' ps
  perform-IsReady m p ps (writable, s, usable) =
      let (q, e, w, s') = perform-IsSafe c law m p ps writable s in (q, e, (w, s', usable))

  -- The journals' balance change is that of the plugin, which does not panic.
  pub sub_balance-IsReady :
      (p : Plugin c) (addr : Address) (amount : ℤ) (ps : List (ℤ × PluginView c))
      → IsReady p ps
      → IsReady (after p (Plugin.sub_balance c addr amount p)) ps
  sub_balance-IsReady p addr amount ps (writable, s, usable) =
      let (q, e, w, s') = sub_balance-IsSafe c law addr amount p ps writable s in
      subst (λ r. IsReady r ps) (sym (ap (after p) e)) (w, s', usable)

  abbrev pub plugin_law : PluginLaw (host_of c geth)
  plugin_law = record {
    PluginView = PluginView c;
    plugin_view = plugin_view c law;
    PluginGuards = IsReady;
    forget_plugin = forget-IsReady;
    snapshot_plugin = snapshot-IsReady;
    revert_plugin = revert-IsReady;
    call_keeps = perform-IsReady;
    sub_balance_keeps = sub_balance-IsReady;
  }

  -- A transaction over the Cosmos plugin. The plugin is reset on a context with its two stores mounted,
  -- and a state database is made of it. A call that fails, whatever it and the calls inside it did to
  -- the journals, accounts, code, storage, nonces and balances, returns without a panic, and every
  -- journal and the plugin show again what they showed before the call.
  pub failed_call-reset :
      (ctx : Context c) (base account_base : c.S) (body : Actions (host_of c geth))
      → lookup c.store_key ctx.multi_store ≡ some base
      → lookup c.ak.store_key ctx.multi_store ≡ some account_base
      → (sdb : StateDb (host_of c geth)) × (sdb' : StateDb (host_of c geth)) × (new_state_db
            (host_of c geth)
            (reset c ctx)
          ≡ ok sdb)
        × (perform (host_of c geth) (call false body) sdb ≡ ok sdb')
        × (shown (host_of c geth) plugin_law sdb' ≡ shown (host_of c geth) plugin_law sdb)
        × Invariant (host_of c geth) plugin_law sdb' []
  failed_call-reset ctx base account_base body m1 m2 =
      let (sound, writable, _, _) = reset-IsSound c law ctx base account_base m1 m2 in
      let (sdb, e, inv) =
        new_state_db-Invariant (host_of c geth) plugin_law (reset c ctx) (writable, sound, tt) in
      let (sdb', e', same, inv') =
        failed_call_leaves_no_trace (host_of c geth) plugin_law body sdb [] inv in
      (sdb, sdb', e, e', same, inv')
