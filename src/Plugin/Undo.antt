-- ===== src/Plugin/Undo.antt =====
-- A revert of the plugin undoes any sequence of the calls that change it.
use molaris.Prelude.{ℕ, ◌≡◌, refl, ap, ◌∙◌, false, List, [], ◌∷◌, ℤ, Exec, ◌>>=◌, ok}
use molaris.Store.{Bytes}
use molaris.Store.Views.{CacheKvLaw}
use molaris.Plugin.{Chain, Plugin, add_balance, sub_balance}
use molaris.Plugin.Accounts.{create_account, set_nonce, delete_account}
use molaris.Plugin.Codes.{set_code}
use molaris.Plugin.Storage.{set_state}
use molaris.Plugin.Controlled.{snapshot, revert_to_snapshot}
use molaris.Plugin.Restore.{PluginView, plugin_view, snapshot-IsGuarded, revert-IsGuarded}
use molaris.Plugin.Sound.{IsSound, IsSound-restored}
use molaris.Plugin.Safe.{IsSafeStep}
use molaris.Plugin.Calls.{
  set_state-IsSafe, set_code-IsSafe, create_account-IsSafe, set_nonce-IsSafe, add_balance-IsSafe,
  sub_balance-IsSafe, delete_account-IsSafe,
}
use molaris.Journal.{Address, Hash}

-- The calls of the state database that change the plugin.
pub data Call : Type 0 where
  creates deletes : Address → Call
  sets_state : Address → Hash → Hash → Call
  sets_code : Address → Bytes → Call
  sets_nonce : Address → ℕ → Call
  adds_balance subs_balance : Address → ℤ → Call

module _ (c : Chain) where
  abbrev pub perform : Call → Plugin c → Exec (Plugin c)
  perform (creates addr) = create_account c addr
  perform (deletes addr) = delete_account c addr
  perform (sets_state addr key value) = set_state c addr key value
  perform (sets_code addr code) = set_code c addr code
  perform (sets_nonce addr nonce) = set_nonce c addr nonce
  perform (adds_balance addr amount) = add_balance c addr amount
  perform (subs_balance addr amount) = sub_balance c addr amount

  abbrev pub perform_all : List Call → Plugin c → Exec (Plugin c)
  perform_all [] p = ok p
  perform_all (call ∷ calls) p = perform call p >>= perform_all calls

module _ (c : Chain) (law : CacheKvLaw c.kv) where
  pub perform-IsSafe : (call : Call) → IsSafeStep c law (perform c call)
  perform-IsSafe (creates addr) = create_account-IsSafe c law addr
  perform-IsSafe (deletes addr) = delete_account-IsSafe c law addr
  perform-IsSafe (sets_state addr key value) = set_state-IsSafe c law addr key value
  perform-IsSafe (sets_code addr code) = set_code-IsSafe c law addr code
  perform-IsSafe (sets_nonce addr nonce) = set_nonce-IsSafe c law addr nonce
  perform-IsSafe (adds_balance addr amount) = add_balance-IsSafe c law addr amount
  perform-IsSafe (subs_balance addr amount) = sub_balance-IsSafe c law addr amount

  perform_all-IsSafe : (calls : List Call) → IsSafeStep c law (perform_all c calls)
  perform_all-IsSafe [] p ps writable s = (p, refl, writable, s)
  perform_all-IsSafe (call ∷ calls) p ps writable s =
      let (q, e, w, s') = perform-IsSafe call p ps writable s in
      let (r, e', w', s'') = perform_all-IsSafe calls q ps w s' in (r, rw e e', w', s'')

  -- Whatever calls change a plugin after a snapshot, account deletions included, they succeed, and the
  -- revert brings back all that the plugin showed: the values of every store, the Cosmos events and
  -- the balance changes. The plugin is sound before and after, with a multi-store that is not
  -- read-only.
  pub revert-perform_all-snapshot :
      (p : Plugin c) (calls : List Call) (ps : List (ℤ × PluginView c))
      → p.cms.read_only ≡ false
      → IsSound c law p ps
      → (p1 : Plugin c) × (p2 : Plugin c) × (p3 : Plugin c) × (id : ℤ) × (snapshot c p
          ≡ ok (p1, id))
        × (perform_all c calls p1 ≡ ok p2)
        × (revert_to_snapshot c p2 id ≡ ok p3)
        × (plugin_view c law p3 ≡ plugin_view c law p)
        × IsSound c law p3 ps
  revert-perform_all-snapshot p calls ps writable s =
      let (p1, id, e1, same, g1) = snapshot-IsGuarded c law p ps s.guarded in
      let s1 =
        IsSound-restored c law p p1 ps ((id, plugin_view c law p) ∷ ps) (ap (λ v. v.committed) same)
          g1 s in
      let (p2, e2, w2, s2) =
        perform_all-IsSafe calls p1 ((id, plugin_view c law p) ∷ ps)
          (ap (λ v. v.read_only) same ∙ writable) s1 in
      let (p3, e3, back, g3) = revert-IsGuarded c law p2 id (plugin_view c law p) ps s2.guarded in
      (
        p1,
        p2,
        p3,
        id,
        e1,
        e2,
        e3,
        back,
        IsSound-restored c law p p3 ps ps (ap (λ v. v.committed) back) g3 s,
      )
