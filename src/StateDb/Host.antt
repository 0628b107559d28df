-- ===== src/StateDb/Host.antt =====
-- What the state database is given from outside: the state plugin of the host chain, go-ethereum's
-- access lists and logs, and the hash of no code.
use molaris.Prelude.{ℕ, ◌≡◌, Option, List, ◌∷◌, ℤ, Exec, ok}
use molaris.Journal.{Address, Hash}
use molaris.Journal.Logs.{Log}
use molaris.Journal.Suicides.{SuicideStatePlugin}
use molaris.Journal.AccessList.{AccessLists}

pub record Host : Type 1 where
  pub Plugin : Type 0
  pub Error : Type 0
  pub PluginCall : Type 0
  pub Payload : Type 0
  pub AccessSet : Type 0
  pub plugin_snapshot : Plugin → Exec (Plugin × ℤ)
  pub plugin_revert : Plugin → ℤ → Exec Plugin
  pub plugin_finalize : Plugin → Exec Plugin
  pub commit_to_bank : Plugin → Exec Plugin
  pub delete_accounts : List Address → Plugin → Exec Plugin
  pub error : Plugin → Option Error
  pub get_code : Plugin → Address → Exec (Plugin × List ℕ)
  pub call_plugin : PluginCall → Plugin → Exec Plugin
  pub ssp : SuicideStatePlugin Plugin
  pub lists : AccessLists AccessSet
  pub zero_log : Log Payload
  pub empty_code_hash : Hash

-- The contract of the plugin, as of any `Controllable`, and of the calls that change it: those that
-- the state database passes on, and the one that a journal makes.
pub record PluginLaw (h : Host) : Type 1 where
  pub PluginView : Type 0
  pub plugin_view : h.Plugin → PluginView
  pub PluginGuards : h.Plugin → List (ℤ × PluginView) → Type 0
  pub forget_plugin :
      (p : h.Plugin) (q : ℤ × PluginView) (qs : List (ℤ × PluginView))
      → PluginGuards p (q ∷ qs)
      → PluginGuards p qs
  pub snapshot_plugin :
      (p : h.Plugin) (qs : List (ℤ × PluginView))
      → PluginGuards p qs
      → (p' : h.Plugin) × (id : ℤ) × (h.plugin_snapshot p ≡ ok (p', id))
        × (plugin_view p' ≡ plugin_view p)
        × PluginGuards p' ((id, plugin_view p) ∷ qs)
  pub revert_plugin :
      (p : h.Plugin) (id : ℤ) (v : PluginView) (qs : List (ℤ × PluginView))
      → PluginGuards p ((id, v) ∷ qs)
      → (p' : h.Plugin) × (h.plugin_revert p id ≡ ok p') × (plugin_view p' ≡ v) × PluginGuards p' qs
  pub call_keeps :
      (call : h.PluginCall) (p : h.Plugin) (qs : List (ℤ × PluginView))
      → PluginGuards p qs
      → (p' : h.Plugin) × (h.call_plugin call p ≡ ok p') × PluginGuards p' qs
  pub sub_balance_keeps :
      (p : h.Plugin) (addr : Address) (amount : ℤ) (qs : List (ℤ × PluginView))
      → PluginGuards p qs
      → PluginGuards (h.ssp.sub_balance p addr amount) qs
