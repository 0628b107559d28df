-- ===== src/Plugin/Storage.antt =====
-- Storage slots in the plugin.
use molaris.Prelude.{
  Bool, Option, none, some, List, [], ◌∷◌, ◌==◌, if◌then◌else◌, Exec, ◌>>=◌, ok, nat_eq,
}
use molaris.Store.{Bytes, get_committed_kv_store}
use molaris.Keys.{
  slot_key_for, storage_key_for, storage_key_prefix, address_from_slot_key, slot_from_slot_key,
}
use molaris.Plugin.{Chain, Plugin, kv_read, kv_write}
use molaris.Plugin.Codes.{save_error}
use molaris.Journal.{Address, Hash}

module _ (c : Chain) where
  abbrev pub slot_key : Address → Hash → Bytes
  slot_key addr slot = slot_key_for (c.enc.address_bytes addr) (c.enc.hash_bytes slot)

  abbrev pub state_of : Option Bytes → Hash
  state_of none = 0
  state_of (some value) = c.enc.hash_of value

  unfoldable pub get_state_from_store : c.S → Address → Hash → Hash
  get_state_from_store store addr slot = state_of (c.kv.get store (slot_key addr slot))

  unfoldable pub get_committed_state : Address → Hash → Plugin c → Exec Hash
  get_committed_state addr slot p = do
    store ← get_committed_kv_store c.kv p.cms c.store_key
    ok (get_state_from_store store addr slot)

  unfoldable pub get_state : Address → Hash → Plugin c → Exec (Plugin c × Hash)
  get_state addr slot = kv_read c c.store_key (λ s. get_state_from_store s addr slot)

  unfoldable pub set_state : Address → Hash → Hash → Plugin c → Exec (Plugin c)
  set_state addr key value p =
      if value == 0
      then kv_write c c.store_key (c.kv.delete (slot_key addr key)) p
      else kv_write c c.store_key (c.kv.put (slot_key addr key) (c.enc.hash_bytes value)) p

  unfoldable pub set_storage : Address → List (Hash × Hash) → Plugin c → Exec (Plugin c)
  set_storage addr [] p = ok p
  set_storage addr ((key, value) ∷ rest) p = set_state addr key value p >>= set_storage addr rest

  -- The loop of `IterateState`, with what the callback collects; it may also read the plugin.
  unfoldable pub iterate_state_entries :
      {A : Type 0}
      → (Address → Hash → Hash → A → Plugin c → Exec (Plugin c × A × Bool))
      → List (Bytes × Bytes)
      → A
      → Plugin c
      → Exec (Plugin c × A)
  iterate_state_entries cb [] a p = ok (p, a)
  iterate_state_entries cb ((k, v) ∷ rest) a p = do
    addr ← address_from_slot_key c.enc.conversions k
    slot ← slot_from_slot_key c.enc.conversions k
    (q, a', stop) ← cb (c.enc.address_of addr) (c.enc.hash_of slot) (c.enc.hash_of v) a p
    if stop then ok (q, a') else iterate_state_entries cb rest a' q

  unfoldable pub iterate_state :
      {A : Type 0}
      → (Address → Hash → Hash → A → Plugin c → Exec (Plugin c × A × Bool))
      → A
      → Plugin c
      → Exec (Plugin c × A)
  iterate_state cb a p = do
    let prefix = storage_key_prefix ∷ []
    s ← get_committed_kv_store c.kv p.cms c.store_key
    q ← iterate_state_entries cb (c.iterators.entries s prefix) a p
    ok (save_error c (c.iterators.close s prefix) q.0, q.1)

  -- The loop of `ForEachStorage`; the callback may change the plugin.
  unfoldable pub for_each_entry :
      (Hash → Hash → Plugin c → Exec (Plugin c × Bool))
      → List (Bytes × Bytes)
      → Plugin c
      → Exec (Plugin c)
  for_each_entry cb [] p = ok p
  for_each_entry cb ((k, []) ∷ rest) p = for_each_entry cb rest p
  for_each_entry cb ((k, b ∷ v) ∷ rest) p = do
    r ← cb (c.enc.hash_of k) (c.enc.hash_of (b ∷ v)) p
    if r.1 then for_each_entry cb rest r.0 else ok r.0

  -- The iterator is closed before the loop runs over it.
  unfoldable pub for_each_storage :
      Address
      → (Hash → Hash → Plugin c → Exec (Plugin c × Bool))
      → Plugin c
      → Exec (Plugin c × Option c.Error)
  for_each_storage addr cb p = do
    let prefix = storage_key_for (c.enc.address_bytes addr)
    r ←
        kv_read c {A = List (Bytes × Bytes) × Option c.Error} c.store_key
          (λ s. (c.iterators.entries_closed s prefix, c.iterators.close s prefix)) p
    elim (r.1).1 [
      | some err ↦ ok (r.0, some err)
      | none ↦ for_each_entry cb (r.1).0 r.0 >>= λ q. ok (q, none)
    ]
