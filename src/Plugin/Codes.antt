-- ===== src/Plugin/Codes.antt =====
-- Code hashes and code in the plugin.
use molaris.Prelude.{
  Bool, ◌||◌, not, Option, none, some, List, [], ◌∷◌, ◌==◌, if◌then◌else◌, Exec, ok, ◌>>=◌, nat_eq,
}
use molaris.Store.{Bytes}
use molaris.Keys.{code_hash_key_for, code_key_for, code_hash_key_prefix, address_from_code_hash_key}
use molaris.Plugin.{Chain, Plugin, kv_read, kv_write}
use molaris.Journal.{Address, Hash}

module _ (c : Chain) where
  abbrev pub empty_code_hash : Hash
  empty_code_hash = c.enc.keccak256_hash []

  -- The answer for an account that exists.
  abbrev pub code_hash_of : Option Bytes → Hash
  code_hash_of none = empty_code_hash
  code_hash_of (some ch) = c.enc.hash_of ch

  unfoldable pub get_code_hash : Address → Plugin c → Exec (Plugin c × Hash)
  get_code_hash addr p = do
    r ← kv_read c c.ak.store_key (λ s. c.ak.has_account s addr) p
    if not r.1
        then ok (r.0, 0)
        else (kv_read c c.store_key
            (λ s. code_hash_of (c.kv.get s (code_hash_key_for (c.enc.address_bytes addr)))) r.0)

  -- A missing entry is nil, which is no bytes.
  abbrev pub or_nil : Option Bytes → Bytes
  or_nil none = []
  or_nil (some b) = b

  unfoldable pub get_code : Address → Plugin c → Exec (Plugin c × Bytes)
  get_code addr p = do
    r ← get_code_hash addr p
    if (r.1 == 0) || (r.1 == empty_code_hash)
        then ok (r.0, [])
        else (kv_read c c.store_key (λ s. or_nil (c.kv.get s (code_key_for (c.enc.hash_bytes r.1))))
            r.0)

  -- `if len(code) == 0 { Delete } else { Set }`
  abbrev pub put_code : Bytes → Bytes → c.S → c.S
  put_code key [] s = c.kv.delete key s
  put_code key (b ∷ code) s = c.kv.put key (b ∷ code) s

  unfoldable pub set_code : Address → Bytes → Plugin c → Exec (Plugin c)
  set_code addr code p = do
    let code_hash = c.enc.keccak256_hash code
    q ←
        kv_write c c.store_key
          (c.kv.put (code_hash_key_for (c.enc.address_bytes addr)) (c.enc.hash_bytes code_hash)) p
    kv_write c c.store_key (put_code (code_key_for (c.enc.hash_bytes code_hash)) code) q

  -- The loop of `IterateCode`, with what the callback collects; it may also read the plugin.
  unfoldable pub iterate_code_entries :
      {A : Type 0}
      → (Address → Hash → A → Plugin c → Exec (Plugin c × A × Bool))
      → List (Bytes × Bytes)
      → A
      → Plugin c
      → Exec (Plugin c × A)
  iterate_code_entries fn [] a p = ok (p, a)
  iterate_code_entries fn ((k, v) ∷ rest) a p = do
    b ← address_from_code_hash_key c.enc.conversions k
    r ← get_code_hash (c.enc.address_of b) p
    (q, a', stop) ← fn (c.enc.address_of b) r.1 a r.0
    if stop then ok (q, a') else iterate_code_entries fn rest a' q

  abbrev pub save_error : Option c.Error → Plugin c → Plugin c
  save_error none p = p
  save_error (some err) p = record p { saved_err = some err }

  unfoldable pub iterate_code :
      {A : Type 0}
      → (Address → Hash → A → Plugin c → Exec (Plugin c × A × Bool))
      → A
      → Plugin c
      → Exec (Plugin c × A)
  iterate_code fn a p = do
    let prefix = code_hash_key_prefix ∷ []
    r ←
        kv_read c {A = List (Bytes × Bytes) × Option c.Error} c.store_key
          (λ s. (c.iterators.entries s prefix, c.iterators.close s prefix)) p
    q ← iterate_code_entries fn (r.1).0 a r.0
    ok (save_error (r.1).1 q.0, q.1)
