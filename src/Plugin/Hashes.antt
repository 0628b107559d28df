-- ===== src/Plugin/Hashes.antt =====
-- What code hashes and code read after they are set.
use molaris.Prelude.{◌≡◌, refl, sym, ap, ◌∙◌, ◌≢◌, false, Option, none, some, List, [], ◌∷◌, ℤ, ok}
use molaris.Keys.{
  code_hash_key_for, code_key_for, code_hash_key_for_lem, code_hash_key_prefix, keys_apart,
}
use molaris.Store.{Bytes, Store}
use molaris.Store.Views.{StoreView}
use molaris.Plugin.{Chain, Plugin, kv_write}
use molaris.Plugin.Guards.{PluginGuards, with_cms}
use molaris.Plugin.Codes.{code_hash_of, or_nil, get_code_hash, put_code, set_code}
use molaris.Plugin.Entries.{ChainLaw, HasEntry, Kept, read_entry, is_some}
use molaris.Plugin.Values.{HasValue, read_value, Rewritten, put_at, put-Rewritten, delete-Rewritten}
use molaris.Journal.{Address, Hash}

module _ (c : Chain) (laws : ChainLaw c) where
  abbrev pub hash_key : Address → Bytes
  hash_key a = code_hash_key_for (c.enc.address_bytes a)

  abbrev pub code_key : Hash → Bytes
  code_key h = code_key_for (c.enc.hash_bytes h)

  -- The code hash of an account, by its entry and the value under its key.
  abbrev pub hash_by : Option c.Account → Option Bytes → Hash
  hash_by none o = 0
  hash_by (some acc) o = code_hash_of c o

  pub hash_key_injective : (a b : Address) → hash_key a ≡ hash_key b → a ≡ b
  hash_key_injective a b e =
      let law = laws.enc_law in
      let ka = code_hash_key_for_lem (c.enc.address_bytes a) (law.length-address_bytes a) in
      let kb = code_hash_key_for_lem (c.enc.address_bytes b) (law.length-address_bytes b) in
      let tails : code_hash_key_prefix ∷ c.enc.address_bytes a
          ≡ code_hash_key_prefix ∷ c.enc.address_bytes b =
        sym ka ∙ e ∙ kb in
      let bytes : c.enc.address_bytes a ≡ c.enc.address_bytes b = cc in
      sym (law.address_of-address_bytes a)
      ∙ ap c.enc.address_of bytes
      ∙ law.address_of-address_bytes b

  pub hash_key-code_key : (a : Address) (h : Hash) → hash_key a ≢ code_key h
  hash_key-code_key a h =
      let law = laws.enc_law in
      (keys_apart (c.enc.address_bytes a) (c.enc.address_bytes a) (c.enc.hash_bytes h)
        (law.length-address_bytes a) (law.length-address_bytes a) (law.length-hash_bytes h)).2

  pub get_code_hash-Kept :
      (p : Plugin c) (a : Address) (x : Option c.Account) (o : Option Bytes)
      (ps : List (ℤ × StoreView c.kv))
      → HasEntry c laws p a x
      → HasValue c laws p (hash_key a) o
      → PluginGuards c p ps
      → (q : Plugin c) × (get_code_hash c a p ≡ ok (q, hash_by x o)) × Kept c laws p q ps
  unfolding get_code_hash
  get_code_hash-Kept p a none o ps entry value guards =
      let (cms, e, kept) =
        read_entry c laws (λ s. c.ak.has_account s a) is_some a none p ps
          (λ s. laws.ak_law.has_account-get_account s a) entry guards in
      (with_cms c laws.kv_law p cms, rw e refl, kept)
  get_code_hash-Kept p a (some acc) o ps entry value guards =
      let (cms, e, (same, ro, guards1)) =
        read_entry c laws (λ s. c.ak.has_account s a) is_some a (some acc) p ps
          (λ s. laws.ak_law.has_account-get_account s a) entry guards in
      let p1 = with_cms c laws.kv_law p cms in
      let (cms2, e2, (same2, ro2, guards2)) =
        read_value c laws (code_hash_of c) (hash_key a) o p1 ps
          (ap (λ v. v c.store_key (hash_key a)) same ∙ value) guards1 in
      (with_cms c laws.kv_law p cms2, rw e e2, (same2 ∙ same, ro2 ∙ ro, guards2))

  pub set_code-Rewritten :
      (p : Plugin c) (addr : Address) (code : Bytes) (ps : List (ℤ × StoreView c.kv))
      → p.cms.read_only ≡ false
      → PluginGuards c p ps
      → let h = c.enc.keccak256_hash code in
        (cms : Store c.S) × (set_code c addr code p ≡ ok (with_cms c laws.kv_law p cms))
        × (v : Option Bytes) × (or_nil c v ≡ code)
        × Rewritten c laws p
            (with_cms c laws.kv_law p cms)
            (λ k o.
              put_at c laws
                (code_key h)
                v
                k
                (put_at c laws (hash_key addr) (some (c.enc.hash_bytes h)) k o))
            ps
  unfolding set_code
  set_code-Rewritten p addr code ps writable guards =
      let h = c.enc.keccak256_hash code in
      let (cms1, e1, (values1, same1, ro1, guards1)) =
        put-Rewritten c laws (hash_key addr) (c.enc.hash_bytes h) p ps writable guards in
      let p1 = with_cms c laws.kv_law p cms1 in
      let (cms2, e2, v, is, (values2, same2, ro2, guards2)) =
        put_code-Rewritten (code_key h) code p1 (ro1 ∙ writable) guards1 in
      (
        cms2,
        rw e1 e2,
        v,
        is,
        (λ k o value. values2 k _ (values1 k o value), same2 ∙ same1, ro2 ∙ ro1, guards2),
      )
    where
      put_code-Rewritten :
          (key code : Bytes) (q : Plugin c)
          → q.cms.read_only ≡ false
          → PluginGuards c q ps
          → (cms : Store c.S) × (kv_write c c.store_key (put_code c key code) q
              ≡ ok (with_cms c laws.kv_law q cms))
            × (v : Option Bytes) × (or_nil c v ≡ code)
            × Rewritten c laws q (with_cms c laws.kv_law q cms) (put_at c laws key v) ps
      put_code-Rewritten key [] q w g =
          let (cms, e, r) = delete-Rewritten c laws key q ps w g in (cms, e, none, refl, r)
      put_code-Rewritten key (b ∷ code) q w g =
          let (cms, e, r) = put-Rewritten c laws key (b ∷ code) q ps w g in
          (cms, e, some (b ∷ code), refl, r)
