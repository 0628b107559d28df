-- ===== src/Plugin/Contracts.antt =====
-- Contracts: their code is read back, and they exist from their creation until they are deleted.
use molaris.Prelude.{
  ◌≡◌, sym, ap, ◌∙◌, ◌≢◌, inl, inr, Bool, true, false, ◌||◌, Option, some, List, [], ◌==◌,
  Bool-cases, ℤ, ok,
}
use molaris.Store.{Bytes}
use molaris.Store.Views.{StoreView}
use molaris.Plugin.{Chain, Plugin}
use molaris.Plugin.Guards.{PluginGuards, with_cms}
use molaris.Plugin.Codes.{empty_code_hash, code_hash_of, or_nil, get_code_hash, get_code, set_code}
use molaris.Plugin.Entries.{ChainLaw, HasEntry, HasEntry-same}
use molaris.Plugin.Values.{HasValue, HasValue-PluginGuards, read_value, put_at-same, put_at-other}
use molaris.Plugin.Hashes.{
  hash_key, code_key, hash_by, hash_key_injective, hash_key-code_key, get_code_hash-Kept,
  set_code-Rewritten,
}
use molaris.Journal.{Address, Hash}

module _ (c : Chain) (laws : ChainLaw c) where
  -- The test of `GetCode` on the code hash.
  abbrev has_no_code : Hash → Bool
  has_no_code h = (h == 0) || (h == empty_code_hash c)

  get_code-entry :
      (p : Plugin c) (addr : Address) (acc : c.Account) (h : Hash) (o v : Option Bytes)
      (ps : List (ℤ × StoreView c.kv))
      → code_hash_of c o ≡ h
      → (has_no_code h ≡ true → or_nil c v ≡ [])
      → HasEntry c laws p addr (some acc)
      → HasValue c laws p (hash_key c laws addr) o
      → HasValue c laws p (code_key c laws h) v
      → PluginGuards c p ps
      → (q : Plugin c) × (get_code c addr p ≡ ok (q, or_nil c v))
  unfolding get_code
  get_code-entry p addr acc h o v ps is empty entry hash code guards =
      let (p1, e1, (same, ro, guards1)) =
        get_code_hash-Kept c laws p addr (some acc) o ps entry hash guards in
      elim (Bool-cases (has_no_code h)) [
        | inl t ↦ (p1, rw (e1, is, t) (ap (λ b. ok (p1, b)) (sym (empty t))))
        | inr f ↦
            let (cms, e, _) =
              read_value c laws (or_nil c) (code_key c laws h) v p1 ps
                (ap (λ w. w c.store_key (code_key c laws h)) same ∙ code) guards1 in
            (with_cms c laws.kv_law p1 cms, rw (e1, is, f) e)
      ]

  -- Code that is set for an account is read back, the empty code too, with its hash as the code hash,
  -- and every other account keeps its code hash. It holds where the multi-store is not read-only and
  -- no code but the empty one hashes to 0 or to the hash of no code; every restore point is kept.
  pub get_code-set_code :
      (p : Plugin c) (addr : Address) (code : Bytes) (acc : c.Account)
      (ps : List (ℤ × StoreView c.kv))
      → (((c.enc.keccak256_hash code == 0) || (c.enc.keccak256_hash code == empty_code_hash c))
            ≡ true
          → code ≡ [])
      → p.cms.read_only ≡ false
      → HasEntry c laws p addr (some acc)
      → PluginGuards c p ps
      → (p' : Plugin c) × (set_code c addr code p ≡ ok p')
        × PluginGuards c p' ps
        × ((q : Plugin c) × (get_code_hash c addr p' ≡ ok (q, c.enc.keccak256_hash code)))
        × ((r : Plugin c) × (get_code c addr p' ≡ ok (r, code)))
        × ((a : Address) (x : Option c.Account)
            → addr ≢ a
            → HasEntry c laws p a x
            → (q : Plugin c) × (r : Plugin c) × (old : Hash) × (get_code_hash c a p ≡ ok (q, old))
              × (get_code_hash c a p' ≡ ok (r, old)))
  get_code-set_code p addr code acc ps hashes writable entry guards =
      let h = c.enc.keccak256_hash code in
      let (cms, e, v, is, (values, accounts, ro, guards')) =
        set_code-Rewritten c laws p addr code ps writable guards in
      let p' = with_cms c laws.kv_law p cms in
      let entry' = HasEntry-same c laws p p' addr (some acc) accounts entry in
      let (o, old) = HasValue-PluginGuards c laws p (hash_key c laws addr) ps guards in
      let (w, old_code) = HasValue-PluginGuards c laws p (code_key c laws h) ps guards in
      let put = some (c.enc.hash_bytes h) in
      let hash : HasValue c laws p' (hash_key c laws addr) put =
        values (hash_key c laws addr) o old
        ∙ ap some (
            put_at-other c laws (code_key c laws h) (hash_key c laws addr) v _
              (λ same. hash_key-code_key c laws addr h (sym same))
            ∙ put_at-same c laws (hash_key c laws addr) put o) in
      let stored : HasValue c laws p' (code_key c laws h) v =
        values (code_key c laws h) w old_code
        ∙ ap some (put_at-same c laws (code_key c laws h) v _) in
      let read_hash = laws.enc_law.hash_of-hash_bytes h in
      let (q, eq, _) = get_code_hash-Kept c laws p' addr (some acc) put ps entry' hash guards' in
      let (r, er) =
        get_code-entry p' addr acc h put v ps read_hash (λ t. is ∙ hashes t) entry' hash stored
          guards' in
      (
        p',
        e,
        guards',
        (q, eq ∙ ap (λ x. ok (q, x)) read_hash),
        (r, er ∙ ap (λ b. ok (r, b)) is),
        λ a x apart entry_a.
            let (o_a, old_a) = HasValue-PluginGuards c laws p (hash_key c laws a) ps guards in
            let new_a : HasValue c laws p' (hash_key c laws a) o_a =
              values (hash_key c laws a) o_a old_a
              ∙ ap some (
                  put_at-other c laws (code_key c laws h) (hash_key c laws a) v _
                    (λ same. hash_key-code_key c laws a h (sym same))
                  ∙ put_at-other c laws (hash_key c laws addr) (hash_key c laws a) put o_a
                      (λ same. apart (hash_key_injective c laws addr a same))) in
            let (q_a, eq_a, _) = get_code_hash-Kept c laws p a x o_a ps entry_a old_a guards in
            let (r_a, er_a, _) =
              get_code_hash-Kept c laws p' a x o_a ps
                (HasEntry-same c laws p p' a x accounts entry_a) new_a guards' in
            (q_a, r_a, hash_by c laws x o_a, eq_a, er_a),
      )
