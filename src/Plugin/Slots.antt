-- ===== src/Plugin/Slots.antt =====
-- What the storage slots read after a write.
use molaris.Prelude.{
  ◌≡◌, refl, sym, ap, ◌∙◌, fun_ext, ◌⊎◌, inl, inr, true, false, ◌&&◌, Option, none, some, List,
  ◌==◌, if◌then◌else◌, ==_iff, Bool-cases, ℤ, ok, eqb, bytes_eq, nat_eq,
}
use mathlib.Core.Path.{ap₂}
use molaris.Keys.{slot_key_roundtrip}
use molaris.Store.{Bytes, Store}
use molaris.Store.Views.{CacheKvLaw, StoreView}
use molaris.Store.Maps.{store_view}
use molaris.Plugin.{Chain, EncodingLaw, Plugin, kv_write}
use molaris.Plugin.Guards.{
  PluginGuards, evm, shown, with_cms, kv_read-PluginGuards, kv_write-PluginGuards, if_same,
}
use molaris.Plugin.Storage.{slot_key, state_of, get_state_from_store, get_state, set_state}
use molaris.Journal.{Address, Hash}

module _ (c : Chain) (law : CacheKvLaw c.kv) (enc : EncodingLaw c.enc) where
  -- The value of a slot, by what the plugin shows.
  abbrev pub slot_of : Option (Option Bytes) → Hash
  slot_of none = 0
  slot_of (some o) = state_of c o

  abbrev pub slot_shown : StoreView c.kv → Address → Hash → Hash
  slot_shown v addr slot = slot_of (v c.store_key (slot_key c addr slot))

  address_bytes_injective : (a b : Address) → c.enc.address_bytes a ≡ c.enc.address_bytes b → a ≡ b
  address_bytes_injective a b e =
      sym (enc.address_of-address_bytes a) ∙ ap c.enc.address_of e ∙ enc.address_of-address_bytes b

  hash_bytes_injective : (a b : Hash) → c.enc.hash_bytes a ≡ c.enc.hash_bytes b → a ≡ b
  hash_bytes_injective a b e =
      sym (enc.hash_of-hash_bytes a) ∙ ap c.enc.hash_of e ∙ enc.hash_of-hash_bytes b

  -- No two slots have a key in common.
  slot_key_injective :
      (addr a : Address) (slot s : Hash)
      → slot_key c addr slot ≡ slot_key c a s
      → (addr ≡ a) × (slot ≡ s)
  slot_key_injective addr a slot s e =
      let conv = c.enc.conversions in
      let (ra, rs) =
        slot_key_roundtrip conv (c.enc.address_bytes addr) (c.enc.hash_bytes slot)
          (enc.length-address_bytes addr) (enc.length-hash_bytes slot) in
      let (qa, qs) =
        slot_key_roundtrip conv (c.enc.address_bytes a) (c.enc.hash_bytes s)
          (enc.length-address_bytes a) (enc.length-hash_bytes s) in
      let ea : c.enc.address_bytes addr ≡ c.enc.address_bytes a = cc (ra, qa, e) in
      let es : c.enc.hash_bytes slot ≡ c.enc.hash_bytes s = cc (rs, qs, e) in
      (address_bytes_injective addr a ea, hash_bytes_injective slot s es)

  -- `GetState` returns what is shown, and changes nothing that is shown.
  pub get_state-PluginGuards :
      (p : Plugin c) (addr : Address) (slot : Hash) (ps : List (ℤ × StoreView c.kv))
      → PluginGuards c p ps
      → (cms : Store c.S) × (get_state c addr slot p
          ≡ ok (with_cms c law p cms, slot_shown (shown c law p) addr slot))
        × (store_view c.kv cms ≡ shown c law p)
        × (cms.read_only ≡ p.cms.read_only)
        × PluginGuards c (with_cms c law p cms) ps
  unfolding get_state get_state_from_store
  get_state-PluginGuards p addr slot ps g =
      let (cms, s, e, reads, same, ro, g') =
        kv_read-PluginGuards c law evm (λ s. get_state_from_store c s addr slot) p ps g in
      (
        cms,
        e ∙ ap (λ r. ok (with_cms c law p cms, slot_of (r (slot_key c addr slot)))) reads,
        same,
        ro,
        g',
      )

  -- What a write of a slot makes of the store.
  abbrev put_slot : Address → Hash → Hash → c.S → c.S
  put_slot addr slot value s =
      if value == 0
      then c.kv.delete (slot_key c addr slot) s
      else c.kv.put (slot_key c addr slot) (c.enc.hash_bytes value) s

  state_of-put_slot :
      (addr a : Address) (slot b value : Hash) (s : c.S)
      → state_of c (c.kv.get (put_slot addr slot value s) (slot_key c a b)) ≡ (
          if eqb (slot_key c addr slot) (slot_key c a b)
          then value
          else state_of c (c.kv.get s (slot_key c a b)))
  state_of-put_slot addr a slot b value s = elim (Bool-cases (value == 0)) [
    | inl zero_value ↦ rw zero_value (
        ap (state_of c) (law.get-delete (slot_key c addr slot) (slot_key c a b) s)
        ∙ (elim (Bool-cases (eqb (slot_key c addr slot) (slot_key c a b))) [
          | inl e ↦ rw e (sym ((==_iff value 0).0 zero_value))
          | inr e ↦ rw e refl
        ]))
    | inr other ↦ rw other (
        ap (state_of c)
          (law.get-put (slot_key c addr slot) (slot_key c a b) (c.enc.hash_bytes value) s)
        ∙ (elim (Bool-cases (eqb (slot_key c addr slot) (slot_key c a b))) [
          | inl e ↦ rw e (enc.hash_of-hash_bytes value)
          | inr e ↦ rw e refl
        ]))
  ]

  -- Keys are equal just when address and slot are.
  eqb-slot_key :
      (addr a : Address) (slot b : Hash)
      → eqb (slot_key c addr slot) (slot_key c a b) ≡ (addr == a && slot == b)
  eqb-slot_key addr a slot b = elim (Bool-cases (eqb (slot_key c addr slot) (slot_key c a b))) [
    | inl e ↦
        let (ea, es) =
          slot_key_injective addr a slot b
            ((bytes_eq.beq_iff (slot_key c addr slot) (slot_key c a b)).0 e) in
        e ∙ sym (rw ((==_iff addr a).1 ea, (==_iff slot b).1 es) refl)
    | inr e ↦ e ∙ sym (apart (Bool-cases (addr == a)) (Bool-cases (slot == b)) e)
  ]
    where
      apart :
          ((addr == a) ≡ true) ⊎ ((addr == a) ≡ false)
          → ((slot == b) ≡ true) ⊎ ((slot == b) ≡ false)
          → eqb (slot_key c addr slot) (slot_key c a b) ≡ false
          → (addr == a && slot == b) ≡ false
      apart (inr ne) q e = rw ne refl
      apart (inl ea) (inr ne) e = rw (ea, ne) refl
      apart (inl ea) (inl es) e =
          let same : slot_key c addr slot ≡ slot_key c a b =
            ap₂ (slot_key c) ((==_iff addr a).0 ea) ((==_iff slot b).0 es) in
          cc (e, (bytes_eq.beq_iff (slot_key c addr slot) (slot_key c a b)).1 same)

  set_state-write :
      (p : Plugin c) (addr : Address) (slot value : Hash)
      → set_state c addr slot value p ≡ kv_write c c.store_key (put_slot addr slot value) p
  unfolding set_state
  set_state-write p addr slot value = elim (Bool-cases (value == 0)) [
    | inl e ↦ rw e (ap (λ f. kv_write c c.store_key f p) (fun_ext (λ s. sym (rw e refl))))
    | inr e ↦ rw e (ap (λ f. kv_write c c.store_key f p) (fun_ext (λ s. sym (rw e refl))))
  ]

  -- A slot that is set shows the new value, 0 included; every other slot, and every other store, shows
  -- what it did.
  pub set_state-PluginGuards :
      (p : Plugin c) (addr : Address) (slot value : Hash) (ps : List (ℤ × StoreView c.kv))
      → p.cms.read_only ≡ false
      → PluginGuards c p ps
      → (cms : Store c.S) × (set_state c addr slot value p ≡ ok (with_cms c law p cms))
        × ((a : Address) (b : Hash)
            → slot_shown (store_view c.kv cms) a b
              ≡ (if addr == a && slot == b then value else slot_shown (shown c law p) a b))
        × (cms.read_only ≡ p.cms.read_only)
        × PluginGuards c (with_cms c law p cms) ps
  set_state-PluginGuards p addr slot value ps writable g =
      let (cms, s, e, reads, put, ro, g') =
        kv_write-PluginGuards c law evm (put_slot addr slot value) p ps writable g in
      (
        cms,
        set_state-write p addr slot value ∙ e,
        λ a b.
            ap (λ r. slot_of (r (slot_key c a b))) (put c.store_key ∙ if_same c.store_key _ _)
            ∙ state_of-put_slot addr a slot b value s
            ∙ ap (λ t. if t then value else state_of c (c.kv.get s (slot_key c a b)))
                (eqb-slot_key addr a slot b)
            ∙ ap (λ r. if addr == a && slot == b then value else slot_of (r (slot_key c a b)))
                reads,
        ro,
        g',
      )

  -- A slot that is set is read back, also where 0 is set and the entry is deleted, and `GetState` of
  -- any other slot returns what it returned before. It holds of a multi-store that is not read-only,
  -- and every restore point is kept.
  pub get_state-set_state :
      (p : Plugin c) (addr : Address) (slot value : Hash) (ps : List (ℤ × StoreView c.kv))
      → p.cms.read_only ≡ false
      → PluginGuards c p ps
      → (p' : Plugin c) × (set_state c addr slot value p ≡ ok p')
        × PluginGuards c p' ps
        × ((a : Address) (b : Hash)
            → (q : Plugin c) × (r : Plugin c) × (old : Hash) × (get_state c a b p ≡ ok (q, old))
              × (get_state c a b p' ≡ ok (r, if addr == a && slot == b then value else old)))
  get_state-set_state p addr slot value ps writable g =
      let (cms, e, shows, ro, g') = set_state-PluginGuards p addr slot value ps writable g in
      let p' = with_cms c law p cms in
      (
        p',
        e,
        g',
        λ a b.
            let (cms_q, e_q, _, _, _) = get_state-PluginGuards p a b ps g in
            let (cms_r, e_r, _, _, _) = get_state-PluginGuards p' a b ps g' in
            (
              with_cms c law p cms_q,
              with_cms c law p' cms_r,
              slot_shown (shown c law p) a b,
              e_q,
              e_r ∙ ap (λ v. ok (with_cms c law p' cms_r, v)) (shows a b),
            ),
      )
