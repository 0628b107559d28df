-- ===== src/Plugin/Nonces.antt =====
-- What the nonces read after they are set.
use molaris.Prelude.{
  ℕ, ◌≡◌, refl, ap, ◌∙◌, inl, inr, false, Option, none, some, List, ◌==◌, if◌then◌else◌, Bool-cases,
  ℤ, ok,
}
use molaris.Store.{Store}
use molaris.Store.Views.{StoreView}
use molaris.Plugin.{Chain, Plugin}
use molaris.Plugin.Guards.{PluginGuards, with_cms}
use molaris.Plugin.Accounts.{nonce_of, get_nonce, set_nonce, set_account, or_new, or_saved}
use molaris.Plugin.Entries.{
  ChainLaw, HasEntry, HasEntry-same, Changed, read_entry, put_entry, set_account-Changed,
  new_account-Changed,
}
use molaris.Journal.{Address}

module _ (c : Chain) (laws : ChainLaw c) where
  abbrev moved_to : Plugin c → Store c.S → Plugin c
  moved_to p cms = with_cms c laws.kv_law p cms

  -- The account of the address, or a new one for it.
  or_new-Changed :
      (addr : Address) (o : Option c.Account) (p : Plugin c) (ps : List (ℤ × StoreView c.kv))
      → p.cms.read_only ≡ false
      → HasEntry c laws p addr o
      → PluginGuards c p ps
      → (cms : Store c.S) × (acc : c.Account) × (or_new c addr p o ≡ ok (moved_to p cms, acc))
        × (laws.ak_law.address acc ≡ addr)
        × Changed c laws p (moved_to p cms) (λ _ e. e) ps
  or_new-Changed addr (some acc) p ps writable (s, _, entry) guards = (
    p.cms,
    acc,
    refl,
    laws.ak_law.address-get_account s addr acc entry,
    (λ a o h. h, refl, refl, guards),
  )
  or_new-Changed addr none p ps writable entry guards =
      new_account-Changed c laws addr p ps writable guards

  set_nonce_end :
      (acc : c.Account) (nonce : ℕ) (p : Plugin c)
      → (c.ak.set_sequence acc nonce).1 ≡ none
      → set_account c
          ((c.ak.set_sequence acc nonce).0)
          (record p { saved_err = or_saved c ((c.ak.set_sequence acc nonce).1) p.saved_err })
        ≡ set_account c ((c.ak.set_sequence acc nonce).0) p
  set_nonce_end acc nonce p e =
      ap
        (λ err.
          set_account c ((c.ak.set_sequence acc nonce).0)
            (record p { saved_err = or_saved c err p.saved_err }))
        e

  -- The nonce of every account: the new one at the address, and the old one elsewhere.
  set_nonce-entries :
      (p : Plugin c) (addr : Address) (nonce : ℕ) (o : Option c.Account)
      (ps : List (ℤ × StoreView c.kv))
      → p.cms.read_only ≡ false
      → HasEntry c laws p addr o
      → PluginGuards c p ps
      → (cms : Store c.S) × (acc : c.Account) × (set_nonce c addr nonce p ≡ ok (moved_to p cms))
        × (laws.ak_law.address acc ≡ addr)
        × (c.ak.get_sequence acc ≡ nonce)
        × Changed c laws p (moved_to p cms) (put_entry c laws acc) ps
  unfolding set_nonce
  set_nonce-entries p addr nonce o ps writable entry guards =
      let (cms1, e1, (same1, ro1, guards1)) =
        read_entry c laws (λ s. c.ak.get_account s addr) (λ x. x) addr o p ps (λ s. refl) entry
          guards in
      let p1 = moved_to p cms1 in
      let at_key = ap (λ v. v c.ak.store_key) same1 in
      let (cms2, acc, e2, address, (entries2, store2, ro2, guards2)) =
        or_new-Changed addr o p1 ps (ro1 ∙ writable) (HasEntry-same c laws p p1 addr o at_key entry)
          guards1 in
      let p2 = moved_to p cms2 in
      let acc' = (c.ak.set_sequence acc nonce).0 in
      let (cms3, e3, (entries3, store3, ro3, guards3)) =
        set_account-Changed c laws acc' p2 ps (ro2 ∙ ro1 ∙ writable) guards2 in
      (
        cms3,
        acc',
        rw (e1, e2) (set_nonce_end acc nonce p2 (laws.ak_law.set_sequence_ok acc nonce) ∙ e3),
        laws.ak_law.address-set_sequence acc nonce ∙ address,
        laws.ak_law.get_sequence-set_sequence acc nonce,
        (
          λ a x h. entries3 a x (entries2 a x (HasEntry-same c laws p p1 a x at_key h)),
          store3 ∙ store2 ∙ ap (λ v. v c.store_key) same1,
          ro3 ∙ ro2 ∙ ro1,
          guards3,
        ),
      )

  get_nonce-entry :
      (p : Plugin c) (a : Address) (o : Option c.Account) (ps : List (ℤ × StoreView c.kv))
      → HasEntry c laws p a o
      → PluginGuards c p ps
      → (q : Plugin c) × (get_nonce c a p ≡ ok (q, nonce_of c o))
  unfolding get_nonce
  get_nonce-entry p a o ps entry guards =
      let (cms, e, _) =
        read_entry c laws (λ s. nonce_of c (c.ak.get_account s a)) (nonce_of c) a o p ps (λ s. refl)
          entry guards in
      (moved_to p cms, e)

  nonce_of-put_entry :
      (acc : c.Account) (addr a : Address) (nonce : ℕ) (o : Option c.Account)
      → laws.ak_law.address acc ≡ addr
      → c.ak.get_sequence acc ≡ nonce
      → nonce_of c (put_entry c laws acc a o) ≡ (if addr == a then nonce else nonce_of c o)
  nonce_of-put_entry acc addr a nonce o is seq = elim (Bool-cases (addr == a)) [
    | inl e ↦ rw (is, e) seq
    | inr e ↦ rw (is, e) refl
  ]

  -- A nonce that is set is read back, of an account that did not exist too, and every other account's
  -- nonce is what it was. It holds of a multi-store that is not read-only, and every restore point is
  -- kept; `o` and `x` are the accounts at the two addresses.
  pub get_nonce-set_nonce :
      (p : Plugin c) (addr : Address) (nonce : ℕ) (o : Option c.Account)
      (ps : List (ℤ × StoreView c.kv))
      → p.cms.read_only ≡ false
      → HasEntry c laws p addr o
      → PluginGuards c p ps
      → (p' : Plugin c) × (set_nonce c addr nonce p ≡ ok p')
        × PluginGuards c p' ps
        × ((a : Address) (x : Option c.Account)
            → HasEntry c laws p a x
            → (q : Plugin c) × (r : Plugin c) × (get_nonce c a p ≡ ok (q, nonce_of c x))
              × (get_nonce c a p' ≡ ok (r, if addr == a then nonce else nonce_of c x)))
  get_nonce-set_nonce p addr nonce o ps writable entry guards =
      let (cms, acc, e, is, seq, (entries, _, _, guards')) =
        set_nonce-entries p addr nonce o ps writable entry guards in
      let p' = moved_to p cms in
      (
        p',
        e,
        guards',
        λ a x h.
            let (q, eq) = get_nonce-entry p a x ps h guards in
            let (r, er) =
              get_nonce-entry p' a (put_entry c laws acc a x) ps (entries a x h) guards' in
            (q, r, eq, er ∙ ap (λ n. ok (r, n)) (nonce_of-put_entry acc addr a nonce x is seq)),
      )
