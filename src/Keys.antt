-- ===== src/Keys.antt =====
-- cosmos/x/evm/plugins/state/keys.go: the keys of accounts, code and storage slots in the store. Bytes
-- are numbers, addresses and hashes lists of 20 and 32 of them.
use molaris.Prelude.{
  ℕ, zero, suc, ◌+◌, ◌≡◌, refl, sym, ap, ◌∙◌, subst, ◌≢◌, List, [], ◌∷◌, ◌++◌, arith, ltb,
  if◌then◌else◌, ge→ltb, length, take, replicate, length-append, Exec, ◌>>=◌, bad_index, ok, panics,
}

abbrev pub code_key_prefix : ℕ
code_key_prefix = 0

abbrev pub storage_key_prefix : ℕ
storage_key_prefix = 2

abbrev pub code_hash_key_prefix : ℕ
code_hash_key_prefix = 3

abbrev pub address_length : ℕ
address_length = 20

abbrev pub hash_length : ℕ
hash_length = 32

-- go-ethereum's `BytesToAddress` and `BytesToHash`, which leave bytes of the right number alone.
pub record Conversions : Type 0 where
  pub bytes_to_address : List ℕ → List ℕ
  pub bytes_to_hash : List ℕ → List ℕ
  pub bytes_to_address-id : (b : List ℕ) → length b ≡ address_length → bytes_to_address b ≡ b
  pub bytes_to_hash-id : (b : List ℕ) → length b ≡ hash_length → bytes_to_hash b ≡ b

-- `copy(bz[i:], src)`, which stops at the end of either.
abbrev pub copy_at : List ℕ → ℕ → List ℕ → List ℕ
copy_at [] i src = []
copy_at (b ∷ bz) (suc i) src = b ∷ copy_at bz i src
copy_at (b ∷ bz) zero [] = b ∷ bz
copy_at (b ∷ bz) zero (x ∷ src) = x ∷ copy_at bz zero src

abbrev pub drop : ℕ → List ℕ → List ℕ
drop zero xs = xs
drop (suc n) [] = []
drop (suc n) (x ∷ xs) = drop n xs

-- `key[i:]` and `key[i:j]`.
abbrev pub slice_from : List ℕ → ℕ → Exec (List ℕ)
slice_from key i = if ltb (length key) i then panics bad_index else ok (drop i key)

abbrev pub slice : List ℕ → ℕ → ℕ → Exec (List ℕ)
slice key i j = if ltb (length key) j then panics bad_index else slice_from (take j key) i

unfoldable pub storage_key_for : List ℕ → List ℕ
storage_key_for address =
    copy_at (copy_at (replicate (1 + address_length) 0) 0 (storage_key_prefix ∷ [])) 1 address

unfoldable pub slot_key_for : List ℕ → List ℕ → List ℕ
slot_key_for address slot =
    let bz = copy_at (replicate (1 + address_length + hash_length) 0) 0 (storage_key_prefix ∷ []) in
    copy_at (copy_at bz 1 address) (1 + address_length) slot

unfoldable pub code_hash_key_for : List ℕ → List ℕ
code_hash_key_for address =
    copy_at (copy_at (replicate (1 + address_length) 0) 0 (code_hash_key_prefix ∷ [])) 1 address

unfoldable pub code_key_for : List ℕ → List ℕ
code_key_for code_hash =
    copy_at (copy_at (replicate (1 + hash_length) 0) 0 (code_key_prefix ∷ [])) 1 code_hash

copy_at-start : (zs bz src : List ℕ) → length zs ≡ length src → copy_at (zs ++ bz) 0 src ≡ src ++ bz
copy_at-start [] [] [] h = refl
copy_at-start [] (b ∷ bz) [] h = refl
copy_at-start [] bz (x ∷ src) h = absurd (omega (arith, h))
copy_at-start (z ∷ zs) bz [] h = absurd (omega (arith, h))
copy_at-start (z ∷ zs) bz (x ∷ src) h = ap (x ∷◌) (copy_at-start zs bz src (omega (arith, h)))

copy_at-behind : (xs bz src : List ℕ) → copy_at (xs ++ bz) (length xs) src ≡ xs ++ copy_at bz 0 src
copy_at-behind [] bz src = refl
copy_at-behind (x ∷ xs) bz src = ap (x ∷◌) (copy_at-behind xs bz src)

copy_at-whole : (zs src : List ℕ) → length zs ≡ length src → copy_at zs 0 src ≡ src
copy_at-whole [] [] h = refl
copy_at-whole [] (x ∷ src) h = absurd (omega (arith, h))
copy_at-whole (z ∷ zs) [] h = absurd (omega (arith, h))
copy_at-whole (z ∷ zs) (x ∷ src) h = ap (x ∷◌) (copy_at-whole zs src (omega (arith, h)))

-- The bytes of each key: the prefix of its kind, then what it is the key for.
pub storage_key_for_lem :
    (address : List ℕ)
    → length address ≡ address_length
    → storage_key_for address ≡ storage_key_prefix ∷ address
unfolding storage_key_for
storage_key_for_lem address h =
    ap (storage_key_prefix ∷◌) (copy_at-whole (replicate 20 0) address (sym h))

pub code_hash_key_for_lem :
    (address : List ℕ)
    → length address ≡ address_length
    → code_hash_key_for address ≡ code_hash_key_prefix ∷ address
unfolding code_hash_key_for
code_hash_key_for_lem address h =
    ap (code_hash_key_prefix ∷◌) (copy_at-whole (replicate 20 0) address (sym h))

pub code_key_for_lem :
    (code_hash : List ℕ)
    → length code_hash ≡ hash_length
    → code_key_for code_hash ≡ code_key_prefix ∷ code_hash
unfolding code_key_for
code_key_for_lem code_hash h =
    ap (code_key_prefix ∷◌) (copy_at-whole (replicate 32 0) code_hash (sym h))

pub slot_key_for_lem :
    (address slot : List ℕ)
    → length address ≡ address_length
    → length slot ≡ hash_length
    → slot_key_for address slot ≡ storage_key_prefix ∷ address ++ slot
unfolding slot_key_for
slot_key_for_lem address slot h k = ap (storage_key_prefix ∷◌) (
    ap (λ bz. copy_at bz 20 slot) (copy_at-start (replicate 20 0) (replicate 32 0) address (sym h))
    ∙ ap (λ n. copy_at (address ++ replicate 32 0) n slot) (sym h)
    ∙ copy_at-behind address (replicate 32 0) slot
    ∙ ap (address ++◌) (copy_at-whole (replicate 32 0) slot (sym k)))

drop-length : (xs ys : List ℕ) → drop (length xs) (xs ++ ys) ≡ ys
drop-length [] ys = refl
drop-length (x ∷ xs) ys = drop-length xs ys

take-prefix : (xs ys : List ℕ) → take (length xs) (xs ++ ys) ≡ xs
take-prefix [] ys = refl
take-prefix (x ∷ xs) ys = ap (x ∷◌) (take-prefix xs ys)

slice-middle : (p : ℕ) (xs ys : List ℕ) → slice (p ∷ xs ++ ys) 1 (suc (length xs)) ≡ ok xs
slice-middle p xs ys =
    rw
      (
        ge→ltb (suc (length (xs ++ ys))) (suc (length xs)) (omega (arith, length-append xs ys)),
        take-prefix xs ys,
        ge→ltb (suc (length xs)) 1 (omega arith),
      )
      refl

slice_from-behind : (p : ℕ) (xs ys : List ℕ) → slice_from (p ∷ xs ++ ys) (suc (length xs)) ≡ ok ys
slice_from-behind p xs ys =
    rw
      (
        ge→ltb (suc (length (xs ++ ys))) (suc (length xs)) (omega (arith, length-append xs ys)),
        drop-length xs ys,
      )
      refl

module _ (c : Conversions) where
  unfoldable pub address_from_storage_key : List ℕ → Exec (List ℕ)
  address_from_storage_key key = slice_from key 1 >>= λ b. ok (c.bytes_to_address b)

  unfoldable pub slot_from_slot_key : List ℕ → Exec (List ℕ)
  slot_from_slot_key key = slice_from key (1 + address_length) >>= λ b. ok (c.bytes_to_hash b)

  unfoldable pub address_from_slot_key : List ℕ → Exec (List ℕ)
  address_from_slot_key key = slice key 1 (1 + address_length) >>= λ b. ok (c.bytes_to_address b)

  unfoldable pub address_from_code_hash_key : List ℕ → Exec (List ℕ)
  address_from_code_hash_key key = slice_from key 1 >>= λ b. ok (c.bytes_to_address b)

  unfoldable pub address_from_balance_key : List ℕ → Exec (List ℕ)
  address_from_balance_key key = slice_from key 1 >>= λ b. ok (c.bytes_to_address b)

  -- The address and the slot are read back from a slot key, so that no two slots share a key.
  pub slot_key_roundtrip :
      (address slot : List ℕ)
      → length address ≡ address_length
      → length slot ≡ hash_length
      → (address_from_slot_key (slot_key_for address slot) ≡ ok address)
        × (slot_from_slot_key (slot_key_for address slot) ≡ ok slot)
  unfolding address_from_slot_key slot_from_slot_key
  slot_key_roundtrip address slot h k =
      let key = slot_key_for_lem address slot h k in
      let read =
        subst (λ n. slice (storage_key_prefix ∷ address ++ slot) 1 (suc n) ≡ ok address) h
          (slice-middle storage_key_prefix address slot) in
      let rest =
        subst (λ n. slice_from (storage_key_prefix ∷ address ++ slot) (suc n) ≡ ok slot) h
          (slice_from-behind storage_key_prefix address slot) in
      (
        ap (λ x. slice x 1 21 >>= λ b. ok (c.bytes_to_address b)) key
            ∙ ap (λ r. r >>= λ b. ok (c.bytes_to_address b)) read
            ∙ ap ok (c.bytes_to_address-id address h),
        ap (λ x. slice_from x 21 >>= λ b. ok (c.bytes_to_hash b)) key
            ∙ ap (λ r. r >>= λ b. ok (c.bytes_to_hash b)) rest
            ∙ ap ok (c.bytes_to_hash-id slot k),
      )

head_eq : {p q : ℕ} {xs ys : List ℕ} → p ∷ xs ≡ q ∷ ys → p ≡ q
head_eq e = cc

-- The keys of an account's storage, of its code hash and of a code are different, whatever they are
-- the keys for.
pub keys_apart :
    (address other code_hash : List ℕ)
    → length address ≡ address_length
    → length other ≡ address_length
    → length code_hash ≡ hash_length
    → (storage_key_for address ≢ code_hash_key_for other)
      × (storage_key_for address ≢ code_key_for code_hash)
      × (code_hash_key_for other ≢ code_key_for code_hash)
keys_apart address other code_hash h k l =
    let s = storage_key_for_lem address h in
    let c = code_hash_key_for_lem other k in
    let d = code_key_for_lem code_hash l in
    (
      λ e. absurd (omega (arith, head_eq (sym s ∙ e ∙ c))),
      λ e. absurd (omega (arith, head_eq (sym s ∙ e ∙ d))),
      λ e. absurd (omega (arith, head_eq (sym c ∙ e ∙ d))),
    )
