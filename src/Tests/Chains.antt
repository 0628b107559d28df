-- ===== src/Tests/Chains.antt =====
-- A concrete chain: stores that are functions, and an account keeper over them.
use molaris.Prelude.{
  ℕ, ◌+◌, ◌≡◌, refl, sym, ap, subst, inl, inr, Bool, true, false, ◌&&◌, Option, none, some, List,
  [], ◌∷◌, ◌++◌, arith, ◌==◌, if◌then◌else◌, ==_iff, Bool-cases, length, replicate, pos, ok, eqb,
  bytes_eq, nat_eq,
}
use molaris.Events.{not_registered}
use molaris.Store.{Bytes, CacheKv}
use molaris.Store.Views.{CacheKvLaw}
use molaris.Store.Columns.{IsOver, over_wrap, over_put, over_delete, CacheKvWriteLaw}
use molaris.Plugin.{Encoding, EncodingLaw, AccountKeeper, Chain}
use molaris.Plugin.Entries.{ChainLaw, AccountKeeperLaw, is_some}
use molaris.Journal.{Address}

-- A store is a function; the cache over it holds the same.
abbrev pub Kv : Type 0
Kv = Bytes → Option Bytes

abbrev pub kv : CacheKv Kv
kv = record {
  get = λ s k. s k;
  put = λ k v s j. if eqb k j then some v else s j;
  delete = λ k s j. if eqb k j then none else s j;
  wrap = λ s. s;
  write = λ s parent. s;
}

pub kv_law : CacheKvLaw kv
kv_law = record { get-put = λ k j v s. refl; get-delete = λ k j s. refl; get-wrap = λ s k. refl }

kv_write-IsOver : (q p c : Kv) → IsOver kv p c → IsOver kv q p → IsOver kv q c
kv_write-IsOver q p _ (over_wrap c e) o = subst (IsOver kv q) (sym e) o
kv_write-IsOver q p _ (over_put c d k v h e) o = over_put c d k v (kv_write-IsOver q p d h o) e
kv_write-IsOver q p _ (over_delete c d k h e) o = over_delete c d k (kv_write-IsOver q p d h o) e

pub kv_write_law : CacheKvWriteLaw kv
kv_write_law = record { get-write = λ p c k o. refl; write-IsOver = kv_write-IsOver }

abbrev pub first_byte : Bytes → ℕ
first_byte [] = 0
first_byte (b ∷ bs) = b

-- A code hashes to one more than its length.
abbrev pub encoding : Encoding
encoding = record {
  conversions = record {
    bytes_to_address = λ b. b;
    bytes_to_hash = λ b. b;
    bytes_to_address-id = λ b h. refl;
    bytes_to_hash-id = λ b h. refl;
  };
  address_bytes = λ a. a ∷ replicate 19 0;
  address_of = first_byte;
  hash_bytes = λ h. h ∷ replicate 31 0;
  hash_of = first_byte;
  keccak256_hash = λ code. length code + 1;
}

pub encoding_law : EncodingLaw encoding
encoding_law = record {
  length-address_bytes = λ a. refl;
  length-hash_bytes = λ h. refl;
  address_of-address_bytes = λ a. refl;
  hash_of-hash_bytes = λ h. refl;
}

-- An account is its address and its sequence; the store holds the sequence under the address.
abbrev pub account_from : Address → Option Bytes → Option (ℕ × ℕ)
account_from a none = none
account_from a (some b) = some (a, first_byte b)

abbrev pub exists_in : Option Bytes → Bool
exists_in none = false
exists_in (some b) = true

abbrev pub keeper : AccountKeeper Kv (ℕ × ℕ) ℕ
keeper = record {
  store_key = 2;
  has_account = λ s a. exists_in (s (a ∷ []));
  get_account = λ s a. account_from a (s (a ∷ []));
  new_account_with_address = λ s a. (s, (a, 0));
  set_account = λ acc s j. if eqb (acc.0 ∷ []) j then some (acc.1 ∷ []) else s j;
  remove_account = λ acc s j. if eqb (acc.0 ∷ []) j then none else s j;
  get_sequence = λ acc. acc.1;
  set_sequence = λ acc n. ((acc.0, n), none);
}

abbrev pub chain : Chain
chain = record {
  S = Kv;
  Account = ℕ × ℕ;
  Error = ℕ;
  Event = ℕ;
  EventLog = ℕ;
  LogsDb = List ℕ;
  GasConfig = ℕ;
  kv = kv;
  enc = encoding;
  ak = keeper;
  bk = record {
    balance = λ b a. pos 1000;
    mint = λ b n. (b, none);
    send_to_account = λ b a n. (b, none);
    send_to_module = λ b a n. (b, none);
    burn = λ b n. (b, none);
    int_from_big_int = λ n. ok n;
  };
  plf = record { build = λ e. not_registered; add_log = λ d l. d ++ l ∷ [] };
  iterators = record {
    entries = λ s p. [];
    entries_closed = λ s p. (replicate 32 9, 7 ∷ []) ∷ [];
    close = λ s p. none;
  };
  store_key = 1;
  no_gas = 0;
}

-- The store of an account, once it is set or removed.
account_from-put :
    (acc : ℕ × ℕ) (s : Kv) (a : Address)
    → account_from a (if (acc.0 == a) && true then some (acc.1 ∷ []) else s (a ∷ []))
      ≡ (if acc.0 == a then some acc else account_from a (s (a ∷ [])))
account_from-put (b, n) s a = elim (Bool-cases (b == a)) [
  | inl e ↦ rw e (ap (λ x. some (x, n)) (sym ((==_iff b a).0 e)))
  | inr e ↦ rw e refl
]

account_from-removed :
    (acc : ℕ × ℕ) (s : Kv) (a : Address)
    → account_from a (if (acc.0 == a) && true then none else s (a ∷ []))
      ≡ (if acc.0 == a then none else account_from a (s (a ∷ [])))
account_from-removed (b, n) s a = elim (Bool-cases (b == a)) [
  | inl e ↦ rw e refl
  | inr e ↦ rw e refl
]

exists_in-account_from : (a : Address) (o : Option Bytes) → exists_in o ≡ is_some (account_from a o)
exists_in-account_from a none = refl
exists_in-account_from a (some b) = refl

address-account_from :
    (a : Address) (o : Option Bytes) (acc : ℕ × ℕ) → account_from a o ≡ some acc → acc.0 ≡ a
address-account_from a none acc e = absurd (cc)
address-account_from a (some b) acc e =
    let same : (a, first_byte b) ≡ acc = cc in sym (ap (λ x. x.0) same)

pub keeper_law : AccountKeeperLaw chain
keeper_law = record {
  address = λ acc. acc.0;
  get_account-reads = λ s t a h. ap (account_from a) (h (a ∷ []));
  has_account-get_account = λ s a. exists_in-account_from a (s (a ∷ []));
  get_account-set_account = account_from-put;
  get_account-remove_account = account_from-removed;
  get_account-new_account = λ s addr a. refl;
  address-new_account = λ s addr. refl;
  address-get_account = λ s a acc e. address-account_from a (s (a ∷ [])) acc e;
  set_sequence_ok = λ acc n. refl;
  get_sequence-set_sequence = λ acc n. refl;
  address-set_sequence = λ acc n. refl;
}

pub chain_law : ChainLaw chain
chain_law = record {
  kv_law = kv_law;
  enc_law = encoding_law;
  ak_law = keeper_law;
  stores_apart = λ e. omega (arith, e);
}
