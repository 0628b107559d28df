-- ===== src/LogFactory/Built.antt =====
-- What log the factory builds, in terms of the attributes that stand for the arguments.
use molaris.Prelude.{
  ℕ, suc, ◌+◌, ◌≤◌, ◌≡◌, refl, ap, ◌∙◌, ◌≢◌, ◌⊎◌, inl, inr, false, some, List, [], ◌∷◌, arith,
  ge→ltb, Bool-cases, length, get_elem?, pos, negsuc, list_beq, list_beq_iff, bytes_eq, nat_eq,
}
use molaris.Registry
use molaris.Journal.{Hash}
use molaris.Abi.{Str, Argument, to_mixed_case}
use molaris.LogFactory.{
  Result, returns, fails, Attribute, SdkEvent, PrecompileLog, Codecs, Factory,
  no_attribute_key_found, validate_attributes, search_from, search_attributes_for_arg,
  get_value_decoder, values_for, make_topics, make_data, build,
}

-- `a` is the first of the attributes whose key, in mixed case, is the name.
abbrev pub IsFirst : List Attribute → Str → Attribute → Type 0
IsFirst [] name a = ⊥
IsFirst (b ∷ rest) name a =
    ((to_mixed_case b.key ≡ name) × (b ≡ a)) ⊎ ((to_mixed_case b.key ≢ name) × IsFirst rest name a)

-- No key is the name.
abbrev pub IsMissing : List Attribute → Str → Type 0
IsMissing [] name = Unit {0}
IsMissing (b ∷ rest) name = (to_mixed_case b.key ≢ name) × IsMissing rest name

list_beq-ne : (xs ys : Str) → xs ≢ ys → list_beq xs ys ≡ false
list_beq-ne xs ys n = elim (Bool-cases (list_beq xs ys)) [
  | inl e ↦ absurd (n ((list_beq_iff xs ys).0 e))
  | inr e ↦ e
]

-- The search finds the first attribute, at the index at which it stands.
search_from-IsFirst :
    (i : ℕ) (attributes : List Attribute) (name : Str) (a : Attribute)
    → IsFirst attributes name a
    → (n : ℕ) × (search_from i attributes name ≡ pos (i + n)) × (get_elem? attributes n ≡ some a)
unfolding search_from
search_from-IsFirst i [] name a first = absurd first
search_from-IsFirst i (b ∷ rest) name a (inl (same, is)) =
    (0, rw ((list_beq_iff (to_mixed_case b.key) name).1 same) (ap pos (omega arith)), ap some is)
search_from-IsFirst i (b ∷ rest) name a (inr (other, first)) =
    let (n, e, at_n) = search_from-IsFirst (i + 1) rest name a first in
    (suc n, rw (list_beq-ne (to_mixed_case b.key) name other) (e ∙ ap pos (omega arith)), at_n)

search_from-IsMissing :
    (i : ℕ) (attributes : List Attribute) (name : Str)
    → IsMissing attributes name
    → search_from i attributes name ≡ negsuc 0
unfolding search_from
search_from-IsMissing i [] name missing = refl
search_from-IsMissing i (b ∷ rest) name (other, missing) =
    rw (list_beq-ne (to_mixed_case b.key) name other)
      (search_from-IsMissing (i + 1) rest name missing)

module _ {V E : Type 0} (codecs : Codecs V E) (f : Factory V E) where
  -- The values of the arguments: each is what the decoder of its first attribute makes of the value.
  abbrev pub AreDecoded : List Attribute → List Argument → List V → Type 0
  AreDecoded attributes [] [] = Unit {0}
  AreDecoded attributes [] (v ∷ vs) = ⊥
  AreDecoded attributes (arg ∷ args) [] = ⊥
  AreDecoded attributes (arg ∷ args) (v ∷ vs) =
      ((a : Attribute) × (decode : Str → Result E V) × IsFirst attributes arg.name a
        × (get_value_decoder codecs f a.key ≡ returns decode)
        × (decode a.value ≡ returns v))
      × AreDecoded attributes args vs

  values_for-AreDecoded :
      (attributes : List Attribute) (args : List Argument) (vs : List V)
      → AreDecoded attributes args vs
      → values_for codecs f attributes args ≡ returns vs
  unfolding values_for search_attributes_for_arg
  values_for-AreDecoded attributes [] [] d = refl
  values_for-AreDecoded attributes [] (v ∷ vs) d = absurd d
  values_for-AreDecoded attributes (arg ∷ args) [] d = absurd d
  values_for-AreDecoded attributes (arg ∷ args) (v ∷ vs)
        ((a, decode, first, decoder, value), rest) =
      let (n, found, at_n) = search_from-IsFirst 0 attributes arg.name a first in
      let found' : search_from 0 attributes arg.name ≡ pos n = found ∙ ap pos (omega arith) in
      rw (found', at_n, decoder, value, values_for-AreDecoded attributes args vs rest) refl

  -- For a registered event with enough attributes, of which the values that stand for the indexed and
  -- for the other arguments are decoded, and can be encoded, the factory builds the log with the
  -- precompile's address, the topics of the event's id and the indexed values, and the packed data.
  pub build-AreDecoded :
      (pl : PrecompileLog) (event : SdkEvent) (vs ws : List V) (topics : List Hash) (bytes : List ℕ)
      → Registry.get f.events event.event_type ≡ some pl
      → length pl.indexed_inputs + length pl.non_indexed_inputs ≤ length event.attributes
      → AreDecoded event.attributes pl.indexed_inputs vs
      → AreDecoded event.attributes pl.non_indexed_inputs ws
      → codecs.make_topics (codecs.of_hash pl.id ∷ vs) ≡ returns topics
      → codecs.pack_values pl.non_indexed_inputs ws ≡ returns bytes
      → build codecs f event
        ≡ returns (record { address = pl.precompile_addr; topics = topics; data_bytes = bytes })
  unfolding build validate_attributes make_topics make_data
  build-AreDecoded pl event vs ws topics bytes found enough indexed others t d =
      rw
        (
          found,
          ge→ltb (length event.attributes) (length pl.indexed_inputs + length pl.non_indexed_inputs)
              enough,
          values_for-AreDecoded event.attributes pl.indexed_inputs vs indexed,
          t,
          values_for-AreDecoded event.attributes pl.non_indexed_inputs ws others,
          d,
        )
        refl

  -- An argument for which no attribute stands is reported by its name, whatever follows it.
  pub values_for-IsMissing :
      (attributes : List Attribute) (arg : Argument) (args : List Argument)
      → IsMissing attributes arg.name
      → values_for codecs f attributes (arg ∷ args) ≡ fails (no_attribute_key_found arg.name)
  unfolding values_for search_attributes_for_arg
  values_for-IsMissing attributes arg args missing =
      rw (search_from-IsMissing 0 attributes arg.name missing) refl
