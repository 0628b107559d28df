-- ===== src/Tests/Logs.antt =====
-- The log factory and the names of events at concrete inputs.
use molaris.Prelude.{
  ℕ, ◌≡◌, refl, ◌≢◌, inl, inr, true, false, some, [], ◌∷◌, map, arith, length, lookup, bytes_eq,
  nat_eq,
}
use molaris.Registry
use molaris.Abi.{Str, to_mixed_case, to_under_score}
use molaris.Abi.Names.{to_mixed_case-to_under_score}
use molaris.LogFactory.{
  Result, returns, SdkEvent, PrecompileLog, Codecs, Factory, build, get_value_decoder,
}
use molaris.LogFactory.Built.{build-AreDecoded}

-- "aBc"
abbrev a_bc : Str
a_bc = 97 ∷ 66 ∷ 99 ∷ []

to_mixed_case-to_under_score_example : to_mixed_case (to_under_score a_bc) ≡ a_bc
to_mixed_case-to_under_score_example =
    to_mixed_case-to_under_score a_bc
      ((λ e. omega (arith, e)), ((λ e. omega (arith, e)), ((λ e. omega (arith, e)), tt))) refl

-- A value is the text of an attribute, and data is the values in a row.
abbrev codecs : Codecs Str ℕ
codecs = record {
  make_topics = λ vs. returns (map length vs);
  pack_values = λ args vs. returns (map length vs);
  of_hash = λ h. h ∷ [];
  default_cosmos_value_decoders = [];
}

abbrev as_is : Str → Result ℕ Str
as_is text = returns text

-- The key "a_bc", which is "aBc" in mixed case.
abbrev key : Str
key = 97 ∷ 95 ∷ 98 ∷ 99 ∷ []

abbrev transfer : PrecompileLog
transfer = record {
  event_type = 7 ∷ [];
  precompile_addr = 4;
  id = 5;
  indexed_inputs = record { name = a_bc; indexed = true } ∷ [];
  non_indexed_inputs = record { name = 9 ∷ []; indexed = false } ∷ [];
}

abbrev factory : Factory Str ℕ
factory = record {
  events = (7 ∷ [], transfer) ∷ [];
  custom_value_decoders = (key, as_is) ∷ (9 ∷ [], as_is) ∷ [];
}

abbrev event : SdkEvent
event = record {
  event_type = 7 ∷ [];
  attributes =
      record { key = 9 ∷ []; value = 1 ∷ 2 ∷ [] } ∷ record { key = key; value = 3 ∷ [] } ∷ [];
}

not_a_bc : to_mixed_case (9 ∷ []) ≢ a_bc
unfolding to_mixed_case
not_a_bc e = cc

mixed_key : to_mixed_case key ≡ a_bc
unfolding to_mixed_case
mixed_key = refl

mixed_nine : to_mixed_case (9 ∷ []) ≡ 9 ∷ []
unfolding to_mixed_case
mixed_nine = refl

decoder_key : get_value_decoder codecs factory key ≡ returns as_is
unfolding get_value_decoder lookup
decoder_key = refl

decoder_nine : get_value_decoder codecs factory (9 ∷ []) ≡ returns as_is
unfolding get_value_decoder lookup
decoder_nine = refl

found : Registry.get factory.events event.event_type ≡ some transfer
unfolding Registry.get lookup
found = refl

build-AreDecoded_example :
    build codecs factory event
    ≡ returns (record { address = 4; topics = 1 ∷ 1 ∷ []; data_bytes = 2 ∷ [] })
build-AreDecoded_example =
    build-AreDecoded codecs factory transfer event ((3 ∷ []) ∷ []) ((1 ∷ 2 ∷ []) ∷ []) (1 ∷ 1 ∷ [])
      (2 ∷ []) found (omega arith)
      (
        (
          record { key = key; value = 3 ∷ [] },
          as_is,
          inr (not_a_bc, inl (mixed_key, refl)),
          decoder_key,
          refl,
        ),
        tt,
      )
      (
        (
          record { key = 9 ∷ []; value = 1 ∷ 2 ∷ [] },
          as_is,
          inl (mixed_nine, refl),
          decoder_nine,
          refl,
        ),
        tt,
      )
      refl refl
