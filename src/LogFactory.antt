-- ===== src/LogFactory.antt =====
-- cosmos/x/evm/plugins/precompile/log: the factory that builds Ethereum logs from the Cosmos events of
-- precompiles. go-ethereum's encodings, the decoders and the SDK's default attribute keys are
-- parameters; the underscore and mixed case of names are those of Abi.
pub mod Built
use molaris.Prelude.{
  ℕ, ◌+◌, Option, none, some, List, [], ◌∷◌, ltb, if◌then◌else◌, length, get_elem?, ℤ, pos, negsuc,
  Exec, ok, list_beq, lookup, insert, ◌>>=◌, bytes_eq, nat_eq,
}
use molaris.Registry
use molaris.Journal.{Address, Hash}
use molaris.Abi.{Str, Argument, to_mixed_case, to_under_score, get_indexed}

-- The errors of errors.go and of the events package, those of the parameters, and the runtime's panic
-- on a bad index.
pub data LogError (E : Type 0) : Type 0 where
  eth_event_not_registered not_enough_attributes bad_attribute_index : LogError E
  no_attribute_key_found no_value_decoder_func : Str → LogError E
  external : E → LogError E

pub data Result (E A : Type 0) : Type 0 where
  returns : A → Result E A
  fails : LogError E → Result E A

abbrev pub bind : {E A B : Type 0} → Result E A → (A → Result E B) → Result E B
bind (returns a) next = next a
bind (fails err) next = fails err

pub record Attribute : Type 0 where
  pub key : Str
  pub value : Str

pub record SdkEvent : Type 0 where
  pub event_type : Str
  pub attributes : List Attribute

-- `abi.Event`.
pub record AbiEvent : Type 0 where
  pub name : Str
  pub id : Hash
  pub inputs : List Argument

pub record PrecompileLog : Type 0 where
  pub event_type : Str
  pub precompile_addr : Address
  pub id : Hash
  pub indexed_inputs : List Argument
  pub non_indexed_inputs : List Argument

pub record BuiltLog : Type 0 where
  pub address : Address
  pub topics : List Hash
  pub data_bytes : List ℕ

-- `abi.MakeTopics` of one query, `PackValues`, the value of a hash, and the default decoders.
pub record Codecs (V E : Type 0) : Type 0 where
  pub make_topics : List V → Result E (List Hash)
  pub pack_values : List Argument → List V → Result E (List ℕ)
  pub of_hash : Hash → V
  pub default_cosmos_value_decoders : List (Str × (Str → Result E V))

-- A registered precompile: `none` where it is not a stateful one.
pub record Precompile (V E : Type 0) : Type 0 where
  pub registry_key : Address
  pub abi_events : List AbiEvent
  pub custom_value_decoders : List (Str × (Str → Result E V))

pub record Factory (V E : Type 0) : Type 0 where
  pub events : List (Str × PrecompileLog)
  pub custom_value_decoders : List (Str × (Str → Result E V))

abbrev non_indexed : List Argument → List Argument
non_indexed [] = []
non_indexed (arg ∷ args) = if arg.indexed then non_indexed args else arg ∷ non_indexed args

unfoldable pub new_precompile_log : Address → AbiEvent → Exec PrecompileLog
new_precompile_log addr abi_event = do
  indexed ← get_indexed abi_event.inputs
  ok (record {
    event_type = to_under_score abi_event.name;
    precompile_addr = addr;
    id = abi_event.id;
    indexed_inputs = indexed;
    non_indexed_inputs = non_indexed abi_event.inputs;
  })

abbrev pub registry_key : PrecompileLog → Str
registry_key l = l.event_type

unfoldable pub validate_attributes : {E : Type 0} → PrecompileLog → SdkEvent → Option (LogError E)
validate_attributes pl event =
    if ltb (length event.attributes) (length pl.indexed_inputs + length pl.non_indexed_inputs)
    then some not_enough_attributes
    else none

-- The loop from index `i` on; -1 where no key matches.
unfoldable pub search_from : ℕ → List Attribute → Str → ℤ
search_from i [] arg_name = negsuc 0
search_from i (attribute ∷ rest) arg_name =
    let later = search_from (i + 1) rest arg_name in
    if list_beq (to_mixed_case attribute.key) arg_name then pos i else later

unfoldable pub search_attributes_for_arg : List Attribute → Str → ℤ
search_attributes_for_arg attributes arg_name = search_from 0 attributes arg_name

module _ {V E : Type 0} (codecs : Codecs V E) where
  abbrev register_events :
      Address → List AbiEvent → List (Str × PrecompileLog) → Exec (List (Str × PrecompileLog))
  register_events addr [] events = ok events
  register_events addr (event ∷ rest) events = do
    pl ← new_precompile_log addr event
    register_events addr rest (Registry.register registry_key events pl)

  abbrev add_decoders :
      List (Str × (Str → Result E V))
      → List (Str × (Str → Result E V))
      → List (Str × (Str → Result E V))
  add_decoders [] decoders = decoders
  add_decoders ((attr, decoder) ∷ rest) decoders = add_decoders rest (insert attr decoder decoders)

  unfoldable pub register_all_events :
      List (Option (Precompile V E)) → Factory V E → Exec (Factory V E)
  register_all_events [] f = ok f
  register_all_events (none ∷ precompiles) f = register_all_events precompiles f
  register_all_events (some spc ∷ precompiles) f = do
    events ← register_events spc.registry_key spc.abi_events f.events
    register_all_events precompiles (record {
      events = events;
      custom_value_decoders = add_decoders spc.custom_value_decoders f.custom_value_decoders;
    })

  unfoldable pub new_factory : List (Option (Precompile V E)) → Exec (Factory V E)
  new_factory precompiles =
      register_all_events precompiles (record { events = []; custom_value_decoders = [] })

  abbrev default_decoder : Str → Option (Str → Result E V) → Result E (Str → Result E V)
  default_decoder attr_key (some decoder) = returns decoder
  default_decoder attr_key none = fails (no_value_decoder_func attr_key)

  abbrev or_default : Str → Option (Str → Result E V) → Result E (Str → Result E V)
  or_default attr_key (some decoder) = returns decoder
  or_default attr_key none =
      default_decoder attr_key (lookup attr_key codecs.default_cosmos_value_decoders)

  unfoldable pub get_value_decoder : Factory V E → Str → Result E (Str → Result E V)
  get_value_decoder f attr_key = or_default attr_key (lookup attr_key f.custom_value_decoders)

  abbrev decode_at : Factory V E → Option Attribute → Result E V
  decode_at f none = fails bad_attribute_index
  decode_at f (some attr) = bind (get_value_decoder f attr.key) (λ decode. decode attr.value)

  -- The value of one argument.
  abbrev pub value_at : Factory V E → List Attribute → Str → ℤ → Result E V
  value_at f attributes name (negsuc _) = fails (no_attribute_key_found name)
  value_at f attributes name (pos i) = decode_at f (get_elem? attributes i)

  -- The loop over the arguments that `makeTopics` and `makeData` share.
  unfoldable pub values_for : Factory V E → List Attribute → List Argument → Result E (List V)
  values_for f attributes [] = returns []
  values_for f attributes (arg ∷ args) =
      bind (value_at f attributes arg.name (search_attributes_for_arg attributes arg.name))
        (λ v. bind (values_for f attributes args) (λ vs. returns (v ∷ vs)))

  unfoldable pub make_topics : Factory V E → PrecompileLog → SdkEvent → Result E (List Hash)
  make_topics f pl event =
      bind (values_for f event.attributes pl.indexed_inputs)
        (λ vs. codecs.make_topics (codecs.of_hash pl.id ∷ vs))

  unfoldable pub make_data : Factory V E → PrecompileLog → SdkEvent → Result E (List ℕ)
  make_data f pl event =
      bind (values_for f event.attributes pl.non_indexed_inputs)
        (codecs.pack_values pl.non_indexed_inputs)

  abbrev build_valid :
      Factory V E → PrecompileLog → SdkEvent → Option (LogError E) → Result E BuiltLog
  build_valid f pl event (some err) = fails err
  build_valid f pl event none = bind (make_topics f pl event) (λ topics.
      bind (make_data f pl event) (λ bytes.
        returns (record { address = pl.precompile_addr; topics = topics; data_bytes = bytes })))

  abbrev build_with : Factory V E → SdkEvent → Option PrecompileLog → Result E BuiltLog
  build_with f event none = fails eth_event_not_registered
  build_with f event (some pl) = build_valid f pl event (validate_attributes pl event)

  unfoldable pub build : Factory V E → SdkEvent → Result E BuiltLog
  build f event = build_with f event (Registry.get f.events event.event_type)
