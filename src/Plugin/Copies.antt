-- ===== src/Plugin/Copies.antt =====
-- The plugin at another point of the chain: `Clone` and `StateAtBlockNumber` reset a new plugin on
-- another context.
use molaris.Prelude.{
  ℕ, ◌-◌, ◌^◌, ◌⊎◌, inl, inr, Option, none, some, ltb, if◌then◌else◌, ℤ, ltb_ℤ, pos, negsuc,
}
use molaris.Plugin.{Chain, Context, Plugin, reset}

-- The state of a context is branched by the SDK's `CacheContext`, which branches the multi-store that
-- snapmulti's store embeds. `get_query_context` is nil until `SetQueryContextFn`.
pub record Contexts (c : Chain) : Type 0 where
  pub cache_context : Context c → Context c
  pub get_query_context : Option (ℤ → Context c ⊎ c.Error)

pub data StateError (E : Type 0) : Type 0 where
  no_query_context : StateError E
  query_failed : E → StateError E

abbrev two_63 : ℕ
two_63 = 2 ^ 63

-- `int64(number)` of a uint64.
abbrev pub int64_of : ℕ → ℤ
int64_of number = if ltb number two_63 then pos number else negsuc (2 ^ 64 - number - 1)

module _ (c : Chain) (contexts : Contexts c) where
  abbrev pub context_of : Plugin c → Context c
  context_of p = record {
    multi_store = p.cms.committed;
    event_manager = p.cem.events;
    block_height = p.block_height;
  }

  unfoldable pub clone : Plugin c → Plugin c
  clone p = reset c (contexts.cache_context (context_of p))

  abbrev pub at_query : Context c ⊎ c.Error → Plugin c ⊎ StateError c.Error
  at_query (inl ctx) = inl (reset c ctx)
  at_query (inr err) = inr (query_failed err)

  unfoldable pub state_at_block_number : ℕ → Plugin c → Plugin c ⊎ StateError c.Error
  state_at_block_number number p = elim contexts.get_query_context [
    | none ↦ inr no_query_context
    | some query ↦
        if ltb_ℤ (int64_of number) p.block_height
        then at_query (query (int64_of number))
        else inl (clone p)
  ]
