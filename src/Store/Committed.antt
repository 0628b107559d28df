-- ===== src/Store/Committed.antt =====
-- `Finalize` of the multi-store: what it writes into the stores that are mounted.
use molaris.Prelude.{Option, List, [], ◌∷◌, map, lookup, HasDistinctKeys, nat_eq}
use molaris.Stack
use molaris.Stack.{Stack, items}
use molaris.Store.{StoreKey, CacheKv, MapMultiStore, Store}
use molaris.Store.Views.{StoreView, map_view}
use molaris.Store.Columns.{IsColumn}
use molaris.Store.Levels.{HasLevels}

module _ {S : Type 0} (kv : CacheKv S) where
  -- For every store key the stores of the levels, newest first.
  abbrev pub column : StoreKey → MapMultiStore S → List (MapMultiStore S) → List (Option S)
  column j top below = lookup j top ∷ map (lookup j) below

  abbrev pub AllDistinct : List (MapMultiStore S) → Type 0
  AllDistinct [] = Unit {0}
  AllDistinct (cms ∷ rest) = HasDistinctKeys cms × AllDistinct rest

  -- Levels that were cached one over the other and then changed.
  pub record IsLayered (s : Store S) (top : MapMultiStore S) (below : List (MapMultiStore S))
      : Type 0 where
    pub levels : HasLevels s top below
    pub columns : (j : StoreKey) → IsColumn kv (column j top below) (lookup j s.committed)
    pub distinct_keys : AllDistinct (top ∷ below)

  -- What the newest level shows.
  abbrev shown : Store S → MapMultiStore S → StoreView kv
  shown s top = map_view kv s.committed top
