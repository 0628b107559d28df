-- ===== src/Registry.antt =====
-- lib/registry/map.go: a registry is a Go map from a key to the item that was registered under it.
use molaris.Prelude.{
  ◌≡◌, Bool, true, false, Option, none, some, List, [], if◌then◌else◌, Eq, eqb, lookup, insert,
  delete, lookup-insert_ne, lookup-insert, nat_eq,
}

module _ {K T : Type 0} ⦃e : Eq K⦄ where
  -- `mr.items[id]`, where `none` is the zero value (a nil interface).
  unfoldable pub get : List (K × T) → K → Option T
  get items id = lookup id items

  unfoldable pub register : (T → K) → List (K × T) → T → List (K × T)
  register registry_key items item = insert (registry_key item) item items

  unfoldable pub new_map : List (K × T)
  new_map = []

  unfoldable pub remove : List (K × T) → K → List (K × T)
  remove items id = delete id items

  -- The map itself is handed out.
  abbrev pub iterate : List (K × T) → List (K × T)
  iterate items = items

  unfoldable pub has : List (K × T) → K → Bool
  has items id = elim (lookup id items) [ none ↦ false | some _ ↦ true ]

-- What a registration changes: the item under its own key, and no other.
pub get-register :
    {K T : Type 0} ⦃e : Eq K⦄ (registry_key : T → K) (items : List (K × T)) (item : T) (id : K)
    → get (register registry_key items item) id
      ≡ (if eqb (registry_key item) id then some item else get items id)
unfolding get register
get-register registry_key items item id = lookup-insert (registry_key item) id item items

pub get-insert_ne :
    {K T : Type 0} ⦃e : Eq K⦄ (j k : K) (item : T) (items : List (K × T))
    → eqb j k ≡ false
    → get (insert j item items) k ≡ get items k
unfolding get
get-insert_ne j k item items h = lookup-insert_ne j k item items h
