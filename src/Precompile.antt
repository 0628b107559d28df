-- ===== src/Precompile.antt =====
-- eth/core/precompile/default_plugin.go: the precompile plugin of a chain without its own. The
-- containers and go-ethereum's sets of them are parameters.
use molaris.Prelude.{
  ℕ, ◌+◌, ◌-◌, ◌≤◌, ◌≡◌, refl, inl, inr, Bool, true, false, Option, some, List, [], ◌∷◌, arith, ltb,
  if◌then◌else◌, Bool-cases, length, set, Exec, ◌>>=◌, bad_index, ok, panics,
}
use molaris.Journal.{Address}

pub record Rules : Type 0 where
  pub is_istanbul : Bool
  pub is_berlin : Bool
  pub is_byzantium : Bool
  pub is_homestead : Bool

-- A container, its gas and its run on what the virtual machine hands over (`Input`).
pub record Containers (C Input Output Error : Type 0) : Type 0 where
  pub registry_key : C → Address
  pub required_gas : C → Input → ℕ
  pub run : C → Input → Output × Option Error
  pub empty_output : Output
  pub err_out_of_gas : Error
  pub istanbul : List (Address × C)
  pub berlin : List (Address × C)
  pub byzantium : List (Address × C)
  pub homestead : List (Address × C)

-- `active[i] = x`, which panics beyond the length of the slice.
abbrev pub store : List Address → ℕ → Address → Exec (List Address)
store active i x = if ltb i (length active) then ok (set active i x) else panics bad_index

module _ {C Input Output Error : Type 0} (c : Containers C Input Output Error) where
  -- `for _, precompile := range addrToPrecompiles { … = append(…, precompile) }`
  abbrev pub values : List (Address × C) → List C
  values [] = []
  values ((addr, precompile) ∷ rest) = precompile ∷ values rest

  unfoldable pub get_default_precompiles : Rules → List C
  get_default_precompiles rules =
      if rules.is_istanbul
      then values c.istanbul
      else if rules.is_berlin
      then values c.berlin
      else if rules.is_byzantium
      then values c.byzantium
      else if rules.is_homestead
      then values c.homestead
      else []

  -- `for i, p := range pc { active[i] = p.RegistryKey() }`
  unfoldable pub fill : List C → ℕ → List Address → Exec (List Address)
  fill [] i active = ok active
  fill (p ∷ rest) i active = store active i (c.registry_key p) >>= fill rest (i + 1)

  -- `make([]common.Address, 0, len(pc))` has length 0.
  unfoldable pub get_active : Rules → Exec (List Address)
  get_active rules = fill (get_default_precompiles rules) 0 []

  unfoldable pub run : C → Input → ℕ → Output × ℕ × Option Error
  run pc input supplied_gas =
      let gas_cost = c.required_gas pc input in
      if ltb supplied_gas gas_cost
      then (c.empty_output, 0, some c.err_out_of_gas)
      else let r = c.run pc input in (r.0, supplied_gas - gas_cost, r.1)

  -- `GetActive` panics on every rule set that has precompiles, and only there.
  pub get_active_lem :
      (rules : Rules)
      → get_active rules
        ≡ (elim (get_default_precompiles rules) [ [] ↦ ok [] | p ∷ ps ↦ panics bad_index ])
  unfolding get_active fill
  get_active_lem rules = go (get_default_precompiles rules)
    where
      go : (pc : List C) → fill pc 0 [] ≡ (elim pc [ [] ↦ ok [] | p ∷ ps ↦ panics bad_index ])
      go [] = refl
      go (p ∷ ps) = refl

  -- Gas is never made: a run gives back what it did not use, which is nothing where the gas did not
  -- suffice.
  pub run_lem :
      (pc : C) (input : Input) (supplied_gas : ℕ)
      → ((run pc input supplied_gas).1 ≤ supplied_gas)
        × ((run pc input supplied_gas).1 ≡ (
            if ltb supplied_gas (c.required_gas pc input)
            then 0
            else supplied_gas - c.required_gas pc input))
  unfolding run
  run_lem pc input supplied_gas = (ground arith, ground arith)

  -- Since Berlin includes Istanbul, the set of Berlin is never chosen: the precompiles do not depend on
  -- whether Berlin is active.
  pub get_default_precompiles_berlin :
      (rules : Rules)
      → (rules.is_berlin ≡ true → rules.is_istanbul ≡ true)
      → get_default_precompiles rules ≡ get_default_precompiles (record rules { is_berlin = false })
  unfolding get_default_precompiles
  get_default_precompiles_berlin rules includes = elim (Bool-cases rules.is_berlin) [
    | inl berlin ↦ simp (includes berlin)
    | inr before ↦ simp before
  ]
