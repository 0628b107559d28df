-- ===== src/Abi.antt =====
-- eth/accounts/abi/abi.go: the names of Ethereum arguments and of Cosmos attributes. A string is the
-- list of its ASCII characters; the arguments of an event are go-ethereum's, of which the name and the
-- indexed flag count here.
pub mod Names
use molaris.Prelude.{
  ℕ, ◌+◌, ◌-◌, Bool, ◌&&◌, List, [], ◌∷◌, ◌++◌, map, ltb, leb, ◌==◌, if◌then◌else◌, length, Exec,
  too_many_indexed_args, ok, panics,
}

abbrev pub Str : Type 0
Str = List ℕ

pub record Argument : Type 0 where
  pub name : Str
  pub indexed : Bool

abbrev pub max_indexed_args : ℕ
max_indexed_args = 3

abbrev pub underscore : ℕ
underscore = 95

abbrev pub is_upper : ℕ → Bool
is_upper c = leb 65 c && leb c 90

abbrev pub is_lower : ℕ → Bool
is_lower c = leb 97 c && leb c 122

-- `strings.ToUpper` and `strings.ToLower` on ASCII.
abbrev pub upper : ℕ → ℕ
upper c = if is_lower c then c - 32 else c

abbrev pub lower : ℕ → ℕ
lower c = if is_upper c then c + 32 else c

-- `strings.Split(input, "_")`: a string without an underscore is one part.
abbrev pub cons_first : ℕ → List Str → List Str
cons_first c [] = (c ∷ []) ∷ []
cons_first c (part ∷ parts) = (c ∷ part) ∷ parts

abbrev pub split : Str → List Str
split [] = [] ∷ []
split (c ∷ s) = let rest = split s in if c == underscore then [] ∷ rest else cons_first c rest

-- `if i > 0 && len(s) > 0 { parts[i] = strings.ToUpper(s[:1]) + s[1:] }`
abbrev pub capitalize : Str → Str
capitalize [] = []
capitalize (c ∷ s) = upper c ∷ s

abbrev pub join : List Str → Str
join [] = []
join (part ∷ parts) = part ++ join parts

abbrev pub mix_parts : List Str → Str
mix_parts [] = []
mix_parts (part ∷ parts) = part ++ join (map capitalize parts)

unfoldable pub to_mixed_case : Str → Str
to_mixed_case input = mix_parts (split input)

-- The loop of `ToUnderScore` from an index other than 0.
abbrev pub under_rest : Str → Str
under_rest [] = []
under_rest (c ∷ s) =
    let rest = under_rest s in if is_upper c then underscore ∷ c ∷ rest else c ∷ rest

abbrev pub under_start : Str → Str
under_start [] = []
under_start (c ∷ s) = c ∷ under_rest s

unfoldable pub to_under_score : Str → Str
to_under_score input = map lower (under_start input)

abbrev indexed_of : List Argument → List Argument
indexed_of [] = []
indexed_of (arg ∷ args) = if arg.indexed then arg ∷ indexed_of args else indexed_of args

unfoldable pub get_indexed : List Argument → Exec (List Argument)
get_indexed args =
    if ltb max_indexed_args (length (indexed_of args))
    then panics too_many_indexed_args
    else ok (indexed_of args)
