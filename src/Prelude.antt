-- ===== src/Prelude.antt =====
-- The names that every module shares: the library's, passed on, and those of the children. Go's
-- `int` is `ℤ` where the code can hold a negative one, and `ℕ` where it is a length or a counter;
-- addresses and hashes are the numbers that their bytes spell.
mod Tests
mod Lists
mod Int
mod Go
mod Maps
pub use Tests.*
pub use Lists.*
unfoldable pub use Int.*
pub use Go.*
unfoldable pub use Maps.*
pub use Prim.Native.Nat.{ℕ, zero, suc, ◌+◌, ◌-◌, ◌*◌, ◌/◌, ◌%◌, ◌^◌, ◌≤◌, ◌<◌, min, max}
pub use mathlib.Core.Path.{◌≡◌, refl, sym, ap, ◌∙◌, subst, fun_ext}
pub use mathlib.Core.Logic.{◌≢◌, ◌↔◌, ◌⊎◌, inl, inr}
pub use mathlib.Core.Bool.{Bool, true, false, ◌&&◌, ◌||◌, not}
pub use mathlib.Core.Option.{Option, none, some}
pub use mathlib.Core.List.{List, [], ◌∷◌, ◌++◌, map, append-nil, append_assoc}
pub use native.Mathlib.Omega.{arith}
