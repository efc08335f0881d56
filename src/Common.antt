-- ===== src/Common.antt =====
-- The names that the other modules share: those of the libraries, passed on, and three children's.
mod Tests
mod Lists
mod Results
mod Outcome
mod First
pub mod Bits
pub mod Flags
pub mod Slices
pub use Tests.*
pub use Lists.*
pub use Outcome.*
pub use First.{first_error, FirstOk, first_ok_lem}
unfoldable pub use First.{first_ok}
pub use Results.*
pub use Prim.Native.Nat.{
  ℕ, zero, suc, ◌+◌, ◌-◌, ◌*◌, ◌/◌, ◌%◌, ◌^◌, ◌≤◌, ◌<◌, bit_and, bit_or, bit_xor,
}
pub use mathlib.Core.Path.{◌≡◌, refl, sym, ap, ◌∙◌, subst}
pub use mathlib.Core.Logic.{◌≢◌, ◌↔◌, ◌⊎◌, inl, inr}
pub use mathlib.Core.Bool.{Bool, true, false, not, ◌&&◌, ◌||◌}
pub use mathlib.Core.Option.{Option, none, some}
pub use mathlib.Core.List.{List, [], ◌∷◌, ◌++◌, map}
pub use native.Mathlib.Omega.{arith}
unfoldable pub use native.Mathlib.Decide.{dec_lt, ℕ_discrete}
