-- ===== src/Base.antt =====
-- The names that the other modules share: those of the libraries, passed on, and those of the
-- children (Boolean tests and lists over the native numbers, fallible results).
mod Tests
mod Lists
pub mod Outcome
pub use Tests.*
pub use Lists.*
pub use Prim.Native.Nat.{ℕ, zero, suc, ◌+◌, ◌-◌, ◌*◌, ◌/◌, ◌%◌, ◌^◌, ◌≤◌, ◌<◌, min, max}
pub use Prim.Native.String.{String, ◌++◌ as concat}
pub use text.Mathlib.Text.{◌==◌ as str_eq}
pub use text.Mathlib.TextPositions.{eq_refl as str_eq-refl}
pub use mathlib.Core.Path.{◌≡◌, refl, sym, ap, ap₂, subst, ◌∙◌}
pub use mathlib.Core.Logic.{◌≢◌, ◌↔◌, ◌⊎◌, inl, inr}
pub use mathlib.Core.Bool.{Bool, true, false, true≢false, not, ◌&&◌, ◌||◌}
pub use mathlib.Core.Option.{Option, none, some, some-injective, map as map_option}
pub use mathlib.Core.List.{
  List, [], ◌∷◌, ◌++◌, map, reverse, reverse_aux, append-nil, append_assoc, map-append,
}
pub use native.Mathlib.Omega.{arith}
