-- ===== src/Base.antt =====
-- The names that the modules of the development share: the libraries', passed on, and those of the
-- children: tests on numbers, lists over the native numbers, and Go strings as bytes.
mod Tests
mod Lists
pub mod Text
mod Outcome
pub mod Dict
pub use Tests.*
pub use Lists.*
pub use Outcome.*
unfoldable pub use Text.{Bytes, eq_bytes}
pub use Prim.Native.Nat.{ℕ, zero, suc, ◌+◌, ◌-◌, ◌*◌, ◌/◌, ◌%◌, ◌^◌, ◌≤◌, ◌<◌}
pub use mathlib.Core.Path.{◌≡◌, refl, sym, ap, ◌∙◌, subst, fun_ext}
pub use mathlib.Core.Logic.{◌≢◌, ◌↔◌, ◌⊎◌, inl, inr}
pub use mathlib.Core.Bool.{Bool, true, false, not, ◌&&◌, ◌||◌}
pub use mathlib.Core.Option.{Option, none, some}
pub use mathlib.Core.List.{List, [], ◌∷◌, ◌++◌, map, append_assoc}
pub use native.Mathlib.Omega.{arith}
pub use native.Mathlib.Nat.{mod-eq_of_lt, mod-eq-sub-mod}
unfoldable pub use native.Mathlib.Decide.{dec_lt}
