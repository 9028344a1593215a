-- ===== src/Prelude.antt =====
-- Shared names: the libraries' names passed on, tests on numbers, lists measured by native numbers,
-- texts as bytes, signed integers and results that carry an error.
mod Tests
mod Lists
mod Bytes
mod Results
pub mod Int
pub mod Options
pub use Tests.*
pub use Lists.*
unfoldable pub use Bytes.{text_eq}
pub use Bytes.{Text, codes, text_eq_iff, text_eq_refl, text_eq_sym, text_eq-nil_ne, ne_of_text_eq}
pub use Results.*
pub use Prim.Native.Nat.{ℕ, zero, suc, ◌+◌, ◌-◌, ◌*◌, ◌/◌, ◌%◌, ◌^◌, ◌≤◌, ◌<◌}
pub use mathlib.Core.Path.{◌≡◌, refl, sym, ap, ◌∙◌, subst}
pub use mathlib.Core.Logic.{◌≢◌, ◌↔◌, ◌⊎◌, inl, inr}
pub use mathlib.Core.Bool.{Bool, true, false, ◌&&◌, ◌||◌, not}
pub use mathlib.Core.Option.{Option, none, some}
pub use mathlib.Core.List.{List, [], ◌∷◌, ◌++◌, append_assoc, append-nil}
pub use native.Mathlib.Omega.{arith}
