-- ===== src/Prelude.antt =====
-- The names that the modules of the development share: those of the libraries, passed on, and
-- those of the children below (tests on numbers and texts, lists, results, integers, time).
mod Tests
mod Lists
mod Results
mod Int
mod Time
mod Text
pub use Tests.*
pub use Lists.*
pub use Results.*
pub use Int.*
pub use Time.*
pub use Text.{Bytes, codes, bytes_eq}
unfoldable pub use Text.{split, decimal, to_string}
pub use Text.{bytes_eq_refl, bytes_eq_sound, split_once, split_last}
pub use Prim.Native.Nat.{ℕ, zero, suc, ◌+◌, ◌-◌, ◌*◌, ◌/◌, ◌%◌, ◌^◌, ◌≤◌, ◌<◌, max, min}
pub use Prim.Native.String.{String}
pub use mathlib.Core.Path.{◌≡◌, refl, sym, ap, subst, ◌∙◌}
pub use mathlib.Core.Logic.{◌≢◌, ◌↔◌, ◌⊎◌, inl, inr}
pub use mathlib.Core.Bool.{Bool, true, false, not, ◌&&◌, ◌||◌}
pub use mathlib.Core.Option.{Option, none, some}
pub use mathlib.Core.List.{List, [], ◌∷◌, ◌++◌, map}
pub use native.Mathlib.Omega.{arith}
pub use text.Mathlib.TextEquality.{eq_iff}
pub use text.Mathlib.TextPositions.{eq_refl}
