-- ===== src/Base.antt =====
-- Names that the other modules share: library names passed on, tests on native numbers and texts,
-- results of code that may raise, and lemmas on lists that several components use.
mod Tests
mod Loop
mod Lists
pub use Lists.*
pub use Tests.{ltb, leb, nat_eq, nat_eq_refl, if◌then◌else◌, ◌<>◌, Bool-cases, Option-cases}
unfoldable pub use Tests.{truthy}
pub use Loop.{
  length, only_if, append-nil_split, append-nil_join, only_if-nil, for_each-nil_map,
  for_each-nil_both, for_each-nil_except, Result, ok, err, ◌>>=◌, Result-cases, if-ok, ok_injective,
  bind_ok,
}
unfoldable pub use Loop.{for_each, select, contains}
pub use Prim.Native.Nat.{ℕ, zero, suc, ◌+◌, ◌-◌, ◌*◌, ◌≤◌, ◌<◌}
pub use Prim.Native.String.{String}
pub use mathlib.Core.Path.{◌≡◌, refl, sym, ap, ◌∙◌, fun_ext}
pub use mathlib.Core.Logic.{◌≢◌, ◌↔◌, ◌⊎◌, inl, inr}
pub use mathlib.Core.Bool.{Bool, true, false, not, ◌&&◌, ◌||◌}
pub use mathlib.Core.Option.{Option, none, some}
pub use mathlib.Core.List.{List, [], ◌∷◌, ◌++◌}
pub use native.Mathlib.Omega.{arith}
pub use text.Mathlib.Text.{◌==◌}
pub use text.Mathlib.TextEquality.{eq_iff}
pub use text.Mathlib.TextPositions.{eq_refl}
