-- ===== src/Base.antt =====
-- The names that every other module shares: the libraries', passed on, and those of the children:
-- Boolean tests, lists over the native numbers, texts as lists of bytes, and dictionaries.
mod Bools
mod Lists
pub mod Text
pub mod Dict
pub mod Outcome
pub use Bools.*
pub use Lists.{
  length, is_empty, length-append, any-append, all-append, all-reverse, All, All-append,
}
unfoldable pub use Lists.{take, any, all, keep}
pub use Prim.Native.Nat.{ℕ, zero, suc, ◌+◌, ◌-◌, ◌*◌, ◌/◌, ◌%◌, ◌≤◌, ◌<◌}
pub use mathlib.Core.Path.{◌≡◌, refl, sym, ap, ◌∙◌}
pub use mathlib.Core.Logic.{◌≢◌, ◌↔◌, ◌⊎◌, inl, inr}
pub use mathlib.Core.Bool.{Bool, true, false, not, ◌&&◌, ◌||◌}
pub use mathlib.Core.Option.{Option, none, some}
pub use mathlib.Core.List.{List, [], ◌∷◌, ◌++◌, map}
pub use native.Mathlib.Omega.{arith}
