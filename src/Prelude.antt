-- ===== src/Prelude.antt =====
-- The vocabulary that every component shares: the libraries' names passed on, Boolean tests,
-- lists, dictionaries, signed integers and the interface of the program's floating-point numbers.
mod Bools
mod Lists
pub mod Int
pub mod Dict
pub mod Sums
pub mod Real
pub mod Whole
pub use Bools.*
pub use Lists.*
pub use Prim.Native.Nat.{ℕ, zero, suc, ◌+◌, ◌-◌, ◌*◌, ◌/◌, ◌%◌, ◌≤◌, ◌<◌, min, max}
pub use mathlib.Core.Path.{◌≡◌, refl, sym, ap, ◌∙◌, subst}
pub use mathlib.Core.Logic.{◌≢◌, ◌↔◌, ◌⊎◌, inl, inr}
pub use mathlib.Core.Bool.{Bool, true, false, not, ◌&&◌, ◌||◌}
pub use mathlib.Core.Option.{Option, none, some}
pub use mathlib.Core.List.{List, [], ◌∷◌, ◌++◌, map}
pub use native.Mathlib.Omega.{arith}

-- Identifiers (symbols, trade ids, order ids, keys). The code only compares them and tests them
-- for being empty, so a text is a code, and 0 is the empty text.
abbrev pub Text : Type 0
Text = ℕ

abbrev pub empty_text : Text
empty_text = 0

-- `a or b` on texts.
abbrev pub or_else : Text → Text → Text
or_else a b = if a == 0 then b else a
