-- ===== src/Prelude.antt =====
-- The names that the other modules share: the libraries', passed on, and those of the children.
mod Tests
mod Lists
mod Int
mod Reals
mod Order
mod Text
mod Results
pub use Tests.*
unfoldable pub use Lists.{length, select, any, all, find, count, member, subset, lookup}
pub use Lists.{
  In, here, there, All, All-In, All-map, find-eq-some, find-eq-none, any-eq-true, any-In,
  any-eq-false, all-eq-true, In-select, select-In, select-++, find-++-none, find-++-some, find-In,
}
pub use Int.*
pub use Reals.*
pub use Order.*
unfoldable pub use Text.{
  lower, strip, is_alnum, is_hex, is_name_char, all_chars, text_length, starts_then, take_text,
  is_worker_exit, contains, is_hex_text,
}
pub use Text.{strip_idem, strip-alnum}
pub use Results.*
pub use Prim.Native.Nat.{ℕ, zero, suc, ◌+◌, ◌-◌, ◌*◌, ◌/◌, ◌%◌, ◌≤◌, ◌<◌}
pub use Prim.Native.String.{String}
pub use mathlib.Core.Path.{◌≡◌, refl, sym, ap, ◌∙◌, subst}
pub use mathlib.Core.Logic.{◌≢◌, ◌↔◌, ◌⊎◌, inl, inr}
pub use mathlib.Core.Bool.{Bool, true, false, ◌&&◌, ◌||◌}
pub use mathlib.Core.Option.{Option, none, some}
pub use mathlib.Core.List.{List, [], ◌∷◌, ◌++◌, map}
pub use native.Mathlib.Omega.{arith}
