-- ===== src/Base.antt =====
-- The names that the other modules share: those of the libraries, passed on, and those of the
-- child modules (tests on numbers and texts, lists, options).
mod Tests
mod Lists
mod Text
mod Split
mod Maps
mod MapLaws
mod Remaining
mod Ids
mod Concat
mod Sort
pub use Tests.*
pub use Lists.*
pub use Ids.*
pub use Concat.*
pub use Sort.{insert, all-sort, any-sort}
unfoldable pub use Sort.{sort, last}
unfoldable pub use Text.{utf16_length, is_blank, contains_text}
pub use Text.{eq_comm}
unfoldable pub use Split.{split_at}
pub use Split.{Lacks, split_at-append, split_at-none_iff, split_at-Lacks}
pub use Maps.*
pub use MapLaws.*
pub use Remaining.*
pub use Prim.Native.Nat.{ℕ, zero, suc, ◌+◌, ◌-◌, ◌*◌, ◌/◌, ◌%◌, ◌^◌, ◌≤◌, ◌<◌, min, max}
pub use Prim.Native.String.{String}
pub use mathlib.Core.Path.{◌≡◌, refl, sym, ap, ◌∙◌, subst}
pub use mathlib.Core.Logic.{◌≢◌, ◌↔◌, ◌⊎◌, inl, inr}
pub use mathlib.Core.Bool.{Bool, true, false, not, ◌&&◌, ◌||◌}
pub use mathlib.Core.Option.{Option, none, some}
pub use mathlib.Core.List.{List, [], ◌∷◌, ◌++◌, map, append-nil, append_assoc, map-append}
pub use native.Mathlib.Omega.{arith}
pub use text.Mathlib.Text.{◌==◌}
pub use text.Mathlib.TextEquality.{eq_iff}
pub use text.Mathlib.TextPositions.{eq_refl}
