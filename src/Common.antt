-- ===== src/Common.antt =====
-- The names that every part shares: the library's, passed on, and those of the children.
mod Tests
mod Lists
mod Texts
mod Equality
mod Rows
mod Sorting
mod Upsert
mod Numerals
mod Batches
mod Replacement
mod SortedSets
mod Integers
mod Base64
mod Decoding
pub use Tests.*
pub use Lists.*
unfoldable pub use Texts.*
unfoldable pub use Equality.*
unfoldable pub use Rows.*
unfoldable pub use Sorting.*
unfoldable pub use Upsert.*
unfoldable pub use Numerals.*
unfoldable pub use Batches.*
pub use Replacement.*
unfoldable pub use SortedSets.*
unfoldable pub use Integers.*
unfoldable pub use Base64.*
pub use Decoding.*
pub use Prim.Native.Nat.{ℕ, zero, suc, ◌+◌, ◌-◌, ◌*◌, ◌/◌, ◌%◌, ◌^◌, ◌≤◌, ◌<◌, min}
pub use mathlib.Core.Path.{◌≡◌, refl, sym, subst, ap, ◌∙◌, ◌≡⟨◌⟩◌, ◌∎}
pub use mathlib.Core.Logic.{◌≢◌, ◌↔◌, ◌⊎◌, inl, inr}
pub use mathlib.Core.Bool.{Bool, true, false, not, ◌&&◌, ◌||◌}
pub use mathlib.Core.Option.{Option, none, some}
pub use mathlib.Core.List.{List, [], ◌∷◌, ◌++◌, map, append-nil, append_assoc, map-append}
pub use native.Mathlib.Omega.{arith}
