-- ===== src/Base.antt =====
-- The names that every component shares: the libraries', passed on, and those of the children.
mod Tests
mod Lists
mod Int
mod Bytes
mod Outcome
mod Sort
mod Assoc
pub use Tests.*
pub use Lists.*
pub use Int.*
unfoldable pub use Int.{◌+ℤ◌, ◌-ℤ◌}
pub use Outcome.{Result, ok, err, ◌>>=◌, ◌>>◌, ok_or, >>=-eq-ok}
pub use Bytes.{Text, codes, text_eq_iff, text_eq_refl}
unfoldable pub use Bytes.{text_eq, text_cmp}
pub use Prim.Native.Nat.{
  ℕ, zero, suc, ◌+◌, ◌-◌, ◌*◌, ◌/◌, ◌%◌, ◌^◌, ◌≤◌, ◌<◌, compare, Ordering, min, max,
}
pub use mathlib.Core.Path.{◌≡◌, refl, sym, ap, ap₂, ◌∙◌}
pub use mathlib.Core.Logic.{◌≢◌, ◌↔◌, ◌⊎◌, inl, inr}
pub use mathlib.Core.Bool.{Bool, true, false, ◌&&◌, ◌||◌, not}
pub use mathlib.Core.Option.{Option, none, some}
pub use mathlib.Core.List.{List, [], ◌∷◌, ◌++◌, map}
pub use native.Mathlib.Omega.{arith}
pub use Sort.{
  then_with, swap, Chain, lt_Chain, gt_Chain, Chain-gt, Chain-lt, then_with-Chain, then_with-swap,
  IsOrder, compare-IsOrder, cmp_ℤ-IsOrder, text_cmp-IsOrder, IsSortedBy, sort_by-perm,
  count-sort_by, sort_by-IsSortedBy, In-sort_by, sort_by-All,
}
unfoldable pub use Sort.{sort_by, insert_sorted}
pub use Assoc.{insert_entry, get_entry-insert_same, get_entry-insert_other, get_entry-remove_same}
unfoldable pub use Assoc.{get_entry, remove_entry}
