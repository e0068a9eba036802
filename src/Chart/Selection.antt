-- ===== src/Chart/Selection.antt =====
-- `SelectionState` of crates/pulseon-chart-core/src/interaction.rs. The set is its members in
-- strictly increasing order, which is how a `BTreeSet` iterates.
pub mod Toggle
use pulseon.Base.{
  ◌≡◌, ◌⊎◌, inl, inr, refl, sym, ap, ◌∙◌, Bool, true, false, Option, none, some, List, [], ◌∷◌,
  Ordering, text_cmp, All, arith, if◌then◌else◌,
}
use pulseon.Chart.Series.{SeriesId}

-- The set without the member, and whether it was one.
unfoldable pub set_remove : SeriesId → List SeriesId → Bool × List SeriesId
set_remove id [] = (false, [])
set_remove id (x ∷ xs) =
    let rest = set_remove id xs in
    elim (text_cmp id x) [
      | Ordering.lt ↦ (false, x ∷ xs)
      | Ordering.eq ↦ (true, xs)
      | Ordering.gt ↦ (rest.0, x ∷ rest.1)
    ]

unfoldable pub set_insert : SeriesId → List SeriesId → List SeriesId
set_insert id [] = id ∷ []
set_insert id (x ∷ xs) =
    let rest = set_insert id xs in
    elim (text_cmp id x) [
      | Ordering.lt ↦ id ∷ x ∷ xs
      | Ordering.eq ↦ x ∷ xs
      | Ordering.gt ↦ x ∷ rest
    ]

pub record SelectionState : Type 0 where
  pub selected : List SeriesId
  pub hovered : Option SeriesId

unfoldable pub select_only : SeriesId → SelectionState → SelectionState
unfolding set_insert
select_only id s = record s { selected = set_insert id [] }

-- Whether the series is selected afterwards, and the state.
unfoldable pub toggle : SeriesId → SelectionState → Bool × SelectionState
unfolding set_remove set_insert
toggle id s =
    let removed = set_remove id s.selected in
    if removed.0
    then (false, record s { selected = removed.1 })
    else (true, record s { selected = set_insert id s.selected })

unfoldable pub set_hovered : Option SeriesId → SelectionState → SelectionState
set_hovered id s = record s { hovered = id }

unfoldable pub clear_selection : SelectionState → SelectionState
clear_selection s = record { selected = []; hovered = none }
