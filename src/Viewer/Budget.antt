-- ===== src/Viewer/Budget.antt =====
-- The point budgets of crates/pulseon-viewer/src/query.rs and the reduction that they ask for.
use pulseon.Base.{ℕ, ◌*◌, ◌-◌, ◌^◌, ◌≤◌, ◌≡◌, min, some, Result, ok, arith}
use pulseon.Model.Metric.{clamp}
use pulseon.Model.Alignment.{
  AlignmentReduction, AlignmentQueryError, alignment_screen_budget, alignment_max_points,
}

-- `u32::saturating_mul`.
abbrev saturating_mul_u32 : ℕ → ℕ → ℕ
saturating_mul_u32 a b = min (a * b) (2 ^ 32 - 1)

unfoldable pub overview_budget : ℕ → ℕ
overview_budget physical_width = clamp physical_width 500 2_000

unfoldable pub detail_budget : ℕ → ℕ
detail_budget physical_width = clamp (saturating_mul_u32 physical_width 2) 2_000 10_000

-- The reduction of `query_curves`: one point for each unit of the budget.
unfoldable pub curve_reduction : ℕ → Result AlignmentQueryError AlignmentReduction
unfolding alignment_screen_budget
curve_reduction point_budget = alignment_screen_budget point_budget 1

budget_max_points :
    (budget : ℕ)
    → 500 ≤ budget
    → budget ≤ 10_000
    → (r : AlignmentReduction) × (curve_reduction budget ≡ ok r)
      × (alignment_max_points r ≡ some budget)
unfolding curve_reduction alignment_screen_budget alignment_max_points
budget_max_points budget low high = (
  AlignmentReduction.screen (record { pixel_width = budget; points_per_pixel = 1 }),
  ground arith,
  ground arith,
)

overview_budget-bounds :
    (width : ℕ)
    → (500 ≤ overview_budget width)
      × (overview_budget width ≤ 2_000)
      × (500 ≤ width → width ≤ 2_000 → overview_budget width ≡ width)
unfolding overview_budget
overview_budget-bounds width = ground arith

detail_budget-bounds :
    (width : ℕ)
    → (2_000 ≤ detail_budget width)
      × (detail_budget width ≤ 10_000)
      × (2_000 ≤ width * 2 → width * 2 ≤ 10_000 → detail_budget width ≡ width * 2)
unfolding detail_budget
detail_budget-bounds width = ground arith

-- Both budgets are accepted as a reduction, at any width of the window, and the reduction's limit on
-- points is the budget itself; an overview has between 500 and 2,000 points, the width itself where
-- it lies between; a detail has between 2,000 and 10,000, and twice the width where that does.
pub curve_reduction-max_points :
    (width : ℕ)
    → ((o : AlignmentReduction) × (curve_reduction (overview_budget width) ≡ ok o)
        × (alignment_max_points o ≡ some (overview_budget width)))
      × ((r : AlignmentReduction) × (curve_reduction (detail_budget width) ≡ ok r)
          × (alignment_max_points r ≡ some (detail_budget width)))
      × (500 ≤ overview_budget width)
      × (overview_budget width ≤ 2_000)
      × (500 ≤ width → width ≤ 2_000 → overview_budget width ≡ width)
      × (2_000 ≤ detail_budget width)
      × (detail_budget width ≤ 10_000)
      × (2_000 ≤ width * 2 → width * 2 ≤ 10_000 → detail_budget width ≡ width * 2)
curve_reduction-max_points width =
    let (low, high, same) = overview_budget-bounds width in
    let (bottom, top, twice) = detail_budget-bounds width in
    (
      budget_max_points (overview_budget width) low (omega (arith, high)),
      budget_max_points (detail_budget width) (omega (arith, bottom)) top,
      low,
      high,
      same,
      bottom,
      top,
      twice,
    )
