-- ===== src/Chart/YRange.antt =====
-- `visible_y_range_for` of crates/pulseon-chart-core/src/lib.rs. Its two decimal constants, 0.05 and
-- 1e-9, are parameters.
pub mod Fitting
use pulseon.Base.{
  Bool, true, false, Option, none, some, Result, ok, err, List, [], ◌∷◌, if◌then◌else◌, ◌>>=◌,
}
use pulseon.Float.{F64}
use pulseon.Float.Math.{F64Math}
use pulseon.Chart.Range.{ChartError, DataPoint, AxisRange, axis_range}
use pulseon.Chart.Series.{Series, range_points}
use pulseon.Chart.Brush.{map_some, then_some}

module _ {W : Type 0} ⦃d : F64 W⦄ ⦃m : F64Math W⦄ where
  -- The loop over the points of one series.
  unfoldable pub extend : W × W → List (DataPoint W) → W × W
  extend b [] = b
  extend b (p ∷ ps) = extend (m.fmin b.0 p.y, m.fmax b.1 p.y) ps

  unfoldable pub extend_bounds : Option (W × W) → List (DataPoint W) → Option (W × W)
  unfolding extend
  extend_bounds none [] = none
  extend_bounds none (p ∷ ps) = some (extend (p.y, p.y) ps)
  extend_bounds (some b) ps = some (extend b ps)

  -- The loop over the series; the outer `none` is a slice that panics.
  unfoldable pub y_bounds : AxisRange W → Option (W × W) → List (Series W) → Option (Option (W × W))
  unfolding extend_bounds range_points
  y_bounds r b [] = some b
  y_bounds r b (s ∷ ss) =
      then_some (range_points r s.points) λ points. y_bounds r (extend_bounds b points) ss

  module _ (y_range_padding_fraction min_constant_y_padding : W) where
    unfoldable pub padded_range : (minimum maximum : W) → Result ChartError (AxisRange W)
    unfolding axis_range
    padded_range minimum maximum =
        let padding =
          if d.feq minimum maximum
          then m.fmax (m.mul (d.abs minimum) y_range_padding_fraction) min_constant_y_padding
          else m.mul (d.sub maximum minimum) y_range_padding_fraction in
        let padded_minimum = d.sub minimum padding in
        let padded_maximum = m.add maximum padding in
        axis_range (if d.flt padded_minimum minimum then padded_minimum else m.next_down minimum)
          (if d.flt maximum padded_maximum then padded_maximum else m.next_up maximum)

    abbrev pub padded : Option (W × W) → Result ChartError (Option (AxisRange W))
    padded none = ok none
    padded (some b) = padded_range b.0 b.1 >>= λ r. ok (some r)

    unfoldable pub visible_y_range :
        List (Series W) → AxisRange W → Option (Result ChartError (Option (AxisRange W)))
    unfolding y_bounds padded_range
    visible_y_range ss x_range = map_some padded (y_bounds x_range none ss)
