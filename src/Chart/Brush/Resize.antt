-- ===== src/Chart/Brush/Resize.antt =====
-- `resize_start` and `resize_end`: a moved handle stays inside the home range.
use pulseon.Base.{refl, ◌≡◌, true, some}
use pulseon.Float.{F64}
use pulseon.Float.Math.{F64Math, fle, IsIeeeMath}
use pulseon.Chart.Brush.{
  BrushState, min_brush_span, maximum_start_for_minimum_span, minimum_end_for_minimum_span,
  resize_start, resize_end, select,
}
use pulseon.Chart.Brush.Order.{
  IsWithin, flt-fle, clamp_f64-between, maximum_start-flt, minimum_end-flt, fle-maximum_start,
  IsRange-flt,
}
use pulseon.Chart.Range.{axis_range}
use pulseon.Chart.Brush.Zoom.{Succeeds, select-Succeeds}

module _ {W : Type 0} ⦃d : F64 W⦄ ⦃m : F64Math W⦄ (laws : IsIeeeMath W) where
  -- Where `resize_start` puts the handle.
  pub resize_start-clamped :
      (position : W) (b : BrushState W)
      → IsWithin b
      → d.is_finite position ≡ true
      → fle b.home.start (d.sub b.selected.end min_brush_span) ≡ true
      → (y : W) × (resize_start position b ≡ some (select b (axis_range y b.selected.end)))
        × (fle b.home.start y ≡ true)
        × (fle y (maximum_start_for_minimum_span b.selected.end) ≡ true)
        × (d.flt y b.selected.end ≡ true)
        × (d.is_finite (maximum_start_for_minimum_span b.selected.end) ≡ true)
  unfolding resize_start
  resize_start-clamped position b h fp room =
      let (home, selected, below, above, wide) = h in
      let end = b.selected.end in
      let lt =
        laws.fle-flt_trans b.home.start b.selected.start end below
          (IsRange-flt laws b.selected selected) in
      let low = fle-maximum_start laws b.home.start end home.0 selected.1 lt room in
      let last = maximum_start_for_minimum_span end in
      let last_lt = maximum_start-flt laws b.home.start end home.0 selected.1 room in
      let (y, same, lo, hi) =
        clamp_f64-between laws position b.home.start last (laws.is_nan-finite position fp) low in
      (
        y,
        rw (fp, same) refl,
        lo,
        hi,
        laws.fle-flt_trans y last end hi last_lt,
        laws.finite_between b.home.start last end home.0 selected.1 low
            (flt-fle laws last end last_lt),
      )

  pub resize_end-Succeeds :
      (position : W) (b : BrushState W)
      → IsWithin b
      → d.is_finite position ≡ true
      → fle (minimum_end_for_minimum_span b.selected.start) b.home.end ≡ true
      → Succeeds b (resize_end position b)
  unfolding resize_end
  resize_end-Succeeds position b h fp room =
      let (home, selected, below, above, wide) = h in
      let start = b.selected.start in
      let first = minimum_end_for_minimum_span start in
      let (y, same, lo, hi) =
        clamp_f64-between laws position first b.home.end (laws.is_nan-finite position fp) room in
      let up = laws.flt-fle_trans start first y (minimum_end-flt laws start selected.0) lo in
      rw (fp, same) (select-Succeeds laws b start y h below up hi)
