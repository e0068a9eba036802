-- ===== src/Chart/Brush.antt =====
-- `BrushState` of crates/pulseon-chart-core/src/interaction.rs: a selection inside a home range. The
-- result of an operation is `none` where `f64::clamp` panics; an error leaves the brush as it was.
pub mod Order
pub mod Zoom
pub mod Resize
use pulseon.Base.{
  ◌≡◌, Bool, true, false, ◌||◌, not, Option, none, some, Result, ok, err, if◌then◌else◌,
}
use pulseon.Float.{F64}
use pulseon.Float.Math.{F64Math, fle, clamp_f64}
use pulseon.Chart.Range.{
  ChartError, invalid_brush_range, invalid_transform, AxisRange, axis_range, span,
}

pub record BrushState (W : Type 0) : Type 0 where
  pub home : AxisRange W
  pub selected : AxisRange W

abbrev pub select :
    {W : Type 0} → BrushState W → Result ChartError (AxisRange W) → Result ChartError (BrushState W)
select b (ok selected) = ok (record b { selected = selected })
select b (err e) = err e

abbrev pub map_some {ℓ κ} : {A : Type ℓ} {B : Type κ} → (A → B) → Option A → Option B
map_some f none = none
map_some f (some a) = some (f a)

abbrev pub then_some {ℓ κ} : {A : Type ℓ} {B : Type κ} → Option A → (A → Option B) → Option B
then_some none f = none
then_some (some a) f = f a

module _ {W : Type 0} ⦃d : F64 W⦄ ⦃m : F64Math W⦄ where
  abbrev pub min_brush_span : W
  min_brush_span = m.one_f64

  unfoldable pub maximum_start_for_minimum_span : W → W
  maximum_start_for_minimum_span end =
      let start = d.sub end min_brush_span in
      if fle min_brush_span (d.sub end start) then start else m.next_down end

  unfoldable pub minimum_end_for_minimum_span : W → W
  minimum_end_for_minimum_span start =
      let end = m.add start min_brush_span in
      if fle min_brush_span (d.sub end start) then end else m.next_up start

  unfoldable pub brush_state : AxisRange W → Result ChartError (BrushState W)
  unfolding span
  brush_state home =
      if d.flt (span home) min_brush_span
      then err invalid_brush_range
      else ok (record { home = home; selected = home })

  unfoldable pub resize_start : W → BrushState W → Option (Result ChartError (BrushState W))
  unfolding clamp_f64 maximum_start_for_minimum_span axis_range
  resize_start position b =
      if not (d.is_finite position)
      then some (err invalid_transform)
      else map_some (λ start. select b (axis_range start b.selected.end))
          (clamp_f64 position b.home.start (maximum_start_for_minimum_span b.selected.end))

  unfoldable pub resize_end : W → BrushState W → Option (Result ChartError (BrushState W))
  unfolding clamp_f64 minimum_end_for_minimum_span axis_range
  resize_end position b =
      if not (d.is_finite position)
      then some (err invalid_transform)
      else map_some (λ end. select b (axis_range b.selected.start end))
          (clamp_f64 position (minimum_end_for_minimum_span b.selected.start) b.home.end)

  -- The ends of a pan that is narrower than one unit after rounding.
  unfoldable pub widen : BrushState W → (delta start end : W) → W × W
  unfolding minimum_end_for_minimum_span maximum_start_for_minimum_span
  widen b delta start end =
      if d.flt (d.sub end start) min_brush_span
      then if m.is_sign_negative delta
        then (start, m.fmin (minimum_end_for_minimum_span start) b.home.end)
        else (m.fmax (maximum_start_for_minimum_span end) b.home.start, end)
      else (start, end)

  unfoldable pub pan_by : W → BrushState W → Option (Result ChartError (BrushState W))
  unfolding clamp_f64 widen axis_range
  pan_by delta b =
      if not (d.is_finite delta)
      then some (err invalid_transform)
      else map_some
          (λ by.
            let (start, end) = widen b by (m.add b.selected.start by) (m.add b.selected.end by) in
            select b (axis_range start end))
          (clamp_f64 delta (d.sub b.home.start b.selected.start) (d.sub b.home.end b.selected.end))

  -- The part of `zoom_at` from the span on that is not the home's.
  unfoldable pub zoom_to :
      (anchor span : W) → BrushState W → Option (Result ChartError (BrushState W))
  unfolding clamp_f64 maximum_start_for_minimum_span minimum_end_for_minimum_span axis_range
  zoom_to anchor span b =
      let anchor_ratio =
        d.div (d.sub anchor b.selected.start) (d.sub b.selected.end b.selected.start) in
      let latest_start =
        m.fmin (d.sub b.home.end span) (maximum_start_for_minimum_span b.home.end) in
      map_some
        (λ start.
          let end =
            m.fmin (m.fmax (m.add start span) (minimum_end_for_minimum_span start)) b.home.end in
          select b (axis_range start end))
        (clamp_f64 (d.sub anchor (m.mul anchor_ratio span)) b.home.start latest_start)

  unfoldable pub zoom_at :
      (anchor factor : W) → BrushState W → Option (Result ChartError (BrushState W))
  unfolding clamp_f64 zoom_to span
  zoom_at anchor factor b =
      if not (d.is_finite anchor)
        || not (d.is_finite factor)
        || fle factor d.zero_f64
        || d.flt anchor b.selected.start
        || d.flt b.selected.end anchor
      then some (err invalid_transform)
      else if d.feq factor m.one_f64
      then some (ok b)
      else then_some (clamp_f64 (d.div (span b.selected) factor) min_brush_span (span b.home))
          λ zoomed.
            if d.feq zoomed (span b.home)
            then some (ok (record b { selected = b.home }))
            else zoom_to anchor zoomed b

  unfoldable pub reset : BrushState W → BrushState W
  reset b = record b { selected = b.home }
