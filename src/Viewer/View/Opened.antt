-- ===== src/Viewer/View/Opened.antt =====
-- The brush that an overview opens.
use pulseon.Base.{
  ℤ, ◌≡◌, ◌⊎◌, inl, inr, refl, ap, ◌∙◌, true, false, Bool-cases, Option, none, some, ok, err, arith,
}
use pulseon.Float.{F64}
use pulseon.Float.Math.{F64Math, fle, IsIeeeMath}
use pulseon.Model.Alignment.{AlignmentViewport}
use pulseon.Chart.Range.{
  ChartError, invalid_range, invalid_brush_range, AxisRange, IsRange, axis_range,
  axis_range-IsRange, axis_range-ok, span,
}
use pulseon.Chart.Brush.{
  BrushState, min_brush_span, maximum_start_for_minimum_span, minimum_end_for_minimum_span,
  brush_state, select, resize_end,
}
use pulseon.Chart.Brush.Order.{IsWithin, fle_refl, inside-IsRange}
use pulseon.Chart.Brush.Resize.{resize_start-clamped, resize_end-Succeeds}
use pulseon.Viewer.Curves.{F64Int}
use pulseon.Viewer.View.{resized, keep_selection, brush_on, open_brush}

-- What the theorem relies on of the cast to `f64`, which gives whole numbers: a distance of a unit
-- is a unit before; a unit before and back is not beyond, where the unit is not lost; and where it is
-- lost, a unit after the next number down is not beyond either.
pub record IsCast (W : Type 0) ⦃d : F64 W⦄ ⦃m : F64Math W⦄ (casts : F64Int W) : Type 0 where
  pub unit_before :
      (a b : ℤ)
      → fle m.one_f64 (d.sub (casts.from_i64 b) (casts.from_i64 a)) ≡ true
      → fle (casts.from_i64 a) (d.sub (casts.from_i64 b) m.one_f64) ≡ true
  pub unit_after :
      (b : ℤ)
      → fle m.one_f64 (d.sub (casts.from_i64 b) (d.sub (casts.from_i64 b) m.one_f64)) ≡ true
      → fle (m.add (d.sub (casts.from_i64 b) m.one_f64) m.one_f64) (casts.from_i64 b) ≡ true
  pub unit_lost :
      (b : ℤ)
      → fle m.one_f64 (d.sub (casts.from_i64 b) (d.sub (casts.from_i64 b) m.one_f64)) ≡ false
      → fle (m.add (m.next_down (casts.from_i64 b)) m.one_f64) (casts.from_i64 b) ≡ true

module _ {W : Type 0} ⦃d : F64 W⦄ ⦃m : F64Math W⦄ where
  -- A brush, if there is one, whose selection is inside its home range.
  abbrev pub IsWithinIfOpen : Option (BrushState W) → Type 0
  IsWithinIfOpen none = Unit
  IsWithinIfOpen (some b) = IsWithin b

  abbrev pub Returns : Option (Option (BrushState W)) → Type 0
  Returns o = (result : Option (BrushState W)) × (o ≡ some result) × IsWithinIfOpen result

module _ {W : Type 0} ⦃d : F64 W⦄ ⦃m : F64Math W⦄ (laws : IsIeeeMath W) where
  minimum_end-fits :
      (y top : W)
      → d.is_finite y ≡ true
      → d.is_finite top ≡ true
      → d.is_finite (maximum_start_for_minimum_span top) ≡ true
      → fle y (maximum_start_for_minimum_span top) ≡ true
      → d.flt y top ≡ true
      → fle (m.add (maximum_start_for_minimum_span top) min_brush_span) top ≡ true
      → fle (minimum_end_for_minimum_span y) top ≡ true
  unfolding minimum_end_for_minimum_span
  minimum_end-fits y top fy ft fl le lt after =
      let last = maximum_start_for_minimum_span top in
      let added = laws.fle-add y last m.one_f64 fy fl laws.one-is_finite le in
      let fits = laws.fle_trans (m.add y m.one_f64) (m.add last m.one_f64) top added after in
      ground (arith, fits, laws.fle-next_up y top fy ft lt)

  abbrev whole : AxisRange W → BrushState W
  whole home = record { home = home; selected = home }

  -- A new brush takes over the selection of the previous one.
  keep_selection-Returns :
      (previous : BrushState W) (home : AxisRange W)
      → IsWithin previous
      → IsWithin (whole home)
      → fle home.start (d.sub home.end min_brush_span) ≡ true
      → fle (m.add (maximum_start_for_minimum_span home.end) min_brush_span) home.end ≡ true
      → Returns (keep_selection previous (whole home))
  unfolding keep_selection
  keep_selection-Returns previous home hp h before after =
      let (range, same_range, below, above, wide) = h in
      let (p_home, p_selected, p_below, p_above, p_wide) = hp in
      let (y, e, lo, hi, lt, finite) =
        resize_start-clamped laws previous.selected.start (whole home) h p_selected.0 before in
      let within = inside-IsRange laws home y home.end range lo lt above in
      let moved : BrushState W = record {
        home = home;
        selected = record { start = y; end = home.end };
      } in
      let fits = minimum_end-fits y home.end within.0 range.1 finite hi lt after in
      let (c, f, same_home, inside) =
        resize_end-Succeeds laws previous.selected.end moved (range, within, lo, above, wide)
          p_selected.1 fits in
      (
        some c,
        ap (λ o. resized o (λ b. resized (resize_end previous.selected.end b) (λ c. some (some c))))
              (e ∙ ap (λ r. some (select (whole home) r)) (axis_range-ok y home.end within))
            ∙ ap (λ o. resized o (λ c. some (some c))) f,
        inside,
      )

  whole-IsWithin :
      (home : AxisRange W)
      → IsRange home
      → d.flt (d.sub home.end home.start) m.one_f64 ≡ false
      → IsWithin (whole home)
  whole-IsWithin home h wide =
      let width = d.sub home.end home.start in
      (
        h,
        h,
        fle_refl laws home.start h.0,
        fle_refl laws home.end h.1,
        laws.fle-total width m.one_f64 (laws.is_nan-finite width h.3)
            (laws.is_nan-finite m.one_f64 laws.one-is_finite) wide,
      )

  taken-Returns :
      (previous : Option (BrushState W)) (home : AxisRange W)
      → IsWithinIfOpen previous
      → IsWithin (whole home)
      → fle home.start (d.sub home.end min_brush_span) ≡ true
      → fle (m.add (maximum_start_for_minimum_span home.end) min_brush_span) home.end ≡ true
      → Returns (brush_on previous (ok (whole home)))
  unfolding brush_on
  taken-Returns none home hp h before after = (some (whole home), refl, h)
  taken-Returns (some previous) home hp h before after =
      keep_selection-Returns previous home hp h before after

  refused-Returns :
      (previous : Option (BrushState W)) (e : ChartError) → Returns (brush_on previous (err e))
  unfolding brush_on
  refused-Returns previous e = (none, refl, tt)

  brush_state-narrow :
      (home : AxisRange W)
      → d.flt (d.sub home.end home.start) m.one_f64 ≡ true
      → brush_state home ≡ err invalid_brush_range
  unfolding brush_state span
  brush_state-narrow home h = rw h refl

  brush_state-wide :
      (home : AxisRange W)
      → d.flt (d.sub home.end home.start) m.one_f64 ≡ false
      → brush_state home ≡ ok (whole home)
  unfolding brush_state span
  brush_state-wide home h = rw h refl

  brush_on-Returns :
      (previous : Option (BrushState W)) (home : AxisRange W)
      → IsWithinIfOpen previous
      → IsRange home
      → (fle m.one_f64 (d.sub home.end home.start) ≡ true
          → fle home.start (d.sub home.end min_brush_span) ≡ true)
      → fle (m.add (maximum_start_for_minimum_span home.end) min_brush_span) home.end ≡ true
      → Returns (brush_on previous (brush_state home))
  brush_on-Returns previous home hp h before after =
      elim (Bool-cases (d.flt (d.sub home.end home.start) m.one_f64)) [
        | inl narrow ↦
            rw (brush_state-narrow home narrow) (refused-Returns previous invalid_brush_range)
        | inr wide ↦
            let within = whole-IsWithin home h wide in
            rw (brush_state-wide home wide)
              (taken-Returns previous home hp within (before (within.4)) after)
      ]

  axis_range_split :
      (start end : W)
      → (axis_range start end ≡ err invalid_range)
        ⊎ (axis_range start end ≡ ok (record { start = start; end = end }))
  unfolding axis_range
  axis_range_split start end = ground arith

  after_latest :
      (casts : F64Int W)
      → IsCast W casts
      → (b : ℤ)
      → fle (m.add (maximum_start_for_minimum_span (casts.from_i64 b)) m.one_f64) (casts.from_i64 b)
        ≡ true
  unfolding maximum_start_for_minimum_span
  after_latest casts cast b =
      elim (Bool-cases
        (fle m.one_f64 (d.sub (casts.from_i64 b) (d.sub (casts.from_i64 b) m.one_f64)))) [
          | inl e ↦ rw e (cast.unit_after b e)
          | inr e ↦ rw e (cast.unit_lost b e)
        ]

  -- With a previous brush, if any, whose selection is inside its home range, opening a brush on the
  -- range of an overview does not panic, and the brush that it opens, if any, has its selection inside
  -- its home range.
  pub open_brush-Returns :
      (casts : F64Int W)
      → IsCast W casts
      → (previous : Option (BrushState W)) (range : AlignmentViewport) → IsWithinIfOpen previous
      → Returns (open_brush casts previous range)
  unfolding open_brush
  open_brush-Returns casts cast previous range h =
      let start = casts.from_i64 range.start in
      let end = casts.from_i64 range.end in
      elim (axis_range_split start end) [
        | inl e ↦ rw (open_brush, e) (refused-Returns previous invalid_range)
        | inr e ↦
            rw (open_brush, e)
              (brush_on-Returns previous (record { start = start; end = end }) h
                (axis_range-IsRange start end e) (cast.unit_before range.start range.end)
                (after_latest casts cast range.end))
      ]
