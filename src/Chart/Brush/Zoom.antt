-- ===== src/Chart/Brush/Zoom.antt =====
-- `zoom_at`: it never panics, and it stays inside the home range.
use pulseon.Base.{
  ◌≡◌, inl, inr, refl, ap, ◌∙◌, true, false, Option, some, Result, ok, arith, Bool-cases,
}
use pulseon.Float.{F64}
use pulseon.Float.Math.{F64Math, fle, IsIeeeMath}
use pulseon.Chart.Range.{ChartError, axis_range, axis_range-ok, span}
use pulseon.Chart.Brush.{
  BrushState, maximum_start_for_minimum_span, minimum_end_for_minimum_span, select, zoom_to,
  zoom_at,
}
use pulseon.Chart.Brush.Order.{
  IsWithin, flt-fle, fle_refl, not_fle-flt, IsRange-flt, inside-IsRange, clamp_f64-between,
  maximum_start-flt, fle-maximum_start, minimum_end-flt,
}

module _ {W : Type 0} ⦃d : F64 W⦄ ⦃m : F64Math W⦄ where
  -- The operation succeeds, inside the same home range.
  abbrev pub Succeeds : BrushState W → Option (Result ChartError (BrushState W)) → Type 0
  Succeeds b o = (b' : BrushState W) × (o ≡ some (ok b')) × (b'.home ≡ b.home) × IsWithin b'

module _ {W : Type 0} ⦃d : F64 W⦄ ⦃m : F64Math W⦄ (laws : IsIeeeMath W) where
  -- A new selection from `y` to `end`, inside the home range.
  pub select-Succeeds :
      (b : BrushState W) (y end : W)
      → IsWithin b
      → fle b.home.start y ≡ true
      → d.flt y end ≡ true
      → fle end b.home.end ≡ true
      → Succeeds b (some (select b (axis_range y end)))
  select-Succeeds b y end h low lt high =
      let inside = inside-IsRange laws b.home y end h.0 low lt high in
      (
        record b { selected = record { start = y; end = end } },
        ap (λ r. some (select b r)) (axis_range-ok y end inside),
        refl,
        (h.0, inside, low, high, h.4),
      )

  end_of_zoom :
      (y z top : W)
      → d.is_finite y ≡ true
      → d.is_finite top ≡ true
      → m.is_nan (m.add y z) ≡ false
      → d.flt y top ≡ true
      → let end = m.fmin (m.fmax (m.add y z) (minimum_end_for_minimum_span y)) top in
        (d.flt y end ≡ true) × (fle end top ≡ true)
  end_of_zoom y z top fy ft nan lt =
      let up = minimum_end-flt laws y fy in
      let low = minimum_end_for_minimum_span y in
      let nlow = (laws.fle_nan y low (flt-fle laws y low up)).1 in
      let wide = m.fmax (m.add y z) low in
      let wide_up : d.flt y wide ≡ true = elim (laws.fmax-cases (m.add y z) low nan nlow) [
        | inl (e, le) ↦ rw e (laws.flt-fle_trans y low (m.add y z) up le)
        | inr (e, le) ↦ rw e up
      ] in
      let nwide = (laws.fle_nan y wide (flt-fle laws y wide wide_up)).1 in
      elim (laws.fmin-cases wide top nwide (laws.is_nan-finite top ft)) [
        | inl (e, le) ↦ rw e (wide_up, le)
        | inr (e, le) ↦ rw e (lt, fle_refl laws top ft)
      ]

  -- The latest start that `zoom_to` allows is in the home range and a minimum span before its end.
  latest :
      (h e z : W)
      → d.is_finite h ≡ true
      → d.is_finite e ≡ true
      → d.is_finite z ≡ true
      → d.flt h e ≡ true
      → fle m.one_f64 z ≡ true
      → d.flt z (d.sub e h) ≡ true
      → let last = m.fmin (d.sub e z) (maximum_start_for_minimum_span e) in
        (fle h last ≡ true) × (d.flt last e ≡ true)
  latest h e z fh fe fz lt one_le narrow =
      let le_z = laws.flt-sub_swap z e h fz fe fh narrow in
      let le_one =
        laws.flt-sub_swap m.one_f64 e h laws.one-is_finite fe fh
          (laws.fle-flt_trans m.one_f64 z (d.sub e h) one_le narrow) in
      let start = maximum_start_for_minimum_span e in
      let le_start = fle-maximum_start laws h e fh fe lt le_one in
      let start_lt = maximum_start-flt laws h e fh fe le_one in
      elim (laws.fmin-cases (d.sub e z) start (laws.fle_nan h (d.sub e z) le_z).1
        (laws.fle_nan h start le_start).1) [
          | inl (same, le) ↦ rw same (le_z, laws.fle-flt_trans (d.sub e z) start e le start_lt)
          | inr (same, le) ↦ rw same (le_start, start_lt)
        ]

  zoom_to-Succeeds :
      (anchor z : W) (b : BrushState W)
      → IsWithin b
      → d.is_finite anchor ≡ true
      → d.is_finite z ≡ true
      → fle m.one_f64 z ≡ true
      → d.flt z (d.sub b.home.end b.home.start) ≡ true
      → Succeeds b (zoom_to anchor z b)
  unfolding zoom_to
  zoom_to-Succeeds anchor z b h fa fz one_le narrow =
      let (home, selected, below, above, wide) = h in
      let zpos = laws.flt-fle_trans d.zero_f64 m.one_f64 z laws.zero-flt-one one_le in
      let width = d.sub b.selected.end b.selected.start in
      let width_pos : d.flt d.zero_f64 width ≡ true =
        laws.zero-flt-sub b.selected.end b.selected.start selected.0
        ∙ IsRange-flt laws b.selected selected in
      let ratio = d.div (d.sub anchor b.selected.start) width in
      let nratio =
        laws.is_nan-div (d.sub anchor b.selected.start) width
          (laws.is_nan-sub anchor b.selected.start fa
            (laws.is_nan-finite b.selected.start selected.0))
          selected.3 width_pos in
      let x = d.sub anchor (m.mul ratio z) in
      let nx = laws.is_nan-sub anchor (m.mul ratio z) fa (laws.is_nan-mul ratio z nratio fz zpos) in
      let last = m.fmin (d.sub b.home.end z) (maximum_start_for_minimum_span b.home.end) in
      let (low, below) =
        latest b.home.start b.home.end z home.0 home.1 fz (IsRange-flt laws b.home home) one_le
          narrow in
      let (y, same, lo, hi) = clamp_f64-between laws x b.home.start last nx low in
      let lt = laws.fle-flt_trans y last b.home.end hi below in
      let fy =
        laws.finite_between b.home.start y b.home.end home.0 home.1 lo
          (flt-fle laws y b.home.end lt) in
      let (up, top) =
        end_of_zoom y z b.home.end fy home.1 (laws.is_nan-add y z fy (laws.is_nan-finite z fz))
          lt in
      rw same (
        select-Succeeds b y
          (m.fmin (m.fmax (m.add y z) (minimum_end_for_minimum_span y)) b.home.end) h lo up top)

  -- From a selection inside the home range, an anchor inside the selection and a positive factor,
  -- `zoom_at` does not panic and does not fail: it leaves a selection inside the same home range.
  pub zoom_at-Succeeds :
      (anchor factor : W) (b : BrushState W)
      → IsWithin b
      → d.is_finite anchor ≡ true
      → d.is_finite factor ≡ true
      → fle factor d.zero_f64 ≡ false
      → d.flt anchor b.selected.start ≡ false
      → d.flt b.selected.end anchor ≡ false
      → Succeeds b (zoom_at anchor factor b)
  unfolding zoom_at span
  zoom_at-Succeeds anchor factor b h fa ff positive low high =
      let (home, selected, below, above, wide) = h in
      let width = d.sub b.selected.end b.selected.start in
      let home_width = d.sub b.home.end b.home.start in
      let nan = laws.is_nan-div width factor (laws.is_nan-finite width selected.3) ff (
        not_fle-flt laws factor d.zero_f64 (laws.is_nan-finite factor ff)
          (laws.is_nan-finite d.zero_f64 laws.zero-is_finite) positive) in
      let (z, same, lo, hi) =
        clamp_f64-between laws (d.div width factor) m.one_f64 home_width nan wide in
      let fz = laws.finite_between m.one_f64 z home_width laws.one-is_finite home.3 lo hi in
      elim (Bool-cases (d.feq factor m.one_f64)) [
        | inl e ↦ rw (fa, ff, positive, low, high, e) (b, refl, refl, h)
        | inr e ↦ elim (Bool-cases (d.feq z home_width)) [
          | inl w ↦
              rw (fa, ff, positive, low, high, e, same, w)
                (
                  record b { selected = b.home },
                  refl,
                  refl,
                  (
                    home,
                    home,
                    fle_refl laws b.home.start home.0,
                    fle_refl laws b.home.end home.1,
                    wide,
                  ),
                )
          | inr w ↦
              rw (fa, ff, positive, low, high, e, same, w)
                (zoom_to-Succeeds anchor z b h fa fz lo (ground (arith, hi, w)))
        ]
      ]
