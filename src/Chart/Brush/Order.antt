-- ===== src/Chart/Brush/Order.antt =====
-- The order of floating-point numbers around the minimum span, and inside a range.
use pulseon.Base.{◌≡◌, ◌⊎◌, inl, inr, ◌∙◌, true, false, some, arith, Bool-cases}
use pulseon.Float.{F64}
use pulseon.Float.Math.{F64Math, fle, clamp_f64, IsIeeeMath}
use pulseon.Chart.Range.{AxisRange, IsRange}
use pulseon.Chart.Brush.{
  BrushState, min_brush_span, maximum_start_for_minimum_span, minimum_end_for_minimum_span,
}

module _ {W : Type 0} ⦃d : F64 W⦄ ⦃m : F64Math W⦄ where
  -- The selection lies inside the home range, which is a unit wide.
  abbrev pub IsWithin : BrushState W → Type 0
  IsWithin b =
      IsRange b.home
      × IsRange b.selected
      × (fle b.home.start b.selected.start ≡ true)
      × (fle b.selected.end b.home.end ≡ true)
      × (fle min_brush_span (d.sub b.home.end b.home.start) ≡ true)

module _ {W : Type 0} ⦃d : F64 W⦄ ⦃m : F64Math W⦄ (laws : IsIeeeMath W) where
  pub flt-fle : (a b : W) → d.flt a b ≡ true → fle a b ≡ true
  flt-fle a b h = ground (arith, h)

  pub fle_refl : (a : W) → d.is_finite a ≡ true → fle a a ≡ true
  fle_refl a h = elim (Bool-cases (d.flt a a)) [
    | inl e ↦ flt-fle a a e
    | inr e ↦ laws.fle-total a a (laws.is_nan-finite a h) (laws.is_nan-finite a h) e
  ]

  pub not_fle-flt :
      (a b : W) → m.is_nan a ≡ false → m.is_nan b ≡ false → fle a b ≡ false → d.flt b a ≡ true
  not_fle-flt a b ha hb h = ground (arith, laws.fle-total b a hb ha, h)

  pub flt-not_fle : (a b : W) → d.flt a b ≡ true → fle b a ≡ false
  flt-not_fle a b h = ground (arith, laws.fle-flt b a, h)

  pub IsRange-flt : (r : AxisRange W) → IsRange r → d.flt r.start r.end ≡ true
  IsRange-flt r h =
      not_fle-flt r.end r.start (laws.is_nan-finite r.end h.1) (laws.is_nan-finite r.start h.0) h.2

  -- A range inside another one is finite.
  pub inside-IsRange :
      (r : AxisRange W) (start end : W)
      → IsRange r
      → fle r.start start ≡ true
      → d.flt start end ≡ true
      → fle end r.end ≡ true
      → IsRange (record { start = start; end = end })
  inside-IsRange r start end h lo lt hi =
      let le = flt-fle start end lt in
      let fs =
        laws.finite_between r.start start r.end h.0 h.1 lo (laws.fle_trans start end r.end le hi) in
      let fe =
        laws.finite_between r.start end r.end h.0 h.1 (laws.fle_trans r.start start end lo le) hi in
      (
        fs,
        fe,
        flt-not_fle start end lt,
        laws.finite_between d.zero_f64 (d.sub end start) (d.sub r.end r.start) laws.zero-is_finite
            h.3 (flt-fle d.zero_f64 (d.sub end start) (laws.zero-flt-sub end start fs ∙ lt))
            (laws.fle-sub end r.end r.start start fe h.1 h.0 fs hi lo),
      )

  irrefl : (a : W) → m.is_nan a ≡ false → d.flt a a ≡ false
  irrefl a h = elim (Bool-cases (d.flt a a)) [
    | inl e ↦ laws.fle-flt a a (flt-fle a a e)
    | inr e ↦ e
  ]

  clamp_cases :
      (x lo hi : W)
      → fle lo hi ≡ true
      → ((clamp_f64 x lo hi ≡ some lo) × (d.flt x lo ≡ true))
        ⊎ ((clamp_f64 x lo hi ≡ some hi) × (d.flt hi x ≡ true))
        ⊎ ((clamp_f64 x lo hi ≡ some x) × (d.flt x lo ≡ false) × (d.flt hi x ≡ false))
  unfolding clamp_f64
  clamp_cases x lo hi le = ground (arith, le)

  pub clamp_f64-between :
      (x lo hi : W)
      → m.is_nan x ≡ false
      → fle lo hi ≡ true
      → (y : W) × (clamp_f64 x lo hi ≡ some y) × (fle lo y ≡ true) × (fle y hi ≡ true)
  clamp_f64-between x lo hi hx le =
      let nans = laws.fle_nan lo hi le in
      elim (clamp_cases x lo hi le) [
        | inl (e, below) ↦ (lo, e, laws.fle-total lo lo nans.0 nans.0 (irrefl lo nans.0), le)
        | inr rest ↦ elim rest [
          | inl (e, above) ↦ (hi, e, le, laws.fle-total hi hi nans.1 nans.1 (irrefl hi nans.1))
          | inr (e, low, high) ↦
              (x, e, laws.fle-total x lo hx nans.0 low, laws.fle-total hi x nans.1 hx high)
        ]
      ]

  pub maximum_start-flt :
      (h e : W)
      → d.is_finite h ≡ true
      → d.is_finite e ≡ true
      → fle h (d.sub e min_brush_span) ≡ true
      → d.flt (maximum_start_for_minimum_span e) e ≡ true
  unfolding maximum_start_for_minimum_span
  maximum_start-flt h e fh fe le =
      let start = d.sub e min_brush_span in
      let fs = laws.finite_between h start e fh fe le (
        laws.fle-sub_self e m.one_f64 fe laws.one-is_finite
          (flt-fle d.zero_f64 m.one_f64 laws.zero-flt-one)) in
      ground (
        arith,
        laws.next_down-flt e fe,
        laws.zero-flt-sub e start fs,
        laws.flt-fle_trans d.zero_f64 m.one_f64 (d.sub e start) laws.zero-flt-one,
      )

  pub fle-maximum_start :
      (h e : W)
      → d.is_finite h ≡ true
      → d.is_finite e ≡ true
      → d.flt h e ≡ true
      → fle h (d.sub e min_brush_span) ≡ true
      → fle h (maximum_start_for_minimum_span e) ≡ true
  unfolding maximum_start_for_minimum_span
  fle-maximum_start h e fh fe lt le = ground (arith, le, laws.fle-next_down e h fe fh lt)

  pub minimum_end-flt :
      (s : W) → d.is_finite s ≡ true → d.flt s (minimum_end_for_minimum_span s) ≡ true
  unfolding minimum_end_for_minimum_span
  minimum_end-flt s fs =
      let end = m.add s min_brush_span in
      ground (
        arith,
        laws.next_up-flt s fs,
        laws.zero-flt-sub end s fs,
        laws.flt-fle_trans d.zero_f64 m.one_f64 (d.sub end s) laws.zero-flt-one,
      )
