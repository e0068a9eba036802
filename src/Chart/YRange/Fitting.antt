-- ===== src/Chart/YRange/Fitting.antt =====
-- The y range holds every point of the x range, with room on both sides.
use pulseon.Base.{
  ◌≡◌, ◌⊎◌, inl, inr, refl, true, Option, none, some, Result, ok, err, List, [], ◌∷◌, filter, All,
  All-map_pred, arith, if◌then◌else◌, Bool-cases,
}
use pulseon.Float.{F64}
use pulseon.Float.Math.{F64Math, fle, IsIeeeMath}
use pulseon.Chart.Range.{ChartError, invalid_range, DataPoint, AxisRange, IsRange, axis_range}
use pulseon.Chart.Series.{Series}
use pulseon.Chart.Series.Points.{IsFinitePoint, IsOrdered, is_inside, range_points-filter}
use pulseon.Chart.Brush.Order.{fle_refl}
use pulseon.Chart.YRange.{extend, extend_bounds, y_bounds, padded_range, padded, visible_y_range}

module _ {W : Type 0} ⦃d : F64 W⦄ ⦃m : F64Math W⦄ where
  -- The points of the series in the x range.
  abbrev pub inside : AxisRange W → Series W → List (DataPoint W)
  inside r s = filter (is_inside r) s.points

  abbrev IsFiniteBounds : W × W → Type 0
  IsFiniteBounds b = (d.is_finite b.0 ≡ true) × (d.is_finite b.1 ≡ true)

  abbrev IsBetween : W × W → DataPoint W → Type 0
  IsBetween b p = (fle b.0 p.y ≡ true) × (fle p.y b.1 ≡ true)

  abbrev IsWider : W × W → W × W → Type 0
  IsWider b q = (fle b.0 q.0 ≡ true) × (fle q.1 b.1 ≡ true)

  -- Every point strictly between the ends.
  abbrev pub Holds : AxisRange W → List (DataPoint W) → Type 0
  Holds y = All (λ p. (d.flt y.start p.y ≡ true) × (d.flt p.y y.end ≡ true))

  -- What the result says: no point, a range that holds all of them, or a range that is not finite.
  abbrev pub IsFitting :
      AxisRange W → List (Series W) → Result ChartError (Option (AxisRange W)) → Type 0
  IsFitting r ss (ok none) = All (λ s. inside r s ≡ []) ss
  IsFitting r ss (ok (some y)) = All (λ s. Holds y (inside r s)) ss
  IsFitting r ss (err e) = e ≡ invalid_range

module _ {W : Type 0} ⦃d : F64 W⦄ ⦃m : F64Math W⦄ (laws : IsIeeeMath W) where
  filter-finite :
      (r : AxisRange W) (ps : List (DataPoint W))
      → IsOrdered ps
      → All IsFinitePoint (filter (is_inside r) ps)
  filter-finite r [] h = tt
  filter-finite r (p ∷ ps) h = elim (Bool-cases (is_inside r p)) [
    | inl e ↦ rw e (h.0, filter-finite r ps h.2)
    | inr e ↦ rw e (filter-finite r ps h.2)
  ]

  chain_bounds : (a b c : W × W) → IsWider a b → IsWider b c → IsWider a c
  chain_bounds a b c h k = (laws.fle_trans a.0 b.0 c.0 h.0 k.0, laws.fle_trans c.1 b.1 a.1 k.1 h.1)

  inherit_point : (a b : W × W) (p : DataPoint W) → IsWider a b → IsBetween b p → IsBetween a p
  inherit_point a b p h k = (laws.fle_trans a.0 b.0 p.y h.0 k.0, laws.fle_trans p.y b.1 a.1 k.1 h.1)

  fmin_lem :
      (a b : W)
      → d.is_finite a ≡ true
      → d.is_finite b ≡ true
      → (d.is_finite (m.fmin a b) ≡ true)
        × (fle (m.fmin a b) a ≡ true)
        × (fle (m.fmin a b) b ≡ true)
  fmin_lem a b ha hb =
      elim (laws.fmin-cases a b (laws.is_nan-finite a ha) (laws.is_nan-finite b hb)) [
        | inl (e, le) ↦ rw e (ha, fle_refl laws a ha, le)
        | inr (e, le) ↦ rw e (hb, le, fle_refl laws b hb)
      ]

  fmax_lem :
      (a b : W)
      → d.is_finite a ≡ true
      → d.is_finite b ≡ true
      → (d.is_finite (m.fmax a b) ≡ true)
        × (fle a (m.fmax a b) ≡ true)
        × (fle b (m.fmax a b) ≡ true)
  fmax_lem a b ha hb =
      elim (laws.fmax-cases a b (laws.is_nan-finite a ha) (laws.is_nan-finite b hb)) [
        | inl (e, le) ↦ rw e (ha, fle_refl laws a ha, le)
        | inr (e, le) ↦ rw e (hb, le, fle_refl laws b hb)
      ]

  extend_lem :
      (b : W × W) (ps : List (DataPoint W))
      → IsFiniteBounds b
      → All IsFinitePoint ps
      → IsFiniteBounds (extend b ps) × IsWider (extend b ps) b × All (IsBetween (extend b ps)) ps
  unfolding extend
  extend_lem b [] hb hs = (hb, (fle_refl laws b.0 hb.0, fle_refl laws b.1 hb.1), tt)
  extend_lem b (p ∷ ps) hb hs =
      let low = fmin_lem b.0 p.y hb.0 (hs.0.1) in
      let high = fmax_lem b.1 p.y hb.1 (hs.0.1) in
      let next : W × W = (m.fmin b.0 p.y, m.fmax b.1 p.y) in
      let rest = extend_lem next ps (low.0, high.0) (hs.1) in
      let last = extend next ps in
      (
        rest.0,
        chain_bounds last next b rest.1 (low.1, high.1),
        (inherit_point last next p rest.1 (low.2, high.2), rest.2),
      )

  -- The bounds after all series: wider than those before, and around every point.
  abbrev Covers : AxisRange W → List (Series W) → W × W → Type 0
  Covers r ss b = IsFiniteBounds b × All (λ s. All (IsBetween b) (inside r s)) ss

  y_bounds-some :
      (r : AxisRange W) (b : W × W) (ss : List (Series W))
      → IsRange r
      → All (λ (s : Series W). IsOrdered s.points) ss
      → IsFiniteBounds b
      → (c : W × W) × (y_bounds r (some b) ss ≡ some (some c)) × IsWider c b × Covers r ss c
  unfolding y_bounds extend_bounds
  y_bounds-some r b [] hr hs hb =
      (b, refl, (fle_refl laws b.0 hb.0, fle_refl laws b.1 hb.1), (hb, tt))
  y_bounds-some r b (s ∷ ss) hr hs hb =
      let points = inside r s in
      let step = extend_lem b points hb (filter-finite r s.points (hs.0)) in
      let next = extend b points in
      let (c, e, wider, cover) = y_bounds-some r next ss hr (hs.1) step.0 in
      (
        c,
        rw (range_points-filter laws r s.points hr (hs.0)) e,
        chain_bounds c next b wider step.1,
        (
          cover.0,
          (
            All-map_pred (IsBetween next) (IsBetween c) points (λ p. inherit_point c next p wider)
                step.2,
            cover.1,
          ),
        ),
      )

  extend_bounds-none :
      (ps : List (DataPoint W))
      → All IsFinitePoint ps
      → ((extend_bounds none ps ≡ none) × (ps ≡ []))
        ⊎ ((b : W × W) × (extend_bounds none ps ≡ some b) × IsFiniteBounds b × All (IsBetween b) ps)
  unfolding extend_bounds
  extend_bounds-none [] h = inl (refl, refl)
  extend_bounds-none (p ∷ ps) h =
      let own = h.0.1 in
      let rest = extend_lem (p.y, p.y) ps (own, own) (h.1) in
      inr (extend (p.y, p.y) ps, refl, rest.0, (rest.1, rest.2))

  y_bounds-none :
      (r : AxisRange W) (ss : List (Series W))
      → IsRange r
      → All (λ (s : Series W). IsOrdered s.points) ss
      → ((y_bounds r none ss ≡ some none) × All (λ s. inside r s ≡ []) ss)
        ⊎ ((c : W × W) × (y_bounds r none ss ≡ some (some c)) × Covers r ss c)
  unfolding y_bounds
  y_bounds-none r [] hr hs = inl (refl, tt)
  y_bounds-none r (s ∷ ss) hr hs =
      let points = inside r s in
      let read = range_points-filter laws r s.points hr (hs.0) in
      elim (extend_bounds-none points (filter-finite r s.points (hs.0))) [
        | inl (e, empty) ↦ elim (y_bounds-none r ss hr (hs.1)) [
          | inl (f, rest) ↦ inl (rw (read, e) f, (empty, rest))
          | inr (c, f, cover) ↦ inr (c, rw (read, e) f, (cover.0, (rw empty tt, cover.1)))
        ]
        | inr (b, e, finite, around) ↦
            let (c, f, wider, cover) = y_bounds-some r b ss hr (hs.1) finite in
            inr (
              c,
              rw (read, e) f,
              (
                cover.0,
                (
                  All-map_pred (IsBetween b) (IsBetween c) points (λ p. inherit_point c b p wider)
                      around,
                  cover.1,
                ),
              ),
            )
      ]

  axis_range_cases :
      (start end : W)
      → (axis_range start end ≡ err invalid_range)
        ⊎ (axis_range start end ≡ ok (record { start = start; end = end }))
  unfolding axis_range
  axis_range_cases start end = ground arith

  below : (a b : W) → d.is_finite a ≡ true → d.flt (if d.flt b a then b else m.next_down a) a ≡ true
  below a b h = ground (arith, laws.next_down-flt a h)

  above : (a b : W) → d.is_finite a ≡ true → d.flt a (if d.flt a b then b else m.next_up a) ≡ true
  above a b h = ground (arith, laws.next_up-flt a h)

  holds :
      (b : W × W) (start end : W) (ps : List (DataPoint W))
      → d.flt start b.0 ≡ true
      → d.flt b.1 end ≡ true
      → All (IsBetween b) ps
      → Holds (record { start = start; end = end }) ps
  holds b start end ps low high =
      All-map_pred (IsBetween b) (λ p. (d.flt start p.y ≡ true) × (d.flt p.y end ≡ true)) ps
        (λ p k.
          (laws.flt-fle_trans start b.0 p.y low (k.0), laws.fle-flt_trans p.y b.1 end (k.1) high))

  module _ (y_range_padding_fraction min_constant_y_padding : W) where
    padded-IsFitting :
        (r : AxisRange W) (ss : List (Series W)) (b : W × W)
        → Covers r ss b
        → IsFitting r ss (padded y_range_padding_fraction min_constant_y_padding (some b))
    unfolding padded_range
    padded-IsFitting r ss b h =
        let padding =
          if d.feq b.0 b.1
          then m.fmax (m.mul (d.abs b.0) y_range_padding_fraction) min_constant_y_padding
          else m.mul (d.sub b.1 b.0) y_range_padding_fraction in
        let low = d.sub b.0 padding in
        let high = m.add b.1 padding in
        let start = if d.flt low b.0 then low else m.next_down b.0 in
        let end = if d.flt b.1 high then high else m.next_up b.1 in
        elim (axis_range_cases start end) [
          | inl e ↦ rw e refl
          | inr e ↦ rw e (
              All-map_pred (λ s. All (IsBetween b) (inside r s))
                (λ s. Holds (record { start = start; end = end }) (inside r s)) ss
                (λ s.
                  holds b start end (inside r s) (below b.0 low (h.0.0)) (above b.1 high (h.0.1)))
                h.1)
        ]

    -- For ordered series and a proper x range, `visible_y_range` does not panic. Where it gives no
    -- range, no point lies in the closed x range; where it gives one, its ends lie strictly below and
    -- above the y of every such point; and the only error is `InvalidRange`.
    pub visible_y_range-IsFitting :
        (ss : List (Series W)) (r : AxisRange W)
        → IsRange r
        → All (λ (s : Series W). IsOrdered s.points) ss
        → (result : Result ChartError (Option (AxisRange W))) × (visible_y_range
              y_range_padding_fraction min_constant_y_padding ss r
            ≡ some result)
          × IsFitting r ss result
    unfolding visible_y_range
    visible_y_range-IsFitting ss r hr hs = elim (y_bounds-none r ss hr hs) [
      | inl (e, empty) ↦ (ok none, rw e refl, empty)
      | inr (b, e, cover) ↦ (
        padded y_range_padding_fraction min_constant_y_padding (some b),
        rw e refl,
        padded-IsFitting r ss b cover,
      )
    ]
