-- ===== src/Chart/Series/Points.antt =====
-- The points that `Series::new` accepts, and the ones it finds in a range.
use pulseon.Base.{
  ℕ, suc, ◌≡◌, ◌↔◌, ◌≤◌, inl, inr, refl, ap, sym, Bool, true, false, ◌&&◌, Option, none, some, ok,
  List, [], ◌∷◌, length, take, drop, filter, All, All-map_pred, arith, Bool-cases, leb, ◌∙◌,
}
use pulseon.Float.{F64}
use pulseon.Float.Math.{F64Math, fle, IsIeeeMath}
use pulseon.Chart.Range.{DataPoint, AxisRange, IsRange}
use pulseon.Chart.Series.{
  SeriesId, is_before, check_points, series, first_at, after_at, range_points,
}
use pulseon.Chart.Brush.Order.{not_fle-flt, flt-fle}

module _ {W : Type 0} ⦃d : F64 W⦄ where
  abbrev pub IsFinitePoint : DataPoint W → Type 0
  IsFinitePoint p = (d.is_finite p.x ≡ true) × (d.is_finite p.y ≡ true)

  -- Finite points, none before an earlier one.
  abbrev pub IsOrdered : List (DataPoint W) → Type 0
  IsOrdered [] = Unit
  IsOrdered (p ∷ ps) = IsFinitePoint p × (All (λ q. fle p.x q.x ≡ true) ps) × IsOrdered ps

  abbrev pub is_inside : AxisRange W → DataPoint W → Bool
  is_inside r p = fle r.start p.x && fle p.x r.end

  -- The point that the loop saw last, if any, is finite and at or before all of them.
  abbrev Follows : Option (DataPoint W) → List (DataPoint W) → Type 0
  Follows none ps = Unit
  Follows (some q) ps = All (λ p. fle q.x p.x ≡ true) ps

  abbrev IsPrevious : Option (DataPoint W) → Type 0
  IsPrevious none = Unit
  IsPrevious (some q) = IsFinitePoint q

  abbrev Accepts : Option (DataPoint W) → List (DataPoint W) → Type 0
  Accepts previous ps = IsOrdered ps × Follows previous ps

module _ {W : Type 0} ⦃d : F64 W⦄ ⦃m : F64Math W⦄ (laws : IsIeeeMath W) where
  follow :
      (previous : Option (DataPoint W)) (p : DataPoint W) (ps : List (DataPoint W))
      → IsPrevious previous
      → IsFinitePoint p
      → is_before p previous ≡ false
      → All (λ q. fle p.x q.x ≡ true) ps
      → Follows previous (p ∷ ps)
  follow none p ps hq hp h hs = tt
  follow (some q) p ps hq hp h hs =
      let le =
        laws.fle-total p.x q.x (laws.is_nan-finite p.x hp.0) (laws.is_nan-finite q.x hq.0) h in
      (
        le,
        All-map_pred (λ r. fle p.x r.x ≡ true) (λ r. fle q.x r.x ≡ true) ps
            (λ r. laws.fle_trans q.x p.x r.x le) hs,
      )

  check_points-ok :
      (previous : Option (DataPoint W)) (i : ℕ) (ps : List (DataPoint W))
      → IsPrevious previous
      → check_points previous i ps ≡ ok tt
      → Accepts previous ps
  unfolding check_points
  check_points-ok none i [] hq h = (tt, tt)
  check_points-ok (some q) i [] hq h = (tt, tt)
  check_points-ok previous i (p ∷ ps) hq h =
      let fx : d.is_finite p.x ≡ true = ground (arith, h) in
      let fy : d.is_finite p.y ≡ true = ground (arith, h) in
      let next : is_before p previous ≡ false = ground (arith, h) in
      let rest : check_points (some p) (suc i) ps ≡ ok tt = ground (arith, h) in
      let accepted = check_points-ok (some p) (suc i) ps (fx, fy) rest in
      (((fx, fy), accepted.1, accepted.0), follow previous p ps hq (fx, fy) next accepted.1)

  is_before-false :
      (previous : Option (DataPoint W)) (p : DataPoint W) (ps : List (DataPoint W))
      → Follows previous (p ∷ ps)
      → is_before p previous ≡ false
  is_before-false none p ps h = refl
  is_before-false (some q) p ps h = laws.fle-flt q.x p.x h.0

  check_points-Accepts :
      (previous : Option (DataPoint W)) (i : ℕ) (ps : List (DataPoint W))
      → Accepts previous ps
      → check_points previous i ps ≡ ok tt
  unfolding check_points
  check_points-Accepts previous i [] h = refl
  check_points-Accepts previous i (p ∷ ps) h =
      rw (h.0.0.0, h.0.0.1, is_before-false previous p ps h.1)
        (check_points-Accepts (some p) (suc i) ps (h.0.2, h.0.1))

  -- `Series::new` succeeds, with the given identifier and points, exactly when every point is
  -- finite and none comes before an earlier one.
  pub series_lem :
      (id : SeriesId) (points : List (DataPoint W))
      → (series id points ≡ ok (record { id = id; points = points })) ↔ IsOrdered points
  unfolding series
  series_lem id points = (
    λ h. (check_points-ok none 0 points tt (ground (arith, h))).0,
    λ h. rw (check_points-Accepts none 0 points (h, tt)) refl,
  )

  none_first :
      (r : AxisRange W) (ps : List (DataPoint W))
      → All (λ p. d.flt p.x r.start ≡ false) ps
      → first_at r ps ≡ 0
  none_first r [] h = refl
  none_first r (p ∷ ps) h = rw (h.0) refl

  none_inside :
      (r : AxisRange W) (ps : List (DataPoint W))
      → All (λ p. fle p.x r.end ≡ false) ps
      → filter (is_inside r) ps ≡ []
  none_inside r [] h = refl
  none_inside r (p ∷ ps) h = ground (arith, h.0, none_inside r ps h.1)

  after_at-length : (r : AxisRange W) (ps : List (DataPoint W)) → after_at r ps ≤ length ps
  after_at-length r [] = omega arith
  after_at-length r (p ∷ ps) = ground (arith, after_at-length r ps)

  before_end :
      (r : AxisRange W) (p : DataPoint W)
      → IsRange r
      → d.flt p.x r.start ≡ true
      → fle p.x r.end ≡ true
  before_end r p h lt = laws.fle_trans p.x r.start r.end (flt-fle laws p.x r.start lt) (
      flt-fle laws r.start r.end (
        not_fle-flt laws r.end r.start (laws.is_nan-finite r.end h.1)
          (laws.is_nan-finite r.start h.0) h.2))

  first_at-after_at :
      (r : AxisRange W) (ps : List (DataPoint W)) → IsRange r → first_at r ps ≤ after_at r ps
  first_at-after_at r [] h = omega arith
  first_at-after_at r (p ∷ ps) h = ground (arith, first_at-after_at r ps h, before_end r p h)

  starts_at :
      (r : AxisRange W) (p : DataPoint W) (ps : List (DataPoint W))
      → IsRange r
      → IsOrdered (p ∷ ps)
      → d.flt p.x r.start ≡ false
      → (fle r.start p.x ≡ true) × (first_at r ps ≡ 0)
  starts_at r p ps h ho late =
      let le =
        laws.fle-total p.x r.start (laws.is_nan-finite p.x ho.0.0) (laws.is_nan-finite r.start h.0)
          late in
      (
        le,
        none_first r ps (
            All-map_pred (λ q. fle p.x q.x ≡ true) (λ q. d.flt q.x r.start ≡ false) ps
              (λ q k. laws.fle-flt r.start q.x (laws.fle_trans r.start p.x q.x le k)) ho.1),
      )

  beyond :
      (r : AxisRange W) (p : DataPoint W) (ps : List (DataPoint W))
      → IsRange r
      → IsOrdered (p ∷ ps)
      → fle p.x r.end ≡ false
      → filter (is_inside r) ps ≡ []
  beyond r p ps h ho past =
      let lt =
        not_fle-flt laws p.x r.end (laws.is_nan-finite p.x ho.0.0) (laws.is_nan-finite r.end h.1)
          past in
      none_inside r ps (
        All-map_pred (λ q. fle p.x q.x ≡ true) (λ q. fle q.x r.end ≡ false) ps
          (λ q k. ground (arith, laws.fle-flt q.x r.end, laws.flt-fle_trans r.end p.x q.x lt k))
          ho.1)

  cut_points :
      (r : AxisRange W) (ps : List (DataPoint W))
      → IsRange r
      → IsOrdered ps
      → drop (first_at r ps) (take (after_at r ps) ps) ≡ filter (is_inside r) ps
  cut_points r [] h ho = refl
  cut_points r (p ∷ ps) h ho =
      let rest = cut_points r ps h (ho.2) in
      elim (Bool-cases (d.flt p.x r.start)) [
        | inl early ↦
            let out : fle r.start p.x ≡ false = ground (arith, laws.fle-flt r.start p.x, early) in
            rw (early, before_end r p h early, out) rest
        | inr late ↦
            let start = starts_at r p ps h ho late in
            elim (Bool-cases (fle p.x r.end)) [
              | inl within ↦
                  rw (late, within, start.0)
                    (ap (λ qs. p ∷ qs)
                      (sym (ap (λ n. drop n (take (after_at r ps) ps)) start.1) ∙ rest))
              | inr past ↦ rw (late, past, start.0) (sym (beyond r p ps h ho past))
            ]
      ]

  -- In a series' ordered points, the slice that the y range and the hit test read never panics and
  -- is exactly the points of the closed range, in order.
  pub range_points-filter :
      (r : AxisRange W) (ps : List (DataPoint W))
      → IsRange r
      → IsOrdered ps
      → range_points r ps ≡ some (filter (is_inside r) ps)
  unfolding range_points
  range_points-filter r ps h ho =
      let fits : (leb (first_at r ps) (after_at r ps) && leb (after_at r ps) (length ps)) ≡ true =
        ground (arith, first_at-after_at r ps h, after_at-length r ps) in
      rw fits (ap some (cut_points r ps h ho))
