-- ===== src/Comparison/Preference.antt =====
-- When a comparison advises for the candidate, for the reference or for neither.
use pulseon.Base.{◌≡◌, ◌↔◌, Bool, true, false, Option, none, some, arith, if◌then◌else◌}
use pulseon.Float.{F64, IsIeee}
use pulseon.Model.Comparison.{
  ObjectiveDirection, minimize, maximize, normalize, ObjectiveMetric, complete, filter_finite,
  ObjectiveEvidence, usable_value, ComparisonPreference, improved, regressed, equal,
  from_normalized_improvement,
}
use pulseon.Comparison.Evaluate.{numeric, compare_evidence}

module _ {W : Type 0} ⦃d : F64 W⦄ where
  -- `a` is strictly better than `b` in the objective's direction.
  abbrev pub better : ObjectiveDirection → W → W → Bool
  better minimize a b = d.flt a b
  better maximize a b = d.flt b a

  finite_of_filter : (o : Option W) (v : W) → filter_finite o ≡ some v → d.is_finite v ≡ true
  finite_of_filter none v h = cc
  finite_of_filter (some u) v h = ground arith

  pub usable_finite :
      (e : ObjectiveEvidence W) (v : W) → usable_value e ≡ some v → d.is_finite v ≡ true
  unfolding usable_value
  usable_finite e v h = finite_of_filter e.last_value_f64 v h

module _ {W : Type 0} ⦃d : F64 W⦄ (laws : IsIeee W) where
  -- The sign of the normalised delta is the verdict of the direction on the two values.
  pub outcome_lem :
      (dir : ObjectiveDirection) (x y : W)
      → d.is_finite x ≡ true
      → d.is_finite y ≡ true
      → from_normalized_improvement (normalize dir (d.sub x y))
        ≡ (if better dir x y then improved else if better dir y x then regressed else equal)
  unfolding normalize from_normalized_improvement
  outcome_lem minimize x y hx hy = ground (
    arith,
    laws.zero-flt-neg (d.sub x y),
    laws.neg-flt-zero (d.sub x y),
    laws.zero-flt-sub x y hx hy,
    laws.sub-flt-zero x y hx hy,
  )
  outcome_lem maximize x y hx hy =
      ground (arith, laws.zero-flt-sub x y hx hy, laws.sub-flt-zero x y hx hy)

  -- Never both.
  better_asymm :
      (dir : ObjectiveDirection) (x y : W) → better dir x y ≡ true → better dir y x ≡ false
  better_asymm minimize x y h = laws.flt_asymm x y h
  better_asymm maximize x y h = laws.flt_asymm y x h

  -- The advice is for the candidate exactly when both pieces of evidence are complete and the
  -- candidate's value is strictly better than the reference's in the objective's direction, it is
  -- for the reference exactly when both are complete and the reference's value is strictly better,
  -- and there is no preference exactly when both are complete and neither value is better.
  pub preference_iff :
      (o : ObjectiveMetric) (c r : ObjectiveEvidence W) (x y : W)
      → usable_value c ≡ some x
      → usable_value r ≡ some y
      → ((compare_evidence o c r).preference ≡ ComparisonPreference.candidate ↔ (
          (c.completeness ≡ complete)
          × (r.completeness ≡ complete)
          × (better o.direction x y ≡ true)))
        × ((compare_evidence o c r).preference ≡ ComparisonPreference.reference ↔ (
            (c.completeness ≡ complete)
            × (r.completeness ≡ complete)
            × (better o.direction y x ≡ true)))
        × ((compare_evidence o c r).preference ≡ ComparisonPreference.no_preference ↔ (
            (c.completeness ≡ complete)
            × (r.completeness ≡ complete)
            × (better o.direction x y ≡ false)
            × (better o.direction y x ≡ false)))
  unfolding compare_evidence numeric
  preference_iff o c r x y hx hy =
      rw (hx, hy)
        (ground (
          arith,
          outcome_lem o.direction x y (usable_finite c x hx) (usable_finite r y hy),
          better_asymm o.direction x y,
        ))
