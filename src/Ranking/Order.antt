-- ===== src/Ranking/Order.antt =====
-- `compare_candidates` is a total order up to equal keys, so that the sort is determined by it.
use mathlib.Core.Path.{subst}
use pulseon.Base.{
  lt_Chain, gt_Chain, Chain-gt, Chain-lt, ◌≡◌, ◌≢◌, refl, true, false, Option, none, some, Ordering,
  arith, swap, Chain, then_with, then_with-Chain, then_with-swap, IsOrder, compare-IsOrder,
  cmp_ℤ-IsOrder, text_cmp-IsOrder,
}
use pulseon.Float.{F64, IsIeee}
use pulseon.Model.Comparison.{ObjectiveDirection, ObjectiveEvidence}
use pulseon.Comparison.Preference.{better, usable_finite}
use pulseon.Ranking.Rank.{
  RankingCandidate, eligible_value, objective_order, compare_eligible, compare_candidates,
}
use pulseon.Ranking.Better.{
  objective_order-flip, objective_order-Chain, objective_order_lem, better_asymm,
}

module _ {W : Type 0} ⦃d : F64 W⦄ where
  pub eligible_finite :
      (e : ObjectiveEvidence W) (v : W) → eligible_value e ≡ some v → d.is_finite v ≡ true
  unfolding eligible_value
  eligible_finite e v h = ground (arith, usable_finite e v)

  -- A value that is there is finite.
  abbrev pub IsFinite : Option W → Type 0
  IsFinite none = Unit
  IsFinite (some v) = d.is_finite v ≡ true

  IsFinite-of_eq : (o : Option W) → ((v : W) → o ≡ some v → d.is_finite v ≡ true) → IsFinite o
  IsFinite-of_eq none h = tt
  IsFinite-of_eq (some v) h = h v refl

  pub eligible-IsFinite : (e : ObjectiveEvidence W) → IsFinite (eligible_value e)
  eligible-IsFinite e = IsFinite-of_eq (eligible_value e) (eligible_finite e)

module _ {W : Type 0} ⦃d : F64 W⦄ (laws : IsIeee W) where
  compare_eligible-flip :
      (dir : ObjectiveDirection) (a b : Option W) (t o t' o' : Ordering)
      → IsFinite a
      → IsFinite b
      → t' ≡ swap t
      → o' ≡ swap o
      → compare_eligible dir b a t' o' ≡ swap (compare_eligible dir a b t o)
  unfolding compare_eligible
  compare_eligible-flip dir (some a) (some b) t o t' o' ha hb ht ho =
      then_with-swap (objective_order dir a b) t (objective_order dir b a) t'
        (objective_order-flip laws dir a b ha hb) ht
  compare_eligible-flip dir (some a) none t o t' o' ha hb ht ho = refl
  compare_eligible-flip dir none (some b) t o t' o' ha hb ht ho = refl
  compare_eligible-flip dir none none t o t' o' ha hb ht ho = ho

  compare_eligible-Chain :
      (dir : ObjectiveDirection) (a b c : Option W) (t u v o p q : Ordering)
      → IsFinite a
      → IsFinite b
      → IsFinite c
      → Chain t u v
      → Chain o p q
      → Chain
          (compare_eligible dir a b t o)
          (compare_eligible dir b c u p)
          (compare_eligible dir a c v q)
  unfolding compare_eligible
  compare_eligible-Chain dir (some a) (some b) (some c) t u v o p q ha hb hc ht ho =
      then_with-Chain _ _ _ _ _ _ (objective_order-Chain laws dir a b c ha hb hc) ht
  compare_eligible-Chain dir (some a) (some b) none t u v o p q ha hb hc ht ho = Chain-lt _
  compare_eligible-Chain dir (some a) none (some c) t u v o p q ha hb hc ht ho = tt
  compare_eligible-Chain dir (some a) none none t u v o p q ha hb hc ht ho = lt_Chain p
  compare_eligible-Chain dir none (some b) (some c) t u v o p q ha hb hc ht ho = gt_Chain _
  compare_eligible-Chain dir none (some b) none t u v o p q ha hb hc ht ho = tt
  compare_eligible-Chain dir none none (some c) t u v o p q ha hb hc ht ho = Chain-gt o
  compare_eligible-Chain dir none none none t u v o p q ha hb hc ht ho = ho

  pub compare_candidates-IsOrder :
      (dir : ObjectiveDirection) → IsOrder (compare_candidates {W = W} dir)
  unfolding compare_candidates
  compare_candidates-IsOrder dir = record {
    flip = λ x y.
        compare_eligible-flip dir (eligible_value x.evidence) (eligible_value y.evidence) _ _ _ _
          (eligible-IsFinite x.evidence) (eligible-IsFinite y.evidence)
          (then_with-swap _ _ _ _ (cmp_ℤ-IsOrder.flip x.created_at y.created_at)
            (text_cmp-IsOrder.flip x.evidence.run_id y.evidence.run_id))
          (compare-IsOrder.flip x.ordinal y.ordinal);
    chain = λ x y z.
        compare_eligible-Chain dir (eligible_value x.evidence) (eligible_value y.evidence)
          (eligible_value z.evidence) _ _ _ _ _ _ (eligible-IsFinite x.evidence)
          (eligible-IsFinite y.evidence) (eligible-IsFinite z.evidence)
          (then_with-Chain _ _ _ _ _ _ (cmp_ℤ-IsOrder.chain x.created_at y.created_at z.created_at)
            (text_cmp-IsOrder.chain x.evidence.run_id y.evidence.run_id z.evidence.run_id))
          (compare-IsOrder.chain x.ordinal y.ordinal z.ordinal);
  }

  not_gt :
      (dir : ObjectiveDirection) (a b : W) (t : Ordering)
      → d.is_finite a ≡ true
      → d.is_finite b ≡ true
      → then_with (objective_order dir a b) t ≢ Ordering.gt
      → better dir b a ≡ false
  not_gt dir a b t ha hb h =
      ground (arith, objective_order_lem laws dir a b ha hb, better_asymm laws dir b a)

  compare_eligible-le :
      (dir : ObjectiveDirection) (a b' : Option W) (b : W) (t o : Ordering)
      → IsFinite a
      → d.is_finite b ≡ true
      → b' ≡ some b
      → compare_eligible dir a b' t o ≢ Ordering.gt
      → (v : W) × (a ≡ some v) × (better dir b v ≡ false)
  unfolding compare_eligible
  compare_eligible-le dir (some a) (some b') b t o ha hb e h =
      let same : b' ≡ b = cc e in
      (
        a,
        refl,
        not_gt dir a b t ha hb
            (subst (λ x. then_with (objective_order dir a x) t ≢ Ordering.gt) same h),
      )
  compare_eligible-le dir (some a) none b t o ha hb e h = cc
  compare_eligible-le dir none (some b') b t o ha hb e h = absurd (h refl)
  compare_eligible-le dir none none b t o ha hb e h = cc

  -- A candidate that stands before an eligible one is eligible, and not worse.
  pub before_eligible :
      (dir : ObjectiveDirection) (x y : RankingCandidate W) (b : W)
      → compare_candidates dir x y ≢ Ordering.gt
      → eligible_value y.evidence ≡ some b
      → (a : W) × (eligible_value x.evidence ≡ some a) × (better dir b a ≡ false)
  unfolding compare_candidates
  before_eligible dir x y b h e =
      compare_eligible-le dir (eligible_value x.evidence) (eligible_value y.evidence) b _ _
        (eligible-IsFinite x.evidence) (eligible_finite y.evidence b e) e h
