-- ===== src/Ranking/Better.antt =====
-- "Strictly better in the objective's direction" is a strict order up to `==` on finite values.
use pulseon.Base.{◌≡◌, refl, sym, Bool, true, false, Ordering, arith, swap, Chain, ◌∙◌}
use pulseon.Float.{F64, IsIeee}
use pulseon.Model.Comparison.{ObjectiveDirection, minimize, maximize}
use pulseon.Comparison.Preference.{better}
use pulseon.Ranking.Rank.{objective_order}

-- The order of two values from the two tests.
abbrev pub verdict : Bool → Bool → Ordering
verdict true b = Ordering.lt
verdict false true = Ordering.gt
verdict false false = Ordering.eq

module _ {W : Type 0} ⦃d : F64 W⦄ (laws : IsIeee W) where
  pub better_irrefl :
      (dir : ObjectiveDirection) (a b : W) → d.feq a b ≡ true → better dir a b ≡ false
  better_irrefl minimize a b h = laws.flt_irrefl a b h
  better_irrefl maximize a b h = laws.flt_irrefl b a (sym (laws.feq_sym a b) ∙ h)

  pub better_left :
      (dir : ObjectiveDirection) (a b c : W) → d.feq a b ≡ true → better dir a c ≡ better dir b c
  better_left minimize a b c h = laws.feq-flt_left a b c h
  better_left maximize a b c h = laws.feq-flt_right a b c h

  pub better_right :
      (dir : ObjectiveDirection) (a b c : W) → d.feq a b ≡ true → better dir c a ≡ better dir c b
  better_right minimize a b c h = laws.feq-flt_right a b c h
  better_right maximize a b c h = laws.feq-flt_left a b c h

  pub better_trans :
      (dir : ObjectiveDirection) (a b c : W)
      → better dir a b ≡ true
      → better dir b c ≡ true
      → better dir a c ≡ true
  better_trans minimize a b c h k = laws.flt_trans a b c h k
  better_trans maximize a b c h k = laws.flt_trans c b a k h

  pub better_asymm :
      (dir : ObjectiveDirection) (a b : W) → better dir a b ≡ true → better dir b a ≡ false
  better_asymm minimize a b h = laws.flt_asymm a b h
  better_asymm maximize a b h = laws.flt_asymm b a h

  pub better_tie :
      (dir : ObjectiveDirection) (a b : W)
      → d.is_finite a ≡ true
      → d.is_finite b ≡ true
      → better dir a b ≡ false
      → better dir b a ≡ false
      → d.feq a b ≡ true
  better_tie minimize a b ha hb h k = laws.flt_total a b ha hb h k
  better_tie maximize a b ha hb h k = laws.flt_total a b ha hb k h

  pub objective_order_lem :
      (dir : ObjectiveDirection) (a b : W)
      → d.is_finite a ≡ true
      → d.is_finite b ≡ true
      → objective_order dir a b ≡ verdict (better dir a b) (better dir b a)
  unfolding objective_order
  objective_order_lem minimize a b ha hb = ground (
    arith,
    laws.total_cmp_finite a b ha hb,
    laws.flt_irrefl a b,
    laws.flt_irrefl b a,
    laws.feq_sym a b,
    laws.flt_total a b ha hb,
  )
  objective_order_lem maximize a b ha hb = ground (
    arith,
    laws.total_cmp_finite b a hb ha,
    laws.flt_irrefl a b,
    laws.flt_irrefl b a,
    laws.feq_sym a b,
    laws.flt_total b a hb ha,
  )

  pub objective_order-flip :
      (dir : ObjectiveDirection) (a b : W)
      → d.is_finite a ≡ true
      → d.is_finite b ≡ true
      → objective_order dir b a ≡ swap (objective_order dir a b)
  objective_order-flip dir a b ha hb =
      rw (objective_order_lem dir a b ha hb, objective_order_lem dir b a hb ha)
        (ground (arith, better_asymm dir a b))

  verdict-Chain :
      (dir : ObjectiveDirection) (a b c : W)
      → d.is_finite a ≡ true
      → d.is_finite b ≡ true
      → d.is_finite c ≡ true
      → Chain
          (verdict (better dir a b) (better dir b a))
          (verdict (better dir b c) (better dir c b))
          (verdict (better dir a c) (better dir c a))
  verdict-Chain dir a b c ha hb hc =
      go (better dir a b) (better dir b a) (better dir b c) (better dir c b) refl refl refl refl
    where
      go :
          (p q r s : Bool)
          → better dir a b ≡ p
          → better dir b a ≡ q
          → better dir b c ≡ r
          → better dir c b ≡ s
          → Chain (verdict p q) (verdict r s) (verdict (better dir a c) (better dir c a))
      go true q true s ab ba bc cb = ground (arith, better_trans dir a b c ab bc)
      go true q false true ab ba bc cb = tt
      go true q false false ab ba bc cb =
          ground (arith, better_right dir b c a (better_tie dir b c hb hc bc cb))
      go false true true s ab ba bc cb = tt
      go false true false true ab ba bc cb =
          ground (arith, better_trans dir c b a cb ba, better_asymm dir c a)
      go false true false false ab ba bc cb =
          ground
            (arith, better_left dir b c a (better_tie dir b c hb hc bc cb), better_asymm dir c a)
      go false false r s ab ba bc cb = ground (
        arith,
        better_left dir a b c (better_tie dir a b ha hb ab ba),
        better_right dir a b c (better_tie dir a b ha hb ab ba),
      )

  pub objective_order-Chain :
      (dir : ObjectiveDirection) (a b c : W)
      → d.is_finite a ≡ true
      → d.is_finite b ≡ true
      → d.is_finite c ≡ true
      → Chain (objective_order dir a b) (objective_order dir b c) (objective_order dir a c)
  objective_order-Chain dir a b c ha hb hc =
      rw
        (
          objective_order_lem dir a b ha hb,
          objective_order_lem dir b c hb hc,
          objective_order_lem dir a c ha hc,
        )
        (verdict-Chain dir a b c ha hb hc)
