-- ===== src/Float.antt =====
-- What the program does with an `f64`: the operations of IEEE 754 doubles as an interface, since
-- their arithmetic is the machine's.
pub mod Math
use pulseon.Base.{◌≡◌, Bool, true, false, Ordering, if◌then◌else◌}

pub record F64 (W : Type 0) : Type 0 where
  pub zero_f64 : W
  pub is_finite : W → Bool
  pub feq : W → W → Bool
  pub flt : W → W → Bool
  pub total_cmp : W → W → Ordering
  pub sub : W → W → W
  pub neg : W → W
  pub abs : W → W
  pub div : W → W → W

-- The documented behaviour that the theorems rely on. Only finite values are compared: `<` is a
-- strict order whose ties are `==` (so 0.0 and -0.0 tie), `total_cmp` agrees with `<` away from
-- ties, and the sign of a difference is that of the comparison.
pub record IsIeee (W : Type 0) ⦃d : F64 W⦄ : Type 0 where
  pub feq_refl : (a : W) → d.is_finite a ≡ true → d.feq a a ≡ true
  pub feq_sym : (a b : W) → d.feq a b ≡ d.feq b a
  pub feq_trans : (a b c : W) → d.feq a b ≡ true → d.feq b c ≡ true → d.feq a c ≡ true
  pub flt_irrefl : (a b : W) → d.feq a b ≡ true → d.flt a b ≡ false
  pub flt_asymm : (a b : W) → d.flt a b ≡ true → d.flt b a ≡ false
  pub flt_trans : (a b c : W) → d.flt a b ≡ true → d.flt b c ≡ true → d.flt a c ≡ true
  pub flt_total :
      (a b : W)
      → d.is_finite a ≡ true
      → d.is_finite b ≡ true
      → d.flt a b ≡ false
      → d.flt b a ≡ false
      → d.feq a b ≡ true
  pub feq-flt_left : (a b c : W) → d.feq a b ≡ true → d.flt a c ≡ d.flt b c
  pub feq-flt_right : (a b c : W) → d.feq a b ≡ true → d.flt c a ≡ d.flt c b
  pub total_cmp_finite :
      (a b : W)
      → d.is_finite a ≡ true
      → d.is_finite b ≡ true
      → d.feq a b ≡ false
      → d.total_cmp a b ≡ (if d.flt a b then Ordering.lt else Ordering.gt)
  pub zero-flt-sub :
      (a b : W)
      → d.is_finite a ≡ true
      → d.is_finite b ≡ true
      → d.flt d.zero_f64 (d.sub a b) ≡ d.flt b a
  pub sub-flt-zero :
      (a b : W)
      → d.is_finite a ≡ true
      → d.is_finite b ≡ true
      → d.flt (d.sub a b) d.zero_f64 ≡ d.flt a b
  pub zero-flt-neg : (a : W) → d.flt d.zero_f64 (d.neg a) ≡ d.flt a d.zero_f64
  pub neg-flt-zero : (a : W) → d.flt (d.neg a) d.zero_f64 ≡ d.flt d.zero_f64 a
