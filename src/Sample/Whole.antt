-- ===== src/Sample/Whole.antt =====
-- The laws of `IsIeee` can be met: whole numbers, with `none` for NaN.
use pulseon.Base.{
  ◌≡◌, refl, Bool, true, false, Option, none, some, Ordering, ℤ, pos, eqb_ℤ, ltb_ℤ, cmp_ℤ, ◌-ℤ◌,
  arith, -ℤ_parts, if◌then◌else◌,
}
use pulseon.Float.{F64, IsIeee}

abbrev pub Whole : Type 0
Whole = Option ℤ

abbrev pub both : (ℤ → ℤ → Bool) → Whole → Whole → Bool
both f (some a) (some b) = f a b
both f _ _ = false

abbrev pub whole_is_finite : Whole → Bool
whole_is_finite none = false
whole_is_finite (some a) = true

-- NaN comes after every number.
abbrev pub whole_cmp : Whole → Whole → Ordering
whole_cmp none none = Ordering.eq
whole_cmp none (some b) = Ordering.gt
whole_cmp (some a) none = Ordering.lt
whole_cmp (some a) (some b) = cmp_ℤ a b

abbrev pub whole_sub : Whole → Whole → Whole
whole_sub (some a) (some b) = some (a -ℤ b)
whole_sub _ _ = none

abbrev pub whole_neg : Whole → Whole
whole_neg a = whole_sub (some (pos 0)) a

abbrev pub whole_abs : Whole → Whole
whole_abs a = if both ltb_ℤ a (some (pos 0)) then whole_neg a else a

-- Division is only asked for by one; any other quotient is left out of the samples.
abbrev pub whole_div : Whole → Whole → Whole
whole_div a (some (pos b)) = a
whole_div a _ = none

instance abbrev pub whole_f64 : F64 Whole
whole_f64 = record {
  zero_f64 = some (pos 0);
  is_finite = whole_is_finite;
  feq = both eqb_ℤ;
  flt = both ltb_ℤ;
  total_cmp = whole_cmp;
  sub = whole_sub;
  neg = whole_neg;
  abs = whole_abs;
  div = whole_div;
}

pub zero-flt-whole_sub :
    (a b : Whole)
    → whole_is_finite a ≡ true
    → whole_is_finite b ≡ true
    → both ltb_ℤ (some (pos 0)) (whole_sub a b) ≡ both ltb_ℤ b a
zero-flt-whole_sub (some a) (some b) h k = ground (arith, -ℤ_parts a b)
zero-flt-whole_sub none b h k = cc
zero-flt-whole_sub (some a) none h k = cc

whole_sub-flt-zero :
    (a b : Whole)
    → whole_is_finite a ≡ true
    → whole_is_finite b ≡ true
    → both ltb_ℤ (whole_sub a b) (some (pos 0)) ≡ both ltb_ℤ a b
whole_sub-flt-zero (some a) (some b) h k = ground (arith, -ℤ_parts a b)
whole_sub-flt-zero none b h k = cc
whole_sub-flt-zero (some a) none h k = cc

zero-flt-whole_neg :
    (a : Whole) → both ltb_ℤ (some (pos 0)) (whole_neg a) ≡ both ltb_ℤ a (some (pos 0))
zero-flt-whole_neg none = refl
zero-flt-whole_neg (some a) = zero-flt-whole_sub (some (pos 0)) (some a) refl refl

whole_neg-flt-zero :
    (a : Whole) → both ltb_ℤ (whole_neg a) (some (pos 0)) ≡ both ltb_ℤ (some (pos 0)) a
whole_neg-flt-zero none = refl
whole_neg-flt-zero (some a) = whole_sub-flt-zero (some (pos 0)) (some a) refl refl

pub Whole-IsIeee : IsIeee Whole
Whole-IsIeee = record {
  feq_refl = ground arith;
  feq_sym = ground arith;
  feq_trans = ground arith;
  flt_irrefl = ground arith;
  flt_asymm = ground arith;
  flt_trans = ground arith;
  flt_total = ground arith;
  feq-flt_left = ground arith;
  feq-flt_right = ground arith;
  total_cmp_finite = ground arith;
  zero-flt-sub = zero-flt-whole_sub;
  sub-flt-zero = whole_sub-flt-zero;
  zero-flt-neg = zero-flt-whole_neg;
  neg-flt-zero = whole_neg-flt-zero;
}
