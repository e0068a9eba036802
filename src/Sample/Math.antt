-- ===== src/Sample/Math.antt =====
-- The laws of `IsIeeeMath` can be met: the whole numbers of `Whole`.
use pulseon.Base.{
  ℕ, suc, ◌+◌, ◌*◌, ◌≡◌, refl, ap, Bool, true, false, none, some, ℤ, pos, negsuc, ltb_ℤ, leb_ℤ,
  ◌-ℤ◌, ◌+ℤ◌, -ℤ_parts, +ℤ_parts, arith, if◌then◌else◌,
}
use pulseon.Float.Math.{F64Math, fle, IsIeeeMath}
use pulseon.Sample.Whole.{
  Whole, whole_f64, both, whole_is_finite, whole_sub, whole_abs, whole_div, zero-flt-whole_sub,
}

abbrev whole_add : Whole → Whole → Whole
whole_add (some a) (some b) = some (a +ℤ b)
whole_add _ _ = none

abbrev mul_ℤ : ℤ → ℤ → ℤ
mul_ℤ (pos a) (pos b) = pos (a * b)
mul_ℤ (pos a) (negsuc b) = pos 0 -ℤ pos (a * suc b)
mul_ℤ (negsuc a) (pos b) = pos 0 -ℤ pos (suc a * b)
mul_ℤ (negsuc a) (negsuc b) = pos (suc a * suc b)

abbrev whole_mul : Whole → Whole → Whole
whole_mul (some a) (some b) = some (mul_ℤ a b)
whole_mul _ _ = none

abbrev whole_is_nan : Whole → Bool
whole_is_nan none = true
whole_is_nan (some a) = false

-- `f64::min` and `max` take the number where one side is NaN.
abbrev whole_min : Whole → Whole → Whole
whole_min none b = b
whole_min (some a) none = some a
whole_min (some a) (some b) = if leb_ℤ a b then some a else some b

abbrev whole_max : Whole → Whole → Whole
whole_max none b = b
whole_max (some a) none = some a
whole_max (some a) (some b) = if leb_ℤ a b then some b else some a

abbrev whole_negative : Whole → Bool
whole_negative none = false
whole_negative (some a) = ltb_ℤ a (pos 0)

-- The even numbers stand for the natural numbers, the odd ones from 3 on for the others.
abbrev whole_bits : Whole → ℕ
whole_bits none = 1
whole_bits (some (pos a)) = 2 * a
whole_bits (some (negsuc a)) = 2 * a + 3

instance abbrev pub whole_math : F64Math Whole
whole_math = record {
  one_f64 = some (pos 1);
  is_nan = whole_is_nan;
  add = whole_add;
  mul = whole_mul;
  fmin = whole_min;
  fmax = whole_max;
  next_up = λ a. whole_add a (some (pos 1));
  next_down = λ a. whole_sub a (some (pos 1));
  hypot = λ a b. whole_add (whole_abs a) (whole_abs b);
  is_sign_negative = whole_negative;
  to_bits = whole_bits;
}

fle-whole_sub :
    (a b c e : Whole)
    → whole_is_finite a ≡ true
    → whole_is_finite b ≡ true
    → whole_is_finite c ≡ true
    → whole_is_finite e ≡ true
    → fle a b ≡ true
    → fle c e ≡ true
    → fle (whole_sub a e) (whole_sub b c) ≡ true
fle-whole_sub (some a) (some b) (some c) (some e) fa fb fc fe h k =
    ground (arith, -ℤ_parts a e, -ℤ_parts b c)
fle-whole_sub none b c e fa fb fc fe h k = cc
fle-whole_sub (some a) none c e fa fb fc fe h k = cc
fle-whole_sub (some a) (some b) none e fa fb fc fe h k = cc
fle-whole_sub (some a) (some b) (some c) none fa fb fc fe h k = cc

fle-whole_add :
    (a b c : Whole)
    → whole_is_finite a ≡ true
    → whole_is_finite b ≡ true
    → whole_is_finite c ≡ true
    → fle a b ≡ true
    → fle (whole_add a c) (whole_add b c) ≡ true
fle-whole_add (some a) (some b) (some c) fa fb fc h = ground (arith, +ℤ_parts a c, +ℤ_parts b c)
fle-whole_add none b c fa fb fc h = cc
fle-whole_add (some a) none c fa fb fc h = cc
fle-whole_add (some a) (some b) none fa fb fc h = cc

flt-whole_sub_swap :
    (a b c : Whole)
    → whole_is_finite a ≡ true
    → whole_is_finite b ≡ true
    → whole_is_finite c ≡ true
    → both ltb_ℤ a (whole_sub b c) ≡ true
    → fle c (whole_sub b a) ≡ true
flt-whole_sub_swap (some a) (some b) (some c) fa fb fc h =
    ground (arith, -ℤ_parts b c, -ℤ_parts b a)
flt-whole_sub_swap none b c fa fb fc h = cc
flt-whole_sub_swap (some a) none c fa fb fc h = cc
flt-whole_sub_swap (some a) (some b) none fa fb fc h = cc

is_nan-whole_div :
    (a b : Whole)
    → whole_is_nan a ≡ false
    → whole_is_finite b ≡ true
    → both ltb_ℤ (some (pos 0)) b ≡ true
    → whole_is_nan (whole_div a b) ≡ false
is_nan-whole_div (some a) (some (pos b)) h k l = refl
is_nan-whole_div (some a) (some (negsuc b)) h k l = ground (arith, l)
is_nan-whole_div (some a) none h k l = cc
is_nan-whole_div none b h k l = cc

abbrev down : Whole → Whole
down a = whole_sub a (some (pos 1))

abbrev up : Whole → Whole
up a = whole_add a (some (pos 1))

down-flt : (a : Whole) → whole_is_finite a ≡ true → both ltb_ℤ (down a) a ≡ true
down-flt (some a) h = ground (arith, -ℤ_parts a (pos 1))
down-flt none h = cc

fle-down :
    (a b : Whole)
    → whole_is_finite a ≡ true
    → whole_is_finite b ≡ true
    → both ltb_ℤ b a ≡ true
    → fle b (down a) ≡ true
fle-down (some a) (some b) h k l = ground (arith, -ℤ_parts a (pos 1))
fle-down none b h k l = cc
fle-down (some a) none h k l = cc

up-flt : (a : Whole) → whole_is_finite a ≡ true → both ltb_ℤ a (up a) ≡ true
up-flt (some a) h = ground (arith, +ℤ_parts a (pos 1))
up-flt none h = cc

fle-up :
    (a b : Whole)
    → whole_is_finite a ≡ true
    → whole_is_finite b ≡ true
    → both ltb_ℤ a b ≡ true
    → fle (up a) b ≡ true
fle-up (some a) (some b) h k l = ground (arith, +ℤ_parts a (pos 1))
fle-up none b h k l = cc
fle-up (some a) none h k l = cc

whole_bits_inj : (a b : Whole) → whole_bits a ≡ whole_bits b → a ≡ b
whole_bits_inj none none h = refl
whole_bits_inj none (some (pos b)) h = absurd (omega (arith, h))
whole_bits_inj none (some (negsuc b)) h = absurd (omega (arith, h))
whole_bits_inj (some (pos a)) none h = absurd (omega (arith, h))
whole_bits_inj (some (negsuc a)) none h = absurd (omega (arith, h))
whole_bits_inj (some (pos a)) (some (pos b)) h = ap (λ n. some (pos n)) (omega (arith, h))
whole_bits_inj (some (pos a)) (some (negsuc b)) h = absurd (omega (arith, h))
whole_bits_inj (some (negsuc a)) (some (pos b)) h = absurd (omega (arith, h))
whole_bits_inj (some (negsuc a)) (some (negsuc b)) h = ap (λ n. some (negsuc n)) (omega (arith, h))

zero-flt-sub_any :
    (a b : Whole)
    → whole_is_finite b ≡ true
    → both ltb_ℤ (some (pos 0)) (whole_sub a b) ≡ both ltb_ℤ b a
zero-flt-sub_any none none h = refl
zero-flt-sub_any none (some b) h = refl
zero-flt-sub_any (some a) b h = zero-flt-whole_sub (some a) b refl h

fle-whole_sub_self :
    (a c : Whole)
    → whole_is_finite a ≡ true
    → whole_is_finite c ≡ true
    → fle (some (pos 0)) c ≡ true
    → fle (whole_sub a c) a ≡ true
fle-whole_sub_self (some a) (some c) h k l = ground (arith, -ℤ_parts a c)
fle-whole_sub_self none c h k l = cc
fle-whole_sub_self (some a) none h k l = cc

pub Whole-IsIeeeMath : IsIeeeMath Whole
Whole-IsIeeeMath = record {
  fle-total = ground arith;
  fle-flt = ground arith;
  fle_trans = ground arith;
  flt-fle_trans = ground arith;
  fle-flt_trans = ground arith;
  is_nan-finite = ground arith;
  finite_between = ground arith;
  one-is_finite = refl;
  zero-is_finite = refl;
  zero-flt-one = refl;
  zero-flt-sub = zero-flt-sub_any;
  fle-sub = fle-whole_sub;
  fle-add = fle-whole_add;
  fle-sub_self = fle-whole_sub_self;
  fle_nan = ground arith;
  flt-sub_swap = flt-whole_sub_swap;
  is_nan-sub = ground arith;
  is_nan-add = ground arith;
  is_nan-div = is_nan-whole_div;
  is_nan-mul = ground arith;
  next_down-flt = down-flt;
  fle-next_down = fle-down;
  next_up-flt = up-flt;
  fle-next_up = fle-up;
  fmin-cases = ground arith;
  fmax-cases = ground arith;
  to_bits_inj = whole_bits_inj;
}
