-- ===== src/Float/Math.antt =====
-- The further operations on an `f64` that the chart uses, and what the theorems rely on of them.
use pulseon.Base.{ℕ, ◌≡◌, ◌⊎◌, Bool, true, false, Option, none, some, ◌||◌, if◌then◌else◌}
use pulseon.Float.{F64}

pub record F64Math (W : Type 0) : Type 0 where
  pub one_f64 : W
  pub is_nan : W → Bool
  pub add : W → W → W
  pub mul : W → W → W
  pub fmin : W → W → W
  pub fmax : W → W → W
  pub next_up : W → W
  pub next_down : W → W
  pub hypot : W → W → W
  pub is_sign_negative : W → Bool
  pub to_bits : W → ℕ

module _ {W : Type 0} ⦃d : F64 W⦄ where
  -- `<=`.
  abbrev pub fle : W → W → Bool
  fle a b = d.flt a b || d.feq a b

  -- `f64::clamp`, which panics (`none`) unless `lo <= hi`; a NaN is passed on.
  unfoldable pub clamp_f64 : W → W → W → Option W
  clamp_f64 x lo hi =
      if fle lo hi then some (if d.flt x lo then lo else if d.flt hi x then hi else x) else none

-- The documented behaviour of IEEE 754 doubles: the comparisons are ordered away from NaN, a
-- result is NaN only where the standard says so, and rounding is monotone.
pub record IsIeeeMath (W : Type 0) ⦃d : F64 W⦄ ⦃m : F64Math W⦄ : Type 0 where
  pub fle-total :
      (a b : W) → m.is_nan a ≡ false → m.is_nan b ≡ false → d.flt a b ≡ false → fle b a ≡ true
  pub fle-flt : (a b : W) → fle a b ≡ true → d.flt b a ≡ false
  pub fle_trans : (a b c : W) → fle a b ≡ true → fle b c ≡ true → fle a c ≡ true
  pub flt-fle_trans : (a b c : W) → d.flt a b ≡ true → fle b c ≡ true → d.flt a c ≡ true
  pub fle-flt_trans : (a b c : W) → fle a b ≡ true → d.flt b c ≡ true → d.flt a c ≡ true
  pub is_nan-finite : (a : W) → d.is_finite a ≡ true → m.is_nan a ≡ false
  pub finite_between :
      (a b c : W)
      → d.is_finite a ≡ true
      → d.is_finite c ≡ true
      → fle a b ≡ true
      → fle b c ≡ true
      → d.is_finite b ≡ true
  pub one-is_finite : d.is_finite m.one_f64 ≡ true
  pub zero-is_finite : d.is_finite d.zero_f64 ≡ true
  pub zero-flt-one : d.flt d.zero_f64 m.one_f64 ≡ true
  -- A difference is positive exactly when the two are so ordered.
  pub zero-flt-sub : (a b : W) → d.is_finite b ≡ true → d.flt d.zero_f64 (d.sub a b) ≡ d.flt b a
  -- Rounding is monotone.
  pub fle-sub :
      (a b c e : W)
      → d.is_finite a ≡ true
      → d.is_finite b ≡ true
      → d.is_finite c ≡ true
      → d.is_finite e ≡ true
      → fle a b ≡ true
      → fle c e ≡ true
      → fle (d.sub a e) (d.sub b c) ≡ true
  pub fle-add :
      (a b c : W)
      → d.is_finite a ≡ true
      → d.is_finite b ≡ true
      → d.is_finite c ≡ true
      → fle a b ≡ true
      → fle (m.add a c) (m.add b c) ≡ true
  pub fle-sub_self :
      (a c : W)
      → d.is_finite a ≡ true
      → d.is_finite c ≡ true
      → fle d.zero_f64 c ≡ true
      → fle (d.sub a c) a ≡ true
  pub fle_nan : (a b : W) → fle a b ≡ true → (m.is_nan a ≡ false) × (m.is_nan b ≡ false)
  -- A number below a rounded difference is at most the exact one.
  pub flt-sub_swap :
      (a b c : W)
      → d.is_finite a ≡ true
      → d.is_finite b ≡ true
      → d.is_finite c ≡ true
      → d.flt a (d.sub b c) ≡ true
      → fle c (d.sub b a) ≡ true
  pub is_nan-sub :
      (a b : W) → d.is_finite a ≡ true → m.is_nan b ≡ false → m.is_nan (d.sub a b) ≡ false
  pub is_nan-add :
      (a b : W) → d.is_finite a ≡ true → m.is_nan b ≡ false → m.is_nan (m.add a b) ≡ false
  pub is_nan-div :
      (a b : W)
      → m.is_nan a ≡ false
      → d.is_finite b ≡ true
      → d.flt d.zero_f64 b ≡ true
      → m.is_nan (d.div a b) ≡ false
  pub is_nan-mul :
      (a b : W)
      → m.is_nan a ≡ false
      → d.is_finite b ≡ true
      → d.flt d.zero_f64 b ≡ true
      → m.is_nan (m.mul a b) ≡ false
  pub next_down-flt : (a : W) → d.is_finite a ≡ true → d.flt (m.next_down a) a ≡ true
  pub fle-next_down :
      (a b : W)
      → d.is_finite a ≡ true
      → d.is_finite b ≡ true
      → d.flt b a ≡ true
      → fle b (m.next_down a) ≡ true
  pub next_up-flt : (a : W) → d.is_finite a ≡ true → d.flt a (m.next_up a) ≡ true
  pub fle-next_up :
      (a b : W)
      → d.is_finite a ≡ true
      → d.is_finite b ≡ true
      → d.flt a b ≡ true
      → fle (m.next_up a) b ≡ true
  -- One of the two, and not above either.
  pub fmin-cases :
      (a b : W)
      → m.is_nan a ≡ false
      → m.is_nan b ≡ false
      → ((m.fmin a b ≡ a) × (fle a b ≡ true)) ⊎ ((m.fmin a b ≡ b) × (fle b a ≡ true))
  pub fmax-cases :
      (a b : W)
      → m.is_nan a ≡ false
      → m.is_nan b ≡ false
      → ((m.fmax a b ≡ a) × (fle b a ≡ true)) ⊎ ((m.fmax a b ≡ b) × (fle a b ≡ true))
  -- A bit pattern is the number.
  pub to_bits_inj : (a b : W) → m.to_bits a ≡ m.to_bits b → a ≡ b
