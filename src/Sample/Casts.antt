-- ===== src/Sample/Casts.antt =====
-- The casts between integers and the whole numbers, whose laws hold.
use pulseon.Base.{◌≡◌, true, none, some, ℤ, pos, ◌-ℤ◌, ◌+ℤ◌, -ℤ_parts, +ℤ_parts, arith}
use pulseon.Float.Math.{fle}
use pulseon.Sample.Whole.{Whole, whole_f64}
use pulseon.Sample.Math.{whole_math}
use pulseon.Viewer.Curves.{F64Int}
use pulseon.Viewer.View.Opened.{IsCast}

abbrev as_integer : Whole → ℤ
as_integer none = pos 0
as_integer (some a) = a

abbrev pub whole_casts : F64Int Whole
whole_casts = record { from_i64 = λ a. some a; as_i64 = as_integer; floor = λ a. a; ceil = λ a. a }

before :
    (a b : ℤ) → fle (some (pos 1)) (some (b -ℤ a)) ≡ true → fle (some a) (some (b -ℤ pos 1)) ≡ true
before a b h = ground (arith, h, -ℤ_parts b a, -ℤ_parts b (pos 1))

after : (b : ℤ) → fle (some ((b -ℤ pos 1) +ℤ pos 1)) (some b) ≡ true
after b = ground (arith, +ℤ_parts (b -ℤ pos 1) (pos 1), -ℤ_parts b (pos 1))

pub whole_casts-IsCast : IsCast Whole whole_casts
whole_casts-IsCast = record {
  unit_before = before;
  unit_after = λ b h. after b;
  unit_lost = λ b h. after b;
}
