-- ===== src/Chart/Series.antt =====
-- `Series` of crates/pulseon-chart-core/src/lib.rs: ordered points, and those of a closed x range.
pub mod Points
use pulseon.Base.{
  ℕ, zero, suc, ◌+◌, ◌-◌, min, ◌≡◌, Bool, true, false, ◌||◌, ◌&&◌, not, Option, none, some, Result,
  ok, err, ◌>>=◌, List, [], ◌∷◌, map, length, take, drop, leb, ◌==◌, Text, if◌then◌else◌,
}
use pulseon.Float.{F64}
use pulseon.Float.Math.{F64Math, fle}
use pulseon.Chart.Range.{
  ChartError, empty_series_id, invalid_point, unsorted_series, DataPoint, AxisRange,
}

abbrev pub SeriesId : Type 0
SeriesId = Text

-- `SeriesId::new`, with the library's `str::trim`.
unfoldable pub series_id : (Text → Text) → Text → Result ChartError SeriesId
series_id trim value = elim (trim value) [ [] ↦ err empty_series_id | _ ↦ ok value ]

pub record Series (W : Type 0) : Type 0 where
  pub id : SeriesId
  pub points : List (DataPoint W)

-- How many members at the front pass the test: `partition_point` on a partitioned slice.
abbrev pub partition_point {ℓ} : {A : Type ℓ} → (A → Bool) → List A → ℕ
partition_point p [] = 0
partition_point p (x ∷ xs) = if p x then suc (partition_point p xs) else 0

-- `&points[first..after]`, which panics (`none`) out of range.
abbrev pub slice {ℓ} : {A : Type ℓ} → ℕ → ℕ → List A → Option (List A)
slice first after xs =
    if leb first after && leb after (length xs) then some (drop first (take after xs)) else none

module _ {W : Type 0} ⦃d : F64 W⦄ where
  -- The point comes before the one that the loop saw last.
  abbrev pub is_before : DataPoint W → Option (DataPoint W) → Bool
  is_before p none = false
  is_before p (some q) = d.flt p.x q.x

  -- The loop of `Series::new`, from an index on.
  unfoldable pub check_points :
      Option (DataPoint W) → ℕ → List (DataPoint W) → Result ChartError (Unit {0})
  check_points previous index [] = ok tt
  check_points previous index (p ∷ ps) =
      let rest = check_points (some p) (suc index) ps in
      if not (d.is_finite p.x) || not (d.is_finite p.y)
      then err (invalid_point index)
      else if is_before p previous
      then err (unsorted_series index)
      else rest

  unfoldable pub series : SeriesId → List (DataPoint W) → Result ChartError (Series W)
  unfolding check_points
  series id points = check_points none 0 points >>= λ done. ok (record { id = id; points = points })

  abbrev pub first_at : AxisRange W → List (DataPoint W) → ℕ
  first_at r = partition_point (λ p. d.flt p.x r.start)

  abbrev pub after_at : AxisRange W → List (DataPoint W) → ℕ
  after_at r = partition_point (λ p. fle p.x r.end)

  -- `&points[first..after]`: the points that the y range and the hit test read.
  unfoldable pub range_points : AxisRange W → List (DataPoint W) → Option (List (DataPoint W))
  range_points r points = slice (first_at r points) (after_at r points) points

  unfoldable pub visible_points : Series W → AxisRange W → Option (List (DataPoint W))
  visible_points s r =
      let first = first_at r s.points in
      let after = after_at r s.points in
      if first == length s.points || after == 0
      then some []
      else slice (first - 1) (min (suc after) (length s.points)) s.points
