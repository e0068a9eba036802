-- ===== src/Chart/Hit.antt =====
-- The hit tests of crates/pulseon-chart-core/src/interaction.rs: the nearest segment or point.
pub mod Nearest
use pulseon.Base.{
  ℕ, suc, ◌+◌, compare, Ordering, Bool, true, false, ◌||◌, ◌&&◌, not, Option, none, some, Result,
  ok, err, List, [], ◌∷◌, map, filter, then_with, if◌then◌else◌, ◌>>=◌,
}
use pulseon.Float.{F64}
use pulseon.Float.Math.{F64Math, fle, clamp_f64}
use pulseon.Chart.Range.{ChartError, DataPoint, Viewport, CanvasSize}
use pulseon.Chart.Series.{Series, first_at, range_points}
use pulseon.Chart.Path.{ScreenPoint, LinearScale, scales, project, linear_scale, scale_map}
use pulseon.Chart.Brush.{map_some, then_some}

pub record Hit (W : Type 0) : Type 0 where
  pub segment_index : ℕ
  pub position : ScreenPoint W
  pub distance : W

pub record PointHit (W : Type 0) : Type 0 where
  pub point_index : ℕ
  pub position : ScreenPoint W
  pub distance : W

-- `Iterator::min_by`: the first of the least members.
module _ {ℓ} {A : Type ℓ} (cmp : A → A → Ordering) where
  abbrev pub first_of : A → A → A
  first_of x y = elim (cmp x y) [ Ordering.gt ↦ y | _ ↦ x ]

  abbrev pub min_from : A → List A → A
  min_from x [] = x
  min_from x (y ∷ ys) = min_from (first_of x y) ys

  abbrev pub min_by : List A → Option A
  min_by [] = none
  min_by (x ∷ xs) = some (min_from x xs)

module _ {W : Type 0} ⦃d : F64 W⦄ ⦃m : F64Math W⦄ where
  unfoldable pub distance_between : (left right : ScreenPoint W) → W
  distance_between left right = m.hypot (d.sub left.x right.x) (d.sub left.y right.y)

  -- `none` where `clamp` would panic.
  unfoldable pub closest_point : (start end point : ScreenPoint W) → Option (ScreenPoint W)
  unfolding clamp_f64
  closest_point start end point =
      let dx = d.sub end.x start.x in
      let dy = d.sub end.y start.y in
      let length_squared = m.add (m.mul dx dx) (m.mul dy dy) in
      if d.feq length_squared d.zero_f64
      then some start
      else map_some
          (λ projection. record {
            x = m.add start.x (m.mul projection dx);
            y = m.add start.y (m.mul projection dy);
          })
          (clamp_f64
            (d.div (m.add (m.mul (d.sub point.x start.x) dx) (m.mul (d.sub point.y start.y) dy))
              length_squared)
            d.zero_f64 m.one_f64)

  unfoldable pub segment_hits : ScreenPoint W → ℕ → List (ScreenPoint W) → Option (List (Hit W))
  unfolding closest_point distance_between
  segment_hits cursor i [] = some []
  segment_hits cursor i (start ∷ []) = some []
  segment_hits cursor i (start ∷ end ∷ path) =
      let rest = segment_hits cursor (suc i) (end ∷ path) in
      then_some (closest_point start end cursor) λ position.
        map_some
          (λ hits.
            record {
              segment_index = i;
              position = position;
              distance = distance_between position cursor;
            }
            ∷ hits)
          rest

  abbrev pub hit_cmp : Hit W → Hit W → Ordering
  hit_cmp left right = d.total_cmp left.distance right.distance

  unfoldable pub hit_test : List (ScreenPoint W) → ScreenPoint W → W → Option (Option (Hit W))
  unfolding distance_between segment_hits
  hit_test path cursor radius =
      if not (d.is_finite radius) || d.flt radius d.zero_f64 then some none else elim path [
        | [] ↦ some none
        | only ∷ [] ↦
            let distance = distance_between only cursor in
            some (
              if fle distance radius
              then some (record { segment_index = 0; position = only; distance = distance })
              else none)
        | start ∷ end ∷ rest ↦
            map_some (λ hits. min_by hit_cmp (filter (λ hit. fle hit.distance radius) hits))
              (segment_hits cursor 0 (start ∷ end ∷ rest))
      ]

  abbrev pub point_hit :
      LinearScale W × LinearScale W → ScreenPoint W → ℕ → DataPoint W → PointHit W
  unfolding distance_between
  point_hit s cursor i p =
      let position = project s p in
      record { point_index = i; position = position; distance = distance_between position cursor }

  -- The hits of consecutive points, from an index on.
  unfoldable pub point_hits :
      LinearScale W × LinearScale W → ScreenPoint W → ℕ → List (DataPoint W) → List (PointHit W)
  unfolding scale_map
  point_hits s cursor i [] = []
  point_hits s cursor i (p ∷ ps) = point_hit s cursor i p ∷ point_hits s cursor (suc i) ps

  abbrev pub point_cmp : PointHit W → PointHit W → Ordering
  point_cmp left right =
      then_with (d.total_cmp left.distance right.distance)
        (compare left.point_index right.point_index)

  unfoldable pub hit_test_point :
      Series W
      → Viewport W
      → CanvasSize W
      → (cursor : ScreenPoint W) → (radius : W) → Option (Result ChartError (Option (PointHit W)))
  unfolding linear_scale point_hits range_points
  hit_test_point series viewport canvas cursor radius =
      if not (d.is_finite cursor.x)
        || not (d.is_finite cursor.y)
        || not (d.is_finite radius)
        || d.flt radius d.zero_f64
      then some (ok none)
      else elim (scales viewport canvas) [
        | err e ↦ some (err e)
        | ok s ↦
            map_some
              (λ points. ok (
                min_by point_cmp (
                  filter (λ hit. fle hit.distance radius)
                    (point_hits s cursor (first_at viewport.x series.points) points))))
              (range_points viewport.x series.points)
      ]
