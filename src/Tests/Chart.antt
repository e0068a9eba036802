-- ===== src/Tests/Chart.antt =====
-- The chart's operations at concrete series, ranges and cursors.
use pulseon.Base.{
  get_entry, ℕ, ◌≡◌, refl, Option, some, Result, ok, List, [], ◌∷◌, filter, pos, codes, ◌-ℤ◌,
}
use pulseon.Float.Math.{fle}
use pulseon.Sample.Whole.{Whole, whole_f64}
use pulseon.Sample.Math.{whole_math, Whole-IsIeeeMath}
use pulseon.Sample.Order.{whole_cmp-IsOrder}
use pulseon.Chart.Range.{ChartError, DataPoint, AxisRange, Viewport, CanvasSize}
use pulseon.Chart.Brush.{BrushState, zoom_at}
use pulseon.Chart.Brush.Zoom.{Succeeds, zoom_at-Succeeds}
use pulseon.Chart.Series.{Series, SeriesId, first_at}
use pulseon.Chart.Series.Points.{IsOrdered, is_inside}
use pulseon.Chart.YRange.{visible_y_range}
use pulseon.Chart.YRange.Fitting.{IsFitting, visible_y_range-IsFitting}
use pulseon.Chart.Path.{ScreenPoint, LinearScale, build_path, linear_scale}
use pulseon.Chart.Hit.{PointHit, point_hits, point_cmp, hit_test_point}
use pulseon.Chart.Hit.Nearest.{IsNearest, hit_test_point-IsNearest}
use pulseon.Chart.Cache.{PathCache, path_for}
use pulseon.Chart.Cache.Coherent.{IsCoherent, IsBuilt, path_for-IsBuilt}

abbrev w : ℕ → Whole
w n = some (pos n)

abbrev range : ℕ → ℕ → AxisRange Whole
range a b = record { start = w a; end = w b }

abbrev brush : BrushState Whole
brush = record { home = range 0 10; selected = range 2 6 }

zoom_at-Succeeds_example : Succeeds brush (zoom_at (w 4) (w 2) brush)
unfolding ◌-ℤ◌
zoom_at-Succeeds_example =
    zoom_at-Succeeds Whole-IsIeeeMath (w 4) (w 2) brush
      ((refl, refl, refl, refl), (refl, refl, refl, refl), refl, refl, refl) refl refl refl refl
      refl

abbrev surface : Viewport Whole
surface = record { x = range 0 10; y = range 0 5 }

abbrev at : ℕ → ℕ → DataPoint Whole
at x y = record { x = w x; y = w y }

abbrev points : List (DataPoint Whole)
points = at 1 5 ∷ at 2 7 ∷ at 4 1 ∷ []

abbrev points-are_ordered : IsOrdered points
points-are_ordered =
    ((refl, refl), (refl, (refl, tt)), ((refl, refl), (refl, tt), ((refl, refl), tt, tt)))

abbrev curve : Series Whole
curve = record { id = codes "loss"; points = points }

visible_y_range-IsFitting_example :
    (result : Result ChartError (Option (AxisRange Whole))) × (visible_y_range
        (w 1)
        (w 1)
        (curve ∷ [])
        (range 2 5)
      ≡ some result)
    × IsFitting (range 2 5) (curve ∷ []) result
visible_y_range-IsFitting_example =
    visible_y_range-IsFitting Whole-IsIeeeMath (w 1) (w 1) (curve ∷ []) (range 2 5)
      (refl, refl, refl, refl) (points-are_ordered, tt)

abbrev canvas : CanvasSize Whole
canvas = record { width = w 100; height = w 50 }

abbrev both_scales : LinearScale Whole × LinearScale Whole
both_scales = (
  record { domain = range 0 10; output_start = w 0; output_end = w 100 },
  record { domain = range 0 5; output_start = w 50; output_end = w 0 },
)

abbrev cursor : ScreenPoint Whole
cursor = record { x = w 20; y = w 10 }

hit_test_point-IsNearest_example :
    (hit : Option (PointHit Whole)) × (hit_test_point curve surface canvas cursor (w 1000)
      ≡ some (ok hit))
    × IsNearest point_cmp hit (
        filter
          (λ hit. fle hit.distance (w 1000))
          (point_hits both_scales cursor
            (first_at (range 0 10) points)
            (filter (is_inside (range 0 10)) points)))
unfolding linear_scale
hit_test_point-IsNearest_example =
    hit_test_point-IsNearest Whole-IsIeeeMath whole_cmp-IsOrder curve surface canvas cursor (w 1000)
      both_scales (refl, refl, refl, refl) points-are_ordered refl refl refl refl refl

abbrev one_series : SeriesId → ℕ → Series Whole
one_series id revision = curve

abbrev no_paths : PathCache Whole
no_paths = record { entries = [] }

no_paths-IsCoherent : IsCoherent one_series no_paths
unfolding get_entry
no_paths-IsCoherent id key path view size h k = cc

path_for-IsBuilt_example :
    IsBuilt one_series (build_path curve surface canvas) (path_for curve 3 surface canvas no_paths)
path_for-IsBuilt_example =
    path_for-IsBuilt Whole-IsIeeeMath one_series curve 3 surface canvas no_paths no_paths-IsCoherent
      refl
