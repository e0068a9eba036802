-- ===== src/Viewer/View.antt =====
-- The viewer's brush and its run filter: crates/pulseon-viewer/src/core.rs with the chart's
-- `BrushState`. `str::trim` and `str::to_lowercase` are parameters.
pub mod Opened
use pulseon.Base.{
  Bool, true, false, ◌||◌, ◌>>=◌, Option, none, some, Result, ok, err, List, [], ◌∷◌, Text,
  text_cmp,
}
use pulseon.Float.{F64}
use pulseon.Float.Math.{F64Math, fle}
use pulseon.Model.Run.{Run, run_status_value}
use pulseon.Model.Alignment.{AlignmentViewport, alignment_viewport}
use pulseon.Chart.Brush.{BrushState, reset, brush_state, resize_start, resize_end}
use pulseon.Chart.Range.{ChartError, axis_range}
use pulseon.Storage.Search.{contains}
use pulseon.Viewer.Core.{ViewerCore}
use pulseon.Viewer.Curves.{F64Int}

abbrev is_empty_text : Text → Bool
is_empty_text [] = true
is_empty_text (b ∷ rest) = false

unfoldable pub run_fields_match_filter :
    (trim to_lowercase : Text → Text) → (name run_id status query : Text) → Bool
unfolding contains
run_fields_match_filter trim to_lowercase name run_id status query =
    let sought = to_lowercase (trim query) in
    is_empty_text sought
    || contains sought (to_lowercase name)
    || contains sought (to_lowercase run_id)
    || contains sought status

unfoldable pub run_matches_filter : (trim to_lowercase : Text → Text) → Run → (query : Text) → Bool
unfolding run_fields_match_filter
run_matches_filter trim to_lowercase run query =
    run_fields_match_filter trim to_lowercase run.name run.run_id (run_status_value run.status)
      query

abbrev pub ok_only {ℓ κ} : {E : Type ℓ} {A : Type κ} → Result E A → Option A
ok_only (ok a) = some a
ok_only (err e) = none

-- What a call on the brush leaves: `none` is a panic, and an error gives no brush.
abbrev pub resized {ℓ} :
    {B : Type ℓ} → Option (Result ChartError B) → (B → Option (Option B)) → Option (Option B)
resized none next = none
resized (some (err e)) next = some none
resized (some (ok b)) next = next b

module _ {W : Type 0} ⦃d : F64 W⦄ ⦃m : F64Math W⦄ where
  -- The previous selection put into a new brush.
  unfoldable pub keep_selection : BrushState W → BrushState W → Option (Option (BrushState W))
  unfolding resize_start resize_end
  keep_selection previous brush =
      resized (resize_start previous.selected.start brush)
        λ b. resized (resize_end previous.selected.end b) λ c. some (some c)

  unfoldable pub brush_on :
      Option (BrushState W) → Result ChartError (BrushState W) → Option (Option (BrushState W))
  unfolding keep_selection
  brush_on previous (err e) = some none
  brush_on none (ok brush) = some (some brush)
  brush_on (some previous) (ok brush) = keep_selection previous brush

  -- The brush that `apply_overview` opens on the range of an overview's points.
  unfoldable pub open_brush :
      (casts : F64Int W)
      → Option (BrushState W)
      → AlignmentViewport
      → Option (Option (BrushState W))
  unfolding axis_range brush_state brush_on
  open_brush casts previous range = brush_on previous (
      axis_range (casts.from_i64 range.start) (casts.from_i64 range.end) >>= λ home.
      brush_state home)

module _ {Series W : Type 0} ⦃d : F64 W⦄ ⦃m : F64Math W⦄ where
  unfoldable pub reset_view :
      ViewerCore Series (BrushState W) → Bool × ViewerCore Series (BrushState W)
  unfolding reset
  reset_view c = elim c.brush [
    | none ↦ (false, c)
    | some brush ↦ (true, record c { brush = some (reset brush) })
  ]

  unfoldable pub selected_viewport :
      (casts : F64Int W) → ViewerCore Series (BrushState W) → Option AlignmentViewport
  unfolding alignment_viewport
  selected_viewport casts c = elim c.brush [
    | none ↦ none
    | some brush ↦ ok_only (
        alignment_viewport (casts.as_i64 (casts.floor brush.selected.start))
          (casts.as_i64 (casts.ceil brush.selected.end)))
  ]
