-- ===== src/Viewer/Core.antt =====
-- `ViewerCore`: the selection and the snapshots that the viewer shows. `Brush` stands for the
-- chart's brush and `open_brush` for the brush that an overview's range opens, from the previous one;
-- `display` for the text of a failure.
use pulseon.Base.{
  ℕ, Bool, true, false, Option, none, some, List, [], ◌∷◌, ◌++◌, Text, text_eq, Result, ok, err,
  ◌==◌, ◌&&◌, not, if◌then◌else◌, length, filter, any, map,
}
use pulseon.Model.Run.{ProjectId, RunId, Project, Run}
use pulseon.Model.Metric.{MetricKey}
use pulseon.Model.Alignment.{AlignmentAxis, step, elapsed_time, AlignmentViewport}
use pulseon.Viewer.Requests.{
  Generation, ReadKind, catalog, overview, detail, kind_eq, ReadRequest, request_kind,
  CatalogSnapshot, CurveSnapshot, ReadSnapshot, catalog_snapshot, overview_snapshot,
  detail_snapshot, snapshot_kind, ReadEvent,
}

abbrev pub max_selected_runs : ℕ
max_selected_runs = 10

pub record ViewerSelection : Type 0 where
  pub project_id : Option ProjectId
  pub run_ids : List RunId
  pub metric_key : Option MetricKey

abbrev pub no_selection : ViewerSelection
no_selection = record { project_id = none; run_ids = []; metric_key = none }

abbrev pub option_text_eq : Option Text → Option Text → Bool
option_text_eq none none = true
option_text_eq (some s) (some t) = text_eq s t
option_text_eq _ _ = false

abbrev pub texts_eq : List Text → List Text → Bool
texts_eq [] [] = true
texts_eq (s ∷ ss) (t ∷ ts) = text_eq s t && texts_eq ss ts
texts_eq _ _ = false

-- `==` on selections and on axes.
abbrev pub selection_eq : ViewerSelection → ViewerSelection → Bool
selection_eq a b =
    option_text_eq a.project_id b.project_id
    && texts_eq a.run_ids b.run_ids
    && option_text_eq a.metric_key b.metric_key

abbrev pub axis_eq : AlignmentAxis → AlignmentAxis → Bool
axis_eq step step = true
axis_eq elapsed_time elapsed_time = true
axis_eq _ _ = false

pub data ApplyOutcome : Type 0 where
  applied ignored_stale ignored_mismatched : ApplyOutcome

pub data SelectionError : Type 0 where
  run_limit : SelectionError

-- `expected`, one generation for each kind.
pub record Expected : Type 0 where
  pub catalog_generation : Option Generation
  pub overview_generation : Option Generation
  pub detail_generation : Option Generation

unfoldable pub expected_at : ReadKind → Expected → Option Generation
expected_at catalog e = e.catalog_generation
expected_at overview e = e.overview_generation
expected_at detail e = e.detail_generation

unfoldable pub expect : ReadKind → Option Generation → Expected → Expected
expect catalog g e = record e { catalog_generation = g }
expect overview g e = record e { overview_generation = g }
expect detail g e = record e { detail_generation = g }

pub record ViewerCore (Series Brush : Type 0) : Type 0 where
  pub selection : ViewerSelection
  pub axis : AlignmentAxis
  pub brush : Option Brush
  pub catalog_shown : Option CatalogSnapshot
  pub overview_shown : Option (CurveSnapshot Series)
  pub detail_shown : Option (CurveSnapshot Series)
  pub expected : Expected
  pub last_error : Option Text

abbrev pub contains_text : List Text → Text → Bool
contains_text ts t = any (text_eq t) ts

-- `Vec::remove` at the first position that equals the text.
abbrev pub remove_first : Text → List Text → List Text
remove_first t [] = []
remove_first t (s ∷ ts) = if text_eq s t then ts else s ∷ remove_first t ts

abbrev pub is_some {ℓ} : {A : Type ℓ} → Option A → Bool
is_some none = false
is_some (some a) = true

abbrev pub generation_is : Generation → Option Generation → Bool
generation_is g none = false
generation_is g (some h) = h == g

abbrev pub clear_catalog : Option CatalogSnapshot → Option CatalogSnapshot
clear_catalog none = none
clear_catalog (some c) = some (record c { runs = []; metric_keys = [] })

abbrev pub has_project : List Project → Option ProjectId → Bool
has_project projects none = false
has_project projects (some project_id) =
    any (λ (project : Project). text_eq project.project_id project_id) projects

abbrev pub kept_runs : List RunId → List Run → List RunId
kept_runs selected runs =
    map (λ (run : Run). run.run_id) (filter (λ (run : Run). contains_text selected run.run_id) runs)

abbrev pub kept_metric : List MetricKey → Option MetricKey → Option MetricKey
kept_metric keys none = none
kept_metric keys (some metric_key) =
    if any (λ key. text_eq key metric_key) keys then some metric_key else none

-- The selection that a catalog leaves.
unfoldable pub reconcile : CatalogSnapshot → ViewerSelection → ViewerSelection
reconcile snapshot selection =
    if has_project snapshot.projects selection.project_id
    then record selection {
      run_ids = kept_runs selection.run_ids snapshot.runs;
      metric_key = kept_metric snapshot.metric_keys selection.metric_key;
    }
    else no_selection

abbrev pub brush_for :
    {Brush : Type 0}
    → (Option Brush → AlignmentViewport → Option Brush)
    → Option Brush
    → Option AlignmentViewport
    → Option Brush
brush_for open_brush previous none = none
brush_for open_brush previous (some range) = open_brush previous range

module _ {Series Brush : Type 0} where
  unfoldable pub new : ViewerSelection → ViewerCore Series Brush
  new selection = record {
    selection = selection;
    axis = step;
    brush = none;
    catalog_shown = none;
    overview_shown = none;
    detail_shown = none;
    expected = record {
      catalog_generation = none;
      overview_generation = none;
      detail_generation = none;
    };
    last_error = none;
  }

  unfoldable pub reset_source : ViewerCore Series Brush → ViewerCore Series Brush
  unfolding new
  reset_source c = new no_selection

  unfoldable pub clear_curves : ViewerCore Series Brush → ViewerCore Series Brush
  unfolding expect
  clear_curves c = record c {
    brush = none;
    overview_shown = none;
    detail_shown = none;
    expected = expect detail none (expect overview none c.expected);
    last_error = none;
  }

  unfoldable pub select_project :
      Option ProjectId → ViewerCore Series Brush → ViewerCore Series Brush
  unfolding clear_curves
  select_project project_id c =
      if option_text_eq c.selection.project_id project_id
      then c
      else clear_curves (record c {
        selection = record no_selection { project_id = project_id };
        catalog_shown = clear_catalog c.catalog_shown;
      })

  unfoldable pub toggle_run :
      RunId → ViewerCore Series Brush → ViewerCore Series Brush × Result SelectionError Bool
  unfolding clear_curves
  toggle_run run_id c =
      if contains_text c.selection.run_ids run_id
      then (
        clear_curves (record c {
          selection = record (c.selection) { run_ids = remove_first run_id c.selection.run_ids };
        }),
        ok false,
      )
      else if length c.selection.run_ids == max_selected_runs
      then (c, err run_limit)
      else (
        clear_curves (record c {
          selection = record (c.selection) { run_ids = c.selection.run_ids ++ run_id ∷ [] };
        }),
        ok true,
      )

  unfoldable pub select_metric :
      Option MetricKey → ViewerCore Series Brush → ViewerCore Series Brush
  unfolding clear_curves
  select_metric metric_key c =
      if option_text_eq c.selection.metric_key metric_key
      then c
      else clear_curves (record c { selection = record (c.selection) { metric_key = metric_key } })

  unfoldable pub select_axis : AlignmentAxis → ViewerCore Series Brush → ViewerCore Series Brush
  unfolding clear_curves
  select_axis axis c = if axis_eq c.axis axis then c else clear_curves (record c { axis = axis })

  unfoldable pub begin :
      Generation → ReadRequest → ViewerCore Series Brush → ViewerCore Series Brush
  unfolding expect request_kind
  begin generation request c = record c {
    expected = expect (request_kind request) (some generation) c.expected;
    last_error = none;
  }

  unfoldable pub is_pending : ReadKind → ViewerCore Series Brush → Bool
  unfolding expected_at
  is_pending kind c = is_some (expected_at kind c.expected)

  unfoldable pub apply_catalog : CatalogSnapshot → ViewerCore Series Brush → ViewerCore Series Brush
  unfolding reconcile expect
  apply_catalog snapshot c =
      let selection = reconcile snapshot c.selection in
      if selection_eq selection c.selection
      then record c { selection = selection; catalog_shown = some snapshot }
      else record c {
        selection = selection;
        overview_shown = none;
        detail_shown = none;
        expected = expect detail none (expect overview none c.expected);
        catalog_shown = some snapshot;
      }

module _ {Series Failure Brush : Type 0}
    (open_brush : Option Brush → AlignmentViewport → Option Brush) (display : Failure → Text) where
  unfoldable pub apply_overview :
      CurveSnapshot Series → ViewerCore Series Brush → ViewerCore Series Brush
  unfolding expect
  apply_overview snapshot c =
      let brush = brush_for open_brush c.brush snapshot.real_range in
      if is_some brush
      then record c { brush = brush; overview_shown = some snapshot }
      else record c {
        brush = brush;
        detail_shown = none;
        expected = expect detail none c.expected;
        overview_shown = some snapshot;
      }

  abbrev pub is_mismatched : ReadEvent Series Failure → Bool
  unfolding snapshot_kind
  is_mismatched event = elim event.result [
    | ok snapshot ↦ not (kind_eq (snapshot_kind snapshot) event.kind)
    | err e ↦ false
  ]

  -- The match on the result.
  unfoldable pub apply_result :
      Result Failure (ReadSnapshot Series) → ViewerCore Series Brush → ViewerCore Series Brush
  unfolding apply_catalog apply_overview
  apply_result (ok (catalog_snapshot snapshot)) c = apply_catalog snapshot c
  apply_result (ok (overview_snapshot snapshot)) c = apply_overview snapshot c
  apply_result (ok (detail_snapshot snapshot)) c = record c { detail_shown = some snapshot }
  apply_result (err e) c = record c { last_error = some (display e) }

  unfoldable pub apply :
      ReadEvent Series Failure → ViewerCore Series Brush → ViewerCore Series Brush × ApplyOutcome
  unfolding apply_result expected_at expect
  apply event c =
      if not (generation_is event.generation (expected_at event.kind c.expected))
      then (c, ignored_stale)
      else if is_mismatched event
      then (c, ignored_mismatched)
      else (
        apply_result event.result (record c { expected = expect event.kind none c.expected }),
        applied,
      )
