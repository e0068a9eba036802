-- ===== src/Viewer/Apply.antt =====
-- What the viewer's operations do to its state, whatever their order.
use pulseon.Base.{
  ◌≤◌, Option, none, List, [], ◌∷◌, Text, arith, length, length-append, All, ok, err, Result,
}
use pulseon.Model.Run.{ProjectId, RunId}
use pulseon.Model.Metric.{MetricKey}
use pulseon.Model.Alignment.{AlignmentAxis, AlignmentViewport}
use pulseon.Viewer.Requests.{
  Generation, ReadKind, ReadRequest, CatalogSnapshot, ReadSnapshot, catalog_snapshot,
  overview_snapshot, detail_snapshot, ReadEvent,
}
use pulseon.Viewer.Core.{
  ViewerSelection, ViewerCore, expect, kept_runs, reset_source, new, clear_curves, select_project,
  toggle_run, select_metric, select_axis, begin, reconcile, apply_catalog, apply_overview,
  apply_result, apply,
}
use pulseon.Viewer.Selection.{
  Distinct, Distinct-append, Distinct-remove_first, length-remove_first, Distinct-length,
  run_ids_of, Distinct-kept_runs, kept_runs-All,
}

-- At most ten runs are selected, none twice.
abbrev pub IsLimited : List RunId → Type 0
IsLimited run_ids = Distinct run_ids × (length run_ids ≤ 10)

abbrev pub IsValid : {Series Brush : Type 0} → ViewerCore Series Brush → Type 0
IsValid c = IsLimited c.selection.run_ids

kept_runs-IsLimited :
    (selected : List RunId) (snapshot : CatalogSnapshot)
    → Distinct (run_ids_of snapshot.runs)
    → IsLimited selected
    → IsLimited (kept_runs selected snapshot.runs)
kept_runs-IsLimited selected snapshot d h =
    let kept = Distinct-kept_runs selected snapshot.runs d in
    (
      kept,
      omega (
        arith,
        h.1,
        Distinct-length (kept_runs selected snapshot.runs) selected kept
            (kept_runs-All selected snapshot.runs),
      ),
    )

reconcile-IsLimited :
    (selection : ViewerSelection) (snapshot : CatalogSnapshot)
    → Distinct (run_ids_of snapshot.runs)
    → IsLimited selection.run_ids
    → IsLimited (reconcile snapshot selection).run_ids
unfolding reconcile
reconcile-IsLimited selection snapshot d h =
    ground (arith, kept_runs-IsLimited selection.run_ids snapshot d h)

-- One operation of the user or of the worker's event stream.
pub data Action (Series Failure : Type 0) : Type 0 where
  do_reset : Action Series Failure
  do_select_project : Option ProjectId → Action Series Failure
  do_toggle_run : RunId → Action Series Failure
  do_select_metric : Option MetricKey → Action Series Failure
  do_select_axis : AlignmentAxis → Action Series Failure
  do_begin : Generation → ReadRequest → Action Series Failure
  do_apply : ReadEvent Series Failure → Action Series Failure

-- The rows of a catalog have distinct identifiers: the table of runs declares no key, and the
-- check of `create_run` that a run does not exist keeps them distinct.
abbrev pub HasDistinctRuns : {Series Failure : Type 0} → Action Series Failure → Type 0
HasDistinctRuns (do_apply event) = elim event.result [
  | err e ↦ Unit
  | ok snapshot ↦ elim snapshot [ catalog_snapshot c ↦ Distinct (run_ids_of c.runs) | _ ↦ Unit ]
]
HasDistinctRuns _ = Unit

module _ {Series Brush : Type 0} where
  toggle_run-IsValid :
      (run_id : RunId) (c : ViewerCore Series Brush) → IsValid c → IsValid (toggle_run run_id c).0
  unfolding toggle_run clear_curves
  toggle_run-IsValid run_id c h = ground (
    arith,
    h,
    Distinct-remove_first run_id c.selection.run_ids h.0,
    Distinct-append c.selection.run_ids run_id,
    length-remove_first run_id c.selection.run_ids,
    length-append c.selection.run_ids (run_id ∷ []),
  )

module _ {Series Brush : Type 0} where
  apply_catalog-IsValid :
      (snapshot : CatalogSnapshot) (c : ViewerCore Series Brush)
      → Distinct (run_ids_of snapshot.runs)
      → IsValid c
      → IsValid (apply_catalog snapshot c)
  unfolding apply_catalog
  apply_catalog-IsValid snapshot c d h =
      ground (arith, reconcile-IsLimited c.selection snapshot d h)

module _ {Series Failure Brush : Type 0}
    (open_brush : Option Brush → AlignmentViewport → Option Brush) (display : Failure → Text) where
  unfoldable pub act : Action Series Failure → ViewerCore Series Brush → ViewerCore Series Brush
  unfolding reset_source select_project toggle_run select_metric select_axis begin apply
  act do_reset c = reset_source c
  act (do_select_project project_id) c = select_project project_id c
  act (do_toggle_run run_id) c = (toggle_run run_id c).0
  act (do_select_metric metric_key) c = select_metric metric_key c
  act (do_select_axis axis) c = select_axis axis c
  act (do_begin generation request) c = begin generation request c
  act (do_apply event) c = (apply open_brush display event c).0

  apply_result-IsValid :
      (result : Result Failure (ReadSnapshot Series)) (generation : Generation) (kind : ReadKind)
      (c : ViewerCore Series Brush)
      → HasDistinctRuns
          (do_apply (record { generation = generation; kind = kind; result = result }))
      → IsValid c
      → IsValid (apply_result open_brush display result c)
  unfolding apply_result apply_overview
  apply_result-IsValid (ok (catalog_snapshot snapshot)) g k c d h =
      apply_catalog-IsValid snapshot c d h
  apply_result-IsValid (ok (overview_snapshot snapshot)) g k c d h = ground (arith, h)
  apply_result-IsValid (ok (detail_snapshot snapshot)) g k c d h = h
  apply_result-IsValid (err e) g k c d h = h

  apply-IsValid :
      (event : ReadEvent Series Failure) (c : ViewerCore Series Brush)
      → HasDistinctRuns (do_apply event)
      → IsValid c
      → IsValid (apply open_brush display event c).0
  unfolding apply
  apply-IsValid event c d h = ground (
    arith,
    h,
    apply_result-IsValid event.result event.generation event.kind
        (record c { expected = expect event.kind none c.expected }) d h,
  )

  act-IsValid :
      (action : Action Series Failure) (c : ViewerCore Series Brush)
      → HasDistinctRuns action
      → IsValid c
      → IsValid (act action c)
  unfolding act reset_source new select_project select_metric select_axis begin apply apply_result
      apply_catalog apply_overview clear_curves
  act-IsValid do_reset c d h = (tt, omega arith)
  act-IsValid (do_select_project project_id) c d h = ground (arith, h)
  act-IsValid (do_toggle_run run_id) c d h = toggle_run-IsValid run_id c h
  act-IsValid (do_select_metric metric_key) c d h = ground (arith, h)
  act-IsValid (do_select_axis axis) c d h = ground (arith, h)
  act-IsValid (do_begin generation request) c d h = ground (arith, h)
  act-IsValid (do_apply event) c d h = apply-IsValid event c d h

  -- The state after a list of actions.
  abbrev pub act_all :
      List (Action Series Failure) → ViewerCore Series Brush → ViewerCore Series Brush
  act_all [] c = c
  act_all (action ∷ actions) c = act_all actions (act action c)

  -- From a state with at most ten selected runs, none twice, all actions lead to such states, when the
  -- runs of each catalog that they apply have distinct identifiers.
  pub act_all-IsValid :
      (actions : List (Action Series Failure)) (c : ViewerCore Series Brush)
      → All HasDistinctRuns actions
      → IsValid c
      → IsValid (act_all actions c)
  act_all-IsValid [] c d h = h
  act_all-IsValid (action ∷ actions) c d h =
      act_all-IsValid actions (act action c) d.1 (act-IsValid action c d.0 h)
