-- ===== src/Viewer/Stale.antt =====
-- Which events change the viewer's state, and what a change of the selection drops.
use pulseon.Base.{
  ◌<◌, ◌≡◌, ◌≢◌, ◌⊎◌, ◌↔◌, inl, refl, ap, true, false, Option, none, some, List, [], ◌∷◌, ◌++◌,
  Text, text_eq_iff, text_eq_refl, arith, length, ok, err, Result,
}
use pulseon.Model.Run.{RunId}
use pulseon.Model.Alignment.{AlignmentViewport}
use pulseon.Viewer.Requests.{
  CatalogSnapshot, ReadSnapshot, catalog_snapshot, overview_snapshot, detail_snapshot,
  snapshot_kind, ReadEvent,
}
use pulseon.Viewer.Core.{
  ViewerSelection, ViewerCore, applied, expected_at, expect, contains_text, remove_first,
  reset_source, new, clear_curves, select_project, toggle_run, select_metric, select_axis, begin,
  reconcile, apply_catalog, apply_overview, apply_result, apply, option_text_eq, texts_eq,
  selection_eq,
}
use pulseon.Viewer.Selection.{remove_first-append}
use pulseon.Viewer.Apply.{
  Action, do_reset, do_select_project, do_toggle_run, do_select_metric, do_select_axis, do_begin,
  do_apply, act,
}

option_text_eq_lem : (s t : Option Text) → option_text_eq s t ≡ true → s ≡ t
option_text_eq_lem none none h = refl
option_text_eq_lem none (some t) h = ground (arith, h)
option_text_eq_lem (some s) none h = ground (arith, h)
option_text_eq_lem (some s) (some t) h = ground (arith, h, text_eq_iff s t)

texts_eq_lem : (ss ts : List Text) → texts_eq ss ts ≡ true → ss ≡ ts
texts_eq_lem [] [] h = refl
texts_eq_lem [] (t ∷ ts) h = ground (arith, h)
texts_eq_lem (s ∷ ss) [] h = ground (arith, h)
texts_eq_lem (s ∷ ss) (t ∷ ts) h = ground (arith, h, text_eq_iff s t, texts_eq_lem ss ts)

selection_eq_lem : (a b : ViewerSelection) → selection_eq a b ≡ true → a ≡ b
selection_eq_lem a b h = ground (
  arith,
  h,
  option_text_eq_lem a.project_id b.project_id,
  texts_eq_lem a.run_ids b.run_ids,
  option_text_eq_lem a.metric_key b.metric_key,
)

append_contains : (ts : List Text) (t : Text) → contains_text (ts ++ t ∷ []) t ≡ true
append_contains [] t = rw (text_eq_refl t) refl
append_contains (s ∷ ts) t = ground (arith, append_contains ts t)

module _ {Series Brush : Type 0} where
  -- No curve is shown and none is expected.
  abbrev pub HasNoCurves : ViewerCore Series Brush → Type 0
  HasNoCurves c =
      (c.overview_shown ≡ none)
      × (c.detail_shown ≡ none)
      × (c.expected.overview_generation ≡ none)
      × (c.expected.detail_generation ≡ none)

  toggled : ViewerCore Series Brush → List RunId → ViewerCore Series Brush
  unfolding clear_curves
  toggled c run_ids =
      clear_curves (record c { selection = record (c.selection) { run_ids = run_ids } })

  toggle_on :
      (run_id : RunId) (c : ViewerCore Series Brush)
      → contains_text c.selection.run_ids run_id ≡ false
      → length c.selection.run_ids < 10
      → toggle_run run_id c ≡ (toggled c (c.selection.run_ids ++ run_id ∷ []), ok true)
  unfolding toggle_run toggled
  toggle_on run_id c fresh lt = ground (arith, fresh, lt)

  toggle_off :
      (run_id : RunId) (c : ViewerCore Series Brush)
      → contains_text c.selection.run_ids run_id ≡ true
      → toggle_run run_id c ≡ (toggled c (remove_first run_id c.selection.run_ids), ok false)
  unfolding toggle_run toggled
  toggle_off run_id c h = rw h refl

  -- A run that is not selected is as it was after two toggles, below the limit.
  pub toggle_run-toggle_run :
      (run_id : RunId) (c : ViewerCore Series Brush)
      → contains_text c.selection.run_ids run_id ≡ false
      → length c.selection.run_ids < 10
      → ((toggle_run run_id c).1 ≡ ok true)
        × ((toggle_run run_id (toggle_run run_id c).0).1 ≡ ok false)
        × ((toggle_run run_id (toggle_run run_id c).0).0.selection ≡ c.selection)
  unfolding toggled
  toggle_run-toggle_run run_id c fresh lt =
      let after = append_contains c.selection.run_ids run_id in
      rw
        (
          toggle_on run_id c fresh lt,
          toggle_off run_id (toggled c (c.selection.run_ids ++ run_id ∷ [])) after,
        )
        (
          refl,
          refl,
          ap (λ ids. record (c.selection) { run_ids = ids })
              (remove_first-append run_id c.selection.run_ids fresh),
        )

  catalog_axis :
      (snapshot : CatalogSnapshot) (c : ViewerCore Series Brush)
      → (apply_catalog snapshot c).axis ≡ c.axis
  unfolding apply_catalog
  catalog_axis snapshot c = ground arith

  catalog-HasNoCurves :
      (snapshot : CatalogSnapshot) (c : ViewerCore Series Brush)
      → ((apply_catalog snapshot c).selection ≡ c.selection)
        ⊎ HasNoCurves (apply_catalog snapshot c)
  unfolding apply_catalog expect
  catalog-HasNoCurves snapshot c =
      ground (arith, selection_eq_lem (reconcile snapshot c.selection) c.selection)

module _ {Series Failure Brush : Type 0}
    (open_brush : Option Brush → AlignmentViewport → Option Brush) (display : Failure → Text) where
  -- The result is an error, or a snapshot of the event's kind.
  abbrev pub IsMatched : ReadEvent Series Failure → Type 0
  unfolding snapshot_kind
  IsMatched event = elim event.result [
    | ok snapshot ↦ snapshot_kind snapshot ≡ event.kind
    | err e ↦ Unit
  ]

  -- An event is applied exactly when its generation is the one expected of its kind and its
  -- snapshot is of its kind; an event that is not applied changes nothing.
  pub apply_iff :
      (event : ReadEvent Series Failure) (c : ViewerCore Series Brush)
      → (((apply open_brush display event c).1 ≡ applied)
          ↔ ((expected_at event.kind c.expected ≡ some event.generation) × IsMatched event))
        × (((apply open_brush display event c).1 ≡ applied)
            ⊎ ((apply open_brush display event c).0 ≡ c))
  unfolding apply snapshot_kind
  apply_iff event c = ground arith

  apply_result-HasNoCurves :
      (result : Result Failure (ReadSnapshot Series)) (c : ViewerCore Series Brush)
      → (((apply_result open_brush display result c).selection ≡ c.selection)
          × ((apply_result open_brush display result c).axis ≡ c.axis))
        ⊎ HasNoCurves (apply_result open_brush display result c)
  unfolding apply_result apply_overview
  apply_result-HasNoCurves (ok (catalog_snapshot snapshot)) c =
      ground (arith, catalog-HasNoCurves snapshot c, catalog_axis snapshot c)
  apply_result-HasNoCurves (ok (overview_snapshot snapshot)) c = ground arith
  apply_result-HasNoCurves (ok (detail_snapshot snapshot)) c = inl (refl, refl)
  apply_result-HasNoCurves (err e) c = inl (refl, refl)

  -- A change of the selection or of the axis drops both curves and what is expected of them.
  pub act-HasNoCurves :
      (action : Action Series Failure) (c : ViewerCore Series Brush)
      → ((act open_brush display action c).selection ≢ c.selection)
        ⊎ ((act open_brush display action c).axis ≢ c.axis)
      → HasNoCurves (act open_brush display action c)
  unfolding act reset_source new select_project toggle_run select_metric select_axis begin apply
      clear_curves expect
  act-HasNoCurves do_reset c h = (refl, refl, refl, refl)
  act-HasNoCurves (do_select_project project_id) c h = ground (arith, h)
  act-HasNoCurves (do_toggle_run run_id) c h = ground (arith, h)
  act-HasNoCurves (do_select_metric metric_key) c h = ground (arith, h)
  act-HasNoCurves (do_select_axis axis) c h = ground (arith, h)
  act-HasNoCurves (do_begin generation request) c h = ground (arith, h)
  act-HasNoCurves (do_apply event) c h = ground (
    arith,
    h,
    apply_result-HasNoCurves event.result
        (record c { expected = expect event.kind none c.expected }),
  )
