-- ===== src/Viewer/Requests.antt =====
-- The viewer's requests, snapshots and events: crates/pulseon-viewer/src/{model, query, worker}.rs.
-- `Series` stands for a run's evidence with its drawable series, `Failure` for `WorkerError`.
use pulseon.Base.{ℕ, Bool, true, false, Option, List, Result}
use pulseon.Model.Run.{ProjectId, RunId, Project, Run}
use pulseon.Model.Metric.{MetricKey}
use pulseon.Model.Alignment.{AlignmentAxis, AlignmentViewport}

abbrev pub Generation : Type 0
Generation = ℕ

pub data ReadKind : Type 0 where
  catalog overview detail : ReadKind

-- `==` on kinds.
abbrev pub kind_eq : ReadKind → ReadKind → Bool
kind_eq catalog catalog = true
kind_eq overview overview = true
kind_eq detail detail = true
kind_eq _ _ = false

pub record DiscoveryRequest : Type 0 where
  pub project_id : Option ProjectId
  pub selected_run_ids : List RunId

pub record CurveSelection : Type 0 where
  pub run_ids : List RunId
  pub metric_key : MetricKey
  pub axis : AlignmentAxis

pub record OverviewRequest : Type 0 where
  pub selection : CurveSelection
  pub physical_width : ℕ

pub record DetailRequest : Type 0 where
  pub selection : CurveSelection
  pub viewport : AlignmentViewport
  pub physical_width : ℕ

pub data ReadRequest : Type 0 where
  discover : DiscoveryRequest → ReadRequest
  overview_of : OverviewRequest → ReadRequest
  detail_of : DetailRequest → ReadRequest

unfoldable pub request_kind : ReadRequest → ReadKind
request_kind (discover request) = catalog
request_kind (overview_of request) = overview
request_kind (detail_of request) = detail

pub record TaggedRequest : Type 0 where
  pub generation : Generation
  pub request : ReadRequest

pub record CatalogSnapshot : Type 0 where
  pub projects : List Project
  pub runs : List Run
  pub metric_keys : List MetricKey

pub record CurveSnapshot (Series : Type 0) : Type 0 where
  pub viewport : AlignmentViewport
  pub point_budget : ℕ
  pub real_range : Option AlignmentViewport
  pub series : List Series

pub data ReadSnapshot (Series : Type 0) : Type 0 where
  catalog_snapshot : CatalogSnapshot → ReadSnapshot Series
  overview_snapshot : CurveSnapshot Series → ReadSnapshot Series
  detail_snapshot : CurveSnapshot Series → ReadSnapshot Series

unfoldable pub snapshot_kind : {Series : Type 0} → ReadSnapshot Series → ReadKind
snapshot_kind (catalog_snapshot snapshot) = catalog
snapshot_kind (overview_snapshot snapshot) = overview
snapshot_kind (detail_snapshot snapshot) = detail

pub record ReadEvent (Series Failure : Type 0) : Type 0 where
  pub generation : Generation
  pub kind : ReadKind
  pub result : Result Failure (ReadSnapshot Series)
