-- ===== src/Lib.antt =====
-- PulseOn: a tracker of training metrics with its store, its read queries and its viewer.
--
-- A client reports metrics to a reporter, which queues them for a writer thread; the thread
-- appends batches to the store. Readers query the store, qualify what they find as evidence,
-- compare and rank runs by it, and the viewer draws it with the chart crate. The development models
-- the reporter with its thread, the evidence, comparison and ranking of runs, the viewer's worker and
-- state, the chart's geometry, and the configuration and text of the store.
--
-- Base: shared names, lists and integers over the native numbers, results, text, stable sorting.
-- Float, Sample: an f64 is a value of an interface with the operations that the code uses; the
--   record IsIeee states what the theorems rely on, and Sample shows that it can be met.
-- Model: crates/pulseon-model/src. Each type is a record or a data type of the same name, each
--   checked constructor a function into Result.
-- Engine: the errors of crates/pulseon-core/src/engine/mod.rs and crates/pulseon-storage/src/lib.rs,
--   the reads of the client (engine/client.rs, engine/query.rs) over the interface Reads, which stands
--   for the DuckDB store, and the check for duplicate runs (engine/comparison.rs).
-- Evidence: aligned_metric_result, objective_evidence and qualify_lifecycle of engine/query.rs.
-- Comparison: compare_evidence, build_reports and the client's methods of engine/comparison.rs. An
--   index out of range is the value none.
-- Ranking: engine/ranking.rs. sort_by is the stable sort, as an insertion sort.
-- Reporting: engine/reporting.rs. Diagnostics holds the atomics as a record whose counters wrap at
--   2^64, and the snapshot as loads at states of their own, since other threads step between two
--   loads; Reporter the admission, the barrier and shutdown; Retry the retry loop and the rows of a
--   batch over an append that takes and gives back a store. Reporting/System puts the calling
--   thread and the writer thread together as a step relation, one access of shared state a step;
--   the updates for one failed attempt are one step. Its states carry the lists of accepted and of
--   lost reports as histories. The step close may come whenever the sender is gone, also while
--   another shutdown's worker still runs or after a report was lost.
-- Client: engine/client.rs. Run and Finalize have ActiveRun and finalize_run, over what the calls of
--   the store, the reporter, the clock and the lock file return. Session has the calls that create,
--   resume and hand out runs over the map of active runs and the catalog's tables, which are lists of
--   rows; a table's failure is given, and its writes are those of write.rs. Overlap puts the parts of
--   two calls of create_run in one order that two threads can run them in. Flush is the flush of a
--   finished run, over the tries of its lock and what its deadline and timer say.
-- Viewer: crates/pulseon-viewer/src/worker.rs and core.rs. Requests has the types, Pending the
--   slots, Events the event channel with its waker, Serve the worker's loop over its rounds, each
--   with the requests that arrive and what opening the source and the queries give then, Budget the
--   point budgets of query.rs, Core the viewer's state, View its brush and filter, and Curves the
--   curve queries of query.rs. The casts between i64 and f64 are the interface F64Int.
-- Chart: crates/pulseon-chart-core/src. Range, Series, YRange and Path are lib.rs; Brush, Zoom, Hit,
--   Selection and Cache are interaction.rs. Float/Math has the further operations on an f64 and, in
--   IsIeeeMath, what the theorems rely on: rounding that is monotone, and no NaN but where the
--   standard makes one. The value none is a panic, of f64::clamp or of a slice out of range.
--   partition_point is the length of the leading run, which it finds in a partitioned slice.
-- Storage: crates/pulseon-storage/src. Config is config.rs over the interfaces Paths and Toml; Backend
--   and Sql have the statements and paths of bootstrap.rs and sql.rs, Rows the stored rows of rows.rs
--   with time.rs, Encode the encoded names of metric_query.rs and lock.rs.
-- Tests: runs at concrete inputs.
--
-- Bounds and fuel. The drain loop and the worker's loops are functions of the list of what their
-- rounds observe, so that a run is any such list, and `none` or `busy` says that the list ended first.
-- The retry loop is recursion on the retries left, which the code bounds by five. Statements on the
-- reporter's counters ask that fewer than 2^64 - 2 reports are accepted (IsSmall). A run's ingestion
-- stamps are integers without the 64-bit wrap.
--
-- Not modelled: lock poisoning, the wall clock, DuckDB and its SQL, the client's listings and
-- opening, the chart's linear_ticks, the Python bindings and the desktop widgets. The errors of I/O
-- and DuckDB are the text they display. What a failed append leaves in the store is the parameter
-- kept_rows; the statements on stored rows suppose that it is nothing (IsAtomic), since a batch
-- that is retried would else be stored in part twice. Loads of several atomics take effect in the
-- order of the code; weaker orders of relaxed loads are not modelled.
pub mod Base
pub mod Chart
pub mod Storage
pub mod Client
pub mod Comparison
pub mod Engine
pub mod Evidence
pub mod Float
pub mod Model
pub mod Ranking
pub mod Reporting
pub mod Sample
pub mod Viewer
pub mod Tests
