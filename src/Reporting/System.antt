-- ===== src/Reporting/System.antt =====
-- The reporter and its worker as one system: the thread that holds the sender lock and the worker
-- thread take turns, one access of shared state at a time. Consecutive writes to the diagnostics
-- that the worker makes about one failed attempt are one step.
pub mod Numbered
pub mod Invariant
pub mod Steps
pub mod Persisted
pub mod Drain
pub mod Latch
pub mod Call
use pulseon.Base.{
  ℕ, zero, suc, ◌+◌, ◌<◌, ◌≡◌, ◌⊎◌, Bool, true, false, Option, none, some, List, [], ◌∷◌, ◌++◌,
  Text, ℤ, ok, length,
}
use pulseon.Model.Run.{RunId}
use pulseon.Model.Metric.{MetricKey, Step}
use pulseon.Reporting.Diagnostics.{
  Diagnostics, increment_pending, decrement_pending, decrement_pending_by, increment_accepted,
  increment_queue_full, increment_persisted_by, set_persisted_through_sequence, set_writer_running,
  set_writer_retrying, set_writer_failed, set_writer_closed, set_last_write_error,
}
use pulseon.Reporting.Reporter.{
  MetricReport, Reporter, open_with_capacity, begin_report, try_send, sent, full, disconnected,
  advance_sequence, with_diagnostics,
}
use pulseon.Reporting.Retry.{writer_max_retries}

abbrev pub metric_batch_max_reports : ℕ
metric_batch_max_reports = 8_192

module _ (W : Type 0) where
  -- Where the thread that holds the sender lock stands in `report_metric`; no thread holds it at
  -- `idle`.
  pub data Caller : Type 0 where
    idle : Caller
    loaded : MetricReport W → Caller
    counted : MetricReport W → Caller
    queued : Caller
    advanced : Caller
    refused_full : Caller
    uncounted_full : Caller
    refused_closed : Caller

  -- Where the worker stands: waiting for a first report, collecting a batch, in the attempt with
  -- this number to write it, at the four updates after the write, giving up, or ended.
  pub data Worker : Type 0 where
    waiting : Worker
    collecting : List (MetricReport W) → Worker
    writing : List (MetricReport W) → ℕ → Worker
    written : List (MetricReport W) → Worker
    confirmed : List (MetricReport W) → Worker
    totalled : List (MetricReport W) → Worker
    marked : List (MetricReport W) → Worker
    failing : List (MetricReport W) → Worker
    failed : Worker
    ended : Worker

  -- `accepted` and `lost` are histories: the reports sent so far in order, and those that a
  -- worker that gave up left behind. `stored` holds the rows of the metric table.
  pub record System : Type 0 where
    pub shared : Reporter W
    pub caller : Caller
    pub worker : Worker
    pub stored : List (MetricReport W)
    pub accepted : List (MetricReport W)
    pub lost : List (MetricReport W)

module _ {W : Type 0} where
  abbrev pub initial : ℕ → System W
  initial capacity = record {
    shared = open_with_capacity capacity;
    caller = idle;
    worker = waiting;
    stored = [];
    accepted = [];
    lost = [];
  }

  -- `batch.last()`'s sequence; a batch is never empty.
  abbrev pub last_sequence : List (MetricReport W) → ℕ
  last_sequence [] = 0
  last_sequence (report ∷ []) = report.enqueue_sequence
  last_sequence (report ∷ next ∷ batch) = last_sequence (next ∷ batch)

  abbrev on_diagnostics : (Diagnostics → Diagnostics) → System W → Reporter W
  on_diagnostics f s = with_diagnostics f s.shared

  -- What the storage keeps of an append of a batch that fails, at the attempt with a number.
  module _ (kept_rows : List (MetricReport W) → ℕ → List (MetricReport W)) where
    pub data Next (s : System W) : System W → Type 0 where
      load :
          (run_id : RunId) (metric_key : MetricKey) (step : Step) (value : W) (now : ℤ)
          (report : MetricReport W)
          → s.caller ≡ idle
          → begin_report s.shared run_id metric_key step value now ≡ ok report
          → Next s (record s { caller = loaded report })
      count :
          (report : MetricReport W)
          → s.caller ≡ loaded report
          → Next s
              (record s { shared = on_diagnostics increment_pending s; caller = counted report })
      send :
          (report : MetricReport W) (shared : Reporter W)
          → s.caller ≡ counted report
          → try_send s.shared report ≡ (shared, sent)
          → Next s
              (record s { shared = shared; caller = queued; accepted = s.accepted ++ report ∷ [] })
      send_full :
          (report : MetricReport W) (shared : Reporter W)
          → s.caller ≡ counted report
          → try_send s.shared report ≡ (shared, full)
          → Next s (record s { caller = refused_full })
      send_closed :
          (report : MetricReport W) (shared : Reporter W)
          → s.caller ≡ counted report
          → try_send s.shared report ≡ (shared, disconnected)
          → Next s (record s { caller = refused_closed })
      advance :
          s.caller ≡ queued
          → Next s (record s { shared = advance_sequence s.shared; caller = advanced })
      accept :
          s.caller ≡ advanced
          → Next s (record s { shared = on_diagnostics increment_accepted s; caller = idle })
      uncount_full :
          s.caller ≡ refused_full
          → Next s
              (record s { shared = on_diagnostics decrement_pending s; caller = uncounted_full })
      note_full :
          s.caller ≡ uncounted_full
          → Next s (record s { shared = on_diagnostics increment_queue_full s; caller = idle })
      uncount_closed :
          s.caller ≡ refused_closed
          → Next s (record s { shared = on_diagnostics decrement_pending s; caller = idle })
      -- `shutdown` or `drop` takes the sender.
      take_sender :
          s.caller ≡ idle → Next s (record s { shared = record (s.shared) { sender = false } })
      -- The end of a `shutdown`. A second one that runs at the same time finds neither sender nor
      -- worker and may get here while the worker still runs; that the drain succeeded is not asked.
      close :
          s.shared.sender ≡ false
          → Next s (record s { shared = on_diagnostics set_writer_closed s })
      receive :
          (report : MetricReport W) (rest : List (MetricReport W))
          → s.worker ≡ waiting
          → s.shared.queue ≡ report ∷ rest
          → Next s (record s {
            shared = record (s.shared) { queue = rest };
            worker = collecting (report ∷ []);
          })
      collect :
          (batch : List (MetricReport W)) (report : MetricReport W) (rest : List (MetricReport W))
          → s.worker ≡ collecting batch
          → length batch < metric_batch_max_reports
          → s.shared.queue ≡ report ∷ rest
          → Next s (record s {
            shared = record (s.shared) { queue = rest };
            worker = collecting (batch ++ report ∷ []);
          })
      -- The batch is full, or the deadline passed or the sender went while the queue was empty.
      collected :
          (batch : List (MetricReport W))
          → s.worker ≡ collecting batch
          → (length batch ≡ metric_batch_max_reports) ⊎ (s.shared.queue ≡ [])
          → Next s (record s { worker = writing batch 0 })
      write :
          (batch : List (MetricReport W)) (attempt : ℕ)
          → s.worker ≡ writing batch attempt
          → Next s (record s { worker = written batch; stored = s.stored ++ batch })
      retry :
          (batch : List (MetricReport W)) (attempt : ℕ) (message : Text)
          → s.worker ≡ writing batch attempt
          → attempt < writer_max_retries
          → Next s (record s {
            shared = on_diagnostics (λ d. set_writer_retrying (set_last_write_error message d)) s;
            worker = writing batch (suc attempt);
            stored = s.stored ++ kept_rows batch attempt;
          })
      give_up :
          (batch : List (MetricReport W)) (message : Text)
          → s.worker ≡ writing batch writer_max_retries
          → Next s (record s {
            shared = on_diagnostics (λ d. set_writer_failed (set_last_write_error message d)) s;
            worker = failing batch;
            stored = s.stored ++ kept_rows batch writer_max_retries;
          })
      confirm :
          (batch : List (MetricReport W))
          → s.worker ≡ written batch
          → Next s
              (record s { shared = on_diagnostics set_writer_running s; worker = confirmed batch })
      total :
          (batch : List (MetricReport W))
          → s.worker ≡ confirmed batch
          → Next s (record s {
            shared = on_diagnostics (increment_persisted_by (length batch)) s;
            worker = totalled batch;
          })
      mark :
          (batch : List (MetricReport W))
          → s.worker ≡ totalled batch
          → Next s (record s {
            shared = on_diagnostics (set_persisted_through_sequence (last_sequence batch)) s;
            worker = marked batch;
          })
      settle :
          (batch : List (MetricReport W))
          → s.worker ≡ marked batch
          → Next s (record s {
            shared = on_diagnostics (decrement_pending_by (length batch)) s;
            worker = waiting;
          })
      -- `metric_worker` returns its error: the receiver goes, and what the worker and the queue hold.
      die :
          (batch : List (MetricReport W))
          → s.worker ≡ failing batch
          → Next s (record s {
            shared = record (s.shared) { queue = []; receiver = false };
            worker = failed;
            lost = batch ++ s.shared.queue;
          })
      -- The worker's thread marks the failure once more.
      end_failed :
          s.worker ≡ failed
          → Next s (record s { shared = on_diagnostics set_writer_failed s; worker = ended })
      finish :
          s.worker ≡ waiting
          → s.shared.sender ≡ false
          → s.shared.queue ≡ []
          → Next s (record s { shared = record (s.shared) { receiver = false }; worker = ended })

    pub data Reach (s : System W) : System W → Type 0 where
      here : Reach s s
      later : {t u : System W} → Reach s t → Next t u → Reach s u

  -- A failed append stores nothing. `append_metric_batch` hands the rows to the database's appender
  -- one by one and then flushes it: whether an error on the way leaves rows is the database's.
  abbrev pub IsAtomic : (List (MetricReport W) → ℕ → List (MetricReport W)) → Type 0
  IsAtomic kept_rows = (batch : List (MetricReport W)) (attempt : ℕ) → kept_rows batch attempt ≡ []
