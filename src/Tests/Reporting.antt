-- ===== src/Tests/Reporting.antt =====
-- The reporter and its worker at concrete inputs.
mod Paths
use pulseon.Base.{
  ℕ, zero, suc, ◌<◌, ◌≤◌, ◌≡◌, ◌↔◌, ◌⊎◌, ◌++◌, inr, refl, Bool, true, false, Option, none, some,
  List, [], ◌∷◌, Text, codes, ℤ, pos, ◌+ℤ◌, ◌≤ℤ◌, arith, length, map, Result, ok, err,
}
use pulseon.Sample.Whole.{Whole, whole_f64}
use pulseon.Engine.Error.{EngineError}
use pulseon.Reporting.Diagnostics.{
  is_writer_failed, snapshot, increment_pending, decrement_pending_by, increment_accepted,
  increment_persisted_by, set_persisted_through_sequence, set_writer_running, set_writer_retrying,
  set_writer_failed, set_last_write_error, writer_running, no_diagnostics,
}
use pulseon.Reporting.Reporter.{
  MetricReport, open_with_capacity, begin_report, try_send, advance_sequence, drain_through,
  report_metric, is_ok,
}
use pulseon.Reporting.Retry.{
  retry_metric_batch_write, writer_max_retries, MetricWrite, write_metric_batch,
}
use pulseon.Reporting.Retry.Laws.{retry_metric_batch_write_lem, StampedFrom, write_metric_batch_lem}
use pulseon.Reporting.System.{
  Caller, idle, loaded, counted, queued, advanced, Worker, waiting, collecting, writing, written,
  confirmed, totalled, marked, failing, failed, ended, System, initial, Reach, here, later, load,
  count, send, advance, accept, receive, collected, write, retry, give_up, confirm, total, mark,
  settle, die, end_failed, IsAtomic,
}
use pulseon.Reporting.System.Numbered.{Numbered}
use pulseon.Reporting.System.Drain.{Reach-stored, snapshot-drained}
use pulseon.Reporting.System.Latch.{ended-drain_waits}
use pulseon.Reporting.System.Call.{report_metric_iff, report_metric-Reach}
use pulseon.Tests.Reporting.Paths.{
  report, start, from_start_to_marked_one, from_start_to_settled_one, unlatched, nothing_kept,
}

nothing_kept-IsAtomic : IsAtomic nothing_kept
nothing_kept-IsAtomic batch attempt = refl

Reach-stored_example :
    ((rest : List (MetricReport Whole)) × ((report ∷ []) ≡ (report ∷ []) ++ rest))
    × (Numbered 1 (report ∷ []))
    × (0 ≤ 4)
    × (1 ≤ 1)
    × (1 ≤ 1)
Reach-stored_example = Reach-stored nothing_kept-IsAtomic 4 from_start_to_marked_one (omega arith)

snapshot-drained_example : ((report ∷ []) ≡ (report ∷ [])) × (length (report ∷ []) ≤ 1)
unfolding snapshot
snapshot-drained_example =
    snapshot-drained nothing_kept-IsAtomic 4 no_diagnostics no_diagnostics no_diagnostics
      no_diagnostics no_diagnostics from_start_to_settled_one here here (omega arith) refl

ended-drain_waits_example :
    drain_through 1
      (map (λ (t : System Whole). (t.shared.diagnostics, false)) (unlatched ∷ unlatched ∷ []))
    ≡ none
unfolding is_writer_failed
ended-drain_waits_example =
    ended-drain_waits nothing_kept unlatched 1 (unlatched ∷ unlatched ∷ []) refl (omega arith) refl
      (here, (here, tt))

report_metric-Reach_example :
    (t : System Whole) × (Reach nothing_kept start t)
    × (t.caller ≡ idle)
    × (t.shared
        ≡ (report_metric
            (start.shared)
            (codes "r")
            (codes "loss")
            (pos 1)
            (some (pos 5))
            (pos 7)).0)
report_metric-Reach_example =
    report_metric-Reach nothing_kept start (codes "r") (codes "loss") (pos 1) (some (pos 5)) (pos 7)
      refl

report_metric_iff_example :
    ((is_ok
          (report_metric (start.shared) (codes "r") (codes "loss") (pos 1) (some (pos 5)) (pos 7)).1
        ≡ true)
      ↔ ((true ≡ true)
          × (is_writer_failed (start.shared.diagnostics) ≡ false)
          × (true ≡ true)
          × (0 < 4)))
    × ((is_ok
            (report_metric
              (start.shared)
              (codes "r")
              (codes "loss")
              (pos 1)
              (some (pos 5))
              (pos 7)).1
          ≡ true)
        ⊎ (((report_metric
                (start.shared)
                (codes "r")
                (codes "loss")
                (pos 1)
                (some (pos 5))
                (pos 7)).0.queue
              ≡ [])
            × ((report_metric
                  (start.shared)
                  (codes "r")
                  (codes "loss")
                  (pos 1)
                  (some (pos 5))
                  (pos 7)).0.next_enqueue_sequence
                ≡ 1)
            × ((report_metric
                  (start.shared)
                  (codes "r")
                  (codes "loss")
                  (pos 1)
                  (some (pos 5))
                  (pos 7)).0.diagnostics.pending_reports
                ≡ 0)))
unfolding open_with_capacity
report_metric_iff_example =
    report_metric_iff (start.shared) (codes "r") (codes "loss") (pos 1) (some (pos 5)) (pos 7)
      (omega arith)

abbrev third_succeeds : ℕ → Result EngineError ℤ
third_succeeds zero = err EngineError.metric_queue_full
third_succeeds (suc zero) = err EngineError.metric_queue_full
third_succeeds (suc (suc n)) = ok (pos 9)

retry_metric_batch_write_lem_example :
    let r = retry_metric_batch_write (λ e. codes "disk") third_succeeds no_diagnostics in
    (r.result ≡ ok (pos 9))
    × (r.attempts ≡ 3)
    × (r.sleeps ≡ 50 ∷ 100 ∷ [])
    × (2 ≤ writer_max_retries)
    × ((is_ok (third_succeeds 2) ≡ false) ⊎ (r.diagnostics.writer_state ≡ writer_running))
retry_metric_batch_write_lem_example =
    retry_metric_batch_write_lem (λ e. codes "disk") third_succeeds no_diagnostics

-- The store is the rows it holds.
abbrev stores :
    List (MetricWrite Whole)
    → List (MetricWrite Whole)
    → Result EngineError (Unit {0}) × List (MetricWrite Whole)
stores held rows = (ok tt, held ++ rows)

write_metric_batch_lem_example :
    let (result, held) = write_metric_batch stores [] (report ∷ []) (pos 3) (pos 8) in
    (rows : List (MetricWrite Whole)) × (start : ℤ) × StampedFrom start (report ∷ []) rows
    × (pos 3 ≤ℤ start)
    × (pos 8 ≤ℤ start)
    × (held ≡ rows)
    × (((◌≡◌ {A = Result EngineError (Unit {0})} (ok tt) (ok tt)) × (result ≡ ok (start +ℤ pos 1)))
        ⊎ ((e : EngineError) × (◌≡◌ {A = Result EngineError (Unit {0})} (ok tt) (err e))
            × (result ≡ err e)))
write_metric_batch_lem_example = write_metric_batch_lem stores [] (report ∷ []) (pos 3) (pos 8)
