-- ===== src/Reporting/System/Call.antt =====
-- `report_metric` as a whole: its outcomes, and the steps of the system that it stands for.
use pulseon.Base.{
  ◌<◌, ◌≡◌, ◌≢◌, ◌⊎◌, ◌↔◌, inl, inr, refl, sym, ap, ◌∙◌, true, false, ℤ, Result, ok, err, arith,
  length, ℕ, List,
}
use pulseon.Model.Run.{RunId}
use pulseon.Model.Metric.{MetricKey, Step}
use pulseon.Engine.Error.{EngineError}
use pulseon.Reporting.Diagnostics.{
  u64_mod, is_writer_failed, increment_pending, decrement_pending, increment_accepted,
  increment_queue_full,
}
use pulseon.Reporting.Reporter.{
  MetricReport, Reporter, begin_report, try_send, SendOutcome, sent, full, disconnected,
  advance_sequence, finish_report, report_metric, with_diagnostics, is_ok,
}
use pulseon.Reporting.System.{
  idle, counted, System, Reach, here, later, load, count, send, send_full, send_closed, advance,
  accept, uncount_full, note_full, uncount_closed,
}

Result-cases {ℓ κ} :
    {E : Type ℓ} {A : Type κ} (r : Result E A) → ((e : E) × (r ≡ err e)) ⊎ ((a : A) × (r ≡ ok a))
Result-cases (ok a) = inr (a, refl)
Result-cases (err e) = inl (e, refl)

module _ {W : Type 0} where
  -- A call of `report_metric` succeeds exactly when the sender is there, the writer has not
  -- failed, the receiver is there and the queue has room; a refused call leaves the queue, the next
  -- sequence number and, when it is below the wrap-around, the number of pending reports.
  pub report_metric_iff :
      (s : Reporter W) (run_id : RunId) (metric_key : MetricKey) (step : Step) (value : W) (now : ℤ)
      → s.diagnostics.pending_reports < u64_mod
      → ((is_ok (report_metric s run_id metric_key step value now).1 ≡ true) ↔ (
          (s.sender ≡ true)
          × (is_writer_failed s.diagnostics ≡ false)
          × (s.receiver ≡ true)
          × (length s.queue < s.capacity)))
        × ((is_ok (report_metric s run_id metric_key step value now).1 ≡ true)
            ⊎ (((report_metric s run_id metric_key step value now).0.queue ≡ s.queue)
                × ((report_metric s run_id metric_key step value now).0.next_enqueue_sequence
                    ≡ s.next_enqueue_sequence)
                × ((report_metric s run_id metric_key step value now).0.diagnostics.pending_reports
                    ≡ s.diagnostics.pending_reports)))
  unfolding report_metric begin_report try_send finish_report advance_sequence increment_pending
      decrement_pending increment_accepted increment_queue_full
  report_metric_iff s run_id metric_key step value now small = ground arith

  refused :
      (shared shared' : Reporter W) (report : MetricReport W) (outcome : SendOutcome)
      → try_send shared report ≡ (shared', outcome)
      → outcome ≢ sent
      → shared' ≡ shared
  unfolding try_send
  refused shared shared' report outcome e ne = ground (arith, e)

  report_refused :
      (s : Reporter W) (run_id : RunId) (metric_key : MetricKey) (step : Step) (value : W) (now : ℤ)
      (e : EngineError)
      → begin_report s run_id metric_key step value now ≡ err e
      → (report_metric s run_id metric_key step value now).0 ≡ s
  unfolding report_metric
  report_refused s run_id metric_key step value now e h = ground (arith, h)

  report_sent :
      (s : Reporter W) (run_id : RunId) (metric_key : MetricKey) (step : Step) (value : W) (now : ℤ)
      (report : MetricReport W)
      → begin_report s run_id metric_key step value now ≡ ok report
      → (report_metric s run_id metric_key step value now).0
        ≡ (finish_report
            (try_send (with_diagnostics increment_pending s) report).0
            (try_send (with_diagnostics increment_pending s) report).1).0
  unfolding report_metric
  report_sent s run_id metric_key step value now report h = ground (arith, h)

module _ {W : Type 0} (kept_rows : List (MetricReport W) → ℕ → List (MetricReport W)) where
  -- The steps from the send on.
  finish_report-Reach :
      (s t : System W) (report : MetricReport W) (shared : Reporter W) (outcome : SendOutcome)
      → Reach kept_rows s t
      → t.caller ≡ counted report
      → try_send t.shared report ≡ (shared, outcome)
      → (u : System W) × (Reach kept_rows s u)
        × (u.caller ≡ idle)
        × (u.shared ≡ (finish_report shared outcome).0)
  unfolding finish_report
  finish_report-Reach s t report shared sent r c e =
      (_, later (later (later r (send report shared c e)) (advance refl)) (accept refl), refl, refl)
  finish_report-Reach s t report shared full r c e = (
    _,
    later (later (later r (send_full report shared c e)) (uncount_full refl)) (note_full refl),
    refl,
    ap (λ sh. (finish_report sh full).0) (sym (refused t.shared shared report full e (λ x. cc x))),
  )
  finish_report-Reach s t report shared disconnected r c e = (
    _,
    later (later r (send_closed report shared c e)) (uncount_closed refl),
    refl,
    ap (λ sh. (finish_report sh disconnected).0)
        (sym (refused t.shared shared report disconnected e (λ x. cc x))),
  )

  -- Where no thread is inside `report_metric`, a call is a sequence of steps that lead to the state
  -- that it computes, with no thread inside again.
  pub report_metric-Reach :
      (s : System W) (run_id : RunId) (metric_key : MetricKey) (step : Step) (value : W) (now : ℤ)
      → s.caller ≡ idle
      → (t : System W) × (Reach kept_rows s t)
        × (t.caller ≡ idle)
        × (t.shared ≡ (report_metric s.shared run_id metric_key step value now).0)
  report_metric-Reach s run_id metric_key step value now c =
      elim (Result-cases (begin_report s.shared run_id metric_key step value now)) [
        | inl (e, same) ↦
            (s, here, c, sym (report_refused s.shared run_id metric_key step value now e same))
        | inr (report, same) ↦
            let (t, r, i, end) =
              finish_report-Reach s
                (record s {
                  shared = with_diagnostics increment_pending s.shared;
                  caller = counted report;
                })
                report (try_send (with_diagnostics increment_pending s.shared) report).0
                (try_send (with_diagnostics increment_pending s.shared) report).1
                (later (later here (load run_id metric_key step value now report c same))
                  (count report refl))
                refl refl in
            (t, r, i, end ∙ sym (report_sent s.shared run_id metric_key step value now report same))
      ]
