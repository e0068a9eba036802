-- ===== src/Reporting/System/Persisted.antt =====
-- The persisted counter never falls.
use pulseon.Base.{ℕ, ◌≤◌, List, arith}
use pulseon.Reporting.Diagnostics.{
  increment_pending, decrement_pending, decrement_pending_by, increment_accepted,
  increment_queue_full, increment_persisted_by, set_persisted_through_sequence, set_writer_running,
  set_writer_retrying, set_writer_failed, set_writer_closed, set_last_write_error,
}
use pulseon.Reporting.Reporter.{MetricReport, begin_report, advance_sequence}
use pulseon.Reporting.System.{
  System, Next, load, count, send, send_full, send_closed, advance, accept, uncount_full, note_full,
  uncount_closed, take_sender, close, receive, collect, collected, write, retry, give_up, confirm,
  total, mark, settle, die, end_failed, finish, Reach, here, later, IsAtomic,
}
use pulseon.Reporting.System.Invariant.{Inv, Inv-sizes, IsSmall}
use pulseon.Reporting.System.Steps.{Reach-grows, Reach-Inv}
use pulseon.Reporting.System.Steps.Splits.{sent_lem}

module _ {W : Type 0} {kept_rows : List (MetricReport W) → ℕ → List (MetricReport W)} where
  Next-persisted :
      {s t : System W}
      → Next kept_rows s t
      → IsSmall s
      → Inv s
      → s.shared.diagnostics.persisted_reports ≤ t.shared.diagnostics.persisted_reports
  unfolding begin_report increment_pending decrement_pending decrement_pending_by increment_accepted
      increment_queue_full increment_persisted_by set_persisted_through_sequence set_writer_running
      set_writer_retrying set_writer_failed set_writer_closed set_last_write_error advance_sequence
  Next-persisted {s} (send report shared e h) small inv =
      ground (arith, sent_lem s.shared shared report h)
  Next-persisted (load run_id metric_key step value now report e h) small inv = omega arith
  Next-persisted (count report e) small inv = omega arith
  Next-persisted (send_full report shared e h) small inv = omega arith
  Next-persisted (send_closed report shared e h) small inv = omega arith
  Next-persisted (advance e) small inv = omega arith
  Next-persisted (accept e) small inv = omega arith
  Next-persisted (uncount_full e) small inv = omega arith
  Next-persisted (note_full e) small inv = omega arith
  Next-persisted (uncount_closed e) small inv = omega arith
  Next-persisted (take_sender e) small inv = omega arith
  Next-persisted (close e) small inv = omega arith
  Next-persisted (receive report rest e h) small inv = omega arith
  Next-persisted (collect batch report rest e lt h) small inv = omega arith
  Next-persisted (collected batch e h) small inv = omega arith
  Next-persisted (write batch attempt e) small inv = omega arith
  Next-persisted (retry batch attempt message e lt) small inv = omega arith
  Next-persisted (give_up batch message e) small inv = omega arith
  Next-persisted (confirm batch e) small inv = omega arith
  Next-persisted (total batch e) small inv = ground (arith, Inv-sizes inv, inv.persisted)
  Next-persisted (mark batch e) small inv = omega arith
  Next-persisted (settle batch e) small inv = omega arith
  Next-persisted (die batch e) small inv = omega arith
  Next-persisted (end_failed e) small inv = omega arith
  Next-persisted (finish e f g) small inv = omega arith

  pub IsSmall-back : {s t : System W} → Reach kept_rows s t → IsSmall t → IsSmall s
  IsSmall-back r small = omega (arith, Reach-grows r)

  pub Reach-persisted :
      {s t : System W}
      → IsAtomic kept_rows
      → Reach kept_rows s t
      → IsSmall t
      → Inv s
      → s.shared.diagnostics.persisted_reports ≤ t.shared.diagnostics.persisted_reports
  Reach-persisted atomic here small inv = omega arith
  Reach-persisted atomic (later r n) small inv =
      let before = IsSmall-back (later here n) small in
      omega (
        arith,
        Reach-persisted atomic r before inv,
        Next-persisted n before (Reach-Inv atomic r before inv),
      )
