-- ===== src/Reporting/System/Steps.antt =====
-- The accounting invariant along the steps of the system.
pub mod Splits
mod Cases
use pulseon.Base.{
  ℕ, ◌+◌, ◌<◌, ◌≤◌, ◌≡◌, ◌≢◌, refl, sym, ap, ◌∙◌, true, false, List, [], ◌∷◌, ◌++◌, arith, length,
  length-append,
}
use mathlib.Core.Path.{subst}
use mathlib.Core.List.{append_assoc, append-nil}
use pulseon.Reporting.Diagnostics.{
  increment_pending, decrement_pending, decrement_pending_by, increment_accepted,
  increment_queue_full, increment_persisted_by, set_persisted_through_sequence, set_writer_running,
  set_writer_retrying, set_writer_failed, set_writer_closed, set_last_write_error,
}
use pulseon.Reporting.Reporter.{
  MetricReport, Reporter, begin_report, try_send, sent, advance_sequence, with_diagnostics,
}
use pulseon.Reporting.Retry.{writer_max_retries}
use pulseon.Reporting.System.{
  counted, queued, waiting, collecting, writing, written, confirmed, totalled, marked, failing,
  failed, System, last_sequence, Next, load, count, send, send_full, send_closed, advance, accept,
  uncount_full, note_full, uncount_closed, take_sender, close, receive, collect, collected, write,
  retry, give_up, confirm, total, mark, settle, die, end_failed, finish, Reach, here, later,
  IsAtomic,
}
use pulseon.Reporting.System.Numbered.{
  Numbered, Numbered-append, Numbered-append_inv, last_sequence_lem,
}
use pulseon.Reporting.System.Invariant.{
  Inv, Inv-sizes, IsSmall, unstored, unsettled, HasBatch, EndsWith,
}
use pulseon.Reporting.System.Steps.Splits.{
  snoc_split, snoc_middle, append-ne-nil, sent_lem, send_split, collect_split, write_split,
  die_split, batch_last,
}
use pulseon.Reporting.System.Steps.Cases.{
  send-Inv, collect-Inv, write-Inv, total-Inv, mark-Inv, settle-Inv, die-Inv,
}

module _ {W : Type 0} {kept_rows : List (MetricReport W) → ℕ → List (MetricReport W)} where
  pub Next-Inv :
      {s t : System W} → IsAtomic kept_rows → Next kept_rows s t → IsSmall t → Inv s → Inv t
  unfolding begin_report increment_pending decrement_pending decrement_pending_by increment_accepted
      increment_queue_full increment_persisted_by set_persisted_through_sequence set_writer_running
      set_writer_retrying set_writer_failed set_writer_closed set_last_write_error advance_sequence
  Next-Inv atomic (load run_id metric_key step value now report e h) small inv =
      ground (arith, Inv-sizes inv)
  Next-Inv atomic (count report e) small inv = ground (arith, Inv-sizes inv)
  Next-Inv {s} atomic (send report shared e h) small inv =
      let (same, lt, up) = sent_lem s.shared shared report h in
      subst
        (λ (sh : Reporter W).
          Inv (record s { shared = sh; caller = queued; accepted = s.accepted ++ report ∷ [] }))
        (sym same) (send-Inv inv e lt up small)
  Next-Inv atomic (send_full report shared e h) small inv = ground (arith, Inv-sizes inv)
  Next-Inv atomic (send_closed report shared e h) small inv = ground (arith, Inv-sizes inv)
  Next-Inv atomic (advance e) small inv = ground (arith, Inv-sizes inv)
  Next-Inv atomic (accept e) small inv = ground (arith, Inv-sizes inv)
  Next-Inv atomic (uncount_full e) small inv = ground (arith, Inv-sizes inv)
  Next-Inv atomic (note_full e) small inv = ground (arith, Inv-sizes inv)
  Next-Inv atomic (uncount_closed e) small inv = ground (arith, Inv-sizes inv)
  Next-Inv atomic (take_sender e) small inv = ground (arith, Inv-sizes inv)
  Next-Inv atomic (close e) small inv = ground (arith, Inv-sizes inv)
  Next-Inv atomic (receive report rest e h) small inv = ground (arith, Inv-sizes inv)
  Next-Inv atomic (collect batch report rest e lt h) small inv = collect-Inv inv e h small
  Next-Inv atomic (collected batch e h) small inv = ground (arith, Inv-sizes inv)
  Next-Inv atomic (write batch attempt e) small inv = write-Inv attempt inv e small
  Next-Inv {s} atomic (retry batch attempt message e lt) small inv =
      ground (arith, Inv-sizes inv, atomic batch attempt, append-nil s.stored)
  Next-Inv {s} atomic (give_up batch message e) small inv =
      ground (arith, Inv-sizes inv, atomic batch writer_max_retries, append-nil s.stored)
  Next-Inv atomic (confirm batch e) small inv = ground (arith, Inv-sizes inv)
  Next-Inv atomic (total batch e) small inv = total-Inv inv e small
  Next-Inv atomic (mark batch e) small inv = mark-Inv inv e small
  Next-Inv atomic (settle batch e) small inv = settle-Inv inv e small
  Next-Inv atomic (die batch e) small inv = die-Inv inv e small
  Next-Inv atomic (end_failed e) small inv = ground (arith, Inv-sizes inv)
  Next-Inv atomic (finish e f g) small inv = ground (arith, Inv-sizes inv)

  Next-grows : {s t : System W} → Next kept_rows s t → length s.accepted ≤ length t.accepted
  Next-grows {s} (send report shared e h) = omega (arith, length-append s.accepted (report ∷ []))
  Next-grows (load run_id metric_key step value now report e h) = omega arith
  Next-grows (count report e) = omega arith
  Next-grows (send_full report shared e h) = omega arith
  Next-grows (send_closed report shared e h) = omega arith
  Next-grows (advance e) = omega arith
  Next-grows (accept e) = omega arith
  Next-grows (uncount_full e) = omega arith
  Next-grows (note_full e) = omega arith
  Next-grows (uncount_closed e) = omega arith
  Next-grows (take_sender e) = omega arith
  Next-grows (close e) = omega arith
  Next-grows (receive report rest e h) = omega arith
  Next-grows (collect batch report rest e lt h) = omega arith
  Next-grows (collected batch e h) = omega arith
  Next-grows (write batch attempt e) = omega arith
  Next-grows (retry batch attempt message e lt) = omega arith
  Next-grows (give_up batch message e) = omega arith
  Next-grows (confirm batch e) = omega arith
  Next-grows (total batch e) = omega arith
  Next-grows (mark batch e) = omega arith
  Next-grows (settle batch e) = omega arith
  Next-grows (die batch e) = omega arith
  Next-grows (end_failed e) = omega arith
  Next-grows (finish e f g) = omega arith

  pub Reach-grows : {s t : System W} → Reach kept_rows s t → length s.accepted ≤ length t.accepted
  Reach-grows here = omega arith
  Reach-grows (later r n) = omega (arith, Reach-grows r, Next-grows n)

  -- In a state that steps lead to from one that keeps the invariant, the invariant holds while
  -- the number of accepted reports is not near the wrap-around of the counters.
  pub Reach-Inv :
      {s t : System W} → IsAtomic kept_rows → Reach kept_rows s t → IsSmall t → Inv s → Inv t
  Reach-Inv atomic here small inv = inv
  Reach-Inv atomic (later r n) small inv =
      Next-Inv atomic n small (Reach-Inv atomic r (omega (arith, Next-grows n)) inv)
