-- ===== src/Reporting/System/Steps/Cases.antt =====
-- The accounting invariant at the steps that move reports or count a batch.
use pulseon.Base.{
  ℕ, ◌<◌, ◌≡◌, refl, sym, ◌∙◌, true, false, List, [], ◌∷◌, ◌++◌, arith, length, length-append,
}
use mathlib.Core.Path.{subst}
use mathlib.Core.List.{append-nil}
use pulseon.Reporting.Diagnostics.{
  decrement_pending_by, increment_persisted_by, set_persisted_through_sequence,
}
use pulseon.Reporting.Reporter.{MetricReport, with_diagnostics}
use pulseon.Reporting.System.{
  counted, queued, waiting, collecting, writing, written, confirmed, totalled, marked, failing,
  failed, System, last_sequence,
}
use pulseon.Reporting.System.Numbered.{Numbered-append}
use pulseon.Reporting.System.Invariant.{Inv, Inv-sizes, IsSmall, unsettled, EndsWith}
use pulseon.Reporting.System.Steps.Splits.{
  append-ne-nil, send_split, collect_split, write_split, die_split, batch_last,
}

module _ {W : Type 0} where
  pub send-Inv :
      {s : System W} {report : MetricReport W}
      → Inv s
      → s.caller ≡ counted report
      → length s.shared.queue < s.shared.capacity
      → s.shared.receiver ≡ true
      → IsSmall (record s {
        shared = record (s.shared) { queue = s.shared.queue ++ report ∷ [] };
        caller = queued;
        accepted = s.accepted ++ report ∷ [];
      })
      → Inv (record s {
        shared = record (s.shared) { queue = s.shared.queue ++ report ∷ [] };
        caller = queued;
        accepted = s.accepted ++ report ∷ [];
      })
  send-Inv {s} {report} inv e lt up small =
      let none_lost : s.lost ≡ [] = inv.lost_none (sym inv.receiver ∙ up) in
      record {
        split = send_split s report none_lost inv.split;
        numbered = Numbered-append 1 s.accepted (report ∷ []) inv.numbered (ground arith, tt);
        next = ground (
          arith,
          Inv-sizes inv,
          length-append s.accepted (report ∷ []),
          length-append s.shared.queue (report ∷ []),
        );
        is_next = ground (
          arith,
          Inv-sizes inv,
          length-append s.accepted (report ∷ []),
          length-append s.shared.queue (report ∷ []),
        );
        pending = ground (
          arith,
          Inv-sizes inv,
          length-append s.accepted (report ∷ []),
          length-append s.shared.queue (report ∷ []),
        );
        persisted = ground (
          arith,
          Inv-sizes inv,
          length-append s.accepted (report ∷ []),
          length-append s.shared.queue (report ∷ []),
        );
        through = ground (
          arith,
          Inv-sizes inv,
          length-append s.accepted (report ∷ []),
          length-append s.shared.queue (report ∷ []),
        );
        tail = inv.tail;
        has_batch = ground (
          arith,
          Inv-sizes inv,
          length-append s.accepted (report ∷ []),
          length-append s.shared.queue (report ∷ []),
        );
        room = ground (
          arith,
          Inv-sizes inv,
          length-append s.accepted (report ∷ []),
          length-append s.shared.queue (report ∷ []),
        );
        receiver = ground (
          arith,
          Inv-sizes inv,
          length-append s.accepted (report ∷ []),
          length-append s.shared.queue (report ∷ []),
        );
        lost_none = ground (
          arith,
          Inv-sizes inv,
          length-append s.accepted (report ∷ []),
          length-append s.shared.queue (report ∷ []),
        );
        queue_none = ground (
          arith,
          Inv-sizes inv,
          length-append s.accepted (report ∷ []),
          length-append s.shared.queue (report ∷ []),
        );
      }

  pub collect-Inv :
      {s : System W} {batch rest : List (MetricReport W)} {report : MetricReport W}
      → Inv s
      → s.worker ≡ collecting batch
      → s.shared.queue ≡ report ∷ rest
      → IsSmall (record s {
        shared = record (s.shared) { queue = rest };
        worker = collecting (batch ++ report ∷ []);
      })
      → Inv (record s {
        shared = record (s.shared) { queue = rest };
        worker = collecting (batch ++ report ∷ []);
      })
  collect-Inv {s} {batch} {rest} {report} inv e h small = record {
    split = collect_split s batch rest report e h inv.split;
    numbered = ground (arith, Inv-sizes inv, length-append batch (report ∷ []));
    next = ground (arith, Inv-sizes inv, length-append batch (report ∷ []));
    is_next = ground (arith, Inv-sizes inv, length-append batch (report ∷ []));
    pending = ground (arith, Inv-sizes inv, length-append batch (report ∷ []));
    persisted = ground (arith, Inv-sizes inv, length-append batch (report ∷ []));
    through = ground (arith, Inv-sizes inv, length-append batch (report ∷ []));
    tail = (s.stored, sym (append-nil s.stored));
    has_batch = append-ne-nil batch report;
    room = ground (arith, Inv-sizes inv, length-append batch (report ∷ []));
    receiver = ground (arith, Inv-sizes inv, length-append batch (report ∷ []));
    lost_none = ground (arith, Inv-sizes inv, length-append batch (report ∷ []));
    queue_none = ground (arith, Inv-sizes inv, length-append batch (report ∷ []));
  }

  pub write-Inv :
      {s : System W} {batch : List (MetricReport W)} (attempt : ℕ)
      → Inv s
      → s.worker ≡ writing batch attempt
      → IsSmall (record s { worker = written batch; stored = s.stored ++ batch })
      → Inv (record s { worker = written batch; stored = s.stored ++ batch })
  write-Inv {s} {batch} attempt inv e small = record {
    split = write_split s batch attempt e inv.split;
    numbered = ground (arith, Inv-sizes inv, length-append s.stored batch);
    next = ground (arith, Inv-sizes inv, length-append s.stored batch);
    is_next = ground (arith, Inv-sizes inv, length-append s.stored batch);
    pending = ground (arith, Inv-sizes inv, length-append s.stored batch);
    persisted = ground (arith, Inv-sizes inv, length-append s.stored batch);
    through = ground (arith, Inv-sizes inv, length-append s.stored batch);
    tail = (s.stored, refl);
    has_batch = ground (arith, Inv-sizes inv, length-append s.stored batch);
    room = ground (arith, Inv-sizes inv, length-append s.stored batch);
    receiver = ground (arith, Inv-sizes inv, length-append s.stored batch);
    lost_none = ground (arith, Inv-sizes inv, length-append s.stored batch);
    queue_none = ground (arith, Inv-sizes inv, length-append s.stored batch);
  }

  pub total-Inv :
      {s : System W} {batch : List (MetricReport W)}
      → Inv s
      → s.worker ≡ confirmed batch
      → IsSmall (record s {
        shared = with_diagnostics (increment_persisted_by (length batch)) s.shared;
        worker = totalled batch;
      })
      → Inv (record s {
        shared = with_diagnostics (increment_persisted_by (length batch)) s.shared;
        worker = totalled batch;
      })
  unfolding increment_persisted_by
  total-Inv {s} {batch} inv e small = record {
    split = ground (arith, Inv-sizes inv);
    numbered = ground (arith, Inv-sizes inv);
    next = ground (arith, Inv-sizes inv);
    is_next = ground (arith, Inv-sizes inv);
    pending = ground (arith, Inv-sizes inv);
    persisted = ground (arith, Inv-sizes inv);
    through = ground (arith, Inv-sizes inv);
    tail = subst (λ w. EndsWith s.stored (unsettled w)) e inv.tail;
    has_batch = ground (arith, Inv-sizes inv);
    room = ground (arith, Inv-sizes inv);
    receiver = ground (arith, Inv-sizes inv);
    lost_none = ground (arith, Inv-sizes inv);
    queue_none = ground (arith, Inv-sizes inv);
  }

  pub mark-Inv :
      {s : System W} {batch : List (MetricReport W)}
      → Inv s
      → s.worker ≡ totalled batch
      → IsSmall (record s {
        shared = with_diagnostics (set_persisted_through_sequence (last_sequence batch)) s.shared;
        worker = marked batch;
      })
      → Inv (record s {
        shared = with_diagnostics (set_persisted_through_sequence (last_sequence batch)) s.shared;
        worker = marked batch;
      })
  unfolding set_persisted_through_sequence
  mark-Inv {s} {batch} inv e small = record {
    split = ground (arith, Inv-sizes inv, batch_last s batch e inv);
    numbered = ground (arith, Inv-sizes inv, batch_last s batch e inv);
    next = ground (arith, Inv-sizes inv, batch_last s batch e inv);
    is_next = ground (arith, Inv-sizes inv, batch_last s batch e inv);
    pending = ground (arith, Inv-sizes inv, batch_last s batch e inv);
    persisted = ground (arith, Inv-sizes inv, batch_last s batch e inv);
    through = ground (arith, Inv-sizes inv, batch_last s batch e inv);
    tail = subst (λ w. EndsWith s.stored (unsettled w)) e inv.tail;
    has_batch = ground (arith, Inv-sizes inv, batch_last s batch e inv);
    room = ground (arith, Inv-sizes inv, batch_last s batch e inv);
    receiver = ground (arith, Inv-sizes inv, batch_last s batch e inv);
    lost_none = ground (arith, Inv-sizes inv, batch_last s batch e inv);
    queue_none = ground (arith, Inv-sizes inv, batch_last s batch e inv);
  }

  pub settle-Inv :
      {s : System W} {batch : List (MetricReport W)}
      → Inv s
      → s.worker ≡ marked batch
      → IsSmall (record s {
        shared = with_diagnostics (decrement_pending_by (length batch)) s.shared;
        worker = waiting;
      })
      → Inv (record s {
        shared = with_diagnostics (decrement_pending_by (length batch)) s.shared;
        worker = waiting;
      })
  unfolding decrement_pending_by
  settle-Inv {s} {batch} inv e small = record {
    split = ground (arith, Inv-sizes inv);
    numbered = ground (arith, Inv-sizes inv);
    next = ground (arith, Inv-sizes inv);
    is_next = ground (arith, Inv-sizes inv);
    pending = ground (arith, Inv-sizes inv);
    persisted = ground (arith, Inv-sizes inv);
    through = ground (arith, Inv-sizes inv);
    tail = (s.stored, sym (append-nil s.stored));
    has_batch = ground (arith, Inv-sizes inv);
    room = ground (arith, Inv-sizes inv);
    receiver = ground (arith, Inv-sizes inv);
    lost_none = ground (arith, Inv-sizes inv);
    queue_none = ground (arith, Inv-sizes inv);
  }

  pub die-Inv :
      {s : System W} {batch : List (MetricReport W)}
      → Inv s
      → s.worker ≡ failing batch
      → IsSmall (record s {
        shared = record (s.shared) { queue = []; receiver = false };
        worker = failed;
        lost = batch ++ s.shared.queue;
      })
      → Inv (record s {
        shared = record (s.shared) { queue = []; receiver = false };
        worker = failed;
        lost = batch ++ s.shared.queue;
      })
  die-Inv {s} {batch} inv e small = record {
    split = die_split s batch e (inv.lost_none (ground arith)) inv.split;
    numbered = ground (arith, Inv-sizes inv, length-append batch s.shared.queue);
    next = ground (arith, Inv-sizes inv, length-append batch s.shared.queue);
    is_next = ground (arith, Inv-sizes inv, length-append batch s.shared.queue);
    pending = ground (arith, Inv-sizes inv, length-append batch s.shared.queue);
    persisted = ground (arith, Inv-sizes inv, length-append batch s.shared.queue);
    through = ground (arith, Inv-sizes inv, length-append batch s.shared.queue);
    tail = (s.stored, sym (append-nil s.stored));
    has_batch = ground (arith, Inv-sizes inv, length-append batch s.shared.queue);
    room = ground (arith, Inv-sizes inv, length-append batch s.shared.queue);
    receiver = ground (arith, Inv-sizes inv, length-append batch s.shared.queue);
    lost_none = ground (arith, Inv-sizes inv, length-append batch s.shared.queue);
    queue_none = ground (arith, Inv-sizes inv, length-append batch s.shared.queue);
  }
