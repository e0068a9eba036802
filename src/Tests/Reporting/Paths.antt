-- ===== src/Tests/Reporting/Paths.antt =====
-- Two runs of the reporter and its worker: one report that is stored, and one whose worker gives
-- up between the caller's send and its last update.
use pulseon.Base.{
  ℕ, inr, refl, Bool, true, false, Option, none, some, List, [], ◌∷◌, Text, codes, pos, arith,
}
use pulseon.Sample.Whole.{Whole, whole_f64}
use pulseon.Reporting.Diagnostics.{
  is_writer_failed, increment_pending, decrement_pending_by, increment_accepted,
  increment_persisted_by, set_persisted_through_sequence, set_writer_running, set_writer_retrying,
  set_writer_failed, set_last_write_error, no_diagnostics,
}
use pulseon.Reporting.Reporter.{
  MetricReport, open_with_capacity, begin_report, try_send, advance_sequence,
}
use pulseon.Reporting.System.{
  Caller, idle, loaded, counted, queued, advanced, Worker, waiting, collecting, writing, written,
  confirmed, totalled, marked, failing, failed, ended, System, initial, Reach, here, later, load,
  count, send, advance, accept, receive, collected, write, retry, give_up, confirm, total, mark,
  settle, die, end_failed,
}

abbrev pub report : MetricReport Whole
report = record {
  run_id = codes "r";
  metric_key = codes "loss";
  step = pos 1;
  value_f64 = some (pos 5);
  timestamp_millis = pos 7;
  enqueue_sequence = 1;
}

abbrev pub nothing_kept : List (MetricReport Whole) → ℕ → List (MetricReport Whole)
nothing_kept batch attempt = []

abbrev pub start : System Whole
start = initial 4

abbrev pub system :
    Caller Whole
    → Worker Whole
    → (receiver : Bool) → (queue : List (MetricReport Whole))
    → (next pending persisted through writer_state : ℕ) → Option Text
    → (stored accepted lost : List (MetricReport Whole)) → System Whole
system caller worker receiver queue next pending persisted through writer_state error stored
      accepted lost =
    record {
      shared = record {
        sender = true;
        receiver = receiver;
        capacity = 4;
        queue = queue;
        diagnostics = record no_diagnostics {
          pending_reports = pending;
          persisted_reports = persisted;
          persisted_through_sequence = through;
          writer_state = writer_state;
          last_write_error = error;
        };
        next_enqueue_sequence = next;
      };
      caller = caller;
      worker = worker;
      stored = stored;
      accepted = accepted;
      lost = lost;
    }

abbrev loaded_one : System Whole
loaded_one = system (loaded report) waiting true [] 1 0 0 0 0 none [] [] []

from_start_to_loaded_one : Reach nothing_kept start loaded_one
unfolding open_with_capacity begin_report try_send advance_sequence increment_pending
    decrement_pending_by increment_accepted increment_persisted_by set_persisted_through_sequence
    set_writer_running set_writer_retrying set_writer_failed set_last_write_error is_writer_failed
from_start_to_loaded_one =
    later here (load (codes "r") (codes "loss") (pos 1) (some (pos 5)) (pos 7) report refl refl)

abbrev counted_one : System Whole
counted_one = system (counted report) waiting true [] 1 1 0 0 0 none [] [] []

from_start_to_counted_one : Reach nothing_kept start counted_one
unfolding open_with_capacity begin_report try_send advance_sequence increment_pending
    decrement_pending_by increment_accepted increment_persisted_by set_persisted_through_sequence
    set_writer_running set_writer_retrying set_writer_failed set_last_write_error is_writer_failed
from_start_to_counted_one = later from_start_to_loaded_one (count report refl)

abbrev queued_one : System Whole
queued_one = system queued waiting true (report ∷ []) 1 1 0 0 0 none [] (report ∷ []) []

from_start_to_queued_one : Reach nothing_kept start queued_one
unfolding open_with_capacity begin_report try_send advance_sequence increment_pending
    decrement_pending_by increment_accepted increment_persisted_by set_persisted_through_sequence
    set_writer_running set_writer_retrying set_writer_failed set_last_write_error is_writer_failed
from_start_to_queued_one =
    later from_start_to_counted_one (send report (queued_one.shared) refl refl)

abbrev advanced_one : System Whole
advanced_one = system advanced waiting true (report ∷ []) 2 1 0 0 0 none [] (report ∷ []) []

from_start_to_advanced_one : Reach nothing_kept start advanced_one
unfolding open_with_capacity begin_report try_send advance_sequence increment_pending
    decrement_pending_by increment_accepted increment_persisted_by set_persisted_through_sequence
    set_writer_running set_writer_retrying set_writer_failed set_last_write_error is_writer_failed
from_start_to_advanced_one = later from_start_to_queued_one (advance refl)

abbrev pub accepted_one : System Whole
accepted_one = system idle waiting true (report ∷ []) 2 1 0 0 0 none [] (report ∷ []) []

pub from_start_to_accepted_one : Reach nothing_kept start accepted_one
unfolding open_with_capacity begin_report try_send advance_sequence increment_pending
    decrement_pending_by increment_accepted increment_persisted_by set_persisted_through_sequence
    set_writer_running set_writer_retrying set_writer_failed set_last_write_error is_writer_failed
from_start_to_accepted_one = later from_start_to_advanced_one (accept refl)

abbrev collecting_one : System Whole
collecting_one = system idle (collecting (report ∷ [])) true [] 2 1 0 0 0 none [] (report ∷ []) []

from_accepted_one_to_collecting_one : Reach nothing_kept accepted_one collecting_one
unfolding open_with_capacity begin_report try_send advance_sequence increment_pending
    decrement_pending_by increment_accepted increment_persisted_by set_persisted_through_sequence
    set_writer_running set_writer_retrying set_writer_failed set_last_write_error is_writer_failed
from_accepted_one_to_collecting_one = later here (receive report [] refl refl)

from_start_to_collecting_one : Reach nothing_kept start collecting_one
unfolding open_with_capacity begin_report try_send advance_sequence increment_pending
    decrement_pending_by increment_accepted increment_persisted_by set_persisted_through_sequence
    set_writer_running set_writer_retrying set_writer_failed set_last_write_error is_writer_failed
from_start_to_collecting_one = later from_start_to_accepted_one (receive report [] refl refl)

abbrev writing_one : System Whole
writing_one = system idle (writing (report ∷ []) 0) true [] 2 1 0 0 0 none [] (report ∷ []) []

from_accepted_one_to_writing_one : Reach nothing_kept accepted_one writing_one
unfolding open_with_capacity begin_report try_send advance_sequence increment_pending
    decrement_pending_by increment_accepted increment_persisted_by set_persisted_through_sequence
    set_writer_running set_writer_retrying set_writer_failed set_last_write_error is_writer_failed
from_accepted_one_to_writing_one =
    later from_accepted_one_to_collecting_one (collected (report ∷ []) refl (inr refl))

from_start_to_writing_one : Reach nothing_kept start writing_one
unfolding open_with_capacity begin_report try_send advance_sequence increment_pending
    decrement_pending_by increment_accepted increment_persisted_by set_persisted_through_sequence
    set_writer_running set_writer_retrying set_writer_failed set_last_write_error is_writer_failed
from_start_to_writing_one =
    later from_start_to_collecting_one (collected (report ∷ []) refl (inr refl))

abbrev written_one : System Whole
written_one =
    system idle (written (report ∷ [])) true [] 2 1 0 0 0 none (report ∷ []) (report ∷ []) []

from_accepted_one_to_written_one : Reach nothing_kept accepted_one written_one
unfolding open_with_capacity begin_report try_send advance_sequence increment_pending
    decrement_pending_by increment_accepted increment_persisted_by set_persisted_through_sequence
    set_writer_running set_writer_retrying set_writer_failed set_last_write_error is_writer_failed
from_accepted_one_to_written_one =
    later from_accepted_one_to_writing_one (write (report ∷ []) 0 refl)

from_start_to_written_one : Reach nothing_kept start written_one
unfolding open_with_capacity begin_report try_send advance_sequence increment_pending
    decrement_pending_by increment_accepted increment_persisted_by set_persisted_through_sequence
    set_writer_running set_writer_retrying set_writer_failed set_last_write_error is_writer_failed
from_start_to_written_one = later from_start_to_writing_one (write (report ∷ []) 0 refl)

abbrev confirmed_one : System Whole
confirmed_one =
    system idle (confirmed (report ∷ [])) true [] 2 1 0 0 0 none (report ∷ []) (report ∷ []) []

from_accepted_one_to_confirmed_one : Reach nothing_kept accepted_one confirmed_one
unfolding open_with_capacity begin_report try_send advance_sequence increment_pending
    decrement_pending_by increment_accepted increment_persisted_by set_persisted_through_sequence
    set_writer_running set_writer_retrying set_writer_failed set_last_write_error is_writer_failed
from_accepted_one_to_confirmed_one =
    later from_accepted_one_to_written_one (confirm (report ∷ []) refl)

from_start_to_confirmed_one : Reach nothing_kept start confirmed_one
unfolding open_with_capacity begin_report try_send advance_sequence increment_pending
    decrement_pending_by increment_accepted increment_persisted_by set_persisted_through_sequence
    set_writer_running set_writer_retrying set_writer_failed set_last_write_error is_writer_failed
from_start_to_confirmed_one = later from_start_to_written_one (confirm (report ∷ []) refl)

abbrev totalled_one : System Whole
totalled_one =
    system idle (totalled (report ∷ [])) true [] 2 1 1 0 0 none (report ∷ []) (report ∷ []) []

from_accepted_one_to_totalled_one : Reach nothing_kept accepted_one totalled_one
unfolding open_with_capacity begin_report try_send advance_sequence increment_pending
    decrement_pending_by increment_accepted increment_persisted_by set_persisted_through_sequence
    set_writer_running set_writer_retrying set_writer_failed set_last_write_error is_writer_failed
from_accepted_one_to_totalled_one =
    later from_accepted_one_to_confirmed_one (total (report ∷ []) refl)

from_start_to_totalled_one : Reach nothing_kept start totalled_one
unfolding open_with_capacity begin_report try_send advance_sequence increment_pending
    decrement_pending_by increment_accepted increment_persisted_by set_persisted_through_sequence
    set_writer_running set_writer_retrying set_writer_failed set_last_write_error is_writer_failed
from_start_to_totalled_one = later from_start_to_confirmed_one (total (report ∷ []) refl)

abbrev pub marked_one : System Whole
marked_one =
    system idle (marked (report ∷ [])) true [] 2 1 1 1 0 none (report ∷ []) (report ∷ []) []

pub from_accepted_one_to_marked_one : Reach nothing_kept accepted_one marked_one
unfolding open_with_capacity begin_report try_send advance_sequence increment_pending
    decrement_pending_by increment_accepted increment_persisted_by set_persisted_through_sequence
    set_writer_running set_writer_retrying set_writer_failed set_last_write_error is_writer_failed
from_accepted_one_to_marked_one = later from_accepted_one_to_totalled_one (mark (report ∷ []) refl)

pub from_start_to_marked_one : Reach nothing_kept start marked_one
unfolding open_with_capacity begin_report try_send advance_sequence increment_pending
    decrement_pending_by increment_accepted increment_persisted_by set_persisted_through_sequence
    set_writer_running set_writer_retrying set_writer_failed set_last_write_error is_writer_failed
from_start_to_marked_one = later from_start_to_totalled_one (mark (report ∷ []) refl)

abbrev settled_one : System Whole
settled_one = system idle waiting true [] 2 0 1 1 0 none (report ∷ []) (report ∷ []) []

from_accepted_one_to_settled_one : Reach nothing_kept accepted_one settled_one
unfolding open_with_capacity begin_report try_send advance_sequence increment_pending
    decrement_pending_by increment_accepted increment_persisted_by set_persisted_through_sequence
    set_writer_running set_writer_retrying set_writer_failed set_last_write_error is_writer_failed
from_accepted_one_to_settled_one = later from_accepted_one_to_marked_one (settle (report ∷ []) refl)

pub from_start_to_settled_one : Reach nothing_kept start settled_one
unfolding open_with_capacity begin_report try_send advance_sequence increment_pending
    decrement_pending_by increment_accepted increment_persisted_by set_persisted_through_sequence
    set_writer_running set_writer_retrying set_writer_failed set_last_write_error is_writer_failed
from_start_to_settled_one = later from_start_to_marked_one (settle (report ∷ []) refl)

abbrev pub held : System Whole
held = system queued (collecting (report ∷ [])) true [] 1 1 0 0 0 none [] (report ∷ []) []

from_start_to_held : Reach nothing_kept start held
unfolding open_with_capacity begin_report try_send advance_sequence increment_pending
    decrement_pending_by increment_accepted increment_persisted_by set_persisted_through_sequence
    set_writer_running set_writer_retrying set_writer_failed set_last_write_error is_writer_failed
from_start_to_held = later from_start_to_queued_one (receive report [] refl refl)

abbrev attempt_0 : System Whole
attempt_0 = system queued (writing (report ∷ []) 0) true [] 1 1 0 0 0 none [] (report ∷ []) []

from_start_to_attempt_0 : Reach nothing_kept start attempt_0
unfolding open_with_capacity begin_report try_send advance_sequence increment_pending
    decrement_pending_by increment_accepted increment_persisted_by set_persisted_through_sequence
    set_writer_running set_writer_retrying set_writer_failed set_last_write_error is_writer_failed
from_start_to_attempt_0 = later from_start_to_held (collected (report ∷ []) refl (inr refl))

abbrev attempt_1 : System Whole
attempt_1 =
    system queued (writing (report ∷ []) 1) true [] 1 1 0 0 1 (some (codes "disk")) [] (report ∷ [])
      []

from_start_to_attempt_1 : Reach nothing_kept start attempt_1
unfolding open_with_capacity begin_report try_send advance_sequence increment_pending
    decrement_pending_by increment_accepted increment_persisted_by set_persisted_through_sequence
    set_writer_running set_writer_retrying set_writer_failed set_last_write_error is_writer_failed
from_start_to_attempt_1 =
    later from_start_to_attempt_0 (retry (report ∷ []) 0 (codes "disk") refl (omega arith))

abbrev attempt_2 : System Whole
attempt_2 =
    system queued (writing (report ∷ []) 2) true [] 1 1 0 0 1 (some (codes "disk")) [] (report ∷ [])
      []

from_start_to_attempt_2 : Reach nothing_kept start attempt_2
unfolding open_with_capacity begin_report try_send advance_sequence increment_pending
    decrement_pending_by increment_accepted increment_persisted_by set_persisted_through_sequence
    set_writer_running set_writer_retrying set_writer_failed set_last_write_error is_writer_failed
from_start_to_attempt_2 =
    later from_start_to_attempt_1 (retry (report ∷ []) 1 (codes "disk") refl (omega arith))

abbrev attempt_3 : System Whole
attempt_3 =
    system queued (writing (report ∷ []) 3) true [] 1 1 0 0 1 (some (codes "disk")) [] (report ∷ [])
      []

from_start_to_attempt_3 : Reach nothing_kept start attempt_3
unfolding open_with_capacity begin_report try_send advance_sequence increment_pending
    decrement_pending_by increment_accepted increment_persisted_by set_persisted_through_sequence
    set_writer_running set_writer_retrying set_writer_failed set_last_write_error is_writer_failed
from_start_to_attempt_3 =
    later from_start_to_attempt_2 (retry (report ∷ []) 2 (codes "disk") refl (omega arith))

abbrev attempt_4 : System Whole
attempt_4 =
    system queued (writing (report ∷ []) 4) true [] 1 1 0 0 1 (some (codes "disk")) [] (report ∷ [])
      []

from_start_to_attempt_4 : Reach nothing_kept start attempt_4
unfolding open_with_capacity begin_report try_send advance_sequence increment_pending
    decrement_pending_by increment_accepted increment_persisted_by set_persisted_through_sequence
    set_writer_running set_writer_retrying set_writer_failed set_last_write_error is_writer_failed
from_start_to_attempt_4 =
    later from_start_to_attempt_3 (retry (report ∷ []) 3 (codes "disk") refl (omega arith))

abbrev attempt_5 : System Whole
attempt_5 =
    system queued (writing (report ∷ []) 5) true [] 1 1 0 0 1 (some (codes "disk")) [] (report ∷ [])
      []

from_start_to_attempt_5 : Reach nothing_kept start attempt_5
unfolding open_with_capacity begin_report try_send advance_sequence increment_pending
    decrement_pending_by increment_accepted increment_persisted_by set_persisted_through_sequence
    set_writer_running set_writer_retrying set_writer_failed set_last_write_error is_writer_failed
from_start_to_attempt_5 =
    later from_start_to_attempt_4 (retry (report ∷ []) 4 (codes "disk") refl (omega arith))

abbrev gave_up : System Whole
gave_up =
    system queued (failing (report ∷ [])) true [] 1 1 0 0 2 (some (codes "disk")) [] (report ∷ [])
      []

from_start_to_gave_up : Reach nothing_kept start gave_up
unfolding open_with_capacity begin_report try_send advance_sequence increment_pending
    decrement_pending_by increment_accepted increment_persisted_by set_persisted_through_sequence
    set_writer_running set_writer_retrying set_writer_failed set_last_write_error is_writer_failed
from_start_to_gave_up = later from_start_to_attempt_5 (give_up (report ∷ []) (codes "disk") refl)

abbrev died : System Whole
died = system queued failed false [] 1 1 0 0 2 (some (codes "disk")) [] (report ∷ []) (report ∷ [])

from_start_to_died : Reach nothing_kept start died
unfolding open_with_capacity begin_report try_send advance_sequence increment_pending
    decrement_pending_by increment_accepted increment_persisted_by set_persisted_through_sequence
    set_writer_running set_writer_retrying set_writer_failed set_last_write_error is_writer_failed
from_start_to_died = later from_start_to_gave_up (die (report ∷ []) refl)

abbrev ended_failed : System Whole
ended_failed =
    system queued ended false [] 1 1 0 0 2 (some (codes "disk")) [] (report ∷ []) (report ∷ [])

from_start_to_ended_failed : Reach nothing_kept start ended_failed
unfolding open_with_capacity begin_report try_send advance_sequence increment_pending
    decrement_pending_by increment_accepted increment_persisted_by set_persisted_through_sequence
    set_writer_running set_writer_retrying set_writer_failed set_last_write_error is_writer_failed
from_start_to_ended_failed = later from_start_to_died (end_failed refl)

abbrev ended_advanced : System Whole
ended_advanced =
    system advanced ended false [] 2 1 0 0 2 (some (codes "disk")) [] (report ∷ []) (report ∷ [])

from_start_to_ended_advanced : Reach nothing_kept start ended_advanced
unfolding open_with_capacity begin_report try_send advance_sequence increment_pending
    decrement_pending_by increment_accepted increment_persisted_by set_persisted_through_sequence
    set_writer_running set_writer_retrying set_writer_failed set_last_write_error is_writer_failed
from_start_to_ended_advanced = later from_start_to_ended_failed (advance refl)

abbrev pub unlatched : System Whole
unlatched =
    system idle ended false [] 2 1 0 0 0 (some (codes "disk")) [] (report ∷ []) (report ∷ [])

from_start_to_unlatched : Reach nothing_kept start unlatched
unfolding open_with_capacity begin_report try_send advance_sequence increment_pending
    decrement_pending_by increment_accepted increment_persisted_by set_persisted_through_sequence
    set_writer_running set_writer_retrying set_writer_failed set_last_write_error is_writer_failed
from_start_to_unlatched = later from_start_to_ended_advanced (accept refl)
