-- ===== src/Reporting/Diagnostics.antt =====
-- `MetricReporterDiagnosticsInner`: the atomics and messages that the reporter and its worker
-- share, and the snapshot that the caller sees.
use pulseon.Base.{
  ℕ, ◌+◌, ◌-◌, ◌%◌, ◌^◌, max, Bool, Option, none, some, Text, codes, if◌then◌else◌, ◌==◌,
}
use pulseon.Model.Run.{RunId}

abbrev pub u64_mod : ℕ
u64_mod = 2 ^ 64

abbrev pub writer_running : ℕ
writer_running = 0

abbrev pub writer_retrying : ℕ
writer_retrying = 1

abbrev pub writer_failed : ℕ
writer_failed = 2

abbrev pub writer_closed : ℕ
writer_closed = 3

abbrev pub flush_running : ℕ
flush_running = 1

abbrev pub flush_succeeded : ℕ
flush_succeeded = 2

abbrev pub flush_failed : ℕ
flush_failed = 3

abbrev pub flush_timed_out : ℕ
flush_timed_out = 4

pub record Diagnostics : Type 0 where
  pub pending_reports : ℕ
  pub queue_full_errors : ℕ
  pub persisted_reports : ℕ
  pub writer_state : ℕ
  pub last_write_error : Option Text
  pub last_flush_run_id : Option Text
  pub last_flush_status : ℕ
  pub last_flush_error : Option Text
  pub persisted_through_sequence : ℕ

-- `Default`.
abbrev pub no_diagnostics : Diagnostics
no_diagnostics = record {
  pending_reports = 0;
  queue_full_errors = 0;
  persisted_reports = 0;
  writer_state = 0;
  last_write_error = none;
  last_flush_run_id = none;
  last_flush_status = 0;
  last_flush_error = none;
  persisted_through_sequence = 0;
}

-- `AtomicU64::fetch_add` and `fetch_sub` wrap around.
abbrev pub fetch_add : ℕ → ℕ → ℕ
fetch_add n k = (n + k) % u64_mod

abbrev pub fetch_sub : ℕ → ℕ → ℕ
fetch_sub n k = (n + u64_mod - k) % u64_mod

unfoldable pub increment_accepted : Diagnostics → Diagnostics
increment_accepted d = record d { writer_state = writer_running }

unfoldable pub increment_queue_full : Diagnostics → Diagnostics
increment_queue_full d = record d { queue_full_errors = fetch_add d.queue_full_errors 1 }

unfoldable pub increment_persisted_by : ℕ → Diagnostics → Diagnostics
increment_persisted_by count d = record d {
  persisted_reports = fetch_add d.persisted_reports count;
}

unfoldable pub set_persisted_through_sequence : ℕ → Diagnostics → Diagnostics
set_persisted_through_sequence sequence d = record d {
  persisted_through_sequence = max d.persisted_through_sequence sequence;
}

unfoldable pub set_writer_running : Diagnostics → Diagnostics
set_writer_running d = record d { writer_state = writer_running }

unfoldable pub set_writer_retrying : Diagnostics → Diagnostics
set_writer_retrying d = record d { writer_state = writer_retrying }

unfoldable pub set_writer_failed : Diagnostics → Diagnostics
set_writer_failed d = record d { writer_state = writer_failed }

unfoldable pub set_writer_closed : Diagnostics → Diagnostics
set_writer_closed d = record d { writer_state = writer_closed }

unfoldable pub set_last_write_error : Text → Diagnostics → Diagnostics
set_last_write_error message d = record d { last_write_error = some message }

unfoldable pub set_flush_running : RunId → Diagnostics → Diagnostics
set_flush_running run_id d = record d {
  last_flush_run_id = some run_id;
  last_flush_status = flush_running;
}

unfoldable pub set_flush_succeeded : RunId → Diagnostics → Diagnostics
set_flush_succeeded run_id d = record d {
  last_flush_run_id = some run_id;
  last_flush_status = flush_succeeded;
}

unfoldable pub set_flush_failed : RunId → Text → Diagnostics → Diagnostics
set_flush_failed run_id message d = record d {
  last_flush_run_id = some run_id;
  last_flush_error = some message;
  last_flush_status = flush_failed;
}

unfoldable pub set_flush_timed_out : RunId → Diagnostics → Diagnostics
set_flush_timed_out run_id d = record d {
  last_flush_run_id = some run_id;
  last_flush_status = flush_timed_out;
}

-- `writer_state as u8 == WRITER_FAILED`.
unfoldable pub is_writer_failed : Diagnostics → Bool
is_writer_failed d = (d.writer_state % 256) == writer_failed

unfoldable pub increment_pending : Diagnostics → Diagnostics
increment_pending d = record d { pending_reports = fetch_add d.pending_reports 1 }

unfoldable pub decrement_pending_by : ℕ → Diagnostics → Diagnostics
decrement_pending_by count d = record d { pending_reports = fetch_sub d.pending_reports count }

unfoldable pub decrement_pending : Diagnostics → Diagnostics
decrement_pending d = record d { pending_reports = fetch_sub d.pending_reports 1 }

pub record MetricReporterDiagnostics : Type 0 where
  pub pending_reports : ℕ
  pub queue_full_errors : ℕ
  pub persisted_reports : ℕ
  pub writer_state : Text
  pub last_write_error : Option Text
  pub last_flush_run_id : Option Text
  pub last_flush_status : Text
  pub last_flush_error : Option Text

abbrev pub writer_state_name : ℕ → ℕ → Text
writer_state_name state pending =
    if (state % 256) == writer_retrying
    then codes "retrying"
    else if (state % 256) == writer_failed
    then codes "failed"
    else if (state % 256) == writer_closed
    then codes "closed"
    else if pending == 0
    then codes "drained"
    else codes "running"

abbrev pub flush_status_name : ℕ → Text
flush_status_name status =
    if (status % 256) == flush_running
    then codes "running"
    else if (status % 256) == flush_succeeded
    then codes "succeeded"
    else if (status % 256) == flush_failed
    then codes "failed"
    else if (status % 256) == flush_timed_out
    then codes "timed_out"
    else codes "none"

-- Each field is a load of its own, and other threads may step between two loads: the arguments are
-- the diagnostics as they stand at each load, in the order of the code.
unfoldable pub snapshot :
    (at_pending at_state at_queue_full at_persisted at_write_error at_run_id at_status
      at_flush_error : Diagnostics)
    → MetricReporterDiagnostics
snapshot at_pending at_state at_queue_full at_persisted at_write_error at_run_id at_status
      at_flush_error =
    record {
      pending_reports = at_pending.pending_reports;
      queue_full_errors = at_queue_full.queue_full_errors;
      persisted_reports = at_persisted.persisted_reports;
      writer_state = writer_state_name at_state.writer_state at_pending.pending_reports;
      last_write_error = at_write_error.last_write_error;
      last_flush_run_id = at_run_id.last_flush_run_id;
      last_flush_status = flush_status_name at_status.last_flush_status;
      last_flush_error = at_flush_error.last_flush_error;
    }
