-- ===== src/Reporting/Reporter.antt =====
-- `MetricReporter`: admission of a report, the drain barrier and shutdown. The channel is the
-- standard library's bounded one, of capacity at least one.
use pulseon.Base.{
  ℕ, ◌-◌, Bool, true, false, Option, none, some, List, [], ◌∷◌, ◌++◌, Text, codes, ℤ, Result, ok,
  err, length, if◌then◌else◌, ltb, leb, not,
}
use pulseon.Model.Run.{RunId}
use pulseon.Model.Metric.{MetricKey, Step}
use pulseon.Engine.Error.{EngineError}
use pulseon.Reporting.Diagnostics.{
  Diagnostics, no_diagnostics, fetch_add, is_writer_failed, increment_pending, decrement_pending,
  increment_accepted, increment_queue_full, set_writer_closed,
}

pub record MetricReport (W : Type 0) : Type 0 where
  pub run_id : RunId
  pub metric_key : MetricKey
  pub step : Step
  pub value_f64 : W
  pub timestamp_millis : ℤ
  pub enqueue_sequence : ℕ

-- `MetricReporterInner` with the channel that its sender and the worker's receiver share: the
-- sender is there until shutdown, the receiver until the worker ends.
pub record Reporter (W : Type 0) : Type 0 where
  pub sender : Bool
  pub receiver : Bool
  pub capacity : ℕ
  pub queue : List (MetricReport W)
  pub diagnostics : Diagnostics
  pub next_enqueue_sequence : ℕ

abbrev pub text_or : Option Text → Text → Text
text_or none t = t
text_or (some s) t = s

-- The error of a latched writer failure.
unfoldable pub writer_failure : Diagnostics → EngineError
writer_failure d =
    EngineError.metric_writer_failed (text_or d.last_write_error (codes "metric writer failed"))

pub data SendOutcome : Type 0 where
  sent full disconnected : SendOutcome

module _ {W : Type 0} where
  abbrev pub with_diagnostics : (Diagnostics → Diagnostics) → Reporter W → Reporter W
  with_diagnostics f s = record s { diagnostics = f s.diagnostics }

  unfoldable pub open_with_capacity : ℕ → Reporter W
  open_with_capacity capacity = record {
    sender = true;
    receiver = true;
    capacity = capacity;
    queue = [];
    diagnostics = no_diagnostics;
    next_enqueue_sequence = 1;
  }

  -- The checks under the sender lock, and the report that is built from the loaded sequence.
  unfoldable pub begin_report :
      Reporter W → RunId → MetricKey → Step → W → ℤ → Result EngineError (MetricReport W)
  begin_report s run_id metric_key step value_f64 now =
      if not s.sender
      then err EngineError.client_closed
      else if is_writer_failed s.diagnostics
      then err (writer_failure s.diagnostics)
      else ok (record {
        run_id = run_id;
        metric_key = metric_key;
        step = step;
        value_f64 = value_f64;
        timestamp_millis = now;
        enqueue_sequence = s.next_enqueue_sequence;
      })

  -- `SyncSender::try_send`.
  unfoldable pub try_send : Reporter W → MetricReport W → Reporter W × SendOutcome
  try_send s report =
      if not s.receiver
      then (s, disconnected)
      else if ltb (length s.queue) s.capacity
      then (record s { queue = s.queue ++ report ∷ [] }, sent)
      else (s, full)

  unfoldable pub advance_sequence : Reporter W → Reporter W
  advance_sequence s = record s { next_enqueue_sequence = fetch_add s.next_enqueue_sequence 1 }

  -- The arms of the match on the send.
  unfoldable pub finish_report :
      Reporter W → SendOutcome → Reporter W × Result EngineError (Unit {0})
  unfolding advance_sequence
  finish_report s sent = (with_diagnostics increment_accepted (advance_sequence s), ok tt)
  finish_report s full = (
    with_diagnostics increment_queue_full (with_diagnostics decrement_pending s),
    err EngineError.metric_queue_full,
  )
  finish_report s disconnected =
      (with_diagnostics decrement_pending s, err EngineError.client_closed)

  unfoldable pub report_metric :
      Reporter W → RunId → MetricKey → Step → W → ℤ → Reporter W × Result EngineError (Unit {0})
  unfolding begin_report try_send finish_report
  report_metric s run_id metric_key step value_f64 now =
      elim (begin_report s run_id metric_key step value_f64 now) [
        | err e ↦ (s, err e)
        | ok report ↦
            let (s', outcome) = try_send (with_diagnostics increment_pending s) report in
            finish_report s' outcome
      ]

  -- `saturating_sub(1)`, and the truncated subtraction of ℕ.
  unfoldable pub enqueue_barrier_sequence : Reporter W → ℕ
  enqueue_barrier_sequence s = s.next_enqueue_sequence - 1

-- What one look of the drain loop at the diagnostics decides.
pub data DrainLook : Type 0 where
  done : DrainLook
  failure : EngineError → DrainLook
  again : DrainLook

unfoldable pub drain_look : ℕ → Diagnostics → DrainLook
unfolding writer_failure
drain_look barrier d =
    if leb barrier d.persisted_through_sequence
    then (if is_writer_failed d then failure (writer_failure d) else done)
    else if is_writer_failed d
    then failure (writer_failure d)
    else again

-- The loop over what its rounds find: the diagnostics, and whether the deadline has passed.
-- `none`: it still waits after the last of these.
unfoldable pub drain_through :
    ℕ → List (Diagnostics × Bool) → Option (Result EngineError (Unit {0}))
unfolding drain_look
drain_through barrier [] = none
drain_through barrier ((d, expired) ∷ rounds) = elim (drain_look barrier d) [
  | done ↦ some (ok tt)
  | failure e ↦ some (err e)
  | again ↦ elim expired [
    | true ↦ some (err EngineError.metric_drain_timeout)
    | false ↦ drain_through barrier rounds
  ]
]

-- `matches!(drain_result, Err(MetricDrainTimeout))`.
abbrev pub is_drain_timeout : Result EngineError (Unit {0}) → Bool
is_drain_timeout (err EngineError.metric_drain_timeout) = true
is_drain_timeout _ = false

abbrev pub is_ok {ℓ κ} : {E : Type ℓ} {A : Type κ} → Result E A → Bool
is_ok (ok a) = true
is_ok (err e) = false

-- `shutdown` from the result of its drain on: the sender is taken, and `join` is what the worker
-- does until it ends, with the sender gone.
unfoldable pub shutdown :
    {W : Type 0}
    → (join : Reporter W → Reporter W) → Reporter W
    → Result EngineError (Unit {0})
    → Reporter W × Result EngineError (Unit {0})
shutdown join s drain_result =
    if is_drain_timeout drain_result
    then (s, drain_result)
    else let joined = join (record s { sender = false }) in
      (
        if is_ok drain_result then with_diagnostics set_writer_closed joined else joined,
        drain_result,
      )
