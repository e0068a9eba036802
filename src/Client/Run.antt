-- ===== src/Client/Run.antt =====
-- `ActiveRun` and `finalize_run`. The store, the reporter's drain, the clock, the lock file and the
-- flush are given by what each call of them returns.
use pulseon.Base.{Bool, true, false, Option, none, some, Result, ok, err, if◌then◌else◌, not}
use pulseon.Model.Run.{Run, RunId, RunStatus, running, Timestamp, run_status_value, status_eq}
use pulseon.Engine.Error.{StorageError, EngineError, from_storage}

pub data RunAdmission : Type 0 where
  admission_open admission_closing admission_terminal : RunAdmission

-- `writer_guard` tells whether the guard is held.
pub record ActiveRun : Type 0 where
  pub writer_guard : Bool
  pub admission : RunAdmission

abbrev pub opened : ActiveRun
opened = record { writer_guard = true; admission = admission_open }

unfoldable pub close_admission : ActiveRun → ActiveRun
close_admission a = record a { admission = admission_closing }

unfoldable pub open_admission : ActiveRun → ActiveRun
open_admission a = record a { admission = admission_open }

unfoldable pub mark_terminal : ActiveRun → ActiveRun
mark_terminal a = record a { admission = admission_terminal }

unfoldable pub release_lock : ActiveRun → ActiveRun
release_lock a = record a { writer_guard = false }

unfoldable pub with_open_admission :
    {A : Type 0} → ActiveRun → RunId → Result EngineError A → Result EngineError A
with_open_admission a run_id report = elim a.admission [
  | admission_open ↦ report
  | admission_closing ↦ err (EngineError.run_closed run_id)
  | admission_terminal ↦ err (EngineError.run_closed run_id)
]

-- The client as one run sees it: whether it is shut down, and the run's entry of `active_runs`.
pub record Client : Type 0 where
  pub is_shutdown : Bool
  pub active : Option ActiveRun

-- What the calls of `finalize_run` return.
pub record Outcomes : Type 0 where
  pub run : Result StorageError Run
  pub lock : Result EngineError (Unit {0})
  pub drain : Result EngineError (Unit {0})
  pub rebuild : Result StorageError (Unit {0})
  pub finished_at : Result EngineError Timestamp
  pub mark_run_terminal : Result StorageError Bool
  pub flush : Result EngineError (Unit {0})
  pub run_after : Result StorageError Run

unfoldable pub acquire_run_writer :
    Result EngineError (Unit {0}) → Client → Result EngineError ActiveRun
acquire_run_writer lock client = elim client.active [
  | some a ↦ ok a
  | none ↦ elim lock [ ok done ↦ ok opened | err e ↦ err e ]
]

abbrev pub is_ok {ℓ κ} : {E : Type ℓ} {A : Type κ} → Result E A → Bool
is_ok (ok a) = true
is_ok (err e) = false

abbrev pub lift_run : Result StorageError Run → Result EngineError Run
lift_run (ok run) = ok run
lift_run (err e) = err (from_storage e)

-- What a call leaves: the client, the run's shared object as its handles see it when the call got
-- hold of it, and the result.
pub record Finalized : Type 0 where
  pub client : Client
  pub handle : Option ActiveRun
  pub result : Result EngineError Run

abbrev pub refused : Client → EngineError → Finalized
refused client e = record { client = client; handle = none; result = err e }

-- A return that leaves the entry in the map, with the object as it is.
abbrev pub kept : Client → ActiveRun → EngineError → Finalized
kept client a e = record {
  client = record client { active = some a };
  handle = some a;
  result = err e;
}

abbrev pub transition_error : Run → RunStatus → EngineError
transition_error run target_status =
    EngineError.invalid_run_transition run.run_id (run_status_value run.status)
      (run_status_value target_status)

-- The end of a transition that was written.
abbrev pub finalized : Outcomes → Client → ActiveRun → Finalized
finalized o client a = record {
  client = record client { active = none };
  handle = some a;
  result = elim o.flush [ ok done ↦ lift_run o.run_after | err e ↦ err e ];
}

-- From `mark_run_terminal` on.
unfoldable pub finish_mark : Outcomes → Client → ActiveRun → RunStatus → Finalized
unfolding open_admission mark_terminal release_lock
finish_mark o client a target_status = elim o.mark_run_terminal [
  | err e ↦ kept client a (from_storage e)
  | ok updated ↦
      if updated then finalized o client (release_lock (mark_terminal a)) else elim o.run_after [
        | err e ↦ kept client a (from_storage e)
        | ok run ↦ kept client (open_admission a) (transition_error run target_status)
      ]
]

-- From the drain on, with the admission closed.
unfoldable pub finish_drain : Outcomes → Client → ActiveRun → RunStatus → Finalized
unfolding finish_mark open_admission
finish_drain o client a target_status = elim o.drain [
  | err e ↦ kept client (open_admission a) e
  | ok drained ↦ elim o.rebuild [
    | err e ↦ kept client (open_admission a) (from_storage e)
    | ok rebuilt ↦ elim o.finished_at [
      | err e ↦ kept client a e
      | ok finished_at ↦ finish_mark o client a target_status
    ]
  ]
]

unfoldable pub finalize_run : Outcomes → RunStatus → Client → Finalized
unfolding acquire_run_writer close_admission finish_drain
finalize_run o target_status client =
    if client.is_shutdown then refused client EngineError.client_closed else elim o.run [
      | err e ↦ refused client (from_storage e)
      | ok run ↦
          if not (status_eq run.status running)
          then refused client (transition_error run target_status)
          else elim (acquire_run_writer o.lock client) [
            | err e ↦ refused client e
            | ok a ↦ finish_drain o client (close_admission a) target_status
          ]
    ]
