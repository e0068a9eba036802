-- ===== src/Client/Flush.antt =====
-- `flush_run_data` of crates/pulseon-core/src/engine/client.rs, over what its calls return. Without a
-- deadline no try is busy and no deadline passes.
use pulseon.Base.{
  ◌≡◌, ◌⊎◌, inl, inr, refl, Bool, true, false, ◌||◌, some, Result, ok, err, ◌>>=◌, List, [], ◌∷◌,
  Text, codes, Bool-cases, if◌then◌else◌,
}
use pulseon.Model.Run.{Run, RunId, running, run_status_value, status_eq}
use pulseon.Engine.Error.{StorageError, EngineError}
use pulseon.Reporting.Diagnostics.{
  Diagnostics, flush_succeeded, flush_failed, flush_timed_out, set_flush_running,
  set_flush_succeeded, set_flush_failed, set_flush_timed_out,
}
use pulseon.Client.Session.{lift}

pub record FlushCalls : Type 0 where
  pub is_shutdown : Bool
  pub run : Result StorageError Run
  -- For each try that found the lock taken, whether the deadline had passed.
  pub busy_tries : List Bool
  pub is_due : Bool
  pub flush : Result StorageError (Unit {0})
  -- After the flush: the deadline has passed, or the timer has interrupted the query.
  pub is_late : Bool
  pub is_interrupted : Bool

unfoldable pub acquire_flush_lock : List Bool → Result EngineError (Unit {0})
acquire_flush_lock [] = ok tt
acquire_flush_lock (past ∷ tries) =
    let rest = acquire_flush_lock tries in
    if past then err EngineError.metric_flush_timeout else rest

unfoldable pub check_flush : FlushCalls → RunId → Result EngineError (Unit {0})
check_flush c id =
    if c.is_shutdown
    then err EngineError.client_closed
    else (lift c.run >>= λ run.
        if status_eq run.status running
        then err
            (EngineError.invalid_run_transition id (run_status_value run.status) (codes "flushed"))
        else ok tt)

abbrev pub flush_message : Text
flush_message = codes "flush metric_points failed"

-- From the lock on, with the status set to running.
unfoldable pub flush_locked :
    FlushCalls → RunId → Diagnostics → Result EngineError (Unit {0}) × Diagnostics
unfolding acquire_flush_lock set_flush_timed_out set_flush_succeeded set_flush_failed
flush_locked c id d = elim (acquire_flush_lock c.busy_tries) [
  | err e ↦ (err e, set_flush_timed_out id d)
  | ok locked ↦
      if c.is_due
      then (err EngineError.metric_flush_timeout, set_flush_timed_out id d)
      else if c.is_late || c.is_interrupted
      then (err EngineError.metric_flush_timeout, set_flush_timed_out id d)
      else elim c.flush [
        | ok flushed ↦ (ok tt, set_flush_succeeded id d)
        | err e ↦
            (err (EngineError.metric_flush flush_message), set_flush_failed id flush_message d)
      ]
]

unfoldable pub flush_run_data :
    FlushCalls → RunId → Diagnostics → Result EngineError (Unit {0}) × Diagnostics
unfolding check_flush flush_locked set_flush_running
flush_run_data c id d = elim (check_flush c id) [
  | err e ↦ (err e, d)
  | ok ready ↦ flush_locked c id (set_flush_running id d)
]

-- The diagnostics say of the run what the call returns.
abbrev pub IsReported : RunId → Result EngineError (Unit {0}) × Diagnostics → Type 0
IsReported id r =
    (r.1.last_flush_run_id ≡ some id)
    × (((r.0 ≡ ok tt) × (r.1.last_flush_status ≡ flush_succeeded))
        ⊎ ((r.0 ≡ err EngineError.metric_flush_timeout) × (r.1.last_flush_status ≡ flush_timed_out))
        ⊎ ((r.0 ≡ err (EngineError.metric_flush flush_message))
            × (r.1.last_flush_status ≡ flush_failed)))

acquire_flush_lock-cases :
    (tries : List Bool)
    → (acquire_flush_lock tries ≡ ok tt)
      ⊎ (acquire_flush_lock tries ≡ err EngineError.metric_flush_timeout)
unfolding acquire_flush_lock
acquire_flush_lock-cases [] = inl refl
acquire_flush_lock-cases (true ∷ tries) = inr refl
acquire_flush_lock-cases (false ∷ tries) = acquire_flush_lock-cases tries

Result-either {ℓ κ} :
    {E : Type ℓ} {A : Type κ} (r : Result E A) → ((a : A) × (r ≡ ok a)) ⊎ ((e : E) × (r ≡ err e))
Result-either (ok a) = inl (a, refl)
Result-either (err e) = inr (e, refl)

flush_locked-IsReported :
    (c : FlushCalls) (id : RunId) (d : Diagnostics) → IsReported id (flush_locked c id d)
unfolding flush_locked set_flush_timed_out set_flush_succeeded set_flush_failed
flush_locked-IsReported c id d = elim (acquire_flush_lock-cases c.busy_tries) [
  | inr e ↦ rw (flush_locked, e) (refl, inr (inl (refl, refl)))
  | inl e ↦ elim (Bool-cases c.is_due) [
    | inl due ↦ rw (flush_locked, e, due) (refl, inr (inl (refl, refl)))
    | inr early ↦ elim (Bool-cases (c.is_late || c.is_interrupted)) [
      | inl late ↦ rw (flush_locked, e, early, late) (refl, inr (inl (refl, refl)))
      | inr timely ↦ elim (Result-either c.flush) [
        | inl (flushed, f) ↦ rw (flush_locked, e, early, timely, f) (refl, inl (refl, refl))
        | inr (failure, f) ↦ rw (flush_locked, e, early, timely, f) (refl, inr (inr (refl, refl)))
      ]
    ]
  ]
]

-- A flush that is refused changes no diagnostics; any other one leaves the diagnostics saying of this
-- run what the call returns: success, a timeout, or the failure of the flush.
pub flush_run_data-IsReported :
    (c : FlushCalls) (id : RunId) (d : Diagnostics)
    → ((e : EngineError) × (check_flush c id ≡ err e) × (flush_run_data c id d ≡ (err e, d)))
      ⊎ ((check_flush c id ≡ ok tt) × IsReported id (flush_run_data c id d))
unfolding flush_run_data
flush_run_data-IsReported c id d = elim (Result-either (check_flush c id)) [
  | inr (e, h) ↦ inl (e, h, rw (flush_run_data, h) refl)
  | inl (ready, h) ↦
      inr (h, rw (flush_run_data, h) (flush_locked-IsReported c id (set_flush_running id d)))
]
