-- ===== src/Client/Finalize.antt =====
-- What `finalize_run` leaves of the run's admission and of its lock.
use pulseon.Base.{◌≡◌, ◌⊎◌, true, false, none, some, ok, arith}
use pulseon.Model.Run.{Run, RunStatus, running}
use pulseon.Client.Run.{
  admission_open, admission_closing, admission_terminal, ActiveRun, Client, Outcomes, Finalized,
  close_admission, open_admission, mark_terminal, release_lock, acquire_run_writer, finish_mark,
  finish_drain, finalize_run, is_ok,
}

-- The terminal status was written: the run admits no report, its lock is released and its entry
-- is gone.
abbrev pub IsSettled : Outcomes → Finalized → Type 0
IsSettled o f =
    (f.handle ≡ some (record { writer_guard = false; admission = admission_terminal }))
    × (f.client.active ≡ none)
    × (o.drain ≡ ok tt)
    × (o.rebuild ≡ ok tt)
    × (o.mark_run_terminal ≡ ok true)

-- An error before the terminal status was written, after which the run admits reports again.
abbrev pub IsReopened : ActiveRun → Outcomes → Finalized → Type 0
IsReopened a o f =
    (f.handle ≡ some (record a { admission = admission_open }))
    × (f.client.active ≡ f.handle)
    × (is_ok f.result ≡ false)
    × ((is_ok o.drain ≡ false) ⊎ (is_ok o.rebuild ≡ false) ⊎ (o.mark_run_terminal ≡ ok false))

-- An error of the clock or the store after the drain, which leaves the run closing.
abbrev pub IsLeftClosing : ActiveRun → Outcomes → Finalized → Type 0
IsLeftClosing a o f =
    (f.handle ≡ some (record a { admission = admission_closing }))
    × (f.client.active ≡ f.handle)
    × (is_ok f.result ≡ false)
    × (is_ok o.drain ≡ true)
    × (is_ok o.rebuild ≡ true)
    × ((is_ok o.finished_at ≡ false)
        ⊎ (is_ok o.mark_run_terminal ≡ false)
        ⊎ ((o.mark_run_terminal ≡ ok false) × (is_ok o.run_after ≡ false)))

mark_cases :
    (o : Outcomes) (client : Client) (a : ActiveRun) (target_status : RunStatus)
    → o.drain ≡ ok tt
    → o.rebuild ≡ ok tt
    → IsSettled o (finish_mark o client (close_admission a) target_status)
      ⊎ IsReopened a o (finish_mark o client (close_admission a) target_status)
      ⊎ IsLeftClosing a o (finish_mark o client (close_admission a) target_status)
unfolding finish_mark close_admission open_admission mark_terminal release_lock
mark_cases o client a target_status d r = ground (arith, d, r)

drain_cases :
    (o : Outcomes) (client : Client) (a : ActiveRun) (target_status : RunStatus)
    → IsSettled o (finish_drain o client (close_admission a) target_status)
      ⊎ IsReopened a o (finish_drain o client (close_admission a) target_status)
      ⊎ IsLeftClosing a o (finish_drain o client (close_admission a) target_status)
unfolding finish_drain close_admission open_admission
drain_cases o client a target_status = ground (arith, mark_cases o client a target_status)

-- A call of `finalize_run` for a running run, on a client that is not shut down and gets hold of the
-- run's writer, ends in one of three ways: the terminal status was written, and the run admits no
-- report, its lock is released and its entry is gone; the drain or the rebuild failed or the status was
-- not running any more, and the run admits reports again; or the clock or the store failed after
-- the drain, and the run stays closing. In the last two the call returns an error.
pub finalize_run-cases :
    (o : Outcomes) (target_status : RunStatus) (client : Client) (run : Run) (a : ActiveRun)
    → client.is_shutdown ≡ false
    → o.run ≡ ok run
    → run.status ≡ running
    → acquire_run_writer o.lock client ≡ ok a
    → IsSettled o (finalize_run o target_status client)
      ⊎ IsReopened a o (finalize_run o target_status client)
      ⊎ IsLeftClosing a o (finalize_run o target_status client)
unfolding finalize_run
finalize_run-cases o target_status client run a up read same got =
    ground (arith, drain_cases o client a target_status)
