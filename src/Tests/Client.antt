-- ===== src/Tests/Client.antt =====
-- A run that is finished while the store fails to write its status.
use pulseon.Base.{◌≡◌, ◌⊎◌, refl, false, none, some, ok, err, [], ◌∷◌, codes, pos}
use pulseon.Model.Run.{Run, running, finished}
use pulseon.Engine.Error.{StorageError, EngineError}
use pulseon.Client.Run.{opened, Client, Outcomes, acquire_run_writer, finalize_run}
use pulseon.Client.Session.{
  Session, Calls, created_run, find_project, find_run, create_run, run_handle, closed,
}
use pulseon.Client.Create.{IsOutcome, create_run-IsOutcome}
use pulseon.Client.Overlap.{overlapping, sound, overlapping-run_handle}
use pulseon.Client.Finalize.{IsSettled, IsReopened, IsLeftClosing, finalize_run-cases}

abbrev run : Run
run = record {
  run_id = codes "r";
  project_id = codes "p";
  name = codes "baseline";
  status = running;
  created_at = pos 0;
  started_at = pos 0;
  finished_at = none;
}

abbrev unwritten : Outcomes
unwritten = record {
  run = ok run;
  lock = ok tt;
  drain = ok tt;
  rebuild = ok tt;
  finished_at = ok (pos 9);
  mark_run_terminal = err (StorageError.duckdb (codes "disk"));
  flush = ok tt;
  run_after = ok run;
}

abbrev client : Client
client = record { is_shutdown = false; active = some opened }

finalize_run-cases_example :
    IsSettled unwritten (finalize_run unwritten finished client)
    ⊎ IsReopened opened unwritten (finalize_run unwritten finished client)
    ⊎ IsLeftClosing opened unwritten (finalize_run unwritten finished client)
unfolding acquire_run_writer
finalize_run-cases_example =
    finalize_run-cases unwritten finished client run opened refl refl refl refl

abbrev session : Session
session = record {
  is_shutdown = false;
  projects = record { project_id = codes "p"; name = codes "project"; created_at = pos 0 } ∷ [];
  runs = run ∷ [];
  active_runs = [];
}

-- The row of the run cannot be written.
abbrev full_disk : Calls
full_disk = record (sound (pos 9)) { run_insert = some (StorageError.duckdb (codes "disk")) }

create_run-IsOutcome_example :
    IsOutcome
      (codes "p")
      (codes "new")
      session
      (create_run full_disk (codes "p") (codes "trial") (codes "new") session)
create_run-IsOutcome_example =
    create_run-IsOutcome full_disk (codes "p") (codes "trial") (codes "new") session

overlapping-run_handle_example :
    (after : Session) × (overlapping
        (sound (pos 1))
        (sound (pos 2))
        (codes "p")
        (codes "trial")
        (codes "new")
        session
      ≡ ok (err (EngineError.run_already_exists (codes "new")), after))
    × (find_run (codes "new") after.runs
        ≡ some (created_run (codes "p") (codes "trial") (codes "new") (pos 1)))
    × (run_handle (codes "new") after ≡ closed)
unfolding find_project find_run
overlapping-run_handle_example =
    overlapping-run_handle (pos 1) (pos 2) (codes "p") (codes "trial") (codes "new") session refl
      refl refl
