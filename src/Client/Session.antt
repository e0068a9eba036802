-- ===== src/Client/Session.antt =====
-- The client's map of active runs over the catalog's tables, and the calls that open, resume and
-- shut down. The catalog's tables are lists of rows; what fails outside the program, and the clock,
-- is given by `Calls`. Identifiers are the ones given, or fresh ones that the caller drew.
use pulseon.Base.{
  Bool, true, false, not, Option, none, some, Result, ok, err, ok_or, ◌>>=◌, List, [], ◌∷◌, ◌++◌,
  Text, text_eq, get_entry, remove_entry, insert_entry, if◌then◌else◌,
}
use pulseon.Model.Run.{
  Run, RunId, running, Project, ProjectId, Timestamp, run_status_value, status_eq,
}
use pulseon.Engine.Error.{StorageError, EngineError, from_storage}
use pulseon.Client.Run.{ActiveRun, admission_terminal, opened}

pub record Session : Type 0 where
  pub is_shutdown : Bool
  pub projects : List Project
  pub runs : List Run
  pub active_runs : List (RunId × ActiveRun)

-- A failure of each query, if any; what taking the lock file and reading the clock return.
pub record Calls : Type 0 where
  pub project_query : Option StorageError
  pub project_insert : Option StorageError
  pub run_query : Option StorageError
  pub exists_query : Option StorageError
  pub run_insert : Option StorageError
  pub lock : Result EngineError (Unit {0})
  pub now : Result StorageError Timestamp

-- A query's failure, or else its value.
abbrev pub queried {ℓ} : {A : Type ℓ} → Option StorageError → A → Result StorageError A
queried none value = ok value
queried (some failure) value = err failure

unfoldable pub find_project : ProjectId → List Project → Option Project
unfolding text_eq
find_project id [] = none
find_project id (p ∷ ps) = if text_eq p.project_id id then some p else find_project id ps

unfoldable pub find_run : RunId → List Run → Option Run
unfolding text_eq
find_run id [] = none
find_run id (r ∷ rs) = if text_eq r.run_id id then some r else find_run id rs

abbrev pub is_some {ℓ} : {A : Type ℓ} → Option A → Bool
is_some none = false
is_some (some a) = true

abbrev pub lift {ℓ} : {A : Type ℓ} → Result StorageError A → Result EngineError A
lift (ok a) = ok a
lift (err e) = err (from_storage e)

unfoldable pub ensure_writeable : Session → Result EngineError (Unit {0})
ensure_writeable s = if s.is_shutdown then err EngineError.client_closed else ok tt

unfoldable pub project_exists : Calls → ProjectId → Session → Result EngineError Bool
unfolding find_project
project_exists c id s = lift (queried c.project_query (is_some (find_project id s.projects)))

unfoldable pub get_run : Calls → RunId → Session → Result EngineError Run
unfolding find_run
get_run c id s = lift (
    queried c.run_query (find_run id s.runs) >>= λ found.
    ok_or found (StorageError.run_not_found id))

-- `acquire_run_writer` on the map: the entry that is there, or a new one under a new lock.
unfoldable pub acquire : Calls → RunId → Session → Result EngineError Session
unfolding get_entry
acquire c id s = elim (get_entry id s.active_runs) [
  | some a ↦ ok s
  | none ↦ elim c.lock [
    | err e ↦ err e
    | ok locked ↦ ok (record s { active_runs = insert_entry id opened s.active_runs })
  ]
]

unfoldable pub release_run_writer : RunId → Session → Session
unfolding remove_entry
release_run_writer id s = record s { active_runs = remove_entry id s.active_runs }

-- The row that `create_run` of the store writes and returns.
abbrev pub created_run : ProjectId → Text → RunId → Timestamp → Run
created_run project_id name id now = record {
  run_id = id;
  project_id = project_id;
  name = name;
  status = running;
  created_at = now;
  started_at = now;
  finished_at = none;
}

-- `NativeWriteStore::create_run`: the rows afterwards and the result.
unfoldable pub store_create_run :
    Calls → ProjectId → Text → RunId → List Run → Result StorageError Run × List Run
unfolding find_run
store_create_run c project_id name id runs =
    elim (queried c.exists_query (is_some (find_run id runs))) [
      | err e ↦ (err e, runs)
      | ok true ↦ (err (StorageError.run_already_exists id), runs)
      | ok false ↦ elim c.now [
        | err e ↦ (err e, runs)
        | ok now ↦ elim c.run_insert [
          | some e ↦ (err e, runs)
          | none ↦ let run = created_run project_id name id now in (ok run, runs ++ (run ∷ []))
        ]
      ]
    ]

unfoldable pub create_project :
    Calls → (name : Text) → ProjectId → Session → Result EngineError Project × Session
unfolding ensure_writeable project_exists
create_project c name id s = elim (ensure_writeable s >>= λ open_client. project_exists c id s) [
  | err e ↦ (err e, s)
  | ok true ↦ (err (EngineError.project_already_exists id), s)
  | ok false ↦ elim c.now [
    | err e ↦ (err (from_storage e), s)
    | ok now ↦ elim c.project_insert [
      | some e ↦ (err (from_storage e), s)
      | none ↦
          let project : Project = record { project_id = id; name = name; created_at = now } in
          (ok project, record s { projects = s.projects ++ (project ∷ []) })
    ]
  ]
]

unfoldable pub get_project : Calls → ProjectId → Session → Result EngineError Project
unfolding find_project
get_project c id s = lift (queried c.project_query (find_project id s.projects)) >>= λ found.
    ok_or found (EngineError.project_not_found id)

-- The guards of `create_run`: a writeable client, the project, and no such run.
unfoldable pub check_new_run : Calls → ProjectId → RunId → Session → Result EngineError (Unit {0})
unfolding ensure_writeable project_exists get_run
check_new_run c project_id id s = ensure_writeable s >>= λ open_client.
    project_exists c project_id s >>= λ exists.
    if not exists then err (EngineError.project_not_found project_id) else elim (get_run c id s) [
      | ok run ↦ err (EngineError.run_already_exists id)
      | err (EngineError.run_not_found other) ↦ ok tt
      | err e ↦ err e
    ]

-- What the store's answer leaves: a run that is not created gives up its writer again.
unfoldable pub settled :
    RunId → Session → Result StorageError Run × List Run → Result EngineError Run × Session
unfolding release_run_writer
settled id s (ok run, runs) = (ok run, record s { runs = runs })
settled id s (err e, runs) =
    (err (from_storage e), release_run_writer id (record s { runs = runs }))

-- From the store's `create_run` on.
unfoldable pub write_new_run :
    Calls → ProjectId → Text → RunId → Session → Result EngineError Run × Session
unfolding store_create_run settled
write_new_run c project_id name id s = settled id s (store_create_run c project_id name id s.runs)

unfoldable pub create_run :
    Calls → ProjectId → (name : Text) → RunId → Session → Result EngineError Run × Session
unfolding check_new_run acquire write_new_run
create_run c project_id name id s =
    elim (check_new_run c project_id id s >>= λ fresh. acquire c id s) [
      | err e ↦ (err e, s)
      | ok acquired ↦ write_new_run c project_id name id acquired
    ]

unfoldable pub resume_run : Calls → RunId → Session → Result EngineError Run × Session
unfolding ensure_writeable get_run acquire
resume_run c id s = elim (ensure_writeable s >>= λ open_client. get_run c id s) [
  | err e ↦ (err e, s)
  | ok run ↦
      if not (status_eq run.status running)
      then (
        err (
            EngineError.invalid_run_transition id (run_status_value run.status)
              (run_status_value running)),
        s,
      )
      else elim (acquire c id s) [ err e ↦ (err e, s) | ok acquired ↦ (ok run, acquired) ]
]

-- `ActiveRun::closed`.
abbrev pub closed : ActiveRun
closed = record { writer_guard = false; admission = admission_terminal }

-- The shared object that the handle of a run gets.
unfoldable pub run_handle : RunId → Session → ActiveRun
unfolding get_entry
run_handle id s = elim (get_entry id s.active_runs) [ some a ↦ a | none ↦ closed ]

-- A shutdown, over what the reporter's shutdown returns.
unfoldable pub shutdown :
    Result EngineError (Unit {0}) → Session → Result EngineError (Unit {0}) × Session
shutdown (ok done) s = (ok done, record s { is_shutdown = true; active_runs = [] })
shutdown (err EngineError.metric_drain_timeout) s = (err EngineError.metric_drain_timeout, s)
shutdown (err e) s = (err e, record s { active_runs = [] })
