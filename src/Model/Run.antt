-- ===== src/Model/Run.antt =====
-- crates/pulseon-model/src/run.rs and types.rs: projects, runs and their lifecycle status.
use pulseon.Base.{Text, ℤ, Bool, true, false, Option, some, codes}

abbrev pub ProjectId : Type 0
ProjectId = Text

abbrev pub RunId : Type 0
RunId = Text

-- `DateTime<Utc>`, as the signed count of its units since the epoch.
abbrev pub Timestamp : Type 0
Timestamp = ℤ

pub record Project : Type 0 where
  pub project_id : ProjectId
  pub name : Text
  pub created_at : Timestamp

pub data RunStatus : Type 0 where
  running finished failed : RunStatus

pub record Run : Type 0 where
  pub run_id : RunId
  pub project_id : ProjectId
  pub name : Text
  pub status : RunStatus
  pub created_at : Timestamp
  pub started_at : Timestamp
  pub finished_at : Option Timestamp

unfoldable pub finish : Run → Timestamp → Run
finish run finished_at = record run { status = finished; finished_at = some finished_at }

-- `==` on statuses.
abbrev pub status_eq : RunStatus → RunStatus → Bool
status_eq running running = true
status_eq finished finished = true
status_eq failed failed = true
status_eq _ _ = false

-- The word that a status is stored and filtered by.
abbrev pub run_status_value : RunStatus → Text
run_status_value running = codes "running"
run_status_value finished = codes "finished"
run_status_value failed = codes "failed"
