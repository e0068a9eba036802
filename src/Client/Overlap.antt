-- ===== src/Client/Overlap.antt =====
-- Two calls of `create_run` for one identifier, in two threads of one client.
use pulseon.Base.{
  ◌≡◌, inl, inr, refl, ap, ◌∙◌, true, false, none, some, Result, ok, err, ◌>>=◌, ◌>>◌, List, [],
  ◌∷◌, ◌++◌, Text, text_eq, text_eq_refl, get_entry, insert_entry, get_entry-remove_same, arith,
  Option-cases,
}
use pulseon.Model.Run.{Run, RunId, ProjectId, Timestamp}
use pulseon.Engine.Error.{StorageError, EngineError, from_storage}
use pulseon.Client.Run.{opened}
use pulseon.Client.Session.{
  Session, Calls, find_project, find_run, is_some, ensure_writeable, project_exists, get_run,
  acquire, release_run_writer, created_run, store_create_run, check_new_run, write_new_run, settled,
  run_handle, closed,
}
use pulseon.Client.Create.{acquire-ok}

module _ (first second : Calls) (project_id : ProjectId) (name : Text) (id : RunId) where
  -- The second call's row, after the first call's.
  abbrev pub second_row :
      Result EngineError Run × Session → Result EngineError (Result EngineError Run × Session)
  unfolding write_new_run
  second_row (ok run, s) = ok (write_new_run second project_id name id s)
  second_row (err e, s) = err e

  abbrev pub second_writer : Session → Result EngineError (Result EngineError Run × Session)
  unfolding write_new_run acquire second_row
  second_writer t =
      acquire second id t >>= λ u. second_row (write_new_run first project_id name id u)

  -- Two calls for one identifier, the second's guards and writer before the first one's row: what the
  -- second returns, and the session afterwards.
  abbrev pub overlapping : Session → Result EngineError (Result EngineError Run × Session)
  unfolding check_new_run acquire second_writer
  overlapping s =
      check_new_run first project_id id s
      >> (check_new_run second project_id id s >> (acquire first id s >>= second_writer))

-- Nothing outside fails, and the clock reads this.
abbrev pub sound : Timestamp → Calls
sound now = record {
  project_query = none;
  project_insert = none;
  run_query = none;
  exists_query = none;
  run_insert = none;
  lock = ok tt;
  now = ok now;
}

find_run-append :
    (id : RunId) (runs : List Run) (row : Run)
    → row.run_id ≡ id
    → find_run id runs ≡ none
    → find_run id (runs ++ (row ∷ [])) ≡ some row
unfolding find_run
find_run-append id [] row same h = rw (same, text_eq_refl id) refl
find_run-append id (r ∷ rs) row same h =
    let other : text_eq r.run_id id ≡ false = ground (arith, h) in
    let rest : find_run id rs ≡ none = ground (arith, h) in
    rw other (find_run-append id rs row same rest)

check_sound :
    (now : Timestamp) (project_id : ProjectId) (id : RunId) (s : Session)
    → s.is_shutdown ≡ false
    → is_some (find_project project_id s.projects) ≡ true
    → find_run id s.runs ≡ none
    → check_new_run (sound now) project_id id s ≡ ok tt
unfolding check_new_run ensure_writeable project_exists get_run from_storage
check_sound now project_id id s writeable exists new = rw (writeable, exists, new) refl

take_writer :
    (now : Timestamp) (id : RunId) (s : Session) → (t : Session) × (acquire (sound now) id s ≡ ok t)
unfolding acquire
take_writer now id s = elim (Option-cases (get_entry id s.active_runs)) [
  | inr (a, e) ↦ (s, rw (acquire, e) refl)
  | inl e ↦ (record s { active_runs = insert_entry id opened s.active_runs }, rw (acquire, e) refl)
]

store_first :
    (now : Timestamp) (project_id : ProjectId) (name : Text) (id : RunId) (runs : List Run)
    → find_run id runs ≡ none
    → store_create_run (sound now) project_id name id runs
      ≡ (ok (created_run project_id name id now), runs ++ (created_run project_id name id now ∷ []))
unfolding store_create_run
store_first now project_id name id runs new = rw (store_create_run, new) refl

store_second :
    (now : Timestamp) (project_id : ProjectId) (name : Text) (id : RunId) (runs : List Run)
    (row : Run)
    → find_run id runs ≡ some row
    → store_create_run (sound now) project_id name id runs
      ≡ (err (StorageError.run_already_exists id), runs)
unfolding store_create_run
store_second now project_id name id runs row found = rw (store_create_run, found) refl

write_first :
    (now : Timestamp) (project_id : ProjectId) (name : Text) (id : RunId) (s : Session)
    → find_run id s.runs ≡ none
    → write_new_run (sound now) project_id name id s ≡ (
      ok (created_run project_id name id now),
      record s { runs = s.runs ++ (created_run project_id name id now ∷ []) },
    )
unfolding write_new_run settled
write_first now project_id name id s new =
    ap (settled id s) (store_first now project_id name id s.runs new)

write_second :
    (now : Timestamp) (project_id : ProjectId) (name : Text) (id : RunId) (s : Session) (row : Run)
    → find_run id s.runs ≡ some row
    → write_new_run (sound now) project_id name id s
      ≡ (err (EngineError.run_already_exists id), release_run_writer id s)
unfolding write_new_run settled from_storage
write_second now project_id name id s row found =
    ap (settled id s) (store_second now project_id name id s.runs row found)

-- Two calls of `create_run` for one identifier overlap in one client: with nothing else failing, in a
-- writeable client with the project and no such run, where the second call passes its guards and takes
-- the shared writer before the first call's row is written. The first call returns a run that the store
-- has as running; the second fails with RunAlreadyExists and has taken the first one's writer away: a
-- handle of the run is closed, and refuses every report.
pub overlapping-run_handle :
    (first second : Timestamp) (project_id : ProjectId) (name : Text) (id : RunId) (s : Session)
    → s.is_shutdown ≡ false
    → is_some (find_project project_id s.projects) ≡ true
    → find_run id s.runs ≡ none
    → (after : Session) × (overlapping (sound first) (sound second) project_id name id s
        ≡ ok (err (EngineError.run_already_exists id), after))
      × (find_run id after.runs ≡ some (created_run project_id name id first))
      × (run_handle id after ≡ closed)
unfolding overlapping run_handle release_run_writer second_writer second_row
overlapping-run_handle first second project_id name id s writeable exists new =
    let row = created_run project_id name id first in
    let early = sound first in
    let later = sound second in
    let writer = second_writer early later project_id name id in
    let row_after = second_row early later project_id name id in
    let (t, e0) = take_writer first id s in
    let (u, e1) = take_writer second id t in
    let rows : u.runs ≡ s.runs =
      (acquire-ok (sound second) id t e1).0 ∙ (acquire-ok (sound first) id s e0).0 in
    let still_new : find_run id u.runs ≡ none = ap (find_run id) rows ∙ new in
    let v : Session = record u { runs = u.runs ++ (row ∷ []) } in
    let found = find_run-append id u.runs row refl still_new in
    (
      release_run_writer id v,
      ap (λ r. r >> (check_new_run later project_id id s >> (acquire early id s >>= writer)))
            (check_sound first project_id id s writeable exists new)
          ∙ ap (λ r. r >> (acquire early id s >>= writer))
              (check_sound second project_id id s writeable exists new)
          ∙ ap (λ r. r >>= writer) e0
          ∙ ap (λ r. r >>= λ u. row_after (write_new_run early project_id name id u)) e1
          ∙ ap row_after (write_first first project_id name id u still_new)
          ∙ ap ok (write_second second project_id name id v row found),
      found,
      rw (run_handle, get_entry-remove_same id u.active_runs) refl,
    )
