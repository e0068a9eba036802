-- ===== src/Client/Create.antt =====
-- `create_run` on its own, and two calls of it that overlap.
use pulseon.Base.{
  ◌≡◌, ◌⊎◌, inl, inr, refl, sym, ap, ◌∙◌, true, false, none, Result, ok, err, List, [], ◌∷◌, ◌++◌,
  Text, get_entry, insert_entry, get_entry-insert_same, get_entry-remove_same, arith, Option-cases,
}
use pulseon.Model.Run.{Run, RunId, running, ProjectId, Timestamp}
use pulseon.Engine.Error.{StorageError, EngineError}
use pulseon.Client.Run.{opened}
use pulseon.Client.Session.{
  Session, Calls, find_project, find_run, is_some, ensure_writeable, project_exists, acquire,
  release_run_writer, created_run, store_create_run, check_new_run, write_new_run, settled,
  create_run,
}

-- What a call of `create_run` does. A run that it returns is a new row, which is running and has a
-- writer; a call that fails leaves the rows as they were, and either the whole session or no writer
-- for the run.
abbrev pub IsOutcome : ProjectId → RunId → Session → Result EngineError Run × Session → Type 0
IsOutcome project_id id s (ok run, after) =
    (run.run_id ≡ id)
    × (run.project_id ≡ project_id)
    × (run.status ≡ running)
    × (s.is_shutdown ≡ false)
    × (is_some (find_project project_id s.projects) ≡ true)
    × (find_run id s.runs ≡ none)
    × (after.runs ≡ s.runs ++ (run ∷ []))
    × (is_some (get_entry id after.active_runs) ≡ true)
IsOutcome project_id id s (err e, after) =
    (after.runs ≡ s.runs) × ((after ≡ s) ⊎ (get_entry id after.active_runs ≡ none))

pub Result-split {ℓ κ} :
    {E : Type ℓ} {A : Type κ} (r : Result E A) → ((a : A) × (r ≡ ok a)) ⊎ ((e : E) × (r ≡ err e))
Result-split (ok a) = inl (a, refl)
Result-split (err e) = inr (e, refl)

pub ok_inj : (r : Result EngineError Session) {a b : Session} → r ≡ ok a → r ≡ ok b → a ≡ b
ok_inj r h k = cc

pub acquire-ok :
    (c : Calls) (id : RunId) (s : Session) {t : Session}
    → acquire c id s ≡ ok t
    → (t.runs ≡ s.runs) × (is_some (get_entry id t.active_runs) ≡ true)
unfolding acquire
acquire-ok c id s {t} h = elim (Option-cases (get_entry id s.active_runs)) [
  | inr (a, e) ↦
      let same : s ≡ t = ok_inj (acquire c id s) (rw (acquire, e) refl) h in
      rw (sym same, e) (refl, refl)
  | inl e ↦ elim (Result-split c.lock) [
    | inl (locked, f) ↦
        let next : Session = record s { active_runs = insert_entry id opened s.active_runs } in
        let same : next ≡ t = ok_inj (acquire c id s) (rw (acquire, e, f) refl) h in
        rw (sym same) (refl, ap is_some (get_entry-insert_same id opened s.active_runs))
    | inr (failure, f) ↦ let refused : acquire c id s ≡ err failure = rw (acquire, e, f) refl in cc
  ]
]

check_new_run-ok :
    (c : Calls) (project_id : ProjectId) (id : RunId) (s : Session)
    → check_new_run c project_id id s ≡ ok tt
    → (s.is_shutdown ≡ false) × (is_some (find_project project_id s.projects) ≡ true)
unfolding check_new_run ensure_writeable project_exists
check_new_run-ok c project_id id s h =
    let writeable : s.is_shutdown ≡ false = ground (arith, h) in
    let exists : is_some (find_project project_id s.projects) ≡ true = ground (arith, h) in
    (writeable, exists)

store_create_run-cases :
    (c : Calls) (project_id : ProjectId) (name : Text) (id : RunId) (runs : List Run)
    → ((e : StorageError) × (store_create_run c project_id name id runs ≡ (err e, runs)))
      ⊎ ((now : Timestamp) × (find_run id runs ≡ none)
          × (store_create_run c project_id name id runs ≡ (
            ok (created_run project_id name id now),
            runs ++ (created_run project_id name id now ∷ []),
          )))
unfolding store_create_run
store_create_run-cases c project_id name id runs = elim (Option-cases c.exists_query) [
  | inr (failure, e) ↦ inl (failure, rw (store_create_run, e) refl)
  | inl e ↦ elim (Option-cases (find_run id runs)) [
    | inr (run, f) ↦ inl (StorageError.run_already_exists id, rw (store_create_run, e, f) refl)
    | inl f ↦ elim (Result-split c.now) [
      | inr (failure, g) ↦ inl (failure, rw (store_create_run, e, f, g) refl)
      | inl (now, g) ↦ elim (Option-cases c.run_insert) [
        | inr (failure, h) ↦ inl (failure, rw (store_create_run, e, f, g, h) refl)
        | inl h ↦ inr (now, f, rw (store_create_run, e, f, g, h) refl)
      ]
    ]
  ]
]

-- Every call of `create_run` is one of these: it returns a run that is running under the given
-- identifier and project, which was a writeable client's known project and no run before, appended to
-- the rows, with a writer; or it fails and leaves the rows as they were, and either the whole session
-- as it was or no writer for the run.
pub create_run-IsOutcome :
    (c : Calls) (project_id : ProjectId) (name : Text) (id : RunId) (s : Session)
    → IsOutcome project_id id s (create_run c project_id name id s)
unfolding create_run write_new_run settled release_run_writer
create_run-IsOutcome c project_id name id s =
    elim (Result-split (check_new_run c project_id id s)) [
      | inr (failure, e) ↦ rw (create_run, e) (refl, inl refl)
      | inl (fresh, e) ↦ elim (Result-split (acquire c id s)) [
        | inr (failure, f) ↦ rw (create_run, e, f) (refl, inl refl)
        | inl (acquired, f) ↦
            let (rows, entry) = acquire-ok c id s f in
            let (writeable, exists) = check_new_run-ok c project_id id s e in
            elim (store_create_run-cases c project_id name id acquired.runs) [
              | inl (failure, g) ↦
                  rw (create_run, e, f, write_new_run, g)
                    (rows, inr (get_entry-remove_same id acquired.active_runs))
              | inr (now, new, g) ↦
                  let fresh_row : find_run id s.runs ≡ none = ap (find_run id) (sym rows) ∙ new in
                  rw (create_run, e, f, write_new_run, g)
                    (
                      refl,
                      refl,
                      refl,
                      writeable,
                      exists,
                      fresh_row,
                      ap (λ runs. runs ++ (created_run project_id name id now ∷ [])) rows,
                      entry,
                    )
            ]
      ]
    ]
