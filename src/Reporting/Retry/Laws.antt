-- ===== src/Reporting/Retry/Laws.antt =====
-- How often a batch is tried, how long the writer waits, and in which order rows are stamped.
use pulseon.Base.{
  ℕ, zero, suc, ◌+◌, ◌≤◌, ◌≡◌, ◌⊎◌, inl, inr, refl, ap, false, List, [], ◌∷◌, ℤ, pos, ◌≤ℤ◌, ◌+ℤ◌,
  pos_part, neg_part, max_ℤ, int_laws, Result, ok, err, arith, length, Text, take,
}
use pulseon.Engine.Error.{EngineError}
use pulseon.Reporting.Diagnostics.{Diagnostics, set_writer_running, writer_running}
use pulseon.Reporting.Reporter.{MetricReport, is_ok}
use pulseon.Reporting.Retry.{
  retry_metric_batch_write, rows_from, MetricWrite, write_metric_batch, writer_max_retries,
}

-- The first attempt within the allowed six that succeeds.
abbrev pub first_success : (ℕ → Result EngineError ℤ) → ℕ → ℕ → ℕ
first_success write zero attempt = attempt
first_success write (suc retries) attempt = elim (write attempt) [
  | ok t ↦ attempt
  | err e ↦ first_success write retries (attempt + 1)
]

-- The waits of a batch whose every attempt fails.
abbrev pub backoffs : List ℕ
backoffs = 50 ∷ 100 ∷ 200 ∷ 400 ∷ 800 ∷ []

module _ (display : EngineError → Text) (write : ℕ → Result EngineError ℤ) where
  -- The loop stops at the first attempt that succeeds, and at the sixth if none does: its result
  -- is that attempt's, it makes no further attempt, and it has slept 50, 100, 200, 400 and 800
  -- milliseconds, one of these before each attempt but the first; a success leaves the writer running.
  pub retry_metric_batch_write_lem :
      (d : Diagnostics)
      → let last = first_success write writer_max_retries 0 in
        let r = retry_metric_batch_write display write d in
        (r.result ≡ write last)
        × (r.attempts ≡ last + 1)
        × (r.sleeps ≡ take last backoffs)
        × (last ≤ writer_max_retries)
        × ((is_ok (write last) ≡ false) ⊎ (r.diagnostics.writer_state ≡ writer_running))
  unfolding retry_metric_batch_write set_writer_running
  retry_metric_batch_write_lem d = ground arith

-- What the writer returns for the outcome of its append.
abbrev outcome :
    {Store : Type 0} → Result EngineError (Unit {0}) × Store → ℤ → Result EngineError ℤ × Store
outcome (appended, store) free = elim appended [
  | ok done ↦ (ok free, store)
  | err e ↦ (err e, store)
]

outcome_store :
    {Store : Type 0}
    → (r : Result EngineError (Unit {0}) × Store) (free : ℤ) → (outcome r free).1 ≡ r.1
outcome_store (ok done, store) free = refl
outcome_store (err e, store) free = refl

outcome_cases :
    {Store : Type 0}
    → (r : Result EngineError (Unit {0}) × Store) (free end : ℤ) → free ≡ end
    → ((r.0 ≡ ok tt) × ((outcome r free).0 ≡ ok end))
      ⊎ ((e : EngineError) × (r.0 ≡ err e) × ((outcome r free).0 ≡ err e))
outcome_cases (ok done, store) free end same = inl (refl, ap (λ t. ok t) same)
outcome_cases (err e, store) free end same = inr (e, refl, refl)

module _ {W : Type 0} where
  -- The rows carry their reports' fields, stamped from `start` on with one millisecond between.
  abbrev pub StampedFrom : ℤ → List (MetricReport W) → List (MetricWrite W) → Type 0
  StampedFrom start [] [] = Unit
  StampedFrom start [] (row ∷ rows) = ⊥
  StampedFrom start (report ∷ batch) [] = ⊥
  StampedFrom start (report ∷ batch) (row ∷ rows) =
      (row.ingested_at_millis ≡ start)
      × (row.run_id ≡ report.run_id)
      × (row.metric_key ≡ report.metric_key)
      × (row.step ≡ report.step)
      × (row.timestamp_millis ≡ report.timestamp_millis)
      × (row.value_f64 ≡ report.value_f64)
      × StampedFrom (start +ℤ pos 1) batch rows

  rows_from-StampedFrom :
      (start : ℤ) (batch : List (MetricReport W))
      → StampedFrom start batch (rows_from start batch).0
        × ((rows_from start batch).1 ≡ start +ℤ pos (length batch))
  unfolding rows_from
  rows_from-StampedFrom start [] = (tt, omega int_laws)
  rows_from-StampedFrom start (report ∷ batch) =
      let (stamped, next) = rows_from-StampedFrom (start +ℤ pos 1) batch in
      (
        (refl, refl, refl, refl, refl, refl, stamped),
        omega (int_laws, ap pos_part next, ap neg_part next),
      )

  -- Whatever the append does, a batch is appended exactly once, as one list of rows, one for each
  -- report in order, stamped one millisecond apart from a time on that is neither before the next
  -- free one nor before now: the store is what that one append leaves of it. When the append
  -- succeeds, the next free time that is returned lies just behind the last row, and else the
  -- append's error is returned.
  pub write_metric_batch_lem :
      {Store : Type 0}
      → (append : Store → List (MetricWrite W) → Result EngineError (Unit {0}) × Store)
        (store : Store) (batch : List (MetricReport W)) (next now : ℤ)
      → let (result, store') = write_metric_batch append store batch next now in
        (rows : List (MetricWrite W)) × (start : ℤ) × StampedFrom start batch rows
        × (next ≤ℤ start)
        × (now ≤ℤ start)
        × (store' ≡ (append store rows).1)
        × ((((append store rows).0 ≡ ok tt) × (result ≡ ok (start +ℤ pos (length batch))))
            ⊎ ((e : EngineError) × ((append store rows).0 ≡ err e) × (result ≡ err e)))
  unfolding write_metric_batch
  write_metric_batch_lem append store batch next now =
      let start = max_ℤ next now in
      let (stamped, free) = rows_from-StampedFrom start batch in
      let rows = (rows_from start batch).0 in
      (
        rows,
        start,
        stamped,
        ground arith,
        ground arith,
        outcome_store (append store rows) (rows_from start batch).1,
        outcome_cases (append store rows) (rows_from start batch).1 _ free,
      )
