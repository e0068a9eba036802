-- ===== src/Reporting/System/Invariant.antt =====
-- The accounting invariant of the reporter and its worker.
use pulseon.Base.{
  ℕ, ◌+◌, ◌<◌, ◌≤◌, ◌≡◌, ◌≢◌, refl, ap, Bool, true, false, List, [], ◌++◌, arith, length,
  length-append,
}
use pulseon.Reporting.Diagnostics.{u64_mod}
use pulseon.Reporting.Reporter.{MetricReport, open_with_capacity}
use pulseon.Reporting.System.{
  Caller, loaded, counted, queued, refused_full, refused_closed, Worker, collecting, writing,
  written, confirmed, totalled, marked, failing, failed, ended, System, initial,
}
use pulseon.Reporting.System.Numbered.{Numbered}

module _ {W : Type 0} where
  -- The batch that the worker holds and that is not stored.
  abbrev pub unstored : Worker W → List (MetricReport W)
  unstored (collecting batch) = batch
  unstored (writing batch attempt) = batch
  unstored (failing batch) = batch
  unstored _ = []

  -- The batch that is stored and that one of the three updates does not show yet.
  abbrev pub untotalled : Worker W → List (MetricReport W)
  untotalled (written batch) = batch
  untotalled (confirmed batch) = batch
  untotalled _ = []

  abbrev pub unmarked : Worker W → List (MetricReport W)
  unmarked (totalled batch) = batch
  unmarked w = untotalled w

  abbrev pub unsettled : Worker W → List (MetricReport W)
  unsettled (marked batch) = batch
  unsettled w = unmarked w

  abbrev pub alive : Worker W → Bool
  alive failed = false
  alive ended = false
  alive _ = true

  -- Reports that the caller counts as pending and that are not in the queue.
  abbrev pub surplus : Caller W → ℕ
  surplus (counted report) = 1
  surplus refused_full = 1
  surplus refused_closed = 1
  surplus _ = 0

  -- The next sequence number, as the caller's progress shows it.
  abbrev pub behind : Caller W → ℕ
  behind queued = 0
  behind _ = 1

  -- A report that waits to be sent has the next number.
  abbrev pub IsNext : ℕ → Caller W → Type 0
  IsNext n (loaded report) = report.enqueue_sequence ≡ n
  IsNext n (counted report) = report.enqueue_sequence ≡ n
  IsNext n _ = Unit

  -- A batch that is being accounted for is not empty.
  abbrev pub HasBatch : Worker W → Type 0
  HasBatch (collecting batch) = batch ≢ []
  HasBatch (writing batch attempt) = batch ≢ []
  HasBatch (written batch) = batch ≢ []
  HasBatch (confirmed batch) = batch ≢ []
  HasBatch (totalled batch) = batch ≢ []
  HasBatch _ = Unit

  -- The batch stands at the end of the stored rows.
  abbrev pub EndsWith : List (MetricReport W) → List (MetricReport W) → Type 0
  EndsWith stored batch = (before : List (MetricReport W)) × (stored ≡ before ++ batch)

  pub record Inv (s : System W) : Type 0 where
    pub split : s.accepted ≡ s.stored ++ (unstored s.worker ++ (s.shared.queue ++ s.lost))
    pub numbered : Numbered 1 s.accepted
    pub next : s.shared.next_enqueue_sequence ≡ length s.accepted + behind s.caller
    pub is_next : IsNext (length s.accepted + 1) s.caller
    pub pending :
        s.shared.diagnostics.pending_reports
        ≡ length (unstored s.worker)
          + length (unsettled s.worker)
          + length s.shared.queue
          + length s.lost
          + surplus s.caller
    pub persisted :
        s.shared.diagnostics.persisted_reports + length (untotalled s.worker) ≡ length s.stored
    pub through :
        s.shared.diagnostics.persisted_through_sequence + length (unmarked s.worker)
        ≡ length s.stored
    pub tail : EndsWith s.stored (unsettled s.worker)
    pub has_batch : HasBatch s.worker
    pub room : length s.shared.queue ≤ s.shared.capacity
    pub receiver : s.shared.receiver ≡ alive s.worker
    pub lost_none : alive s.worker ≡ true → s.lost ≡ []
    pub queue_none : alive s.worker ≡ false → s.shared.queue ≡ []

  -- No counter is near its wrap-around.
  abbrev pub IsSmall : System W → Type 0
  IsSmall s = length s.accepted + 2 < u64_mod

  pub Inv-initial : (capacity : ℕ) → Inv (initial capacity)
  unfolding open_with_capacity
  Inv-initial capacity = record {
    split = refl;
    numbered = tt;
    next = refl;
    is_next = tt;
    pending = refl;
    persisted = refl;
    through = refl;
    tail = ([], refl);
    has_batch = tt;
    room = omega arith;
    receiver = refl;
    lost_none = λ e. refl;
    queue_none = λ e. refl;
  }

  -- Every accepted report is stored, held by the worker, queued or lost.
  pub Inv-sizes :
      {s : System W}
      → Inv s
      → (length s.stored + length (unstored s.worker) + length s.shared.queue + length s.lost
          ≡ length s.accepted)
        × (length (unsettled s.worker) ≤ length s.stored)
  Inv-sizes {s} inv =
      let (before, split_tail) = inv.tail in
      (
        omega (
          arith,
          ap {B = ℕ} length inv.split,
          length-append s.stored (unstored s.worker ++ (s.shared.queue ++ s.lost)),
          length-append (unstored s.worker) (s.shared.queue ++ s.lost),
          length-append s.shared.queue s.lost,
        ),
        omega (arith, ap {B = ℕ} length split_tail, length-append before (unsettled s.worker)),
      )
