-- ===== src/Reporting/System/Drain.antt =====
-- What the counters that a caller reads say of the rows that are stored.
use mathlib.Core.List.{append_assoc, append-nil}
use pulseon.Base.{
  ℕ, ◌≤◌, ◌≡◌, refl, sym, ap, ◌∙◌, Bool, List, [], ◌∷◌, ◌++◌, codes, arith, length, length-append,
}
use pulseon.Reporting.Diagnostics.{Diagnostics, snapshot, writer_state_name}
use pulseon.Reporting.Reporter.{MetricReport, enqueue_barrier_sequence}
use pulseon.Reporting.System.{
  idle, System, initial, Next, Reach, here, later, load, count, send, send_full, send_closed,
  advance, accept, uncount_full, note_full, uncount_closed, take_sender, close, receive, collect,
  collected, write, retry, give_up, confirm, total, mark, settle, die, end_failed, finish, IsAtomic,
}
use pulseon.Reporting.System.Numbered.{Numbered}
use pulseon.Reporting.System.Invariant.{Inv, Inv-initial, IsSmall, unstored, untotalled, unsettled}
use pulseon.Reporting.System.Steps.{Reach-Inv}
use pulseon.Reporting.System.Persisted.{IsSmall-back, Reach-persisted}

length-nil {ℓ} : {A : Type ℓ} → (xs : List A) → length xs ≡ 0 → xs ≡ []
length-nil [] e = refl
length-nil (x ∷ xs) e = absurd (omega (arith, e))

-- Of two ways to split a list, the longer front starts with the shorter one.
longer_front {ℓ} :
    {A : Type ℓ}
    → (xs ys zs ws : List A) → xs ++ ys ≡ zs ++ ws
    → length zs ≤ length xs
    → (rest : List A) × (xs ≡ zs ++ rest)
longer_front xs ys [] ws e le = (xs, refl)
longer_front [] ys (z ∷ zs) ws e le = absurd (omega (arith, le))
longer_front (x ∷ xs) ys (z ∷ zs) ws e le =
    let (rest, same) = longer_front xs ys zs ws (cc e) (omega (arith, le)) in (rest, cc)

drained_pending :
    (state pending : ℕ) → writer_state_name state pending ≡ codes "drained" → pending ≡ 0
drained_pending state pending e = ground (arith, e)

module _ {W : Type 0} where
  unmarked_le : (t : System W) → length (untotalled t.worker) ≤ length (unsettled t.worker)
  unmarked_le t = ground arith

  -- What one round of the drain loop sees of a state.
  abbrev pub observe : System W × Bool → Diagnostics × Bool
  observe round = (round.0.shared.diagnostics, round.1)

  barrier_length :
      (s t : System W)
      → Inv s
      → Inv t
      → s.caller ≡ idle
      → enqueue_barrier_sequence s.shared ≤ t.shared.diagnostics.persisted_through_sequence
      → length s.accepted ≤ length t.stored
  unfolding enqueue_barrier_sequence
  barrier_length s t early late e le = ground (arith, early.next, late.through)

  nothing_left :
      (t : System W)
      → t.accepted ≡ t.stored ++ (unstored t.worker ++ (t.shared.queue ++ t.lost))
      → length (unstored t.worker) ≡ 0
      → length t.shared.queue ≡ 0
      → length t.lost ≡ 0
      → t.stored ≡ t.accepted
  nothing_left t split a b c = cc (
    append-nil t.stored,
    length-nil (unstored t.worker) a,
    length-nil t.shared.queue b,
    length-nil t.lost c,
  )

module _ {W : Type 0} {kept_rows : List (MetricReport W) → ℕ → List (MetricReport W)} where
  Next-extends :
      {s t : System W}
      → Next kept_rows s t
      → (more : List (MetricReport W)) × (t.accepted ≡ s.accepted ++ more)
  Next-extends (send report shared e h) = (report ∷ [], refl)
  Next-extends {s} (load run_id metric_key step value now report e h) =
      ([], sym (append-nil s.accepted))
  Next-extends {s} (count report e) = ([], sym (append-nil s.accepted))
  Next-extends {s} (send_full report shared e h) = ([], sym (append-nil s.accepted))
  Next-extends {s} (send_closed report shared e h) = ([], sym (append-nil s.accepted))
  Next-extends {s} (advance e) = ([], sym (append-nil s.accepted))
  Next-extends {s} (accept e) = ([], sym (append-nil s.accepted))
  Next-extends {s} (uncount_full e) = ([], sym (append-nil s.accepted))
  Next-extends {s} (note_full e) = ([], sym (append-nil s.accepted))
  Next-extends {s} (uncount_closed e) = ([], sym (append-nil s.accepted))
  Next-extends {s} (take_sender e) = ([], sym (append-nil s.accepted))
  Next-extends {s} (close e) = ([], sym (append-nil s.accepted))
  Next-extends {s} (receive report rest e h) = ([], sym (append-nil s.accepted))
  Next-extends {s} (collect batch report rest e lt h) = ([], sym (append-nil s.accepted))
  Next-extends {s} (collected batch e h) = ([], sym (append-nil s.accepted))
  Next-extends {s} (write batch attempt e) = ([], sym (append-nil s.accepted))
  Next-extends {s} (retry batch attempt message e lt) = ([], sym (append-nil s.accepted))
  Next-extends {s} (give_up batch message e) = ([], sym (append-nil s.accepted))
  Next-extends {s} (confirm batch e) = ([], sym (append-nil s.accepted))
  Next-extends {s} (total batch e) = ([], sym (append-nil s.accepted))
  Next-extends {s} (mark batch e) = ([], sym (append-nil s.accepted))
  Next-extends {s} (settle batch e) = ([], sym (append-nil s.accepted))
  Next-extends {s} (die batch e) = ([], sym (append-nil s.accepted))
  Next-extends {s} (end_failed e) = ([], sym (append-nil s.accepted))
  Next-extends {s} (finish e f g) = ([], sym (append-nil s.accepted))

  Reach-extends :
      {s t : System W}
      → Reach kept_rows s t
      → (more : List (MetricReport W)) × (t.accepted ≡ s.accepted ++ more)
  Reach-extends {s} here = ([], sym (append-nil s.accepted))
  Reach-extends {s} (later r n) =
      let (more, e) = Reach-extends r in
      let (most, f) = Next-extends n in
      (more ++ most, f ∙ (ap (λ xs. xs ++ most) e ∙ append_assoc s.accepted more most))

  -- If a failed append stores nothing, in every reachable state the stored rows are the first of the accepted reports, in their
  -- order and none twice (the accepted reports carry the numbers 1, 2, 3 and so on), the queue is
  -- within its capacity, the persisted counter is never ahead of the stored rows, and the
  -- persisted-through number is never past the last one stored; while fewer reports than the
  -- counters can count are accepted.
  pub Reach-stored :
      {t : System W}
      → IsAtomic kept_rows
      → (capacity : ℕ) → Reach kept_rows (initial capacity) t
      → IsSmall t
      → ((rest : List (MetricReport W)) × (t.accepted ≡ t.stored ++ rest))
        × (Numbered 1 t.accepted)
        × (length t.shared.queue ≤ t.shared.capacity)
        × (t.shared.diagnostics.persisted_reports ≤ length t.stored)
        × (t.shared.diagnostics.persisted_through_sequence ≤ length t.stored)
  Reach-stored {t} atomic capacity r small =
      let inv = Reach-Inv atomic r small (Inv-initial capacity) in
      (
        (unstored t.worker ++ (t.shared.queue ++ t.lost), inv.split),
        inv.numbered,
        inv.room,
        omega (arith, inv.persisted),
        omega (arith, inv.through),
      )

  Reach-append :
      {s t u : System W} → Reach kept_rows s t → Reach kept_rows t u → Reach kept_rows s u
  Reach-append r here = r
  Reach-append r (later q n) = later (Reach-append r q) n

  -- When no thread is inside `report_metric` at a state and the persisted-through number of a later
  -- one has reached the barrier taken there, all that was accepted at the first is stored at the later.
  pub barrier_stored :
      {s t : System W}
      → IsAtomic kept_rows
      → (capacity : ℕ) → Reach kept_rows (initial capacity) s
      → Reach kept_rows s t
      → IsSmall t
      → s.caller ≡ idle
      → enqueue_barrier_sequence s.shared ≤ t.shared.diagnostics.persisted_through_sequence
      → (rest : List (MetricReport W)) × (t.stored ≡ s.accepted ++ rest)
  unfolding enqueue_barrier_sequence
  barrier_stored {s} {t} atomic capacity r q small e le =
      let late = Reach-Inv atomic (Reach-append r q) small (Inv-initial capacity) in
      let (more, grown) = Reach-extends q in
      let early =
        Reach-Inv atomic r
          (omega (arith, small, ap {B = ℕ} length grown, length-append s.accepted more))
          (Inv-initial capacity) in
      longer_front t.stored (unstored t.worker ++ (t.shared.queue ++ t.lost)) s.accepted more
        (sym late.split ∙ grown) (barrier_length s t early late e le)

  -- If a failed append stores nothing and a snapshot says "drained", every report accepted by the
  -- load of the pending counter was stored by then, and the persisted count it shows is at least
  -- their number. The loads of the pending counter, of the writer's state and of the persisted
  -- counter are at three states, in this order, with any steps between them, fewer reports than the
  -- counters can count being accepted; nothing is asked of the other loads.
  pub snapshot-drained :
      {t u v : System W}
      → IsAtomic kept_rows
      → (capacity : ℕ) (queue_full write_error run_id status flush_error : Diagnostics)
      → Reach kept_rows (initial capacity) t
      → Reach kept_rows t u
      → Reach kept_rows u v
      → IsSmall v
      → let seen =
          snapshot t.shared.diagnostics u.shared.diagnostics queue_full v.shared.diagnostics
            write_error run_id status flush_error in
        seen.writer_state ≡ codes "drained"
        → (t.stored ≡ t.accepted) × (length t.accepted ≤ seen.persisted_reports)
  unfolding snapshot
  snapshot-drained {t} {u} {v} atomic capacity _ _ _ _ _ r q p small e =
      let at_t = IsSmall-back (Reach-append q p) small in
      let inv = Reach-Inv atomic r at_t (Inv-initial capacity) in
      let none_pending =
        drained_pending u.shared.diagnostics.writer_state t.shared.diagnostics.pending_reports e in
      let same =
        nothing_left t inv.split (omega (arith, inv.pending, none_pending))
          (omega (arith, inv.pending, none_pending)) (omega (arith, inv.pending, none_pending)) in
      (
        same,
        omega (
          arith,
          inv.persisted,
          inv.pending,
          none_pending,
          unmarked_le t,
          ap {B = ℕ} length same,
          Reach-persisted atomic (Reach-append q p) small inv,
        ),
      )
