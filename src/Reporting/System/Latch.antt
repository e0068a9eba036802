-- ===== src/Reporting/System/Latch.antt =====
-- A worker that has ended without the failure latch: what a drain does then.
use pulseon.Base.{ℕ, ◌<◌, ◌≡◌, refl, ◌∙◌, Bool, false, none, List, [], ◌∷◌, arith, All, map}
use pulseon.Reporting.Diagnostics.{
  Diagnostics, is_writer_failed, increment_pending, decrement_pending, increment_accepted,
  increment_queue_full, set_writer_closed,
}
use pulseon.Reporting.Reporter.{
  MetricReport, begin_report, try_send, advance_sequence, again, drain_look, drain_through,
}
use pulseon.Reporting.System.{
  ended, System, Next, Reach, here, later, load, count, send, send_full, send_closed, advance,
  accept, uncount_full, note_full, uncount_closed, take_sender, close, receive, collect, collected,
  write, retry, give_up, confirm, total, mark, settle, die, end_failed, finish,
}

again_lem :
    (barrier : ℕ) (d : Diagnostics) (rounds : List (Diagnostics × Bool))
    → drain_look barrier d ≡ again
    → drain_through barrier ((d, false) ∷ rounds) ≡ drain_through barrier rounds
unfolding drain_through
again_lem barrier d rounds h = ground (arith, h)

module _ {W : Type 0} where
  -- The worker is gone, has not stored what the barrier asks for, and does not count as failed.
  abbrev IsStuck : ℕ → System W → Type 0
  IsStuck barrier s =
      (s.worker ≡ ended)
      × (s.shared.diagnostics.persisted_through_sequence < barrier)
      × (is_writer_failed s.shared.diagnostics ≡ false)

  look_again :
      (barrier : ℕ) (t : System W)
      → IsStuck barrier t
      → drain_look barrier t.shared.diagnostics ≡ again
  unfolding drain_look
  look_again barrier t stuck = ground (arith, stuck)

module _ {W : Type 0} {kept_rows : List (MetricReport W) → ℕ → List (MetricReport W)} where
  Next-IsStuck :
      {s t : System W} → (barrier : ℕ) → Next kept_rows s t → IsStuck barrier s → IsStuck barrier t
  unfolding begin_report try_send increment_pending decrement_pending increment_accepted
      increment_queue_full set_writer_closed advance_sequence is_writer_failed
  Next-IsStuck barrier (load run_id metric_key step value now report e h) stuck =
      ground (arith, stuck)
  Next-IsStuck barrier (count report e) stuck = ground (arith, stuck)
  Next-IsStuck barrier (send report shared e h) stuck = ground (arith, stuck)
  Next-IsStuck barrier (send_full report shared e h) stuck = ground (arith, stuck)
  Next-IsStuck barrier (send_closed report shared e h) stuck = ground (arith, stuck)
  Next-IsStuck barrier (advance e) stuck = ground (arith, stuck)
  Next-IsStuck barrier (accept e) stuck = ground (arith, stuck)
  Next-IsStuck barrier (uncount_full e) stuck = ground (arith, stuck)
  Next-IsStuck barrier (note_full e) stuck = ground (arith, stuck)
  Next-IsStuck barrier (uncount_closed e) stuck = ground (arith, stuck)
  Next-IsStuck barrier (take_sender e) stuck = ground (arith, stuck)
  Next-IsStuck barrier (close e) stuck = ground (arith, stuck)
  Next-IsStuck barrier (receive report rest e h) stuck = ground (arith, stuck)
  Next-IsStuck barrier (collect batch report rest e lt h) stuck = ground (arith, stuck)
  Next-IsStuck barrier (collected batch e h) stuck = ground (arith, stuck)
  Next-IsStuck barrier (write batch attempt e) stuck = ground (arith, stuck)
  Next-IsStuck barrier (retry batch attempt message e lt) stuck = ground (arith, stuck)
  Next-IsStuck barrier (give_up batch message e) stuck = ground (arith, stuck)
  Next-IsStuck barrier (confirm batch e) stuck = ground (arith, stuck)
  Next-IsStuck barrier (total batch e) stuck = ground (arith, stuck)
  Next-IsStuck barrier (mark batch e) stuck = ground (arith, stuck)
  Next-IsStuck barrier (settle batch e) stuck = ground (arith, stuck)
  Next-IsStuck barrier (die batch e) stuck = ground (arith, stuck)
  Next-IsStuck barrier (end_failed e) stuck = ground (arith, stuck)
  Next-IsStuck barrier (finish e f g) stuck = ground (arith, stuck)

  Reach-IsStuck :
      {s t : System W} → (barrier : ℕ) → Reach kept_rows s t → IsStuck barrier s → IsStuck barrier t
  Reach-IsStuck barrier here stuck = stuck
  Reach-IsStuck barrier (later r n) stuck = Next-IsStuck barrier n (Reach-IsStuck barrier r stuck)

module _ {W : Type 0} (kept_rows : List (MetricReport W) → ℕ → List (MetricReport W)) where
  -- From a state whose worker has ended short of the barrier and whose writer state is not "failed", a
  -- drain without a timeout still waits after any number of looks at any states that follow.
  pub ended-drain_waits :
      (s : System W) (barrier : ℕ) (states : List (System W))
      → s.worker ≡ ended
      → s.shared.diagnostics.persisted_through_sequence < barrier
      → is_writer_failed s.shared.diagnostics ≡ false
      → All (λ t. Reach kept_rows s t) states
      → drain_through barrier (map (λ t. (t.shared.diagnostics, false)) states) ≡ none
  unfolding drain_through
  ended-drain_waits s barrier [] e lt up h = refl
  ended-drain_waits s barrier (t ∷ states) e lt up h =
      again_lem barrier t.shared.diagnostics _
        (look_again barrier t (Reach-IsStuck barrier h.0 (e, lt, up)))
      ∙ ended-drain_waits s barrier states e lt up h.1
