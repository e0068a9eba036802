-- ===== src/Reporting/System/Steps/Splits.antt =====
-- How the lists of the system are split after the steps that move reports.
use pulseon.Base.{
  ℕ, ◌+◌, ◌<◌, ◌≡◌, ◌≢◌, ap, true, List, [], ◌∷◌, ◌++◌, arith, length, length-append,
}
use mathlib.Core.Path.{subst}
use mathlib.Core.List.{append_assoc, append-nil}
use pulseon.Reporting.Reporter.{MetricReport, Reporter, try_send, sent}
use pulseon.Reporting.System.{collecting, writing, totalled, failing, System, last_sequence}
use pulseon.Reporting.System.Numbered.{Numbered, Numbered-append_inv, last_sequence_lem}
use pulseon.Reporting.System.Invariant.{Inv, unstored, unsettled, HasBatch, EndsWith}

module _ {W : Type 0} where
  pub snoc_split :
      (a b c : List (MetricReport W)) (r : MetricReport W)
      → (a ++ (b ++ (c ++ []))) ++ r ∷ [] ≡ a ++ (b ++ ((c ++ r ∷ []) ++ []))
  snoc_split a b c r = simp (append_assoc, append-nil)

  pub snoc_middle :
      (a b c : List (MetricReport W)) (r : MetricReport W)
      → a ++ ((r ∷ b) ++ c) ≡ (a ++ r ∷ []) ++ (b ++ c)
  snoc_middle a b c r = simp append_assoc

  pub append-ne-nil : (xs : List (MetricReport W)) (x : MetricReport W) → xs ++ x ∷ [] ≢ []
  append-ne-nil [] x e = cc
  append-ne-nil (y ∷ xs) x e = cc

  pub sent_lem :
      (shared shared' : Reporter W) (report : MetricReport W)
      → try_send shared report ≡ (shared', sent)
      → (shared' ≡ record shared { queue = shared.queue ++ report ∷ [] })
        × (length shared.queue < shared.capacity)
        × (shared.receiver ≡ true)
  unfolding try_send
  sent_lem shared shared' report h = ground arith

  pub send_split :
      (s : System W) (report : MetricReport W)
      → s.lost ≡ []
      → s.accepted ≡ s.stored ++ (unstored s.worker ++ (s.shared.queue ++ s.lost))
      → s.accepted ++ report ∷ []
        ≡ s.stored ++ (unstored s.worker ++ ((s.shared.queue ++ report ∷ []) ++ s.lost))
  send_split s report e h = cc (snoc_split s.stored (unstored s.worker) s.shared.queue report)

  pub collect_split :
      (s : System W) (batch rest : List (MetricReport W)) (report : MetricReport W)
      → s.worker ≡ collecting batch
      → s.shared.queue ≡ report ∷ rest
      → s.accepted ≡ s.stored ++ (unstored s.worker ++ (s.shared.queue ++ s.lost))
      → s.accepted ≡ s.stored ++ ((batch ++ report ∷ []) ++ (rest ++ s.lost))
  collect_split s batch rest report e q h = ground (arith, snoc_middle batch rest s.lost report)

  pub write_split :
      (s : System W) (batch : List (MetricReport W)) (attempt : ℕ)
      → s.worker ≡ writing batch attempt
      → s.accepted ≡ s.stored ++ (unstored s.worker ++ (s.shared.queue ++ s.lost))
      → s.accepted ≡ (s.stored ++ batch) ++ (s.shared.queue ++ s.lost)
  write_split s batch attempt e h =
      ground (arith, append_assoc s.stored batch (s.shared.queue ++ s.lost))

  pub die_split :
      (s : System W) (batch : List (MetricReport W))
      → s.worker ≡ failing batch
      → s.lost ≡ []
      → s.accepted ≡ s.stored ++ (unstored s.worker ++ (s.shared.queue ++ s.lost))
      → s.accepted ≡ s.stored ++ (batch ++ s.shared.queue)
  die_split s batch e none_lost h = ground (arith, append-nil s.shared.queue)

  -- The last of a batch at the end of the stored rows has their number as its own.
  pub batch_last :
      (s : System W) (batch : List (MetricReport W))
      → s.worker ≡ totalled batch
      → Inv s
      → last_sequence batch ≡ length s.stored
  batch_last s batch e inv =
      let (before, at_end) = subst (λ w. EndsWith s.stored (unsettled w)) e inv.tail in
      let (front, rest) =
        Numbered-append_inv 1 s.stored (unstored s.worker ++ (s.shared.queue ++ s.lost))
          (subst (Numbered 1) inv.split inv.numbered) in
      let (head, own) = Numbered-append_inv 1 before batch (subst (Numbered 1) at_end front) in
      omega (
        arith,
        last_sequence_lem (1 + length before) batch (subst HasBatch e inv.has_batch) own,
        ap {B = ℕ} length at_end,
        length-append before batch,
      )
