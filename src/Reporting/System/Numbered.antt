-- ===== src/Reporting/System/Numbered.antt =====
-- Lists of reports numbered one after the other.
use mathlib.Core.Path.{subst}
use pulseon.Base.{ℕ, suc, ◌+◌, ◌≡◌, ◌≢◌, refl, List, [], ◌∷◌, ◌++◌, arith, length}
use pulseon.Reporting.Reporter.{MetricReport}
use pulseon.Reporting.System.{last_sequence}

module _ {W : Type 0} where
  -- The sequence numbers are `n`, `n + 1` and so on.
  abbrev pub Numbered : ℕ → List (MetricReport W) → Type 0
  Numbered n [] = Unit
  Numbered n (report ∷ reports) = (report.enqueue_sequence ≡ n) × Numbered (suc n) reports

  pub Numbered-append :
      (n : ℕ) (xs ys : List (MetricReport W))
      → Numbered n xs
      → Numbered (n + length xs) ys
      → Numbered n (xs ++ ys)
  Numbered-append n [] ys h k = subst (λ m. Numbered m ys) (omega arith) k
  Numbered-append n (x ∷ xs) ys h k =
      (h.0, Numbered-append (suc n) xs ys h.1 (subst (λ m. Numbered m ys) (omega arith) k))

  pub Numbered-append_inv :
      (n : ℕ) (xs ys : List (MetricReport W))
      → Numbered n (xs ++ ys)
      → Numbered n xs × Numbered (n + length xs) ys
  Numbered-append_inv n [] ys h = (tt, subst (λ m. Numbered m ys) (omega arith) h)
  Numbered-append_inv n (x ∷ xs) ys h =
      let (front, back) = Numbered-append_inv (suc n) xs ys h.1 in
      ((h.0, front), subst (λ m. Numbered m ys) (omega arith) back)

  -- The last number of a list that is not empty.
  pub last_sequence_lem :
      (n : ℕ) (batch : List (MetricReport W))
      → batch ≢ []
      → Numbered n batch
      → suc (last_sequence batch) ≡ n + length batch
  last_sequence_lem n [] ne h = absurd (ne refl)
  last_sequence_lem n (x ∷ []) ne h = omega (arith, h.0)
  last_sequence_lem n (x ∷ y ∷ xs) ne h =
      omega (arith, last_sequence_lem (suc n) (y ∷ xs) (λ e. cc e) h.1)
