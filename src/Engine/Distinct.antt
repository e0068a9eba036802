-- ===== src/Engine/Distinct.antt =====
-- The check for duplicate run identifiers in a request.
use pulseon.Base.{◌≡◌, ◌≢◌, ◌↔◌, refl, false, List, [], ◌∷◌, ok, All, arith, text_eq_iff}
use pulseon.Model.Run.{RunId}
use pulseon.Engine.Reads.{contains, reject_seen, reject_duplicate_run_ids}

abbrev pub IsDistinctIds : List RunId → Type 0
IsDistinctIds [] = Unit
IsDistinctIds (k ∷ ks) = All (λ j. k ≢ j) ks × IsDistinctIds ks

abbrev Unseen : List RunId → List RunId → Type 0
Unseen seen ks = All (λ k. contains seen k ≡ false) ks

Unseen-cons :
    (seen : List RunId) (k : RunId) (ks : List RunId)
    → Unseen (k ∷ seen) ks ↔ (All (λ j. k ≢ j) ks × Unseen seen ks)
unfolding contains
Unseen-cons seen k [] = ((λ h. (tt, tt)), λ h. tt)
Unseen-cons seen k (j ∷ ks) = ground (arith, text_eq_iff k j, Unseen-cons seen k ks)

reject_seen_iff :
    (seen ks : List RunId) → (reject_seen seen ks ≡ ok tt) ↔ (IsDistinctIds ks × Unseen seen ks)
unfolding reject_seen
reject_seen_iff seen [] = ground arith
reject_seen_iff seen (k ∷ ks) = ground (arith, Unseen-cons seen k ks, reject_seen_iff (k ∷ seen) ks)

Unseen-nil : (ks : List RunId) → Unseen [] ks
unfolding contains
Unseen-nil [] = tt
Unseen-nil (k ∷ ks) = (refl, Unseen-nil ks)

-- A request passes exactly when no two of its identifiers are equal.
pub reject_duplicate_iff :
    (ks : List RunId) → (reject_duplicate_run_ids ks ≡ ok tt) ↔ IsDistinctIds ks
unfolding reject_duplicate_run_ids
reject_duplicate_iff ks = ground (arith, reject_seen_iff [] ks, Unseen-nil ks)
