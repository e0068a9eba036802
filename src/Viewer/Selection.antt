-- ===== src/Viewer/Selection.antt =====
-- The selected runs: at most ten, none twice, whatever the viewer does.
use pulseon.Base.{
  suc, ◌≤◌, ◌≡◌, inl, inr, refl, true, false, List, [], ◌∷◌, ◌++◌, Text, text_eq, text_eq_iff,
  text_eq_refl, arith, length, map, All, Bool-cases, ◌||◌,
}
use pulseon.Model.Run.{RunId, Run}
use pulseon.Viewer.Core.{contains_text, remove_first, kept_runs}

-- No text stands in the list twice.
abbrev pub Distinct : List Text → Type 0
Distinct [] = Unit
Distinct (t ∷ ts) = (contains_text ts t ≡ false) × Distinct ts

text_eq_sym : (s t : Text) → text_eq s t ≡ text_eq t s
text_eq_sym s t = ground (arith, text_eq_iff s t, text_eq_iff t s)

contains-append :
    (ts : List Text) (s t : Text)
    → contains_text (ts ++ s ∷ []) t ≡ contains_text ts t || text_eq t s
contains-append [] s t = ground arith
contains-append (u ∷ ts) s t = ground (arith, contains-append ts s t)

pub Distinct-append :
    (ts : List Text) (t : Text) → contains_text ts t ≡ false → Distinct ts → Distinct (ts ++ t ∷ [])
Distinct-append [] t fresh h = (refl, tt)
Distinct-append (u ∷ ts) t fresh h = (
  ground (arith, fresh, h.0, contains-append ts t u, text_eq_sym u t),
  Distinct-append ts t (ground (arith, fresh)) h.1,
)

contains-remove_first :
    (t s : Text) (ts : List Text)
    → contains_text ts s ≡ false
    → contains_text (remove_first t ts) s ≡ false
contains-remove_first t s [] h = h
contains-remove_first t s (u ∷ ts) h = ground (arith, h, contains-remove_first t s ts)

pub Distinct-remove_first : (t : Text) (ts : List Text) → Distinct ts → Distinct (remove_first t ts)
Distinct-remove_first t [] h = h
Distinct-remove_first t (u ∷ ts) h = elim (Bool-cases (text_eq u t)) [
  | inl e ↦ rw e h.1
  | inr e ↦ rw e (contains-remove_first t u ts h.0, Distinct-remove_first t ts h.1)
]

pub length-remove_first :
    (t : Text) (ts : List Text)
    → contains_text ts t ≡ true
    → suc (length (remove_first t ts)) ≡ length ts
length-remove_first t [] h = ground (arith, h)
length-remove_first t (u ∷ ts) h = ground (arith, h, text_eq_sym u t, length-remove_first t ts)

contains-remove_other :
    (t s : Text) (ts : List Text)
    → text_eq s t ≡ false
    → contains_text ts s ≡ true
    → contains_text (remove_first t ts) s ≡ true
contains-remove_other t s [] ne h = h
contains-remove_other t s (u ∷ ts) ne h =
    ground (
      arith,
      h,
      ne,
      text_eq_iff s u,
      text_eq_iff u t,
      text_eq_iff s t,
      contains-remove_other t s ts,
    )

pub remove_first-append :
    (t : Text) (ts : List Text) → contains_text ts t ≡ false → remove_first t (ts ++ t ∷ []) ≡ ts
remove_first-append t [] h = rw (text_eq_refl t) refl
remove_first-append t (u ∷ ts) h = ground (arith, h, text_eq_sym u t, remove_first-append t ts)

All-contains-remove :
    (t : Text) (ts xs : List Text)
    → contains_text xs t ≡ false
    → All (λ s. contains_text ts s ≡ true) xs
    → All (λ s. contains_text (remove_first t ts) s ≡ true) xs
All-contains-remove t ts [] fresh h = tt
All-contains-remove t ts (s ∷ xs) fresh h = (
  contains-remove_other t s ts (ground (arith, fresh, text_eq_sym s t)) h.0,
  All-contains-remove t ts xs (ground (arith, fresh)) h.1,
)

-- Distinct texts that all stand in a list are no more than its length.
pub Distinct-length :
    (xs ts : List Text)
    → Distinct xs
    → All (λ s. contains_text ts s ≡ true) xs
    → length xs ≤ length ts
Distinct-length [] ts d h = omega arith
Distinct-length (x ∷ xs) ts d h = omega (
  arith,
  Distinct-length xs (remove_first x ts) d.1 (All-contains-remove x ts xs d.0 h.1),
  length-remove_first x ts h.0,
)

abbrev pub run_ids_of : List Run → List RunId
run_ids_of runs = map (λ (run : Run). run.run_id) runs

kept_runs-fresh :
    (selected : List RunId) (t : RunId) (runs : List Run)
    → contains_text (run_ids_of runs) t ≡ false
    → contains_text (kept_runs selected runs) t ≡ false
kept_runs-fresh selected t [] h = h
kept_runs-fresh selected t (run ∷ runs) h = ground (arith, h, kept_runs-fresh selected t runs)

pub Distinct-kept_runs :
    (selected : List RunId) (runs : List Run)
    → Distinct (run_ids_of runs)
    → Distinct (kept_runs selected runs)
Distinct-kept_runs selected [] h = tt
Distinct-kept_runs selected (run ∷ runs) h = elim (Bool-cases (contains_text selected run.run_id)) [
  | inl e ↦
      rw e (kept_runs-fresh selected run.run_id runs h.0, Distinct-kept_runs selected runs h.1)
  | inr e ↦ rw e (Distinct-kept_runs selected runs h.1)
]

pub kept_runs-All :
    (selected : List RunId) (runs : List Run)
    → All (λ s. contains_text selected s ≡ true) (kept_runs selected runs)
kept_runs-All selected [] = tt
kept_runs-All selected (run ∷ runs) = elim (Bool-cases (contains_text selected run.run_id)) [
  | inl e ↦ rw e (e, kept_runs-All selected runs)
  | inr e ↦ rw e (kept_runs-All selected runs)
]
