-- ===== src/Ranking/Rank.antt =====
-- `rank_candidates`, `compare_candidates` and the client's `rank_runs` and `best_eligible_run`.
use pulseon.Base.{
  ℕ, suc, ◌+◌, ◌==◌, Bool, false, Option, none, some, List, [], ◌∷◌, Result, ok, ◌>>=◌, ◌>>◌,
  if◌then◌else◌, Ordering, compare, cmp_ℤ, text_cmp, then_with, sort_by,
}
use pulseon.Float.{F64}
use pulseon.Model.Run.{Run, RunId, Timestamp}
use pulseon.Model.Comparison.{
  ObjectiveDirection, minimize, maximize, ObjectiveMetric, ObjectiveEvidence, is_complete,
  usable_value, RankingEntry, RankingResult,
}
use pulseon.Engine.Error.{EngineError}
use pulseon.Engine.Reads.{Reads, ranking_evidence, reject_duplicate_run_ids}

pub record RankingCandidate (W : Type 0) : Type 0 where
  pub evidence : ObjectiveEvidence W
  pub created_at : Timestamp
  pub ordinal : ℕ

-- `find(|entry| entry.rank == Some(1))`.
abbrev pub is_first : Option ℕ → Bool
is_first none = false
is_first (some rank) = rank == 1

module _ {W : Type 0} ⦃d : F64 W⦄ where
  unfoldable pub eligible_value : ObjectiveEvidence W → Option W
  eligible_value e = if is_complete e.completeness then usable_value e else none

  unfoldable pub objective_order : ObjectiveDirection → W → W → Ordering
  objective_order minimize a b = if d.feq a b then Ordering.eq else d.total_cmp a b
  objective_order maximize a b = if d.feq a b then Ordering.eq else d.total_cmp b a

  -- The match on the two eligible values; `ties` and `ordinals` are the orders that it falls to.
  unfoldable pub compare_eligible :
      ObjectiveDirection → Option W → Option W → (ties ordinals : Ordering) → Ordering
  compare_eligible direction (some a) (some b) ties ordinals =
      then_with (objective_order direction a b) ties
  compare_eligible direction (some a) none ties ordinals = Ordering.lt
  compare_eligible direction none (some b) ties ordinals = Ordering.gt
  compare_eligible direction none none ties ordinals = ordinals

  unfoldable pub compare_candidates :
      ObjectiveDirection → RankingCandidate W → RankingCandidate W → Ordering
  unfolding compare_eligible
  compare_candidates direction left right =
      compare_eligible direction (eligible_value left.evidence) (eligible_value right.evidence)
        (then_with (cmp_ℤ left.created_at right.created_at)
          (text_cmp left.evidence.run_id right.evidence.run_id))
        (compare left.ordinal right.ordinal)

  -- `previous_value == Some(value)`.
  abbrev pub same : Option W → W → Bool
  same none value = false
  same (some previous) value = d.feq previous value

  -- The closure of the ranking loop: the rank, and the previous value and rank that it leaves.
  abbrev pub rank_step : ℕ → Option W → ℕ → Option W → Option ℕ × Option W × ℕ
  rank_step index previous_value previous_rank none = (none, previous_value, previous_rank)
  rank_step index previous_value previous_rank (some value) =
      if same previous_value value
      then (some previous_rank, previous_value, previous_rank)
      else (some (index + 1), some value, index + 1)

  unfoldable pub assign_ranks : ℕ → Option W → ℕ → List (RankingCandidate W) → List (RankingEntry W)
  assign_ranks index previous_value previous_rank [] = []
  assign_ranks index previous_value previous_rank (c ∷ cs) =
      let s = rank_step index previous_value previous_rank (eligible_value c.evidence) in
      record { evidence = c.evidence; rank = s.0 } ∷ assign_ranks (suc index) s.1 s.2 cs

  unfoldable pub rank_candidates : ObjectiveMetric → List (RankingCandidate W) → RankingResult W
  unfolding assign_ranks
  rank_candidates objective candidates = record {
    objective = objective;
    entries = assign_ranks 0 none 0 (sort_by (compare_candidates objective.direction) candidates);
  }

  -- `enumerate` over the evidence of the request.
  unfoldable pub candidates_from : ℕ → List (Run × ObjectiveEvidence W) → List (RankingCandidate W)
  candidates_from ordinal [] = []
  candidates_from ordinal ((run, evidence) ∷ rows) =
      record { evidence = evidence; created_at = run.created_at; ordinal = ordinal }
      ∷ candidates_from (suc ordinal) rows

  unfoldable pub first_ranked : List (RankingEntry W) → Option RunId
  first_ranked [] = none
  first_ranked (e ∷ es) = if is_first e.rank then some e.evidence.run_id else first_ranked es

module _ {W : Type 0} ⦃d : F64 W⦄ (r : Reads W) where
  unfoldable pub rank_runs : List RunId → ObjectiveMetric → Result EngineError (RankingResult W)
  unfolding rank_candidates candidates_from
  rank_runs run_ids objective = do
    reject_duplicate_run_ids run_ids
    rows ← ranking_evidence r run_ids objective
    ok (rank_candidates objective (candidates_from 0 rows))

  unfoldable pub best_eligible_run :
      List RunId → ObjectiveMetric → Result EngineError (Option RunId)
  unfolding rank_runs first_ranked
  best_eligible_run run_ids objective = do
    ranked ← rank_runs run_ids objective
    ok (first_ranked ranked.entries)
