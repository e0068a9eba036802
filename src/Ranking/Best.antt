-- ===== src/Ranking/Best.antt =====
-- The order of the ranking, and the run that it puts first.
use mathlib.Core.Path.{subst}
use pulseon.Base.{
  ℕ, ◌≡◌, refl, sym, Option, none, some, List, [], ◌∷◌, map, All, In, inl, count, sort_by,
  IsSortedBy, sort_by-IsSortedBy, sort_by-perm, count-sort_by, In-sort_by, sort_by-All,
  Option-cases, inr, ◌∙◌,
}
use mathlib.Core.List.{Perm}
use pulseon.Float.{F64, IsIeee}
use pulseon.Model.Run.{RunId}
use pulseon.Model.Comparison.{ObjectiveDirection, ObjectiveMetric}
use pulseon.Ranking.Rank.{
  RankingCandidate, eligible_value, compare_candidates, assign_ranks, rank_candidates, first_ranked,
}
use pulseon.Ranking.Order.{compare_candidates-IsOrder}
use pulseon.Ranking.Competition.{
  beats, entries_evidence, behind_ineligible, behind-NotBetter, count-none_better, head_itself,
}

module _ {W : Type 0} ⦃d : F64 W⦄ (laws : IsIeee W) where
  -- The result lists the evidence of every candidate once, in an order in which no candidate comes
  -- after one that `compare_candidates` puts behind it.
  pub rank_candidates-sorted :
      (o : ObjectiveMetric) (cs : List (RankingCandidate W))
      → (sorted : List (RankingCandidate W)) × Perm sorted cs
        × IsSortedBy (compare_candidates o.direction) sorted
        × (map (λ e. e.evidence) (rank_candidates o cs).entries ≡ map (λ c. c.evidence) sorted)
  unfolding rank_candidates
  rank_candidates-sorted o cs =
      let cmp = compare_candidates o.direction in
      (
        sort_by cmp cs,
        sort_by-perm cmp cs,
        sort_by-IsSortedBy cmp (compare_candidates-IsOrder laws o.direction) cs,
        entries_evidence 0 none 0 (sort_by cmp cs) (λ e. e),
      )

  -- What the choice of the best run promises: none, if no candidate is eligible, and otherwise an
  -- eligible candidate than which none is better.
  abbrev pub IsBest : ObjectiveDirection → List (RankingCandidate W) → Option RunId → Type 0
  IsBest dir cs none = All (λ c. eligible_value c.evidence ≡ none) cs
  IsBest dir cs (some id) =
      (c : RankingCandidate W) × (v : W) × In c cs
      × (c.evidence.run_id ≡ id)
      × (eligible_value c.evidence ≡ some v)
      × (count (beats dir v) cs ≡ 0)

  none_first :
      (index : ℕ) (p : Option W) (r : ℕ) (cs : List (RankingCandidate W))
      → All (λ c. eligible_value c.evidence ≡ none) cs
      → first_ranked (assign_ranks index p r cs) ≡ none
  unfolding first_ranked assign_ranks
  none_first index p r [] h = refl
  none_first index p r (c ∷ cs) h = rw h.0 (none_first _ p r cs h.1)

  head_IsBest :
      (dir : ObjectiveDirection) (cs : List (RankingCandidate W))
      → IsSortedBy (compare_candidates dir) cs
      → IsBest dir cs (first_ranked (assign_ranks 0 none 0 cs))
  unfolding first_ranked assign_ranks
  head_IsBest dir [] s = tt
  head_IsBest dir (c ∷ cs) s = elim (Option-cases (eligible_value c.evidence)) [
    | inl nothing ↦
        let all : All (λ y. eligible_value y.evidence ≡ none) (c ∷ cs) =
          (nothing, behind_ineligible laws dir c cs nothing s.0) in
        rw nothing (subst (IsBest dir (c ∷ cs)) (sym (none_first 1 none 0 cs all.1)) all)
    | inr (v, e) ↦ rw e (
      c,
      v,
      inl refl,
      refl,
      e,
      head_itself laws dir c v cs e
          ∙ count-none_better laws dir v cs (behind-NotBetter laws dir c v cs e s.0),
    )
  ]

  -- The choice is as good among the candidates as it is among the sorted ones.
  IsBest-sort_by :
      (dir : ObjectiveDirection) (cs : List (RankingCandidate W)) (b : Option RunId)
      → IsBest dir (sort_by (compare_candidates dir) cs) b
      → IsBest dir cs b
  IsBest-sort_by dir cs none h = sort_by-All (compare_candidates dir) _ cs h
  IsBest-sort_by dir cs (some id) (c, v, at, named, e, zero_better) = (
    c,
    v,
    In-sort_by (compare_candidates dir) c cs at,
    named,
    e,
    sym (count-sort_by (compare_candidates dir) (beats dir v) cs) ∙ zero_better,
  )

  -- Among the ranked candidates `find` chooses no run exactly when none is eligible, and otherwise
  -- an eligible one whose value no candidate's is strictly better than.
  pub first_ranked-IsBest :
      (o : ObjectiveMetric) (cs : List (RankingCandidate W))
      → IsBest o.direction cs (first_ranked (rank_candidates o cs).entries)
  unfolding rank_candidates
  first_ranked-IsBest o cs =
      let cmp = compare_candidates o.direction in
      IsBest-sort_by o.direction cs (first_ranked (assign_ranks 0 none 0 (sort_by cmp cs))) (
        head_IsBest o.direction (sort_by cmp cs)
          (sort_by-IsSortedBy cmp (compare_candidates-IsOrder laws o.direction) cs))
