-- ===== src/Ranking/Competition.antt =====
-- The ranks are competition ranks: one more than the number of strictly better candidates.
use mathlib.Core.Path.{subst}
use pulseon.Base.{
  ℕ, suc, ◌+◌, ◌≡◌, ◌≢◌, refl, sym, ap, ap₂, Bool, true, false, Option, none, some, List, [], ◌∷◌,
  map, Ordering, All, count, arith, if◌then◌else◌, sort_by, IsSortedBy, sort_by-IsSortedBy,
  count-sort_by, Bool-cases, inl, inr, Option-cases, ◌∙◌,
}
use pulseon.Float.{F64, IsIeee}
use pulseon.Model.Comparison.{ObjectiveDirection, ObjectiveEvidence, ObjectiveMetric}
use pulseon.Comparison.Evaluate.{map_option}
use pulseon.Comparison.Preference.{better}
use pulseon.Ranking.Rank.{
  RankingCandidate, eligible_value, compare_candidates, same, rank_step, assign_ranks,
  rank_candidates,
}
use pulseon.Ranking.Better.{better_irrefl, better_trans, better_left, better_right, better_tie}
use pulseon.Ranking.Order.{IsFinite, eligible_finite, compare_candidates-IsOrder, before_eligible}

module _ {W : Type 0} ⦃d : F64 W⦄ where
  abbrev pub beats_value : ObjectiveDirection → Option W → W → Bool
  beats_value dir none v = false
  beats_value dir (some u) v = better dir u v

  -- The candidate is eligible and its value is strictly better than `v`.
  abbrev pub beats : ObjectiveDirection → W → RankingCandidate W → Bool
  beats dir v c = beats_value dir (eligible_value c.evidence) v

  -- The rank of a piece of evidence among the candidates of a request.
  abbrev pub competition_rank :
      ObjectiveDirection → List (RankingCandidate W) → ObjectiveEvidence W → Option ℕ
  competition_rank dir cs e = map_option (λ v. suc (count (beats dir v) cs)) (eligible_value e)

  -- No value of a later candidate is better than `u`.
  abbrev IsAfter : ObjectiveDirection → Option W → W → Type 0
  IsAfter dir none v = Unit
  IsAfter dir (some u) v = better dir v u ≡ false

  AllAfter : ObjectiveDirection → Option W → List (RankingCandidate W) → Type 0
  AllAfter dir p cs = All (λ c. (v : W) → eligible_value c.evidence ≡ some v → IsAfter dir p v) cs

module _ {W : Type 0} ⦃d : F64 W⦄ (laws : IsIeee W) (dir : ObjectiveDirection) where
  -- How many ranked candidates are better than `v`, as the loop's state shows it: as many as
  -- before the previous value if `v` ties with that, and all of them if not.
  abbrev Counts : ℕ → Option W → ℕ → (W → ℕ) → Type 0
  Counts index p r K =
      (v : W)
      → d.is_finite v ≡ true
      → IsAfter dir p v
      → suc (K v) ≡ (if same p v then r else suc index)

  one_more : Option W → (W → ℕ) → W → ℕ
  one_more c K v = (if beats_value dir c v then suc (K v) else K v)

  -- One candidate with value `w` more: the counts stay right.
  Counts-step :
      (index : ℕ) (p : Option W) (r : ℕ) (K : W → ℕ) (w : W)
      → IsFinite p
      → d.is_finite w ≡ true
      → IsAfter dir p w
      → Counts index p r K
      → Counts
          (suc index)
          (rank_step index p r (some w)).1
          (rank_step index p r (some w)).2
          (one_more (some w) K)
  unfolding one_more
  Counts-step index none r K w hp hw after k v hv va =
      ground (arith, k v hv, better_irrefl laws dir w v, better_tie laws dir w v hw hv)
  Counts-step index (some u) r K w hp hw after k v hv va = elim (Bool-cases (d.feq u w)) [
    | inl tie ↦ rw tie (
        ground (
          arith,
          k v hv,
          better_right laws dir u w v,
          better_left laws dir u w v,
          better_irrefl laws dir u v,
          better_tie laws dir w v hw hv,
          laws.feq_trans u w v,
        ))
    | inr ne ↦ rw ne (
        ground (
          arith,
          k v hv,
          better_tie laws dir u w hp hw,
          better_trans laws dir v u w,
          better_left laws dir u v w,
          better_irrefl laws dir w v,
          better_tie laws dir w v hw hv,
        ))
  ]

  step-IsAfter :
      (index : ℕ) (p : Option W) (r : ℕ) (w v : W)
      → better dir v w ≡ false
      → IsAfter dir (rank_step index p r (some w)).1 v
  step-IsAfter index none r w v h = h
  step-IsAfter index (some u) r w v h = elim (Bool-cases (d.feq u w)) [
    | inl tie ↦ rw tie (ground (arith, better_right laws dir u w v))
    | inr ne ↦ rw ne h
  ]

  step-IsFinite :
      (index : ℕ) (p : Option W) (r : ℕ) (w : W)
      → IsFinite p
      → d.is_finite w ≡ true
      → IsFinite (rank_step index p r (some w)).1
  step-IsFinite index none r w hp hw = hw
  step-IsFinite index (some u) r w hp hw = elim (Bool-cases (d.feq u w)) [
    | inl tie ↦ rw tie hp
    | inr ne ↦ rw ne hw
  ]

  -- The rank of the next candidate, which ties with the previous value or comes after it.
  step_rank :
      (index : ℕ) (p : Option W) (r : ℕ) (K : W → ℕ) (w : W)
      → d.is_finite w ≡ true
      → IsAfter dir p w
      → Counts index p r K
      → (rank_step index p r (some w)).0 ≡ some (suc (K w))
  step_rank index none r K w hw after k = ground (arith, k w hw after)
  step_rank index (some u) r K w hw after k = ground (arith, k w hw after)

  -- What the sort says of the candidates behind `c`.
  pub NotBetter : W → List (RankingCandidate W) → Type 0
  NotBetter w cs =
      All (λ c. (v : W) → eligible_value c.evidence ≡ some v → better dir v w ≡ false) cs

  pub behind-NotBetter :
      (c : RankingCandidate W) (w : W) (cs : List (RankingCandidate W))
      → eligible_value c.evidence ≡ some w
      → All (λ y. compare_candidates dir c y ≢ Ordering.gt) cs
      → NotBetter w cs
  unfolding NotBetter
  behind-NotBetter c w [] e h = tt
  behind-NotBetter c w (y ∷ ys) e h = (
    λ v k.
        let (a, at, not_better) = before_eligible laws dir c y v h.0 k in
        let same_value : a ≡ w = cc (e, at) in
        subst (λ x. better dir v x ≡ false) same_value not_better,
    behind-NotBetter c w ys e h.1,
  )

  pub behind_ineligible :
      (c : RankingCandidate W) (cs : List (RankingCandidate W))
      → eligible_value c.evidence ≡ none
      → All (λ y. compare_candidates dir c y ≢ Ordering.gt) cs
      → All (λ y. eligible_value y.evidence ≡ none) cs
  behind_ineligible c [] e h = tt
  behind_ineligible c (y ∷ ys) e h = (
    elim (Option-cases (eligible_value y.evidence)) [
      | inl nothing ↦ nothing
      | inr (v, k) ↦ let (a, at, not_better) = before_eligible laws dir c y v h.0 k in cc (e, at)
    ],
    behind_ineligible c ys e h.1,
  )

  pub count-none_better :
      (w : W) (cs : List (RankingCandidate W)) → NotBetter w cs → count (beats dir w) cs ≡ 0
  unfolding NotBetter
  count-none_better w [] h = refl
  count-none_better w (c ∷ cs) h = elim (Option-cases (eligible_value c.evidence)) [
    | inl nothing ↦ rw nothing (count-none_better w cs h.1)
    | inr (v, k) ↦ rw (k, h.0 v k) (count-none_better w cs h.1)
  ]

  abbrev ranks_by : (W → ℕ) → List (RankingCandidate W) → List (Option ℕ)
  ranks_by F = map λ c. map_option (λ v. suc (F v)) (eligible_value c.evidence)

  assign_ranks-ineligible :
      (index : ℕ) (p : Option W) (r : ℕ) (F : W → ℕ) (cs : List (RankingCandidate W))
      → All (λ y. eligible_value y.evidence ≡ none) cs
      → map (λ e. e.rank) (assign_ranks index p r cs) ≡ ranks_by F cs
  unfolding assign_ranks
  assign_ranks-ineligible index p r F [] h = refl
  assign_ranks-ineligible index p r F (c ∷ cs) h =
      rw h.0 (ap (λ l. none ∷ l) (assign_ranks-ineligible (suc index) p r F cs h.1))

  pub head_itself :
      (c : RankingCandidate W) (w : W) (cs : List (RankingCandidate W))
      → eligible_value c.evidence ≡ some w
      → count (beats dir w) (c ∷ cs) ≡ count (beats dir w) cs
  head_itself c w cs e =
      rw e (
        ground
          (arith, better_irrefl laws dir w w, laws.feq_refl w (eligible_finite c.evidence w e)))

  move_count :
      (c : RankingCandidate W) (w : W) (cs : List (RankingCandidate W))
      → eligible_value c.evidence ≡ some w
      → (K : W → ℕ) (v : W)
      → K v + count (beats dir v) (c ∷ cs) ≡ one_more (some w) K v + count (beats dir v) cs
  unfolding one_more
  move_count c w cs e K v = rw e (ground arith)

  next_after :
      (index : ℕ) (p : Option W) (r : ℕ) (w : W) (cs : List (RankingCandidate W))
      → NotBetter w cs
      → AllAfter dir (rank_step index p r (some w)).1 cs
  unfolding NotBetter AllAfter
  next_after index p r w [] h = tt
  next_after index p r w (c ∷ cs) h =
      (λ v e. step-IsAfter index p r w v (h.0 v e), next_after index p r w cs h.1)

  -- The loop over the candidates that are left, `F` counting over the ranked and the left ones.
  assign_ranks-count :
      (index : ℕ) (p : Option W) (r : ℕ) (K F : W → ℕ) (cs : List (RankingCandidate W))
      → IsFinite p
      → AllAfter dir p cs
      → Counts index p r K
      → ((v : W) → F v ≡ K v + count (beats dir v) cs)
      → IsSortedBy (compare_candidates dir) cs
      → map (λ e. e.rank) (assign_ranks index p r cs) ≡ ranks_by F cs
  unfolding assign_ranks AllAfter one_more NotBetter
  assign_ranks-count index p r K F [] hp ha k f s = refl
  assign_ranks-count index p r K F (c ∷ cs) hp ha k f s =
      elim (Option-cases (eligible_value c.evidence)) [
        | inl nothing ↦
            assign_ranks-ineligible index p r F (c ∷ cs)
              (nothing, behind_ineligible c cs nothing s.0)
        | inr (w, e) ↦
            let hw = eligible_finite c.evidence w e in
            let later = behind-NotBetter c w cs e s.0 in
            let s' = rank_step index p r (some w) in
            let total : F w ≡ K w =
              omega (arith, f w, head_itself c w cs e, count-none_better w cs later) in
            rw e (
              ap₂ ◌∷◌ (step_rank index p r K w hw (ha.0 w e) k ∙ ap (λ n. some (suc n)) (sym total))
                (assign_ranks-count (suc index) s'.1 s'.2 (one_more (some w) K) F cs
                  (step-IsFinite index p r w hp hw) (next_after index p r w cs later)
                  (Counts-step index p r K w hp hw (ha.0 w e) k)
                  (λ v. f v ∙ move_count c w cs e K v) s.1))
      ]

  AllAfter-none : (cs : List (RankingCandidate W)) → AllAfter dir none cs
  unfolding AllAfter
  AllAfter-none [] = tt
  AllAfter-none (c ∷ cs) = (λ v e. tt, AllAfter-none cs)

-- The entries carry the evidence of the candidates, in order.
pub entries_evidence {ℓ} :
    {W : Type 0} ⦃d : F64 W⦄ {B : Type ℓ} (index : ℕ) (p : Option W) (r : ℕ)
    (cs : List (RankingCandidate W)) (f : ObjectiveEvidence W → B)
    → map (λ e. f e.evidence) (assign_ranks index p r cs) ≡ map (λ c. f c.evidence) cs
unfolding assign_ranks
entries_evidence index p r [] f = refl
entries_evidence index p r (c ∷ cs) f =
    let s = rank_step index p r (eligible_value c.evidence) in
    ap (λ l. f c.evidence ∷ l) (entries_evidence (suc index) s.1 s.2 cs f)

-- The ranks are those of a competition: in the order of the result, an eligible run has one more
-- than the number of candidates whose value is strictly better than its own, so that ties share a
-- rank and the next one is skipped, and a run that is not eligible has no rank.
pub rank_candidates-competition :
    {W : Type 0} ⦃d : F64 W⦄ (laws : IsIeee W) (o : ObjectiveMetric)
    (cs : List (RankingCandidate W))
    → map (λ e. e.rank) (rank_candidates o cs).entries
      ≡ map (λ e. competition_rank o.direction cs e.evidence) (rank_candidates o cs).entries
unfolding rank_candidates
rank_candidates-competition laws o cs =
    let dir = o.direction in
    let sorted = sort_by (compare_candidates dir) cs in
    assign_ranks-count laws dir 0 none 0 (λ v. 0) (λ v. count (beats dir v) cs) sorted tt
      (AllAfter-none laws dir sorted) (λ v hv after. refl)
      (λ v. omega (arith, count-sort_by (compare_candidates dir) (beats dir v) cs))
      (sort_by-IsSortedBy (compare_candidates dir) (compare_candidates-IsOrder laws dir) cs)
    ∙ sym (entries_evidence 0 none 0 sorted (competition_rank dir cs))
