-- ===== src/Viewer/Serve/Answered.antt =====
-- What the read worker owes to the requests that it takes.
use pulseon.Base.{
  ◌≤◌, ◌≡◌, inl, inr, refl, sym, ◌∙◌, Option, some, List, [], ◌∷◌, arith, All, All-append,
  All-map_pred, In, Option-cases,
}
use mathlib.Core.Path.{subst}
use pulseon.Viewer.Requests.{ReadKind, Generation, request_kind, TaggedRequest, ReadEvent}
use pulseon.Viewer.Pending.{PendingRequests, push_all, take_next, push, no_requests}
use pulseon.Viewer.Pending.Held.{
  IsKinded, Holds, no_requests-IsKinded, push-IsKinded, push_all-IsKinded, push-takes,
  push_all-Holds, push_all-takes, take_next-IsKinded, take_next-Holds,
}
use pulseon.Viewer.Serve.Asked.{
  arrivals_round, arrivals_last, All-In, execute-kind, no_requests-IsWithin, push-IsWithin,
  serve-AreAsked,
}
use pulseon.Viewer.Serve.{idle, Round, execute, serve, worker_round, arrivals}

module _ {Series Failure : Type 0} where
  abbrev Answers : ReadKind → Generation → List (ReadEvent Series Failure) → Type 0
  Answers kind generation events =
      (event : ReadEvent Series Failure) × In event events
      × (event.kind ≡ kind)
      × (generation ≤ event.generation)

  Answers-tail :
      {kind : ReadKind} {generation : Generation} (event : ReadEvent Series Failure)
      (events : List (ReadEvent Series Failure))
      → Answers kind generation events
      → Answers kind generation (event ∷ events)
  Answers-tail event events (found, at, kind_e, le) = (found, inr at, kind_e, le)

module _ {Series Failure Session : Type 0} where
  -- A round that takes a request and is followed by an end without one.
  serve_round :
      (session : Option Session) (p : PendingRequests) (round : Round Series Failure Session)
      (rounds : List (Round Series Failure Session)) (next : TaggedRequest)
      → (take_next (push_all p round.arrived)).1 ≡ some next
      → (serve session p (round ∷ rounds)).2 ≡ idle
      → let p' = (take_next (push_all p round.arrived)).0 in
        (session' : Option Session) × (event : ReadEvent Series Failure) × (event.kind
          ≡ request_kind next.request)
        × (event.generation ≡ next.generation)
        × ((serve session' p' rounds).2 ≡ idle)
        × ((serve session p (round ∷ rounds)).1 ≡ event ∷ (serve session' p' rounds).1)
  unfolding serve execute
  serve_round session p round rounds next e h =
      let (kind, generation) = execute-kind round session next in
      (
        (execute round session next).0,
        (execute round session next).1,
        kind,
        generation,
        ground (arith, e, h),
        ground (arith, e, h),
      )

  -- What the slots hold once the arrivals of a round are in is answered, if what they hold after
  -- the round is.
  answered_round :
      (session : Option Session) (p : PendingRequests) (round : Round Series Failure Session)
      (rounds : List (Round Series Failure Session)) (kind : ReadKind) (generation : Generation)
      → IsKinded p
      → Holds kind generation (push_all p round.arrived)
      → (serve session p (round ∷ rounds)).2 ≡ idle
      → ((session' : Option Session)
          → Holds kind generation (take_next (push_all p round.arrived)).0
          → (serve session' (take_next (push_all p round.arrived)).0 rounds).2 ≡ idle
          → Answers kind generation
              (serve session' (take_next (push_all p round.arrived)).0 rounds).1)
      → Answers kind generation (serve session p (round ∷ rounds)).1
  answered_round session p round rounds kind generation kinded held h rest =
      let q = push_all p round.arrived in
      let q_kinded = push_all-IsKinded p round.arrived kinded in
      let (next, e, covered) = take_next-Holds kind generation q held in
      let (session', event, kind_e, generation_e, h', events) =
        serve_round session p round rounds next e h in
      elim covered [
        | inl (taken, le) ↦
            subst (Answers kind generation) (sym events)
              (event, inl refl, kind_e ∙ q_kinded kind next taken, omega (arith, le, generation_e))
        | inr later ↦
            subst (Answers kind generation) (sym events)
              (Answers-tail event _ (rest session' later h'))
      ]

  answered_later :
      (session : Option Session) (p : PendingRequests)
      (rounds : List (Round Series Failure Session)) (kind : ReadKind) (generation : Generation)
      → IsKinded p
      → Holds kind generation p
      → (serve session p rounds).2 ≡ idle
      → Answers kind generation (serve session p rounds).1
  unfolding serve
  answered_later session p [] kind generation kinded held h = cc
  answered_later session p (round ∷ rounds) kind generation kinded held h =
      answered_round session p round rounds kind generation kinded
        (push_all-Holds kind generation p round.arrived held) h
        (λ session' later h'.
          answered_later session' (take_next (push_all p round.arrived)).0 rounds kind generation
            (take_next-IsKinded (push_all p round.arrived)
              (push_all-IsKinded p round.arrived kinded))
            later h')

  arrivals_served :
      (session : Option Session) (p : PendingRequests)
      (rounds : List (Round Series Failure Session))
      → IsKinded p
      → (serve session p rounds).2 ≡ idle
      → All
          (λ r. Answers (request_kind r.request) r.generation (serve session p rounds).1)
          (arrivals p rounds)
  unfolding arrivals
  arrivals_served session p [] kinded h = tt
  arrivals_served session p (round ∷ rounds) kinded h =
      let q = push_all p round.arrived in
      let next_kinded = take_next-IsKinded q (push_all-IsKinded p round.arrived kinded) in
      let now =
        All-map_pred _ _ round.arrived
          (λ r held.
            answered_round session p round rounds (request_kind r.request) r.generation kinded held
              h
              (λ session' later h'.
                answered_later session' (take_next q).0 rounds _ _ next_kinded later h'))
          (push_all-takes p round.arrived) in
      elim (Option-cases (take_next q).1) [
        | inl empty ↦ subst (All _) (sym (arrivals_last p round rounds empty)) now
        | inr (next, e) ↦
            let (session', event, kind_e, generation_e, h', events) =
              serve_round session p round rounds next e h in
            subst (All _) (sym (arrivals_round p round rounds next e)) (
              All-append _ round.arrived (arrivals (take_next q).0 rounds) now (
                All-map_pred _ _ (arrivals (take_next q).0 rounds)
                  (λ r later.
                    subst (Answers (request_kind r.request) r.generation) (sym events)
                      (Answers-tail event _ later))
                  (arrivals_served session' (take_next q).0 rounds next_kinded h')))
      ]

  -- When the loop that a `recv` starts ends with no request left, the received request and each one
  -- that it took from the channel meanwhile was answered by an event sent for the same kind and a
  -- generation that is not older, and each event sent has the kind and the generation of one of these
  -- requests; whatever arrived in the rounds, and whether the source opened or a query failed in
  -- any of them.
  pub worker_round-IsAnswered :
      (session : Option Session) (first : TaggedRequest)
      (rounds : List (Round Series Failure Session))
      → (worker_round session first rounds).2 ≡ idle
      → All
          (λ r.
            (event : ReadEvent Series Failure) × In event (worker_round session first rounds).1
            × (event.kind ≡ request_kind r.request)
            × (r.generation ≤ event.generation))
          (first ∷ arrivals (push no_requests first) rounds)
        × All
            (λ event.
              (r : TaggedRequest) × In r (first ∷ arrivals (push no_requests first) rounds)
              × (event.kind ≡ request_kind r.request)
              × (event.generation ≡ r.generation))
            (worker_round session first rounds).1
  unfolding worker_round
  worker_round-IsAnswered session first rounds h =
      let p = push no_requests first in
      let asked = (λ (r : TaggedRequest). In r (first ∷ arrivals p rounds)) in
      let kinded = push-IsKinded no_requests first no_requests-IsKinded in
      (
        (
          answered_later session p rounds (request_kind first.request) first.generation kinded
              (push-takes no_requests first) h,
          arrivals_served session p rounds kinded h,
        ),
        serve-AreAsked asked session p rounds
            (push-IsWithin asked no_requests first (inl refl) (no_requests-IsWithin asked))
            (All-map_pred _ _ (arrivals p rounds) (λ r found. inr found)
              (All-In (arrivals p rounds))),
      )
