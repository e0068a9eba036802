-- ===== src/Viewer/Serve/Ends.antt =====
-- That the read worker gets back to its `recv`.
use pulseon.Base.{
  ◌≡◌, refl, inl, inr, ◌∙◌, true, Option, none, some, List, [], ◌∷◌, ◌++◌, arith, All, Option-cases,
}
use pulseon.Viewer.Requests.{TaggedRequest}
use pulseon.Viewer.Pending.{PendingRequests, push_all, take_next, push, no_requests}
use pulseon.Viewer.Serve.{idle, Round, execute, serve, worker_round}

module _ {Series Failure Session : Type 0} where
  -- The round when no request arrives and the receiver is there.
  abbrev pub quiet : Round Series Failure Session → Round Series Failure Session
  quiet round = record round { arrived = []; receiver_alive = true }

  quiet_slots :
      (session : Option Session) (d o t : Option TaggedRequest)
      (a b c e : Round Series Failure Session)
      → (serve session
          (record { discover_slot = d; overview_slot = o; detail_slot = t })
          (quiet a ∷ quiet b ∷ quiet c ∷ quiet e ∷ [])).2
        ≡ idle
  unfolding serve take_next push_all
  quiet_slots session none none none a b c e = refl
  quiet_slots session none none (some t) a b c e = refl
  quiet_slots session none (some o) none a b c e = refl
  quiet_slots session none (some o) (some t) a b c e = refl
  quiet_slots session (some d) none none a b c e = refl
  quiet_slots session (some d) none (some t) a b c e = refl
  quiet_slots session (some d) (some o) none a b c e = refl
  quiet_slots session (some d) (some o) (some t) a b c e = refl

  serve_next :
      (session : Option Session) (p : PendingRequests) (round : Round Series Failure Session)
      (rounds : List (Round Series Failure Session)) (next : TaggedRequest)
      → (take_next (push_all p round.arrived)).1 ≡ some next
      → round.receiver_alive ≡ true
      → (serve session p (round ∷ rounds)).2
        ≡ (serve (execute round session next).0 (take_next (push_all p round.arrived)).0 rounds).2
  unfolding serve
  serve_next session p round rounds next e alive = ground (arith, e, alive)

  serve_last :
      (session : Option Session) (p : PendingRequests) (round : Round Series Failure Session)
      (rounds : List (Round Series Failure Session))
      → (take_next (push_all p round.arrived)).1 ≡ none
      → (serve session p (round ∷ rounds)).2 ≡ idle
  unfolding serve
  serve_last session p round rounds e = ground (arith, e)

  serve_ends :
      (session : Option Session) (p : PendingRequests)
      (rounds : List (Round Series Failure Session)) (a b c e : Round Series Failure Session)
      → All (λ round. round.receiver_alive ≡ true) rounds
      → (serve session p (rounds ++ (quiet a ∷ quiet b ∷ quiet c ∷ quiet e ∷ []))).2 ≡ idle
  serve_ends session p [] a b c e alive =
      quiet_slots session p.discover_slot p.overview_slot p.detail_slot a b c e
  serve_ends session p (round ∷ rounds) a b c e alive =
      elim (Option-cases (take_next (push_all p round.arrived)).1) [
        | inl empty ↦ serve_last session p round _ empty
        | inr (next, taken) ↦
            serve_next session p round _ next taken alive.0
            ∙ serve_ends (execute round session next).0 (take_next (push_all p round.arrived)).0
                rounds a b c e alive.1
      ]

  -- While the receiver is there, whatever arrives and whether or not requests fail, the loop that a
  -- `recv` starts has ended with no request left after four more rounds in which nothing arrives.
  pub worker_round-idle :
      (session : Option Session) (first : TaggedRequest)
      (rounds : List (Round Series Failure Session)) (a b c e : Round Series Failure Session)
      → All (λ round. round.receiver_alive ≡ true) rounds
      → (worker_round session first (rounds ++ (quiet a ∷ quiet b ∷ quiet c ∷ quiet e ∷ []))).2
        ≡ idle
  unfolding worker_round
  worker_round-idle session first rounds a b c e alive =
      serve_ends session (push no_requests first) rounds a b c e alive
