-- ===== src/Viewer/Serve/Asked.antt =====
-- That the read worker answers nothing but the requests that it takes.
use pulseon.Base.{
  ◌≡◌, ◌⊎◌, inl, inr, refl, sym, ◌∙◌, Option, none, some, List, [], ◌∷◌, ◌++◌, arith, All,
  All-map_pred, In, Option-cases,
}
use mathlib.Core.Path.{subst}
use mathlib.Core.List.{append-nil}
use pulseon.Viewer.Requests.{
  ReadKind, catalog, overview, detail, request_kind, TaggedRequest, ReadEvent,
}
use pulseon.Viewer.Pending.{PendingRequests, push_all, take_next, push, no_requests, slot}
use pulseon.Viewer.Pending.Latest.{push-slot}
use pulseon.Viewer.Pending.Held.{replace_cases, take_next-slot, take_next-kind}
use pulseon.Viewer.Serve.{Round, execute, serve, arrivals}

module _ (P : TaggedRequest → Type 0) where
  -- The predicate holds of what the slots hold.
  abbrev pub IsWithin : PendingRequests → Type 0
  IsWithin p = (kind : ReadKind) (tagged : TaggedRequest) → slot kind p ≡ some tagged → P tagged

  pub push-IsWithin :
      (p : PendingRequests) (r : TaggedRequest) → P r → IsWithin p → IsWithin (push p r)
  push-IsWithin p r new h kind tagged e = elim (push-slot kind p r) [
    | inl (same, took) ↦ elim (replace_cases (slot kind p) r) [
      | inl now ↦ subst P (cc (took, now, e)) new
      | inr old ↦ h kind tagged (sym old ∙ (sym took ∙ e))
    ]
    | inr (ne, same) ↦ h kind tagged (sym same ∙ e)
  ]

  push_all-IsWithin :
      (p : PendingRequests) (requests : List TaggedRequest)
      → All P requests
      → IsWithin p
      → IsWithin (push_all p requests)
  unfolding push_all
  push_all-IsWithin p [] new h = h
  push_all-IsWithin p (r ∷ requests) new h =
      push_all-IsWithin (push p r) requests new.1 (push-IsWithin p r new.0 h)

  taken :
      (p : PendingRequests) (next : TaggedRequest)
      → IsWithin p
      → (take_next p).1 ≡ some next
      → P next
  taken p next h e = elim (take_next-kind p next e) [
    | inl a ↦ h catalog next a
    | inr b ↦ elim b [ inl c ↦ h overview next c | inr d ↦ h detail next d ]
  ]

  pub no_requests-IsWithin : IsWithin no_requests
  no_requests-IsWithin catalog tagged e = cc
  no_requests-IsWithin overview tagged e = cc
  no_requests-IsWithin detail tagged e = cc

pub All-In : (xs : List TaggedRequest) → All (λ r. In r xs) xs
All-In [] = tt
All-In (x ∷ xs) = (inl refl, All-map_pred _ _ xs (λ r found. inr found) (All-In xs))

All-split :
    (P : TaggedRequest → Type 0) (xs ys : List TaggedRequest)
    → All P (xs ++ ys)
    → All P xs × All P ys
All-split P [] ys h = (tt, h)
All-split P (x ∷ xs) ys h = let (front, back) = All-split P xs ys h.1 in ((h.0, front), back)

module _ {Series Failure : Type 0} where
  -- The events of a list go back to requests of the predicate, with their kinds and generations.
  abbrev pub AreAsked : (TaggedRequest → Type 0) → List (ReadEvent Series Failure) → Type 0
  AreAsked P events =
      All
        (λ event.
          (r : TaggedRequest) × P r
          × (event.kind ≡ request_kind r.request)
          × (event.generation ≡ r.generation))
        events

module _ {Series Failure Session : Type 0} where
  pub arrivals_round :
      (p : PendingRequests) (round : Round Series Failure Session)
      (rounds : List (Round Series Failure Session)) (next : TaggedRequest)
      → (take_next (push_all p round.arrived)).1 ≡ some next
      → arrivals p (round ∷ rounds)
        ≡ round.arrived ++ arrivals (take_next (push_all p round.arrived)).0 rounds
  unfolding arrivals
  arrivals_round p round rounds next e = ground (arith, e)

  pub arrivals_last :
      (p : PendingRequests) (round : Round Series Failure Session)
      (rounds : List (Round Series Failure Session))
      → (take_next (push_all p round.arrived)).1 ≡ none
      → arrivals p (round ∷ rounds) ≡ round.arrived
  unfolding arrivals
  arrivals_last p round rounds e = ground (arith, e, append-nil round.arrived)

  pub execute-kind :
      (round : Round Series Failure Session) (session : Option Session) (tagged : TaggedRequest)
      → ((execute round session tagged).1.kind ≡ request_kind tagged.request)
        × ((execute round session tagged).1.generation ≡ tagged.generation)
  unfolding execute
  execute-kind round none tagged = ground arith
  execute-kind round (some opened) tagged = (refl, refl)

  execute-asked :
      (P : TaggedRequest → Type 0) (round : Round Series Failure Session) (session : Option Session)
      (next : TaggedRequest)
      → P next
      → (r : TaggedRequest) × P r
        × ((execute round session next).1.kind ≡ request_kind r.request)
        × ((execute round session next).1.generation ≡ r.generation)
  execute-asked P round session next h =
      let (kind, generation) = execute-kind round session next in (next, h, kind, generation)

  -- The events of a round that takes a request: none when the receiver is gone, and else its event
  -- and those of the rounds behind it.
  round_events :
      (session : Option Session) (p : PendingRequests) (round : Round Series Failure Session)
      (rounds : List (Round Series Failure Session)) (next : TaggedRequest)
      → (take_next (push_all p round.arrived)).1 ≡ some next
      → ((serve session p (round ∷ rounds)).1 ≡ [])
        ⊎ ((serve session p (round ∷ rounds)).1
            ≡ (execute round session next).1
              ∷ (serve
                  (execute round session next).0
                  (take_next (push_all p round.arrived)).0
                  rounds).1)
  unfolding serve
  round_events session p round rounds next e = ground (arith, e)

  no_events :
      (session : Option Session) (p : PendingRequests) (round : Round Series Failure Session)
      (rounds : List (Round Series Failure Session))
      → (take_next (push_all p round.arrived)).1 ≡ none
      → (serve session p (round ∷ rounds)).1 ≡ []
  unfolding serve
  no_events session p round rounds e = ground (arith, e)

  pub serve-AreAsked :
      (P : TaggedRequest → Type 0) (session : Option Session) (p : PendingRequests)
      (rounds : List (Round Series Failure Session))
      → IsWithin P p
      → All P (arrivals p rounds)
      → AreAsked P (serve session p rounds).1
  unfolding serve
  serve-AreAsked P session p [] within all = tt
  serve-AreAsked P session p (round ∷ rounds) within all =
      let q = push_all p round.arrived in
      elim (Option-cases (take_next q).1) [
        | inl empty ↦ subst (AreAsked P) (sym (no_events session p round rounds empty)) tt
        | inr (next, e) ↦
            let (now, behind) =
              All-split P round.arrived (arrivals (take_next q).0 rounds)
                (subst (All P) (arrivals_round p round rounds next e) all) in
            let q_within = push_all-IsWithin P p round.arrived now within in
            elim (round_events session p round rounds next e) [
              | inl nothing ↦ subst (AreAsked P) (sym nothing) tt
              | inr events ↦ subst (AreAsked P) (sym events) (
                execute-asked P round session next (taken P q next q_within e),
                serve-AreAsked P (execute round session next).0 (take_next q).0 rounds
                    (λ kind tagged f. q_within kind tagged (take_next-slot kind q tagged f)) behind,
              )
            ]
      ]
