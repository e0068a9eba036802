-- ===== src/Viewer/Serve.antt =====
-- `execute` and `worker_loop` of the read worker.
pub mod Asked
pub mod Answered
pub mod Ends
use pulseon.Base.{◌≡◌, Bool, true, false, Option, none, some, List, [], ◌∷◌, ◌++◌, Result, ok, err}
use pulseon.Viewer.Requests.{ReadRequest, request_kind, TaggedRequest, ReadSnapshot, ReadEvent}
use pulseon.Viewer.Pending.{PendingRequests, push_all, take_next, push, no_requests}

-- How the inner loop stands after the rounds: it ended with no request left, it returned since the
-- receiver was gone, or it goes on.
pub data Served : Type 0 where
  idle gone busy : Served

-- What one round of the inner loop meets: the requests that `try_iter` finds, what opening the
-- source would give now, what the session's three queries would give now, and whether the receiver
-- is there at the send.
pub record Round (Series Failure Session : Type 0) : Type 0 where
  pub arrived : List TaggedRequest
  pub opening : Result Failure Session
  pub answer : Session → ReadRequest → Result Failure (ReadSnapshot Series)
  pub receiver_alive : Bool

module _ {Failure Session : Type 0} where
  -- The session that an `Option` holds, opened when there is none.
  abbrev pub obtain : Result Failure Session → Option Session → Result Failure Session
  obtain opening none = opening
  obtain opening (some session) = ok session

module _ {Series Failure Session : Type 0} where
  -- A source that does not open leaves no session, so that the next request opens it again.
  unfoldable pub execute :
      Round Series Failure Session
      → Option Session
      → TaggedRequest
      → Option Session × ReadEvent Series Failure
  unfolding request_kind
  execute round session tagged = elim (obtain round.opening session) [
    | err e ↦ (
      session,
      record { generation = tagged.generation; kind = request_kind tagged.request; result = err e },
    )
    | ok opened ↦ (
      some opened,
      record {
        generation = tagged.generation;
        kind = request_kind tagged.request;
        result = round.answer opened tagged.request;
      },
    )
  ]

  -- The inner loop over its rounds. The events are those sent.
  unfoldable pub serve :
      Option Session
      → PendingRequests
      → List (Round Series Failure Session)
      → Option Session × List (ReadEvent Series Failure) × Served
  unfolding execute take_next push_all
  serve session p [] = (session, [], busy)
  serve session p (round ∷ rounds) =
      let (p', next) = take_next (push_all p round.arrived) in
      elim next [
        | none ↦ (session, [], idle)
        | some tagged ↦
            let (session', event) = execute round session tagged in
            elim round.receiver_alive [
              | false ↦ (session', [], gone)
              | true ↦
                  let (last, events, end) = serve session' p' rounds in (last, event ∷ events, end)
            ]
      ]

  -- One `recv` of the outer loop.
  unfoldable pub worker_round :
      Option Session
      → TaggedRequest
      → List (Round Series Failure Session)
      → Option Session × List (ReadEvent Series Failure) × Served
  unfolding serve push
  worker_round session first rounds = serve session (push no_requests first) rounds

  -- The requests that the loop takes from its channel, by what waits in the slots.
  unfoldable pub arrivals :
      PendingRequests → List (Round Series Failure Session) → List TaggedRequest
  unfolding take_next push_all
  arrivals p [] = []
  arrivals p (round ∷ rounds) =
      let (p', next) = take_next (push_all p round.arrived) in
      let rest = arrivals p' rounds in round.arrived ++ elim next [ none ↦ [] | some tagged ↦ rest ]
