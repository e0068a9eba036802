-- ===== src/Viewer/Events.antt =====
-- `ReadEventChannel`: the queue of events between the worker's sender and the viewer's receiver, with
-- the waker that a waiting receiver leaves. A lock makes each operation one step.
use mathlib.Core.List.{append_assoc, append-nil}
use pulseon.Base.{
  ◌≡◌, ◌⊎◌, inl, refl, Bool, true, false, Option, none, some, List, [], ◌∷◌, ◌++◌, arith, not,
  if◌then◌else◌,
}

module _ (Event Waker : Type 0) where
  pub record ReadEventState : Type 0 where
    pub queue : List Event
    pub waker : Option Waker
    pub sender_closed : Bool
    pub receiver_alive : Bool

  -- A receive that is not over is `pending`.
  pub data Poll : Type 0 where
    ready : Option Event → Poll
    pending : Poll

-- The waker that a receiver waits on, after this one was woken or none was.
abbrev pub still_waiting : {Waker : Type 0} → (woken waiting : Option Waker) → Option Waker
still_waiting none waiting = waiting
still_waiting (some waker) waiting = none

module _ {Event Waker : Type 0} where
  abbrev pub read_event_channel : ReadEventState Event Waker
  read_event_channel = record {
    queue = [];
    waker = none;
    sender_closed = false;
    receiver_alive = true;
  }

  -- The state, the waker that is woken, and whether the event was taken.
  unfoldable pub send :
      ReadEventState Event Waker → Event → ReadEventState Event Waker × Option Waker × Bool
  send s event =
      if not s.receiver_alive
      then (s, none, false)
      else (record s { queue = s.queue ++ event ∷ []; waker = none }, s.waker, true)

  unfoldable pub drop_sender :
      ReadEventState Event Waker → ReadEventState Event Waker × Option Waker
  drop_sender s = (record s { sender_closed = true; waker = none }, s.waker)

  unfoldable pub poll_recv :
      ReadEventState Event Waker → Waker → ReadEventState Event Waker × Poll Event Waker
  poll_recv s waker = elim s.queue [
    | event ∷ queue ↦ (record s { queue = queue }, ready (some event))
    | [] ↦ if s.sender_closed then (s, ready none) else (record s { waker = some waker }, pending)
  ]

  unfoldable pub try_event : ReadEventState Event Waker → ReadEventState Event Waker × Option Event
  try_event s = elim s.queue [
    | event ∷ queue ↦ (record s { queue = queue }, some event)
    | [] ↦ (s, none)
  ]

  unfoldable pub drop_receiver : ReadEventState Event Waker → ReadEventState Event Waker
  drop_receiver s = record s { receiver_alive = false; waker = none }

  -- One operation of either end, with the events it puts in and takes out. `waiting` is the waker of
  -- the receive that is not over and that nobody has woken since its last poll.
  pub data Step (s : ReadEventState Event Waker) (waiting : Option Waker)
      : ReadEventState Event Waker → Option Waker → List Event → List Event → Type 0 where
    step_send :
        (event : Event)
        → s.receiver_alive ≡ true
        → Step s waiting (send s event).0 (still_waiting (send s event).1 waiting) (event ∷ []) []
    step_refused :
        (event : Event)
        → s.receiver_alive ≡ false
        → Step s waiting (send s event).0 (still_waiting (send s event).1 waiting) [] []
    step_drop_sender :
        Step s waiting (drop_sender s).0 (still_waiting (drop_sender s).1 waiting) [] []
    step_poll :
        (waker : Waker) (event : Event)
        → (poll_recv s waker).1 ≡ ready (some event)
        → Step s waiting (poll_recv s waker).0 none [] (event ∷ [])
    step_wait :
        (waker : Waker)
        → (poll_recv s waker).1 ≡ pending
        → Step s waiting (poll_recv s waker).0 (some waker) [] []
    step_closed :
        (waker : Waker)
        → (poll_recv s waker).1 ≡ ready none
        → Step s waiting (poll_recv s waker).0 none [] []
    step_try :
        (event : Event)
        → (try_event s).1 ≡ some event
        → Step s waiting (try_event s).0 waiting [] (event ∷ [])
    step_try_none : (try_event s).1 ≡ none → Step s waiting (try_event s).0 waiting [] []
    step_drop_receiver : Step s waiting (drop_receiver s) none [] []

  pub data Run : ReadEventState Event Waker → Option Waker → List Event → List Event → Type 0 where
    start : Run read_event_channel none [] []
    next :
        {s t : ReadEventState Event Waker} {waiting after : Option Waker}
        {sent received more taken : List Event}
        → Run s waiting sent received
        → Step s waiting t after more taken
        → Run t after (sent ++ more) (received ++ taken)

  -- A waker waits only where there is nothing to tell it.
  abbrev HasNoNews : ReadEventState Event Waker → Type 0
  HasNoNews s = (s.waker ≡ none) ⊎ ((s.queue ≡ []) × (s.sender_closed ≡ false))

  Step-HasNoNews :
      {s t : ReadEventState Event Waker} {waiting after : Option Waker} {more taken : List Event}
      → Step s waiting t after more taken
      → HasNoNews s
      → HasNoNews t
  unfolding send drop_sender poll_recv try_event drop_receiver
  Step-HasNoNews (step_send event e) h = ground (arith, h)
  Step-HasNoNews (step_refused event e) h = ground (arith, h)
  Step-HasNoNews step_drop_sender h = ground (arith, h)
  Step-HasNoNews {s} (step_poll waker event e) h = ground (arith, h)
  Step-HasNoNews (step_wait waker e) h = ground (arith, h)
  Step-HasNoNews (step_closed waker e) h = ground (arith, h)
  Step-HasNoNews (step_try event e) h = ground (arith, h)
  Step-HasNoNews (step_try_none e) h = ground (arith, h)
  Step-HasNoNews step_drop_receiver h = ground (arith, h)

  Step-queue :
      {s t : ReadEventState Event Waker} {waiting after : Option Waker} {more taken : List Event}
      → Step s waiting t after more taken
      → s.queue ++ more ≡ taken ++ t.queue
  unfolding send drop_sender poll_recv try_event drop_receiver
  Step-queue {s} (step_send event e) = ground (arith, append-nil s.queue)
  Step-queue {s} (step_refused event e) = ground (arith, append-nil s.queue)
  Step-queue {s} step_drop_sender = ground (arith, append-nil s.queue)
  Step-queue {s} (step_poll waker event e) = ground (arith, append-nil s.queue)
  Step-queue {s} (step_wait waker e) = ground (arith, append-nil s.queue)
  Step-queue {s} (step_closed waker e) = ground (arith, append-nil s.queue)
  Step-queue {s} (step_try event e) = ground (arith, append-nil s.queue)
  Step-queue {s} (step_try_none e) = ground (arith, append-nil s.queue)
  Step-queue {s} step_drop_receiver = ground (arith, append-nil s.queue)

  -- Who waits has left its waker, and there is nothing to tell it.
  abbrev IsAwaited : ReadEventState Event Waker → Option Waker → Type 0
  IsAwaited s waiting =
      (waiting ≡ none) ⊎ ((s.waker ≡ waiting) × (s.queue ≡ []) × (s.sender_closed ≡ false))

  Step-IsAwaited :
      {s t : ReadEventState Event Waker} {waiting after : Option Waker} {more taken : List Event}
      → Step s waiting t after more taken
      → IsAwaited s waiting
      → IsAwaited t after
  unfolding send drop_sender poll_recv try_event drop_receiver
  Step-IsAwaited (step_send event e) h = ground (arith, h)
  Step-IsAwaited (step_refused event e) h = ground (arith, h)
  Step-IsAwaited step_drop_sender h = ground (arith, h)
  Step-IsAwaited (step_poll waker event e) h = inl refl
  Step-IsAwaited (step_wait waker e) h = ground (arith, h)
  Step-IsAwaited (step_closed waker e) h = inl refl
  Step-IsAwaited (step_try event e) h = ground (arith, h)
  Step-IsAwaited (step_try_none e) h = ground (arith, h)
  Step-IsAwaited step_drop_receiver h = inl refl

  -- After any operations of the two ends, the events received and then those in the queue are the
  -- events sent, in order; a stored waker means that the queue is empty and the sender is not
  -- closed; and no wake-up is lost: a receive that waits and that nobody has woken since its last
  -- poll has its waker stored, while the queue is empty and the sender is not closed.
  pub Run-events :
      {s : ReadEventState Event Waker} {waiting : Option Waker} {sent received : List Event}
      → Run s waiting sent received
      → (sent ≡ received ++ s.queue)
        × ((s.waker ≡ none) ⊎ ((s.queue ≡ []) × (s.sender_closed ≡ false)))
        × ((waiting ≡ none) ⊎ ((s.waker ≡ waiting) × (s.queue ≡ []) × (s.sender_closed ≡ false)))
  Run-events start = (refl, inl refl, inl refl)
  Run-events (next {s} {t} {waiting} {after} {sent} {received} {more} {taken} r e) =
      let (same, quiet, awaited) = Run-events r in
      (
        cc (Step-queue e, append_assoc received s.queue more, append_assoc received taken t.queue),
        Step-HasNoNews e quiet,
        Step-IsAwaited e awaited,
      )
