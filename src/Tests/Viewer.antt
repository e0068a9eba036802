-- ===== src/Tests/Viewer.antt =====
-- The viewer's worker and state at concrete requests and events.
use pulseon.Base.{
  pos, ◌-ℤ◌, ℕ, ◌≡◌, ◌≢◌, ◌↔◌, ◌⊎◌, inl, refl, ap, ◌*◌, ◌≤◌, Bool, true, false, Option, none, some,
  List, [], ◌∷◌, ◌++◌, Text, codes, arith, Result, ok, err, text_eq, All, In,
}
use pulseon.Model.Alignment.{AlignmentViewport, step}
use pulseon.Viewer.Requests.{
  catalog, ReadRequest, discover, request_kind, TaggedRequest, CatalogSnapshot, ReadSnapshot,
  catalog_snapshot, ReadEvent,
}
use pulseon.Viewer.Pending.{no_requests, push, push_all, take_next, slot, IsLatest}
use pulseon.Viewer.Pending.Latest.{push_all-IsLatest}
use pulseon.Viewer.Events.{
  ReadEventState, send, poll_recv, Run, start, next, step_send, step_poll, step_wait, Run-events,
}
use pulseon.Viewer.Serve.{idle, Round, serve, worker_round, arrivals}
use pulseon.Viewer.Serve.Answered.{worker_round-IsAnswered}
use pulseon.Viewer.Serve.Ends.{quiet, worker_round-idle}
use pulseon.Viewer.Budget.{
  overview_budget, detail_budget, curve_reduction, curve_reduction-max_points,
}
use pulseon.Model.Alignment.{AlignmentReduction, alignment_max_points}
use pulseon.Viewer.Core.{ViewerSelection, ViewerCore, applied, expected_at, toggle_run, apply}
use pulseon.Viewer.Apply.{
  Action, do_toggle_run, do_select_project, do_apply, act, act_all, IsValid, act_all-IsValid,
}
use pulseon.Chart.Brush.{BrushState}
use pulseon.Sample.Whole.{Whole, whole_f64}
use pulseon.Sample.Math.{whole_math, Whole-IsIeeeMath}
use pulseon.Sample.Casts.{whole_casts, whole_casts-IsCast}
use pulseon.Viewer.View.{open_brush}
use pulseon.Viewer.View.Opened.{Returns, open_brush-Returns}
use pulseon.Viewer.Stale.{HasNoCurves, IsMatched, apply_iff, act-HasNoCurves, toggle_run-toggle_run}

abbrev asked : ℕ → TaggedRequest
asked generation = record {
  generation = generation;
  request = discover (record { project_id = none; selected_run_ids = [] });
}

push_all-IsLatest_example :
    IsLatest catalog
      (asked 2 ∷ asked 1 ∷ [])
      (slot catalog (push_all no_requests (asked 2 ∷ asked 1 ∷ [])))
push_all-IsLatest_example = push_all-IsLatest catalog (asked 2 ∷ asked 1 ∷ [])

abbrev found : CatalogSnapshot
found = record { projects = []; runs = []; metric_keys = [] }

abbrev answer : Bool → ReadRequest → Result Text (ReadSnapshot ℕ)
answer session request = ok (catalog_snapshot found)

-- The source does not open in the first round, and does in the second.
abbrev closed_round : Round ℕ Text Bool
closed_round = record {
  arrived = asked 4 ∷ [];
  opening = err (codes "no such project");
  answer = answer;
  receiver_alive = true;
}

abbrev open_round : Round ℕ Text Bool
open_round = record {
  arrived = asked 7 ∷ asked 6 ∷ [];
  opening = ok true;
  answer = answer;
  receiver_alive = true;
}

abbrev last_round : Round ℕ Text Bool
last_round = quiet open_round

abbrev rounds : List (Round ℕ Text Bool)
rounds = closed_round ∷ open_round ∷ last_round ∷ []

abbrev all_taken : List TaggedRequest
all_taken = asked 3 ∷ asked 4 ∷ asked 7 ∷ asked 6 ∷ []

worker_round-IsAnswered_example :
    All
      (λ r.
        (event : ReadEvent ℕ Text) × In event (worker_round none (asked 3) rounds).1
        × (event.kind ≡ request_kind r.request)
        × (r.generation ≤ event.generation))
      all_taken
    × All
        (λ event.
          (r : TaggedRequest) × In r all_taken
          × (event.kind ≡ request_kind r.request)
          × (event.generation ≡ r.generation))
        (worker_round none (asked 3) rounds).1
unfolding worker_round serve push push_all take_next arrivals
worker_round-IsAnswered_example = worker_round-IsAnswered none (asked 3) rounds refl

worker_round-idle_example :
    (worker_round none
      (asked 3)
      (rounds ++ (last_round ∷ last_round ∷ last_round ∷ last_round ∷ []))).2
    ≡ idle
worker_round-idle_example =
    worker_round-idle none (asked 3) rounds open_round open_round open_round open_round
      (refl, (refl, (refl, tt)))

-- An event is sent while the receiver waits, which is woken and gets it, and waits again.
abbrev waits : ReadEventState ℕ ℕ
waits = record { queue = []; waker = some 2; sender_closed = false; receiver_alive = true }

abbrev five : List ℕ
five = 5 ∷ []

one_sent : Run waits (some 2) five five
unfolding send poll_recv
one_sent =
    next (next (next (next start (step_wait 1 refl)) (step_send 5 refl)) (step_poll 1 5 refl))
      (step_wait 2 refl)

Run-events_example :
    (five ≡ five ++ [])
    × ((waits.waker ≡ none) ⊎ ((waits.queue ≡ []) × (false ≡ false)))
    × ((waits.waker ≡ none) ⊎ ((waits.waker ≡ waits.waker) × (waits.queue ≡ []) × (false ≡ false)))
Run-events_example = Run-events one_sent

abbrev core : ViewerCore ℕ Bool
core = record {
  selection = record { project_id = some (codes "p"); run_ids = codes "a" ∷ []; metric_key = none };
  axis = step;
  brush = none;
  catalog_shown = none;
  overview_shown = none;
  detail_shown = none;
  expected = record {
    catalog_generation = some 3;
    overview_generation = some 4;
    detail_generation = none;
  };
  last_error = none;
}

abbrev no_brush : Option Bool → AlignmentViewport → Option Bool
no_brush previous range = none

abbrev shown : Text → Text
shown t = t

abbrev event : ReadEvent ℕ Text
event = record { generation = 3; kind = catalog; result = ok (catalog_snapshot found) }

abbrev actions : List (Action ℕ Text)
actions = do_toggle_run (codes "b") ∷ do_apply event ∷ []

act_all-IsValid_example : IsValid (act_all no_brush shown actions core)
act_all-IsValid_example =
    act_all-IsValid no_brush shown actions core (tt, (tt, tt)) ((refl, tt), omega arith)

apply_iff_example :
    (((apply no_brush shown event core).1 ≡ applied)
      ↔ ((expected_at catalog core.expected ≡ some 3) × IsMatched no_brush shown event))
    × (((apply no_brush shown event core).1 ≡ applied)
        ⊎ ((apply no_brush shown event core).0 ≡ core))
apply_iff_example = apply_iff no_brush shown event core

no_project : {A : Type 0} (a : A) → none ≢ some a
no_project a e = cc e

act-HasNoCurves_example : HasNoCurves (act no_brush shown (do_select_project none) core)
unfolding act
act-HasNoCurves_example =
    act-HasNoCurves no_brush shown (do_select_project none) core
      (inl λ e. no_project (codes "p") (ap (λ (s : ViewerSelection). s.project_id) e))

toggle_run-toggle_run_example :
    ((toggle_run (codes "b") core).1 ≡ ok true)
    × ((toggle_run (codes "b") (toggle_run (codes "b") core).0).1 ≡ ok false)
    × ((toggle_run (codes "b") (toggle_run (codes "b") core).0).0.selection ≡ core.selection)
unfolding text_eq
toggle_run-toggle_run_example = toggle_run-toggle_run (codes "b") core refl (omega arith)

curve_reduction-max_points_example :
    ((o : AlignmentReduction) × (curve_reduction (overview_budget 800) ≡ ok o)
      × (alignment_max_points o ≡ some (overview_budget 800)))
    × ((r : AlignmentReduction) × (curve_reduction (detail_budget 800) ≡ ok r)
        × (alignment_max_points r ≡ some (detail_budget 800)))
    × (500 ≤ overview_budget 800)
    × (overview_budget 800 ≤ 2_000)
    × (500 ≤ 800 → 800 ≤ 2_000 → overview_budget 800 ≡ 800)
    × (2_000 ≤ detail_budget 800)
    × (detail_budget 800 ≤ 10_000)
    × (2_000 ≤ 800 * 2 → 800 * 2 ≤ 10_000 → detail_budget 800 ≡ 800 * 2)
curve_reduction-max_points_example = curve_reduction-max_points 800

abbrev brushed : BrushState Whole
brushed = record {
  home = record { start = some (pos 0); end = some (pos 10) };
  selected = record { start = some (pos 2); end = some (pos 6) };
}

open_brush-Returns_example :
    Returns (open_brush whole_casts (some brushed) (record { start = pos 1; end = pos 5 }))
unfolding ◌-ℤ◌
open_brush-Returns_example =
    open_brush-Returns Whole-IsIeeeMath whole_casts whole_casts-IsCast (some brushed)
      (record { start = pos 1; end = pos 5 })
      ((refl, refl, refl, refl), (refl, refl, refl, refl), refl, refl, refl)
