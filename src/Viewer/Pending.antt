-- ===== src/Viewer/Pending.antt =====
-- `PendingRequests` of the read worker: one slot for each kind of request.
pub mod Latest
pub mod Held
use pulseon.Base.{
  ℕ, ◌≤◌, ◌≡◌, ◌≢◌, ◌⊎◌, ◌↔◌, refl, inl, inr, Bool, true, false, Option, none, some, List, [], ◌∷◌,
  leb, if◌then◌else◌, arith, All, In,
}
use pulseon.Viewer.Requests.{
  ReadKind, catalog, overview, detail, ReadRequest, discover, overview_of, detail_of, request_kind,
  TaggedRequest,
}

pub record PendingRequests : Type 0 where
  pub discover_slot : Option TaggedRequest
  pub overview_slot : Option TaggedRequest
  pub detail_slot : Option TaggedRequest

abbrev pub no_requests : PendingRequests
no_requests = record { discover_slot = none; overview_slot = none; detail_slot = none }

-- The slot after the request: an empty one takes it, a full one when the request is not older.
abbrev pub replace : Option TaggedRequest → TaggedRequest → Option TaggedRequest
replace none tagged = some tagged
replace (some pending) tagged =
    if leb pending.generation tagged.generation then some tagged else some pending

unfoldable pub push : PendingRequests → TaggedRequest → PendingRequests
unfolding request_kind
push p tagged = elim (request_kind tagged.request) [
  | catalog ↦ record p { discover_slot = replace p.discover_slot tagged }
  | overview ↦ record p { overview_slot = replace p.overview_slot tagged }
  | detail ↦ record p { detail_slot = replace p.detail_slot tagged }
]

unfoldable pub take_next : PendingRequests → PendingRequests × Option TaggedRequest
take_next p = elim p.discover_slot [
  | some tagged ↦ (record p { discover_slot = none }, some tagged)
  | none ↦ elim p.overview_slot [
    | some tagged ↦ (record p { overview_slot = none }, some tagged)
    | none ↦ (record p { detail_slot = none }, p.detail_slot)
  ]
]

-- `for request in requests.try_iter() { pending.push(request) }`.
unfoldable pub push_all : PendingRequests → List TaggedRequest → PendingRequests
unfolding push
push_all p [] = p
push_all p (tagged ∷ requests) = push_all (push p tagged) requests

abbrev pub slot : ReadKind → PendingRequests → Option TaggedRequest
slot catalog p = p.discover_slot
slot overview p = p.overview_slot
slot detail p = p.detail_slot

-- What a slot promises of the requests that came: it is empty when none of its kind came, and else
-- it holds one of them, none of its kind being newer.
abbrev pub IsLatest : ReadKind → List TaggedRequest → Option TaggedRequest → Type 0
IsLatest kind requests none = All (λ (r : TaggedRequest). request_kind r.request ≢ kind) requests
IsLatest kind requests (some kept) =
    (In kept requests)
    × (request_kind kept.request ≡ kind)
    × (All (λ (r : TaggedRequest). request_kind r.request ≡ kind → r.generation ≤ kept.generation)
        requests)
