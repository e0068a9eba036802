-- ===== src/Viewer/Pending/Latest.antt =====
-- What the slots of `PendingRequests` hold after any requests.
use mathlib.Core.Path.{subst}
use mathlib.Core.List.{append_assoc, append-nil}
use pulseon.Base.{
  ◌≤◌, ◌≡◌, ◌≢◌, ◌⊎◌, refl, sym, inl, inr, Option, none, some, List, [], ◌∷◌, ◌++◌, arith,
  All-append, All-map_pred, In,
}
use pulseon.Viewer.Requests.{ReadKind, catalog, overview, detail, request_kind, TaggedRequest}
use pulseon.Viewer.Pending.{PendingRequests, no_requests, replace, push, push_all, slot, IsLatest}

In-left : (r : TaggedRequest) (xs ys : List TaggedRequest) → In r xs → In r (xs ++ ys)
In-left r [] ys h = elim h [ ]
In-left r (x ∷ xs) ys (inl e) = inl e
In-left r (x ∷ xs) ys (inr h) = inr (In-left r xs ys h)

In-last : (r : TaggedRequest) (xs : List TaggedRequest) → In r (xs ++ r ∷ [])
In-last r [] = inl refl
In-last r (x ∷ xs) = inr (In-last r xs)

-- A request of another kind leaves the promise of a slot.
other_kind :
    (kind : ReadKind) (seen : List TaggedRequest) (kept : Option TaggedRequest) (r : TaggedRequest)
    → request_kind r.request ≢ kind
    → IsLatest kind seen kept
    → IsLatest kind (seen ++ r ∷ []) kept
other_kind kind seen none r ne h = All-append _ seen (r ∷ []) h (ne, tt)
other_kind kind seen (some kept) r ne h =
    (In-left kept seen (r ∷ []) h.0, h.1, All-append _ seen (r ∷ []) h.2 ((λ e. absurd (ne e)), tt))

-- A request of the slot's kind that is not older takes the slot.
newer :
    (kind : ReadKind) (seen : List TaggedRequest) (kept r : TaggedRequest)
    → request_kind r.request ≡ kind
    → kept.generation ≤ r.generation
    → IsLatest kind seen (some kept)
    → IsLatest kind (seen ++ r ∷ []) (some r)
newer kind seen kept r e le h = (
  In-last r seen,
  e,
  All-append _ seen (r ∷ [])
      (All-map_pred _ _ seen (λ x older same. omega (arith, older same, le)) h.2)
      ((λ same. omega arith), tt),
)

first :
    (kind : ReadKind) (seen : List TaggedRequest) (r : TaggedRequest)
    → request_kind r.request ≡ kind
    → IsLatest kind seen none
    → IsLatest kind (seen ++ r ∷ []) (some r)
first kind seen r e h = (
  In-last r seen,
  e,
  All-append _ seen (r ∷ []) (All-map_pred _ _ seen (λ x ne same. absurd (ne same)) h)
      ((λ same. omega arith), tt),
)

older :
    (kind : ReadKind) (seen : List TaggedRequest) (kept r : TaggedRequest)
    → r.generation ≤ kept.generation
    → IsLatest kind seen (some kept)
    → IsLatest kind (seen ++ r ∷ []) (some kept)
older kind seen kept r le h =
    (In-left kept seen (r ∷ []) h.0, h.1, All-append _ seen (r ∷ []) h.2 ((λ same. le), tt))

pub keep_cases :
    (kept r : TaggedRequest)
    → ((kept.generation ≤ r.generation) × (replace (some kept) r ≡ some r))
      ⊎ ((r.generation ≤ kept.generation) × (replace (some kept) r ≡ some kept))
keep_cases kept r = ground arith

replace-IsLatest :
    (kind : ReadKind) (seen : List TaggedRequest) (kept : Option TaggedRequest) (r : TaggedRequest)
    → request_kind r.request ≡ kind
    → IsLatest kind seen kept
    → IsLatest kind (seen ++ r ∷ []) (replace kept r)
replace-IsLatest kind seen none r e h = first kind seen r e h
replace-IsLatest kind seen (some kept) r e h = elim (keep_cases kept r) [
  | inl (le, same) ↦
      subst (IsLatest kind (seen ++ r ∷ [])) (sym same) (newer kind seen kept r e le h)
  | inr (le, same) ↦ subst (IsLatest kind (seen ++ r ∷ [])) (sym same) (older kind seen kept r le h)
]

pub push-slot :
    (kind : ReadKind) (p : PendingRequests) (r : TaggedRequest)
    → ((request_kind r.request ≡ kind) × (slot kind (push p r) ≡ replace (slot kind p) r))
      ⊎ ((request_kind r.request ≢ kind) × (slot kind (push p r) ≡ slot kind p))
unfolding push
push-slot catalog p r = ground arith
push-slot overview p r = ground arith
push-slot detail p r = ground arith

push-IsLatest :
    (kind : ReadKind) (seen : List TaggedRequest) (p : PendingRequests) (r : TaggedRequest)
    → IsLatest kind seen (slot kind p)
    → IsLatest kind (seen ++ r ∷ []) (slot kind (push p r))
push-IsLatest kind seen p r h = elim (push-slot kind p r) [
  | inl (e, same) ↦
      subst (IsLatest kind (seen ++ r ∷ [])) (sym same)
        (replace-IsLatest kind seen (slot kind p) r e h)
  | inr (ne, same) ↦
      subst (IsLatest kind (seen ++ r ∷ [])) (sym same) (other_kind kind seen (slot kind p) r ne h)
]

push_all-slot :
    (kind : ReadKind) (seen requests : List TaggedRequest) (p : PendingRequests)
    → IsLatest kind seen (slot kind p)
    → IsLatest kind (seen ++ requests) (slot kind (push_all p requests))
unfolding push_all
push_all-slot kind seen [] p h =
    subst (λ rs. IsLatest kind rs (slot kind p)) (sym (append-nil seen)) h
push_all-slot kind seen (r ∷ requests) p h =
    subst (λ rs. IsLatest kind rs (slot kind (push_all (push p r) requests)))
      (append_assoc seen (r ∷ []) requests)
      (push_all-slot kind (seen ++ r ∷ []) requests (push p r) (push-IsLatest kind seen p r h))

-- After any requests, a kind's slot is empty when none of that kind came, and else holds one of
-- them such that no other of its kind has a higher generation.
pub push_all-IsLatest :
    (kind : ReadKind) (requests : List TaggedRequest)
    → IsLatest kind requests (slot kind (push_all no_requests requests))
push_all-IsLatest catalog requests = push_all-slot catalog [] requests no_requests tt
push_all-IsLatest overview requests = push_all-slot overview [] requests no_requests tt
push_all-IsLatest detail requests = push_all-slot detail [] requests no_requests tt
