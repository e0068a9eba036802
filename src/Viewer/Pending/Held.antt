-- ===== src/Viewer/Pending/Held.antt =====
-- What the slots of `PendingRequests` owe to a request that came.
use pulseon.Base.{
  ◌≤◌, ◌≡◌, ◌⊎◌, inl, inr, refl, sym, ap, ◌∙◌, Option, none, some, List, [], ◌∷◌, arith, All,
  Option-cases,
}
use pulseon.Viewer.Requests.{
  ReadKind, catalog, overview, detail, Generation, request_kind, TaggedRequest,
}
use pulseon.Viewer.Pending.{PendingRequests, push_all, take_next, push, no_requests, replace, slot}
use pulseon.Viewer.Pending.Latest.{push-slot, keep_cases}

-- Each slot holds a request of its own kind.
abbrev pub IsKinded : PendingRequests → Type 0
IsKinded p =
    (kind : ReadKind) (tagged : TaggedRequest)
    → slot kind p ≡ some tagged
    → request_kind tagged.request ≡ kind

-- The slot of the kind holds a request that is not older.
abbrev pub Holds : ReadKind → Generation → PendingRequests → Type 0
Holds kind generation p =
    (tagged : TaggedRequest) × (slot kind p ≡ some tagged) × (generation ≤ tagged.generation)

pub replace_cases :
    (pending : Option TaggedRequest) (r : TaggedRequest)
    → (replace pending r ≡ some r) ⊎ (replace pending r ≡ pending)
replace_cases none r = inl refl
replace_cases (some kept) r = ground arith

pub push-IsKinded : (p : PendingRequests) (r : TaggedRequest) → IsKinded p → IsKinded (push p r)
push-IsKinded p r h kind tagged e = elim (push-slot kind p r) [
  | inl (same, took) ↦ elim (replace_cases (slot kind p) r) [
    | inl new ↦ cc
    | inr old ↦ h kind tagged (sym old ∙ (sym took ∙ e))
  ]
  | inr (ne, same) ↦ h kind tagged (sym same ∙ e)
]

pub push_all-IsKinded :
    (p : PendingRequests) (requests : List TaggedRequest)
    → IsKinded p
    → IsKinded (push_all p requests)
unfolding push_all
push_all-IsKinded p [] h = h
push_all-IsKinded p (r ∷ requests) h = push_all-IsKinded (push p r) requests (push-IsKinded p r h)

replace-Holds :
    (kept r : TaggedRequest) (generation : Generation)
    → generation ≤ kept.generation
    → (tagged : TaggedRequest) × (replace (some kept) r ≡ some tagged)
      × (generation ≤ tagged.generation)
replace-Holds kept r generation le = elim (keep_cases kept r) [
  | inl (newer, same) ↦ (r, same, omega (arith, newer, le))
  | inr (older, same) ↦ (kept, same, le)
]

replace-takes :
    (pending : Option TaggedRequest) (r : TaggedRequest)
    → (tagged : TaggedRequest) × (replace pending r ≡ some tagged)
      × (r.generation ≤ tagged.generation)
replace-takes none r = (r, refl, omega arith)
replace-takes (some kept) r = elim (keep_cases kept r) [
  | inl (newer, same) ↦ (r, same, omega arith)
  | inr (older, same) ↦ (kept, same, older)
]

push-Holds :
    (kind : ReadKind) (generation : Generation) (p : PendingRequests) (r : TaggedRequest)
    → Holds kind generation p
    → Holds kind generation (push p r)
push-Holds kind generation p r (kept, e, le) = elim (push-slot kind p r) [
  | inl (same, took) ↦
      let (tagged, now, newer) = replace-Holds kept r generation le in
      (tagged, took ∙ (ap (λ m. replace m r) e ∙ now), newer)
  | inr (ne, same) ↦ (kept, same ∙ e, le)
]

pub push-takes :
    (p : PendingRequests) (r : TaggedRequest)
    → Holds (request_kind r.request) r.generation (push p r)
push-takes p r = elim (push-slot (request_kind r.request) p r) [
  | inl (same, took) ↦
      let (tagged, now, newer) = replace-takes (slot (request_kind r.request) p) r in
      (tagged, took ∙ now, newer)
  | inr (ne, same) ↦ absurd (ne refl)
]

pub push_all-Holds :
    (kind : ReadKind) (generation : Generation) (p : PendingRequests)
    (requests : List TaggedRequest)
    → Holds kind generation p
    → Holds kind generation (push_all p requests)
unfolding push_all
push_all-Holds kind generation p [] h = h
push_all-Holds kind generation p (r ∷ requests) h =
    push_all-Holds kind generation (push p r) requests (push-Holds kind generation p r h)

pub push_all-takes :
    (p : PendingRequests) (requests : List TaggedRequest)
    → All (λ r. Holds (request_kind r.request) r.generation (push_all p requests)) requests
unfolding push_all
push_all-takes p [] = tt
push_all-takes p (r ∷ requests) =
    (push_all-Holds _ _ (push p r) requests (push-takes p r), push_all-takes (push p r) requests)

pub take_next-slot :
    (kind : ReadKind) (p : PendingRequests) (tagged : TaggedRequest)
    → slot kind (take_next p).0 ≡ some tagged
    → slot kind p ≡ some tagged
unfolding take_next
take_next-slot catalog p tagged e = ground (arith, e)
take_next-slot overview p tagged e = ground (arith, e)
take_next-slot detail p tagged e = ground (arith, e)

pub take_next-kind :
    (p : PendingRequests) (next : TaggedRequest)
    → (take_next p).1 ≡ some next
    → (slot catalog p ≡ some next) ⊎ ((slot overview p ≡ some next) ⊎ (slot detail p ≡ some next))
unfolding take_next
take_next-kind p next e = ground (arith, e)

pub no_requests-IsKinded : IsKinded no_requests
no_requests-IsKinded catalog tagged e = cc
no_requests-IsKinded overview tagged e = cc
no_requests-IsKinded detail tagged e = cc

pub take_next-IsKinded : (p : PendingRequests) → IsKinded p → IsKinded (take_next p).0
take_next-IsKinded p h kind tagged e = h kind tagged (take_next-slot kind p tagged e)

-- The request of a slot is taken next, or stays while another one is.
pub take_next-Holds :
    (kind : ReadKind) (generation : Generation) (p : PendingRequests)
    → Holds kind generation p
    → (next : TaggedRequest) × ((take_next p).1 ≡ some next)
      × (((slot kind p ≡ some next) × (generation ≤ next.generation))
          ⊎ Holds kind generation (take_next p).0)
unfolding take_next
take_next-Holds catalog generation p (tagged, e, le) = (tagged, rw e refl, inl (e, le))
take_next-Holds overview generation p (tagged, e, le) = elim (Option-cases p.discover_slot) [
  | inl empty ↦ (tagged, rw (empty, e) refl, inl (e, le))
  | inr (d, full) ↦ (d, rw full refl, inr (tagged, rw full e, le))
]
take_next-Holds detail generation p (tagged, e, le) = elim (Option-cases p.discover_slot) [
  | inl empty ↦ elim (Option-cases p.overview_slot) [
    | inl neither ↦ (tagged, rw (empty, neither) e, inl (e, le))
    | inr (o, full) ↦ (o, rw (empty, full) refl, inr (tagged, rw (empty, full) e, le))
  ]
  | inr (d, full) ↦ (d, rw full refl, inr (tagged, rw full e, le))
]
