-- ===== src/Chart/Selection/Toggle.antt =====
-- `toggle` on a set of series: twice is nothing.
use pulseon.Base.{
  ◌≡◌, ◌⊎◌, inl, inr, refl, sym, ap, ◌∙◌, Bool, true, false, not, List, [], ◌∷◌, Ordering, text_cmp,
  swap, text_cmp-IsOrder, All, arith, Bool-cases, Text,
}
use pulseon.Chart.Series.{SeriesId}
use pulseon.Chart.Selection.{SelectionState, set_remove, set_insert, toggle}

-- Strictly increasing, as a `BTreeSet` keeps its members.
abbrev pub IsIncreasing : List SeriesId → Type 0
IsIncreasing [] = Unit
IsIncreasing (x ∷ xs) = All (λ y. text_cmp x y ≡ Ordering.lt) xs × IsIncreasing xs

order_self : (o : Ordering) → o ≡ swap o → o ≡ Ordering.eq
order_self o h = ground arith

text_cmp_refl : (s : Text) → text_cmp s s ≡ Ordering.eq
text_cmp_refl s = order_self (text_cmp s s) (text_cmp-IsOrder.flip s s)

text_cmp-eq : (s t : Text) → text_cmp s t ≡ Ordering.eq → s ≡ t
unfolding text_cmp
text_cmp-eq [] [] h = refl
text_cmp-eq [] (b ∷ t) h = cc
text_cmp-eq (a ∷ s) [] h = cc
text_cmp-eq (a ∷ s) (b ∷ t) h = ground (arith, h, text_cmp-eq s t)

Ordering_three : (o : Ordering) → (o ≡ Ordering.lt) ⊎ ((o ≡ Ordering.eq) ⊎ (o ≡ Ordering.gt))
Ordering_three o = ground arith

module _ (id x : SeriesId) (xs : List SeriesId) where
  set_remove-before : text_cmp id x ≡ Ordering.lt → set_remove id (x ∷ xs) ≡ (false, x ∷ xs)
  unfolding set_remove
  set_remove-before h = rw (set_remove, h) refl

  set_remove-found : text_cmp id x ≡ Ordering.eq → set_remove id (x ∷ xs) ≡ (true, xs)
  unfolding set_remove
  set_remove-found h = rw (set_remove, h) refl

  set_remove-after :
      text_cmp id x ≡ Ordering.gt
      → set_remove id (x ∷ xs) ≡ ((set_remove id xs).0, x ∷ (set_remove id xs).1)
  unfolding set_remove
  set_remove-after h = rw (set_remove, h) refl

  set_insert-before : text_cmp id x ≡ Ordering.lt → set_insert id (x ∷ xs) ≡ id ∷ x ∷ xs
  unfolding set_insert
  set_insert-before h = rw (set_insert, h) refl

  set_insert-after : text_cmp id x ≡ Ordering.gt → set_insert id (x ∷ xs) ≡ x ∷ set_insert id xs
  unfolding set_insert
  set_insert-after h = rw (set_insert, h) refl

set_insert-first :
    (x : SeriesId) (xs : List SeriesId)
    → All (λ y. text_cmp x y ≡ Ordering.lt) xs
    → set_insert x xs ≡ x ∷ xs
unfolding set_insert
set_insert-first x [] h = refl
set_insert-first x (y ∷ ys) h = set_insert-before x y ys (h.0)

set_remove-first :
    (x : SeriesId) (xs : List SeriesId)
    → All (λ y. text_cmp x y ≡ Ordering.lt) xs
    → (set_remove x xs).0 ≡ false
unfolding set_remove
set_remove-first x [] h = refl
set_remove-first x (y ∷ ys) h = ap (λ r. r.0) (set_remove-before x y ys (h.0))

set_remove-insert :
    (id : SeriesId) (xs : List SeriesId)
    → (set_remove id xs).0 ≡ false
    → set_remove id (set_insert id xs) ≡ (true, xs)
unfolding set_insert
set_remove-insert id [] h = set_remove-found id id [] (text_cmp_refl id)
set_remove-insert id (x ∷ xs) h = elim (Ordering_three (text_cmp id x)) [
  | inl before ↦
      ap (set_remove id) (set_insert-before id x xs before)
      ∙ set_remove-found id id (x ∷ xs) (text_cmp_refl id)
  | inr (inl found) ↦ ground (arith, sym (ap (λ r. r.0) (set_remove-found id x xs found)) ∙ h)
  | inr (inr after) ↦
      let rest =
        set_remove-insert id xs (sym (ap (λ r. r.0) (set_remove-after id x xs after)) ∙ h) in
      ap (set_remove id) (set_insert-after id x xs after)
      ∙ set_remove-after id x (set_insert id xs) after
      ∙ ap (λ (r : Bool × List SeriesId). (r.0, x ∷ r.1)) rest
]

set_insert-remove :
    (id : SeriesId) (xs : List SeriesId)
    → IsIncreasing xs
    → (set_remove id xs).0 ≡ true
    → (set_insert id (set_remove id xs).1 ≡ xs) × ((set_remove id (set_remove id xs).1).0 ≡ false)
unfolding set_remove
set_insert-remove id [] hs h = cc
set_insert-remove id (x ∷ xs) hs h = elim (Ordering_three (text_cmp id x)) [
  | inl before ↦ ground (arith, sym (ap (λ r. r.0) (set_remove-before id x xs before)) ∙ h)
  | inr (inl found) ↦
      rw (set_remove-found id x xs found, text_cmp-eq id x found)
        (set_insert-first x xs (hs.0), set_remove-first x xs (hs.0))
  | inr (inr after) ↦
      let rest =
        set_insert-remove id xs (hs.1) (sym (ap (λ r. r.0) (set_remove-after id x xs after)) ∙ h) in
      let left = (set_remove id xs).1 in
      rw (set_remove-after id x xs after) (
        set_insert-after id x left after ∙ ap (λ ys. x ∷ ys) (rest.0),
        ap (λ r. r.0) (set_remove-after id x left after) ∙ rest.1,
      )
]

-- For a set in increasing order, `toggle` says whether the series is then selected, and toggling
-- the same series again says the opposite and gives the state back, whichever way it started.
pub toggle-toggle :
    (id : SeriesId) (s : SelectionState)
    → IsIncreasing s.selected
    → toggle id (toggle id s).1 ≡ (not (toggle id s).0, s)
unfolding toggle
toggle-toggle id s hs = elim (Bool-cases (set_remove id s.selected).0) [
  | inl e ↦
      let (back, gone) = set_insert-remove id s.selected hs e in rw (toggle, e, gone, back) refl
  | inr e ↦ rw (toggle, e, set_remove-insert id s.selected e) refl
]
