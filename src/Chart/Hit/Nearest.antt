-- ===== src/Chart/Hit/Nearest.antt =====
-- `min_by` finds the first least member, and the hit test of a point the nearest one in range.
use pulseon.Base.{
  ◌≡◌, ◌≢◌, ◌⊎◌, inl, inr, refl, Ordering, true, false, Option, none, some, ok, List, [], ◌∷◌,
  filter, All, In, IsOrder, Chain, then_with-Chain, then_with-swap, swap, compare-IsOrder, arith,
  ◌∙◌,
}
use pulseon.Float.{F64}
use pulseon.Float.Math.{F64Math, fle, IsIeeeMath}
use pulseon.Chart.Range.{Viewport, CanvasSize, IsRange}
use pulseon.Chart.Series.{Series, first_at}
use pulseon.Chart.Series.Points.{IsOrdered, is_inside, range_points-filter}
use pulseon.Chart.Path.{ScreenPoint, LinearScale, scales}
use pulseon.Chart.Hit.{PointHit, first_of, min_from, min_by, point_hits, point_cmp, hit_test_point}

-- A least member of the list, or none of an empty one.
abbrev pub IsNearest {ℓ} : {A : Type ℓ} → (A → A → Ordering) → Option A → List A → Type ℓ
IsNearest cmp none xs = xs ≡ []
IsNearest cmp (some x) xs = In x xs × All (λ y. cmp x y ≢ Ordering.gt) xs

module _ {ℓ} {A : Type ℓ} (cmp : A → A → Ordering) (o : IsOrder cmp) where
  trans_le : (a b c : Ordering) → Chain a b c → a ≢ Ordering.gt → b ≢ Ordering.gt → c ≢ Ordering.gt
  trans_le a b c h p q = ground arith

  self_le : (a : Ordering) → a ≡ swap a → a ≢ Ordering.gt
  self_le a h = ground arith

  Ordering_split : (a : Ordering) → (a ≡ Ordering.gt) ⊎ (a ≢ Ordering.gt)
  Ordering_split a = ground arith

  swap_le : (a b : Ordering) → b ≡ swap a → a ≡ Ordering.gt → b ≢ Ordering.gt
  swap_le a b h k = ground arith

  abbrev IsFirst : A → A → A → Type ℓ
  IsFirst x y m = ((m ≡ x) ⊎ (m ≡ y)) × (cmp m x ≢ Ordering.gt) × (cmp m y ≢ Ordering.gt)

  first_of-keeps : (x y : A) → cmp x y ≢ Ordering.gt → first_of cmp x y ≡ x
  first_of-keeps x y h = ground arith

  first_of-takes : (x y : A) → cmp x y ≡ Ordering.gt → first_of cmp x y ≡ y
  first_of-takes x y h = ground arith

  first_of-IsFirst : (x y : A) → IsFirst x y (first_of cmp x y)
  first_of-IsFirst x y = elim (Ordering_split (cmp x y)) [
    | inl e ↦
        rw (first_of-takes x y e)
          (inr refl, swap_le (cmp x y) (cmp y x) (o.flip x y) e, self_le (cmp y y) (o.flip y y))
    | inr e ↦ rw (first_of-keeps x y e) (inl refl, self_le (cmp x x) (o.flip x x), e)
  ]

  le_trans : (x y z : A) → cmp x y ≢ Ordering.gt → cmp y z ≢ Ordering.gt → cmp x z ≢ Ordering.gt
  le_trans x y z = trans_le (cmp x y) (cmp y z) (cmp x z) (o.chain x y z)

  member :
      (x y m r : A) (ys : List A)
      → (m ≡ x) ⊎ (m ≡ y)
      → (r ≡ m) ⊎ In r ys
      → (r ≡ x) ⊎ ((r ≡ y) ⊎ In r ys)
  member x y m r ys (inl e) (inl f) = inl (f ∙ e)
  member x y m r ys (inr e) (inl f) = inr (inl (f ∙ e))
  member x y m r ys h (inr i) = inr (inr i)

  min_from-IsNearest : (x : A) (ys : List A) → IsNearest cmp (some (min_from cmp x ys)) (x ∷ ys)
  min_from-IsNearest x [] = (inl refl, (self_le (cmp x x) (o.flip x x), tt))
  min_from-IsNearest x (y ∷ ys) =
      let mid = first_of cmp x y in
      let last = min_from cmp mid ys in
      let first = first_of-IsFirst x y in
      let rest = min_from-IsNearest mid ys in
      (
        member x y mid last ys (first.0) (rest.0),
        (
          le_trans last mid x (rest.1.0) (first.1),
          (le_trans last mid y (rest.1.0) (first.2), rest.1.1),
        ),
      )

  pub min_by-IsNearest : (xs : List A) → IsNearest cmp (min_by cmp xs) xs
  min_by-IsNearest [] = refl
  min_by-IsNearest (x ∷ xs) = min_from-IsNearest x xs

module _ {W : Type 0} ⦃d : F64 W⦄ ⦃m : F64Math W⦄ (laws : IsIeeeMath W)
    (total : IsOrder d.total_cmp) where
  pub point_cmp-IsOrder : IsOrder (λ (a b : PointHit W). point_cmp a b)
  point_cmp-IsOrder = record {
    flip = λ a b.
        then_with-swap _ _ _ _ (total.flip a.distance b.distance)
          (compare-IsOrder.flip a.point_index b.point_index);
    chain = λ a b c.
        then_with-Chain _ _ _ _ _ _ (total.chain a.distance b.distance c.distance)
          (compare-IsOrder.chain a.point_index b.point_index c.point_index);
  }

  -- For an ordered series, finite input and a radius that is not negative, with scales that succeed,
  -- the hit test does not panic: of the points of the viewport's closed x range that lie within the
  -- radius it returns one that no other is nearer than, the one with the lowest index where the
  -- distances tie, and it returns none exactly when there is no such point.
  pub hit_test_point-IsNearest :
      (series : Series W) (viewport : Viewport W) (canvas : CanvasSize W) (cursor : ScreenPoint W)
      (radius : W) (s : LinearScale W × LinearScale W)
      → IsRange viewport.x
      → IsOrdered series.points
      → scales viewport canvas ≡ ok s
      → d.is_finite cursor.x ≡ true
      → d.is_finite cursor.y ≡ true
      → d.is_finite radius ≡ true
      → d.flt radius d.zero_f64 ≡ false
      → let candidates =
          filter
            (λ hit. fle hit.distance radius)
            (point_hits s cursor
              (first_at viewport.x series.points)
              (filter (is_inside viewport.x) series.points)) in
        (hit : Option (PointHit W)) × (hit_test_point series viewport canvas cursor radius
          ≡ some (ok hit))
        × IsNearest point_cmp hit candidates
  unfolding hit_test_point
  hit_test_point-IsNearest series viewport canvas cursor radius s hr ho hs fx fy fr nonneg =
      let candidates =
        filter (λ hit. fle hit.distance radius)
          (point_hits s cursor (first_at viewport.x series.points)
            (filter (is_inside viewport.x) series.points)) in
      (
        min_by point_cmp candidates,
        rw (fx, fy, fr, nonneg, hs, range_points-filter laws viewport.x series.points hr ho) refl,
        min_by-IsNearest point_cmp point_cmp-IsOrder candidates,
      )
