-- ===== src/Base/Sort.antt =====
-- Three-way comparisons, `Ordering::then_with`, and the stable sort of `slice::sort_by`.
use Prim.Native.Nat.{ℕ, compare, Ordering}
use mathlib.Core.Path.{◌≡◌, refl, sym, subst}
use mathlib.Core.Logic.{◌≢◌, ◌⊎◌, inl, inr}
use mathlib.Core.Bool.{Bool}
use mathlib.Core.List.{List, [], ◌∷◌, Perm}
use mathlib.Core.List.Perm
use native.Mathlib.Omega.{arith}
use pulseon.Base.Lists.{All, In, All-map_pred, count}
use pulseon.Base.Int.{cmp_ℤ}
use pulseon.Base.Bytes.{Text, text_cmp}

abbrev pub then_with : Ordering → Ordering → Ordering
then_with Ordering.eq b = b
then_with Ordering.lt b = Ordering.lt
then_with Ordering.gt b = Ordering.gt

abbrev pub swap : Ordering → Ordering
swap Ordering.lt = Ordering.gt
swap Ordering.eq = Ordering.eq
swap Ordering.gt = Ordering.lt

-- What the comparisons of x with y and of y with z say of x with z.
abbrev pub Chain : Ordering → Ordering → Ordering → Type 0
Chain Ordering.eq b c = c ≡ b
Chain Ordering.lt Ordering.gt c = Unit
Chain Ordering.lt b c = c ≡ Ordering.lt
Chain Ordering.gt Ordering.lt c = Unit
Chain Ordering.gt b c = c ≡ Ordering.gt

pub lt_Chain : (b : Ordering) → Chain Ordering.lt b Ordering.lt
lt_Chain Ordering.lt = refl
lt_Chain Ordering.eq = refl
lt_Chain Ordering.gt = tt

pub gt_Chain : (b : Ordering) → Chain Ordering.gt b Ordering.gt
gt_Chain Ordering.lt = tt
gt_Chain Ordering.eq = refl
gt_Chain Ordering.gt = refl

pub Chain-gt : (a : Ordering) → Chain a Ordering.gt Ordering.gt
Chain-gt Ordering.lt = tt
Chain-gt Ordering.eq = refl
Chain-gt Ordering.gt = refl

pub Chain-lt : (a : Ordering) → Chain a Ordering.lt Ordering.lt
Chain-lt Ordering.lt = refl
Chain-lt Ordering.eq = refl
Chain-lt Ordering.gt = tt

pub then_with-Chain :
    (a b c a' b' c' : Ordering)
    → Chain a b c
    → Chain a' b' c'
    → Chain (then_with a a') (then_with b b') (then_with c c')
then_with-Chain Ordering.eq Ordering.eq c a' b' c' h k = rw h k
then_with-Chain Ordering.eq Ordering.lt c a' b' c' h k = rw h (Chain-lt a')
then_with-Chain Ordering.eq Ordering.gt c a' b' c' h k = rw h (Chain-gt a')
then_with-Chain Ordering.lt Ordering.eq c a' b' c' h k = rw h (lt_Chain b')
then_with-Chain Ordering.lt Ordering.lt c a' b' c' h k = rw h refl
then_with-Chain Ordering.lt Ordering.gt c a' b' c' h k = tt
then_with-Chain Ordering.gt Ordering.eq c a' b' c' h k = rw h (gt_Chain b')
then_with-Chain Ordering.gt Ordering.gt c a' b' c' h k = rw h refl
then_with-Chain Ordering.gt Ordering.lt c a' b' c' h k = tt

pub then_with-swap :
    (a b a' b' : Ordering) → a' ≡ swap a → b' ≡ swap b → then_with a' b' ≡ swap (then_with a b)
then_with-swap a b a' b' h k = ground arith

pub record IsOrder {ℓ} {A : Type ℓ} (cmp : A → A → Ordering) : Type ℓ where
  pub flip : (x y : A) → cmp y x ≡ swap (cmp x y)
  pub chain : (x y z : A) → Chain (cmp x y) (cmp y z) (cmp x z)

pub compare-IsOrder : IsOrder compare
compare-IsOrder = record { flip = λ x y. ground arith; chain = λ x y z. ground arith }

pub cmp_ℤ-IsOrder : IsOrder cmp_ℤ
cmp_ℤ-IsOrder = record { flip = λ x y. ground arith; chain = λ x y z. ground arith }

text_cmp-flip : (s t : Text) → text_cmp t s ≡ swap (text_cmp s t)
unfolding text_cmp
text_cmp-flip [] [] = refl
text_cmp-flip [] (b ∷ t) = refl
text_cmp-flip (a ∷ s) [] = refl
text_cmp-flip (a ∷ s) (b ∷ t) = ground (arith, text_cmp-flip s t)

-- The head decides, and then the rest.
text_cmp-cons :
    (a b : ℕ) (s t : Text) → text_cmp (a ∷ s) (b ∷ t) ≡ then_with (compare a b) (text_cmp s t)
unfolding text_cmp
text_cmp-cons a b s t = ground arith

text_cmp-Chain : (s t u : Text) → Chain (text_cmp s t) (text_cmp t u) (text_cmp s u)
unfolding text_cmp
text_cmp-Chain [] [] [] = refl
text_cmp-Chain [] [] (c ∷ u) = refl
text_cmp-Chain [] (b ∷ t) [] = tt
text_cmp-Chain [] (b ∷ t) (c ∷ u) = ground arith
text_cmp-Chain (a ∷ s) [] [] = refl
text_cmp-Chain (a ∷ s) [] (c ∷ u) = tt
text_cmp-Chain (a ∷ s) (b ∷ t) [] = ground arith
text_cmp-Chain (a ∷ s) (b ∷ t) (c ∷ u) =
    rw (text_cmp-cons a b s t, text_cmp-cons b c t u, text_cmp-cons a c s u)
      (then_with-Chain _ _ _ _ _ _ (compare-IsOrder.chain a b c) (text_cmp-Chain s t u))

pub text_cmp-IsOrder : IsOrder text_cmp
text_cmp-IsOrder = record { flip = text_cmp-flip; chain = text_cmp-Chain }

module _ {ℓ} {A : Type ℓ} (cmp : A → A → Ordering) where
  -- `x` came before the members of the list, so it stays before its equals.
  unfoldable pub insert_sorted : A → List A → List A
  insert_sorted x [] = x ∷ []
  insert_sorted x (y ∷ ys) = elim (cmp x y) [
    | Ordering.gt ↦ y ∷ insert_sorted x ys
    | _ ↦ x ∷ y ∷ ys
  ]

  unfoldable pub sort_by : List A → List A
  unfolding insert_sorted
  sort_by [] = []
  sort_by (x ∷ xs) = insert_sorted x (sort_by xs)

  -- No member comes after one that it should precede.
  abbrev pub IsSortedBy : List A → Type ℓ
  IsSortedBy [] = Unit
  IsSortedBy (x ∷ xs) = All (λ y. cmp x y ≢ Ordering.gt) xs × IsSortedBy xs

  insert_sorted-perm : (x : A) (xs : List A) → Perm (insert_sorted x xs) (x ∷ xs)
  unfolding insert_sorted
  insert_sorted-perm x [] = Perm.refl (x ∷ [])
  insert_sorted-perm x (y ∷ ys) =
      elim (cmp x y)
        as (λ o.
          Perm (elim o [ Ordering.gt ↦ y ∷ insert_sorted x ys | _ ↦ x ∷ y ∷ ys ]) (x ∷ y ∷ ys)) [
            | Ordering.gt ↦ Perm.trans (Perm.cons y (insert_sorted-perm x ys)) (Perm.swap x y ys)
            | _ ↦ Perm.refl (x ∷ y ∷ ys)
          ]

  pub sort_by-perm : (xs : List A) → Perm (sort_by xs) xs
  unfolding sort_by
  sort_by-perm [] = Perm.refl []
  sort_by-perm (x ∷ xs) =
      Perm.trans (insert_sorted-perm x (sort_by xs)) (Perm.cons x (sort_by-perm xs))

  count-insert_sorted :
      (p : A → Bool) (x : A) (xs : List A) → count p (insert_sorted x xs) ≡ count p (x ∷ xs)
  unfolding insert_sorted
  count-insert_sorted p x [] = refl
  count-insert_sorted p x (y ∷ ys) = ground (arith, count-insert_sorted p x ys)

  -- Sorting keeps how many members pass a test.
  pub count-sort_by : (p : A → Bool) (xs : List A) → count p (sort_by xs) ≡ count p xs
  unfolding sort_by
  count-sort_by p [] = refl
  count-sort_by p (x ∷ xs) =
      ground (arith, count-insert_sorted p x (sort_by xs), count-sort_by p xs)

module _ {ℓ} {A : Type ℓ} (cmp : A → A → Ordering) (o : IsOrder cmp) where
  le-Chain : (a b c : Ordering) → Chain a b c → a ≢ Ordering.gt → b ≢ Ordering.gt → c ≢ Ordering.gt
  le-Chain a b c h p q = ground arith

  All-insert_sorted {κ} :
      (P : A → Type κ) (x : A) (xs : List A) → P x → All P xs → All P (insert_sorted cmp x xs)
  unfolding insert_sorted
  All-insert_sorted P x [] h hs = (h, tt)
  All-insert_sorted P x (y ∷ ys) h hs =
      elim (cmp x y)
        as (λ o. All P (elim o [ Ordering.gt ↦ y ∷ insert_sorted cmp x ys | _ ↦ x ∷ y ∷ ys ])) [
          | Ordering.gt ↦ (hs.0, All-insert_sorted P x ys h hs.1)
          | _ ↦ (h, hs)
        ]

  below-All :
      (x y : A) (ys : List A)
      → cmp x y ≢ Ordering.gt
      → All (λ z. cmp y z ≢ Ordering.gt) ys
      → All (λ z. cmp x z ≢ Ordering.gt) ys
  below-All x y ys h =
      All-map_pred (λ z. cmp y z ≢ Ordering.gt) (λ z. cmp x z ≢ Ordering.gt) ys
        (λ z k. le-Chain (cmp x y) (cmp y z) (cmp x z) (o.chain x y z) h k)

  Ordering-cases : (a : Ordering) → (a ≡ Ordering.gt) ⊎ (a ≢ Ordering.gt)
  Ordering-cases Ordering.gt = inl refl
  Ordering-cases Ordering.lt = inr (λ e. cc)
  Ordering-cases Ordering.eq = inr (λ e. cc)

  insert_after :
      (x y : A) (ys : List A)
      → cmp x y ≡ Ordering.gt
      → insert_sorted cmp x (y ∷ ys) ≡ y ∷ insert_sorted cmp x ys
  unfolding insert_sorted
  insert_after x y ys h = ground arith

  insert_before :
      (x y : A) (ys : List A) → cmp x y ≢ Ordering.gt → insert_sorted cmp x (y ∷ ys) ≡ x ∷ y ∷ ys
  unfolding insert_sorted
  insert_before x y ys h = ground arith

  insert_sorted-IsSortedBy :
      (x : A) (xs : List A) → IsSortedBy cmp xs → IsSortedBy cmp (insert_sorted cmp x xs)
  insert_sorted-IsSortedBy x [] s = unfold insert_sorted in (tt, tt)
  insert_sorted-IsSortedBy x (y ∷ ys) s = elim (Ordering-cases (cmp x y)) [
    | inl after ↦ subst (IsSortedBy cmp) (sym (insert_after x y ys after)) (
      All-insert_sorted (λ z. cmp y z ≢ Ordering.gt) x ys (ground (arith, o.flip x y)) s.0,
      insert_sorted-IsSortedBy x ys s.1,
    )
    | inr before ↦
        subst (IsSortedBy cmp) (sym (insert_before x y ys before))
          ((before, below-All x y ys before s.0), s)
  ]

  pub sort_by-IsSortedBy : (xs : List A) → IsSortedBy cmp (sort_by cmp xs)
  unfolding sort_by
  sort_by-IsSortedBy [] = tt
  sort_by-IsSortedBy (x ∷ xs) = insert_sorted-IsSortedBy x (sort_by cmp xs) (sort_by-IsSortedBy xs)

module _ {ℓ} {A : Type ℓ} (cmp : A → A → Ordering) where
  In-insert_sorted : (a x : A) (xs : List A) → In a (insert_sorted cmp x xs) → In a (x ∷ xs)
  unfolding insert_sorted
  In-insert_sorted a x [] = λ h. h
  In-insert_sorted a x (y ∷ ys) =
      elim (cmp x y)
        as (λ o.
          In a (elim o [ Ordering.gt ↦ y ∷ insert_sorted cmp x ys | _ ↦ x ∷ y ∷ ys ])
          → In a (x ∷ y ∷ ys)) [
            | Ordering.gt ↦ elim [
              | inl e ↦ inr (inl e)
              | inr later ↦ elim (In-insert_sorted a x ys later) [
                | inl e ↦ inl e
                | inr deep ↦ inr (inr deep)
              ]
            ]
            | _ ↦ λ h. h
          ]

  pub In-sort_by : (a : A) (xs : List A) → In a (sort_by cmp xs) → In a xs
  unfolding sort_by
  In-sort_by a [] h = h
  In-sort_by a (x ∷ xs) h = elim (In-insert_sorted a x (sort_by cmp xs) h) [
    | inl e ↦ inl e
    | inr later ↦ inr (In-sort_by a xs later)
  ]

  insert_sorted-All {κ} :
      (P : A → Type κ) (x : A) (xs : List A) → All P (insert_sorted cmp x xs) → P x × All P xs
  unfolding insert_sorted
  insert_sorted-All P x [] = λ h. h
  insert_sorted-All P x (y ∷ ys) =
      elim (cmp x y)
        as (λ o.
          All P (elim o [ Ordering.gt ↦ y ∷ insert_sorted cmp x ys | _ ↦ x ∷ y ∷ ys ])
          → P x × All P (y ∷ ys)) [
            | Ordering.gt ↦ λ h. let (px, rest) = insert_sorted-All P x ys h.1 in (px, (h.0, rest))
            | _ ↦ λ h. h
          ]

  pub sort_by-All {κ} : (P : A → Type κ) (xs : List A) → All P (sort_by cmp xs) → All P xs
  unfolding sort_by
  sort_by-All P [] h = h
  sort_by-All P (x ∷ xs) h =
      let (px, rest) = insert_sorted-All P x (sort_by cmp xs) h in (px, sort_by-All P xs rest)
