-- ===== src/Sample/Order.antt =====
-- `total_cmp` on the whole numbers is an order, NaN last.
use pulseon.Base.{none, some, IsOrder, swap, Chain, cmp_ℤ-IsOrder, ◌≡◌, refl, gt_Chain, Chain-lt}
use pulseon.Sample.Whole.{Whole, whole_cmp}

flip : (a b : Whole) → whole_cmp b a ≡ swap (whole_cmp a b)
flip none none = refl
flip none (some b) = refl
flip (some a) none = refl
flip (some a) (some b) = cmp_ℤ-IsOrder.flip a b

chain : (a b c : Whole) → Chain (whole_cmp a b) (whole_cmp b c) (whole_cmp a c)
chain none none none = refl
chain none none (some c) = refl
chain none (some b) none = tt
chain none (some b) (some c) = gt_Chain (whole_cmp (some b) (some c))
chain (some a) none none = refl
chain (some a) none (some c) = tt
chain (some a) (some b) none = Chain-lt (whole_cmp (some a) (some b))
chain (some a) (some b) (some c) = cmp_ℤ-IsOrder.chain a b c

pub whole_cmp-IsOrder : IsOrder whole_cmp
whole_cmp-IsOrder = record { flip = flip; chain = chain }
