-- ===== src/Set/March.antt =====
-- The marches through two sorted views: where a hash value can be when they stand at two elements.
use hatrack.Prelude.{◌≡◌, arith, true, false, not, ◌==◌, List, ◌∷◌}
use hatrack.Common.{Hash, hash_gt}
use hatrack.Common.Compare.{hash_gt_total, hash_gt_asym, hash_gt_irrefl, hash_gt_trans}
use hatrack.Set.{SetView, has}
use hatrack.Set.Order.{Ascends, Above-has, Above-has_self}

-- A march over two ascending views stands at the heads `x` and `y`. Where a hash value `g` can be:
-- below a head it is in neither the head nor its tail.
pub record Heads (g : Hash) (x : SetView) (xs : List SetView) (y : SetView) (ys : List SetView)
    : Type 0 where
  pub in_xs : has g xs ≡ true → hash_gt g x.hv ≡ true
  pub in_ys : has g ys ≡ true → hash_gt g y.hv ≡ true
  pub x_self : has x.hv xs ≡ false
  pub y_self : has y.hv ys ≡ false
  pub x_only : hash_gt g x.hv ≡ true → x.hv == g ≡ false
  pub y_only : hash_gt g y.hv ≡ true → y.hv == g ≡ false
  pub up_x : hash_gt g x.hv ≡ true → hash_gt x.hv y.hv ≡ true → hash_gt g y.hv ≡ true
  pub up_y : hash_gt g y.hv ≡ true → hash_gt y.hv x.hv ≡ true → hash_gt g x.hv ≡ true
  pub x_not : hash_gt g x.hv ≡ true → hash_gt x.hv g ≡ false
  pub y_not : hash_gt g y.hv ≡ true → hash_gt y.hv g ≡ false
  pub total : x.hv == y.hv ≡ false → hash_gt x.hv y.hv ≡ not (hash_gt y.hv x.hv)

pub heads :
    (g : Hash) (x : SetView) (xs : List SetView) (y : SetView) (ys : List SetView)
    → Ascends (x ∷ xs)
    → Ascends (y ∷ ys)
    → Heads g x xs y ys
heads g x xs y ys a b = record {
  in_xs = Above-has x.hv g xs a.0;
  in_ys = Above-has y.hv g ys b.0;
  x_self = Above-has_self x.hv xs a.0;
  y_self = Above-has_self y.hv ys b.0;
  x_only = λ h. ground (arith, hash_gt_irrefl g);
  y_only = λ h. ground (arith, hash_gt_irrefl g);
  up_x = hash_gt_trans g x.hv y.hv;
  up_y = hash_gt_trans g y.hv x.hv;
  x_not = hash_gt_asym g x.hv;
  y_not = hash_gt_asym g y.hv;
  total = hash_gt_total x.hv y.hv a.1 b.1;
}
