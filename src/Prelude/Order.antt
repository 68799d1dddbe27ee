-- ===== src/Prelude/Order.antt =====
-- The order of Python's `float`, with the infinities and NaN.
use qdev_runner_control_plan.Prelude.Reals.{
  Real, finite, infinity, neg_infinity, nan, leb_real, ltb_real,
}
use mathlib.Core.Path.{◌≡◌, refl}
use mathlib.Core.Bool.{true}
use native.Mathlib.Omega.{arith}

pub leb_real_trans :
    (a b c : Real) → leb_real a b ≡ true → leb_real b c ≡ true → leb_real a c ≡ true
leb_real_trans nan b c h k = cc
leb_real_trans neg_infinity nan c h k = cc
leb_real_trans neg_infinity neg_infinity nan h k = cc
leb_real_trans neg_infinity neg_infinity neg_infinity h k = refl
leb_real_trans neg_infinity neg_infinity infinity h k = refl
leb_real_trans neg_infinity neg_infinity (finite z) h k = refl
leb_real_trans neg_infinity infinity nan h k = cc
leb_real_trans neg_infinity infinity neg_infinity h k = cc
leb_real_trans neg_infinity infinity infinity h k = refl
leb_real_trans neg_infinity infinity (finite z) h k = cc
leb_real_trans neg_infinity (finite y) nan h k = cc
leb_real_trans neg_infinity (finite y) neg_infinity h k = cc
leb_real_trans neg_infinity (finite y) infinity h k = refl
leb_real_trans neg_infinity (finite y) (finite z) h k = refl
leb_real_trans infinity nan c h k = cc
leb_real_trans infinity neg_infinity c h k = cc
leb_real_trans infinity infinity nan h k = cc
leb_real_trans infinity infinity neg_infinity h k = cc
leb_real_trans infinity infinity infinity h k = refl
leb_real_trans infinity infinity (finite z) h k = cc
leb_real_trans infinity (finite y) c h k = cc
leb_real_trans (finite x) nan c h k = cc
leb_real_trans (finite x) neg_infinity c h k = cc
leb_real_trans (finite x) infinity nan h k = cc
leb_real_trans (finite x) infinity neg_infinity h k = cc
leb_real_trans (finite x) infinity infinity h k = refl
leb_real_trans (finite x) infinity (finite z) h k = cc
leb_real_trans (finite x) (finite y) nan h k = cc
leb_real_trans (finite x) (finite y) neg_infinity h k = cc
leb_real_trans (finite x) (finite y) infinity h k = refl
leb_real_trans (finite x) (finite y) (finite z) h k = ground arith

pub leb-ltb_real_trans :
    (a b c : Real) → leb_real a b ≡ true → ltb_real b c ≡ true → ltb_real a c ≡ true
leb-ltb_real_trans nan b c h k = cc
leb-ltb_real_trans neg_infinity nan c h k = cc
leb-ltb_real_trans neg_infinity neg_infinity nan h k = cc
leb-ltb_real_trans neg_infinity neg_infinity neg_infinity h k = cc
leb-ltb_real_trans neg_infinity neg_infinity infinity h k = refl
leb-ltb_real_trans neg_infinity neg_infinity (finite z) h k = refl
leb-ltb_real_trans neg_infinity infinity nan h k = cc
leb-ltb_real_trans neg_infinity infinity neg_infinity h k = cc
leb-ltb_real_trans neg_infinity infinity infinity h k = cc
leb-ltb_real_trans neg_infinity infinity (finite z) h k = cc
leb-ltb_real_trans neg_infinity (finite y) nan h k = cc
leb-ltb_real_trans neg_infinity (finite y) neg_infinity h k = cc
leb-ltb_real_trans neg_infinity (finite y) infinity h k = refl
leb-ltb_real_trans neg_infinity (finite y) (finite z) h k = refl
leb-ltb_real_trans infinity nan c h k = cc
leb-ltb_real_trans infinity neg_infinity c h k = cc
leb-ltb_real_trans infinity infinity nan h k = cc
leb-ltb_real_trans infinity infinity neg_infinity h k = cc
leb-ltb_real_trans infinity infinity infinity h k = cc
leb-ltb_real_trans infinity infinity (finite z) h k = cc
leb-ltb_real_trans infinity (finite y) c h k = cc
leb-ltb_real_trans (finite x) nan c h k = cc
leb-ltb_real_trans (finite x) neg_infinity c h k = cc
leb-ltb_real_trans (finite x) infinity nan h k = cc
leb-ltb_real_trans (finite x) infinity neg_infinity h k = cc
leb-ltb_real_trans (finite x) infinity infinity h k = cc
leb-ltb_real_trans (finite x) infinity (finite z) h k = cc
leb-ltb_real_trans (finite x) (finite y) nan h k = cc
leb-ltb_real_trans (finite x) (finite y) neg_infinity h k = cc
leb-ltb_real_trans (finite x) (finite y) infinity h k = refl
leb-ltb_real_trans (finite x) (finite y) (finite z) h k = ground arith
