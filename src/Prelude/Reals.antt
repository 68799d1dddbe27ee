-- ===== src/Prelude/Reals.antt =====
-- Python's `float` where the program compares amounts: a number, an infinity or NaN. A finite
-- value is counted in parts of 1/25600, which hold a hundredth of a GiB (256 parts, to which the
-- measurements are rounded) and a MiB (25 parts of a GiB) exactly; rounding is not modelled.
use qdev_runner_control_plan.Prelude.Int.{ℤ, pos, ◌+ℤ◌, scale, leb_ℤ, ltb_ℤ}
use qdev_runner_control_plan.Prelude.Tests.{if◌then◌else◌, ltb}
use Prim.Native.Nat.{ℕ}
use mathlib.Core.Bool.{Bool, true, false}

pub data Real : Type 0 where
  finite : ℤ → Real
  infinity neg_infinity nan : Real

abbrev pub parts : ℕ
parts = 25600

-- float(n)
abbrev pub of_int : ℤ → Real
of_int z = finite (scale parts z)

-- n / 1024, for a number of MiB
abbrev pub of_mib : ℤ → Real
of_mib z = finite (scale 25 z)

abbrev pub zero_real : Real
zero_real = finite (pos 0)

-- math.isfinite(x)
abbrev pub is_finite : Real → Bool
is_finite (finite z) = true
is_finite _ = false

-- a <= b: an order with NaN is false.
abbrev pub leb_real : Real → Real → Bool
leb_real nan b = false
leb_real neg_infinity nan = false
leb_real neg_infinity b = true
leb_real infinity infinity = true
leb_real infinity b = false
leb_real (finite a) (finite b) = leb_ℤ a b
leb_real (finite a) infinity = true
leb_real (finite a) b = false

-- a < b
abbrev pub ltb_real : Real → Real → Bool
ltb_real nan b = false
ltb_real neg_infinity nan = false
ltb_real neg_infinity neg_infinity = false
ltb_real neg_infinity b = true
ltb_real infinity b = false
ltb_real (finite a) (finite b) = ltb_ℤ a b
ltb_real (finite a) infinity = true
ltb_real (finite a) b = false

-- a + b
abbrev pub add_real : Real → Real → Real
add_real nan b = nan
add_real a nan = nan
add_real infinity neg_infinity = nan
add_real infinity b = infinity
add_real neg_infinity infinity = nan
add_real neg_infinity b = neg_infinity
add_real (finite a) (finite b) = finite (a +ℤ b)
add_real (finite a) infinity = infinity
add_real (finite a) neg_infinity = neg_infinity

-- n * x, for a natural number
abbrev pub times_real : ℕ → Real → Real
times_real n (finite z) = finite (scale n z)
times_real n nan = nan
times_real n infinity = if ltb 0 n then infinity else nan
times_real n neg_infinity = if ltb 0 n then neg_infinity else nan
