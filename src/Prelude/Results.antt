-- ===== src/Prelude/Results.antt =====
-- A value, or the Python exception that is raised in its place.
use Prim.Native.String.{String}
use native.Mathlib.Omega.{arith}
use mathlib.Core.Path.{◌≡◌, refl}
use mathlib.Core.Bool.{Bool, true, false}

pub data Exc : Type 0 where
  value_error runtime_error policy_error claim_scope_error ledger_error : String → Exc
  type_error key_error attribute_error overflow_error integrity_error assertion_error : Exc

pub data Result {κ} (V : Type κ) : Type κ where
  raise : Exc → Result V
  ok : V → Result V

-- if bad: raise e
abbrev pub refuse : Bool → Exc → Result (Unit {0})
refuse false e = ok tt
refuse true e = raise e

pub refuse-eq-ok : (b : Bool) (e : Exc) {u : Unit {0}} → refuse b e ≡ ok u → b ≡ false
refuse-eq-ok false e h = refl
refuse-eq-ok true e h = absurd (ground arith)

-- The rest of a function body after a call.
infixl 5 ◌>>=◌
abbrev pub ◌>>=◌ {κ μ} : {V : Type κ} {W : Type μ} → Result V → (V → Result W) → Result W
raise e >>= rest = raise e
ok v >>= rest = rest v

-- A call that returned passed its value on.
pub >>=-eq-ok {κ μ} :
    {V : Type κ} {W : Type μ} (call : Result V) (rest : V → Result W) {w : W}
    → (call >>= rest) ≡ ok w
    → (v : V) × (call ≡ ok v) × (rest v ≡ ok w)
>>=-eq-ok (raise e) rest h = cc
>>=-eq-ok (ok v) rest h = (v, refl, h)

-- The same after a check, whose value is of no use.
infixl 5 ◌>>◌
abbrev pub ◌>>◌ {μ} : {W : Type μ} → Result (Unit {0}) → Result W → Result W
check >> rest = check >>= λ _. rest

-- A body that returned passed its first check.
pub passed {μ} :
    {W : Type μ} (b : Bool) (e : Exc) (rest : Result W) {w : W}
    → (refuse b e >> rest) ≡ ok w
    → (b ≡ false) × (rest ≡ ok w)
passed false e rest h = (refl, h)
passed true e rest h = cc

pub ok-eq-ok {κ} : {V : Type κ} {v w : V} → ok v ≡ ok w → v ≡ w
ok-eq-ok h = ground arith
