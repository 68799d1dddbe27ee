-- ===== src/Prelude/Lists.antt =====
-- Lists under Boolean tests: what the program writes as comprehensions, `any`, `next` and `set`.
use qdev_runner_control_plan.Prelude.Tests.{Eq, ◌==◌, if◌then◌else◌, Bool-cases}
use Prim.Native.Nat.{ℕ, suc}
use mathlib.Core.Path.{◌≡◌, refl, sym, subst}
use mathlib.Core.Logic.{◌⊎◌, inl, inr}
use mathlib.Core.Bool.{Bool, true, false, ◌&&◌, ◌||◌}
use mathlib.Core.Option.{Option, none, some}
use mathlib.Core.List.{List, [], ◌∷◌, ◌++◌}
use native.Mathlib.Omega.{arith}

module _ {ℓ} {A : Type ℓ} where
  abbrev pub length : List A → ℕ
  length [] = 0
  length (x ∷ xs) = suc (length xs)

  -- [x for x in xs if p(x)]
  unfoldable pub select : (A → Bool) → List A → List A
  select p [] = []
  select p (x ∷ xs) = let rest = select p xs in if p x then x ∷ rest else rest

  -- any(p(x) for x in xs)
  unfoldable pub any : (A → Bool) → List A → Bool
  any p [] = false
  any p (x ∷ xs) = p x || any p xs

  -- all(p(x) for x in xs)
  unfoldable pub all : (A → Bool) → List A → Bool
  all p [] = true
  all p (x ∷ xs) = p x && all p xs

  -- next((x for x in xs if p(x)), None)
  unfoldable pub find : (A → Bool) → List A → Option A
  find p [] = none
  find p (x ∷ xs) = let rest = find p xs in if p x then some x else rest

  -- The number of elements that meet a test.
  unfoldable pub count : (A → Bool) → List A → ℕ
  count p [] = 0
  count p (x ∷ xs) = let rest = count p xs in if p x then suc rest else rest

-- Python's `in`, and the tests on sets, over lists.
module _ {ℓ} {A : Type ℓ} ⦃e : Eq A⦄ where
  -- a in xs
  unfoldable pub member : A → List A → Bool
  unfolding any
  member a xs = any (λ x. x == a) xs

  -- set(xs) <= set(ys)
  unfoldable pub subset : List A → List A → Bool
  unfolding all member
  subset xs ys = all (λ x. member x ys) xs

-- d.get(key), for a dictionary of the configuration.
unfoldable pub lookup {ℓ κ} : {K : Type ℓ} {V : Type κ} ⦃e : Eq K⦄ → K → List (K × V) → Option V
lookup k [] = none
lookup k ((j, v) ∷ d) = if j == k then some v else lookup k d

-- Membership as a family to be matched.
pub data In {ℓ} {A : Type ℓ} (a : A) : List A → Type ℓ where
  here : {x : A} {xs : List A} → a ≡ x → In a (x ∷ xs)
  there : {x : A} {xs : List A} → In a xs → In a (x ∷ xs)

-- A property of every element, by recursion.
abbrev pub All {ℓ κ} : {A : Type ℓ} → (A → Type κ) → List A → Type κ
All P [] = Unit
All P (x ∷ xs) = P x × All P xs

pub All-In {ℓ κ} : {A : Type ℓ} (P : A → Type κ) {a : A} {xs : List A} → All P xs → In a xs → P a
All-In P h (here e) = subst P (sym e) h.0
All-In P h (there m) = All-In P h.1 m

pub All-map {ℓ κ μ} :
    {A : Type ℓ} {P : A → Type κ} {Q : A → Type μ} (f : (a : A) → P a → Q a) (xs : List A)
    → All P xs
    → All Q xs
All-map f [] h = tt
All-map f (x ∷ xs) h = (f x h.0, All-map f xs h.1)

module _ {ℓ} {A : Type ℓ} where
  pub find-eq-some :
      (p : A → Bool) (xs : List A) {a : A} → find p xs ≡ some a → In a xs × (p a ≡ true)
  unfolding find
  find-eq-some p [] h = cc
  find-eq-some p (x ∷ xs) h = elim (Bool-cases (p x)) [
    | inl t ↦ let e : x ≡ _ = ground arith in (here (sym e), rw (← e) t)
    | inr f ↦ let (m, t) = find-eq-some p xs (ground arith) in (there m, t)
  ]

  pub find-eq-none : (p : A → Bool) (xs : List A) → find p xs ≡ none → All (λ x. p x ≡ false) xs
  unfolding find
  find-eq-none p [] h = tt
  find-eq-none p (x ∷ xs) h = (ground arith, find-eq-none p xs (ground arith))

  pub any-eq-true :
      (p : A → Bool) (xs : List A) → any p xs ≡ true → (a : A) × In a xs × (p a ≡ true)
  unfolding any
  any-eq-true p [] h = cc
  any-eq-true p (x ∷ xs) h = elim (Bool-cases (p x)) [
    | inl t ↦ (x, here refl, t)
    | inr f ↦ let (a, m, t) = any-eq-true p xs (ground arith) in (a, there m, t)
  ]

  pub any-In : (p : A → Bool) {a : A} {xs : List A} → In a xs → p a ≡ true → any p xs ≡ true
  unfolding any
  any-In p (here e) h = rw (← e, h)
  any-In p (there {x} m) h = ground (arith, any-In p m h)

  pub any-eq-false : (p : A → Bool) (xs : List A) → any p xs ≡ false → All (λ x. p x ≡ false) xs
  unfolding any
  any-eq-false p [] h = tt
  any-eq-false p (x ∷ xs) h = (ground arith, any-eq-false p xs (ground arith))

  pub all-eq-true : (p : A → Bool) (xs : List A) → all p xs ≡ true → All (λ x. p x ≡ true) xs
  unfolding all
  all-eq-true p [] h = tt
  all-eq-true p (x ∷ xs) h = (ground arith, all-eq-true p xs (ground arith))

  pub In-select : (p : A → Bool) {a : A} {xs : List A} → In a xs → p a ≡ true → In a (select p xs)
  unfolding select
  In-select p (here {x} e) h = rw (← e, h) (here refl)
  In-select p (there {x} m) h = elim (Bool-cases (p x)) [
    | inl t ↦ rw t (there (In-select p m h))
    | inr f ↦ rw f (In-select p m h)
  ]

  select-In_cons :
      (p : A → Bool) (x : A) (xs : List A) {a : A}
      → In a (if p x then x ∷ select p xs else select p xs)
      → ((a ≡ x) × (p x ≡ true)) ⊎ In a (select p xs)
  select-In_cons p x xs m = elim (Bool-cases (p x)) [
    | inl t ↦ head_or_tail t (rw t at m)
    | inr f ↦ inr (rw f at m)
  ]
    where
      head_or_tail :
          {b : A}
          → p x ≡ true
          → In b (x ∷ select p xs)
          → ((b ≡ x) × (p x ≡ true)) ⊎ In b (select p xs)
      head_or_tail t (here e) = inl (e, t)
      head_or_tail t (there m') = inr m'

  pub select-In : (p : A → Bool) (xs : List A) {a : A} → In a (select p xs) → In a xs × (p a ≡ true)
  unfolding select
  select-In p [] m = elim m [ ]
  select-In p (x ∷ xs) m = elim (select-In_cons p x xs m) [
    | inl (e, t) ↦ (here e, rw e t)
    | inr m' ↦ let (n, t) = select-In p xs m' in (there n, t)
  ]

  pub select-++ : (p : A → Bool) (xs ys : List A) → select p (xs ++ ys) ≡ select p xs ++ select p ys
  unfolding select
  select-++ p [] ys = refl
  select-++ p (x ∷ xs) ys = elim (Bool-cases (p x)) [
    | inl t ↦ rw (t, select-++ p xs ys) refl
    | inr f ↦ rw (f, select-++ p xs ys) refl
  ]

  -- Some element is found if one meets the test.
  pub find-In :
      (p : A → Bool) {a : A} (xs : List A)
      → In a xs
      → p a ≡ true
      → (first : A) × (find p xs ≡ some first)
  unfolding find
  find-In p [] m h = elim m [ ]
  find-In p (x ∷ xs) (here e) h = (x, rw (← e, h) refl)
  find-In p (x ∷ xs) (there m) h = elim (Bool-cases (p x)) [
    | inl t ↦ (x, rw t refl)
    | inr f ↦ let (first, e) = find-In p xs m h in (first, rw f e)
  ]

  pub find-++-none :
      (p : A → Bool) (xs ys : List A) → find p xs ≡ none → find p (xs ++ ys) ≡ find p ys
  unfolding find
  find-++-none p [] ys h = refl
  find-++-none p (x ∷ xs) ys h = elim (Bool-cases (p x)) [
    | inl t ↦ absurd (let k = rw t at h in cc)
    | inr f ↦ rw f (find-++-none p xs ys (rw f at h))
  ]

  pub find-++-some :
      (p : A → Bool) (xs ys : List A) {a : A} → find p xs ≡ some a → find p (xs ++ ys) ≡ some a
  unfolding find
  find-++-some p [] ys h = cc
  find-++-some p (x ∷ xs) ys h = elim (Bool-cases (p x)) [
    | inl t ↦ rw t (rw t at h)
    | inr f ↦ rw f (find-++-some p xs ys (rw f at h))
  ]
