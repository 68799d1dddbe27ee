-- ===== src/Sql.antt =====
-- The SQL statements of the source as functions on a table, which is the list of its rows: UPDATE
-- with its row count, and ORDER BY.
use qdev_runner_control_plan.Prelude.{
  ◌≡◌, refl, sym, subst, Bool, true, false, ◌⊎◌, inl, inr, List, [], ◌∷◌, if◌then◌else◌, some, find,
  arith, In, here, there, All, All-map, Bool-cases,
}

module _ {ℓ} {A : Type ℓ} where
  -- UPDATE t SET f WHERE p
  unfoldable pub update : (A → Bool) → (A → A) → List A → List A
  update p f [] = []
  update p f (x ∷ xs) = (if p x then f x else x) ∷ update p f xs

  insert_ordered : (A → A → Bool) → A → List A → List A
  insert_ordered before x [] = x ∷ []
  insert_ordered before x (y ∷ ys) =
      let rest = insert_ordered before x ys in if before x y then x ∷ y ∷ ys else y ∷ rest

  -- ORDER BY
  unfoldable pub order_by : (A → A → Bool) → List A → List A
  unfolding insert_ordered
  order_by before [] = []
  order_by before (x ∷ xs) = insert_ordered before x (order_by before xs)

  -- An updated table holds each row, changed where the condition holds.
  pub In-update :
      (p : A → Bool) (f : A → A) {a : A} (xs : List A)
      → In a xs
      → In (if p a then f a else a) (update p f xs)
  unfolding update
  In-update p f [] m = elim m [ ]
  In-update p f {a} (x ∷ xs) (here e) = here (rw e)
  In-update p f (x ∷ xs) (there m) = there (In-update p f xs m)

  -- Every row of an updated table comes from one row.
  pub update-In :
      (p : A → Bool) (f : A → A) {b : A} (xs : List A)
      → In b (update p f xs)
      → (a : A) × In a xs × (b ≡ (if p a then f a else a))
  unfolding update
  update-In p f [] m = elim m [ ]
  update-In p f (x ∷ xs) (here e) = (x, here refl, e)
  update-In p f (x ∷ xs) (there m) = let (a, n, e) = update-In p f xs m in (a, there n, e)

  -- The rows of two tables, in their order.
  pub data Pairwise {κ} (R : A → A → Type κ) : List A → List A → Type (ℓ ⊔ κ) where
    nil : Pairwise R [] []
    cons : {x y : A} {xs ys : List A} → R x y → Pairwise R xs ys → Pairwise R (x ∷ xs) (y ∷ ys)

  -- The rows before and after an UPDATE.
  pub Pairwise-update {κ} :
      {R : A → A → Type κ} (p : A → Bool) (f : A → A)
      → ((a : A) → R a (if p a then f a else a))
      → (xs : List A) → Pairwise R xs (update p f xs)
  unfolding update
  Pairwise-update p f each [] = nil
  Pairwise-update p f each (x ∷ xs) = cons (each x) (Pairwise-update p f each xs)

  -- A property of rows that the change keeps holds of the updated table.
  pub All-update {κ} :
      {P : A → Type κ} (p : A → Bool) (f : A → A)
      → ((a : A) → P a → p a ≡ true → P (f a))
      → (xs : List A) → All P xs
      → All P (update p f xs)
  unfolding update
  All-update p f keep [] h = tt
  All-update p f keep (x ∷ xs) h = elim (Bool-cases (p x)) [
    | inl t ↦ rw t (keep x h.0 t, All-update p f keep xs h.1)
    | inr n ↦ rw n (h.0, All-update p f keep xs h.1)
  ]

  -- The same, where the change is known only for the table's own rows.
  pub All-update_In {κ} :
      {P : A → Type κ} (p : A → Bool) (f : A → A) (xs : List A)
      → ((a : A) → In a xs → P a → p a ≡ true → P (f a))
      → All P xs
      → All P (update p f xs)
  unfolding update
  All-update_In p f [] keep h = tt
  All-update_In p f (x ∷ xs) keep h =
      let rest = All-update_In p f xs (λ a m. keep a (there m)) h.1 in
      elim (Bool-cases (p x)) [
        | inl t ↦ rw t (keep x (here refl) h.0 t, rest)
        | inr n ↦ rw n (h.0, rest)
      ]

  -- An UPDATE of the row that a SELECT reads first.
  pub find-update :
      (p q : A → Bool) (n : A) {x : A} (xs : List A)
      → ((y : A) → q y ≡ true → p y ≡ true)
      → p n ≡ true
      → find p xs ≡ some x
      → q x ≡ true
      → find p (update q (λ _. n) xs) ≡ some n
  unfolding find update
  find-update p q n [] sub hn h hx = cc
  find-update p q n {x} (y ∷ ys) sub hn h hx = elim (Bool-cases (p y)) [
    | inl t ↦
        let same : y ≡ x = ground (arith, t, rw t at h) in
        let hy : q y ≡ true = subst (λ (z : A). q z ≡ true) (sym same) hx in rw (hy, hn) refl
    | inr f ↦
        let hy : q y ≡ false = elim (Bool-cases (q y)) [
          | inl u ↦ absurd (let v = sub y u in cc)
          | inr g ↦ g
        ] in
        rw (hy, f) (find-update p q n ys sub hn (rw f at h) hx)
  ]

  -- An UPDATE of rows that a SELECT does not read.
  pub find-update_other :
      (p q : A → Bool) (n : A) (xs : List A)
      → ((y : A) → q y ≡ true → p y ≡ false)
      → p n ≡ false
      → find p (update q (λ _. n) xs) ≡ find p xs
  unfolding find update
  find-update_other p q n [] sub hn = refl
  find-update_other p q n (y ∷ ys) sub hn = elim (Bool-cases (q y)) [
    | inl t ↦ let hy = sub y t in rw (t, hn, hy) (find-update_other p q n ys sub hn)
    | inr f ↦ rw (f, find-update_other p q n ys sub hn) refl
  ]

  insert_ordered-In :
      (before : A → A → Bool) (x : A) {a : A} (xs : List A)
      → In a (insert_ordered before x xs)
      → (a ≡ x) ⊎ In a xs
  unfolding insert_ordered
  insert_ordered-In before x [] (here e) = inl e
  insert_ordered-In before x [] (there m) = elim m [ ]
  insert_ordered-In before x (y ∷ ys) m = elim (Bool-cases (before x y)) [
    | inl t ↦ first (rw t at m)
    | inr n ↦ later (insert_ordered-In before x ys) (rw n at m)
  ]
    where
      first : {b : A} → In b (x ∷ y ∷ ys) → (b ≡ x) ⊎ In b (y ∷ ys)
      first (here e) = inl e
      first (there m') = inr m'

      later :
          {b : A}
          → (In b (insert_ordered before x ys) → (b ≡ x) ⊎ In b ys)
          → In b (y ∷ insert_ordered before x ys)
          → (b ≡ x) ⊎ In b (y ∷ ys)
      later ih (here e) = inr (here e)
      later ih (there m') = elim (ih m') [ inl e ↦ inl e | inr n ↦ inr (there n) ]

  -- ORDER BY invents no row.
  pub order_by-In :
      (before : A → A → Bool) {a : A} (xs : List A) → In a (order_by before xs) → In a xs
  unfolding order_by
  order_by-In before [] m = m
  order_by-In before (x ∷ xs) m = elim (insert_ordered-In before x (order_by before xs) m) [
    | inl e ↦ here e
    | inr n ↦ there (order_by-In before xs n)
  ]

  insert_ordered_self :
      (before : A → A → Bool) (x : A) (xs : List A) → In x (insert_ordered before x xs)
  unfolding insert_ordered
  insert_ordered_self before x [] = here refl
  insert_ordered_self before x (y ∷ ys) = elim (Bool-cases (before x y)) [
    | inl t ↦ rw t (here refl)
    | inr n ↦ rw n (there (insert_ordered_self before x ys))
  ]

  In-insert_ordered :
      (before : A → A → Bool) (x : A) {a : A} (xs : List A)
      → In a xs
      → In a (insert_ordered before x xs)
  unfolding insert_ordered
  In-insert_ordered before x [] m = elim m [ ]
  In-insert_ordered before x (y ∷ ys) m = elim (Bool-cases (before x y)) [
    | inl t ↦ rw t (there m)
    | inr n ↦ rw n (kept (In-insert_ordered before x ys) m)
  ]
    where
      kept :
          {b : A}
          → (In b ys → In b (insert_ordered before x ys))
          → In b (y ∷ ys)
          → In b (y ∷ insert_ordered before x ys)
      kept ih (here e) = here e
      kept ih (there m') = there (ih m')

  -- ORDER BY loses no row.
  pub In-order_by :
      (before : A → A → Bool) {a : A} (xs : List A) → In a xs → In a (order_by before xs)
  unfolding order_by
  In-order_by before [] m = m
  In-order_by before {a} (x ∷ xs) (here e) =
      subst (λ b. In b (insert_ordered before x (order_by before xs))) (sym e)
        (insert_ordered_self before x (order_by before xs))
  In-order_by before (x ∷ xs) (there m) =
      In-insert_ordered before x (order_by before xs) (In-order_by before xs m)

  -- Each row stands before the later ones.
  abbrev pub Ordered : (A → A → Bool) → List A → Type ℓ
  Ordered before [] = Unit
  Ordered before (x ∷ xs) = All (λ y. before x y ≡ true) xs × Ordered before xs

  module _ (before : A → A → Bool)
      (trans : (x y z : A) → before x y ≡ true → before y z ≡ true → before x z ≡ true)
      (total : (x y : A) → before x y ≡ false → before y x ≡ true) where
    all-before-insert :
        (y x : A) (xs : List A)
        → before y x ≡ true
        → All (λ z. before y z ≡ true) xs
        → All (λ z. before y z ≡ true) (insert_ordered before x xs)
    unfolding insert_ordered
    all-before-insert y x [] h hs = (h, tt)
    all-before-insert y x (z ∷ zs) h hs = elim (Bool-cases (before x z)) [
      | inl t ↦ rw t (h, hs)
      | inr n ↦ rw n (hs.0, all-before-insert y x zs h hs.1)
    ]

    insert-Ordered :
        (x : A) (xs : List A) → Ordered before xs → Ordered before (insert_ordered before x xs)
    unfolding insert_ordered
    insert-Ordered x [] h = (tt, tt)
    insert-Ordered x (y ∷ ys) h = elim (Bool-cases (before x y)) [
      | inl t ↦ rw t ((t, All-map (λ z p. trans x y z t p) ys h.0), h)
      | inr n ↦ rw n (all-before-insert y x ys (total x y n) h.0, insert-Ordered x ys h.1)
    ]

    -- Under a total preorder ORDER BY sorts.
    pub order_by-Ordered : (xs : List A) → Ordered before (order_by before xs)
    unfolding order_by
    order_by-Ordered [] = tt
    order_by-Ordered (x ∷ xs) = insert-Ordered x (order_by before xs) (order_by-Ordered xs)
