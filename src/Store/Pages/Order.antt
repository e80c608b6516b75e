-- ===== src/Store/Pages/Order.antt =====
-- Sorting by a strict order, and the rows after one of the sorted rows.
use sneakerbid.Base.{
  ℕ, Bool, true, false, List, [], ◌∷◌, ◌++◌, ◌≡◌, ◌≢◌, refl, arith, All, filter_by, if◌then◌else◌,
  ap, sym, Bool-cases, inl, inr, length, ◌+◌,
}
use sneakerbid.Store.Pages.{insert_by, sort_by}

-- The laws of an order that is total on rows of different keys.
pub record IsStrictOrder {ℓ} {A : Type ℓ} (key : A → ℕ) (before : A → A → Bool) : Type ℓ where
  pub trans : (x y z : A) → before x y ≡ true → before y z ≡ true → before x z ≡ true
  pub asym : (x y : A) → before x y ≡ true → before y x ≡ false
  pub total : (x y : A) → key x ≢ key y → before x y ≡ false → before y x ≡ true

module _ {ℓ} {A : Type ℓ} (key : A → ℕ) where
  -- No two rows have one key.
  abbrev pub UniqueKeys : List A → Type 0
  UniqueKeys [] = Unit
  UniqueKeys (x ∷ xs) = All (λ y. key y ≢ key x) xs × UniqueKeys xs

module _ {ℓ} {A : Type ℓ} (before : A → A → Bool) where
  -- Each row is before those that follow it.
  abbrev pub IsSortedBy : List A → Type 0
  IsSortedBy [] = Unit
  IsSortedBy (x ∷ xs) = All (λ y. before x y ≡ true) xs × IsSortedBy xs

module _ {ℓ} {A : Type ℓ} (before : A → A → Bool) where
  length-insert_by : (n : A) (xs : List A) → length (insert_by before n xs) ≡ length xs + 1
  length-insert_by n [] = refl
  length-insert_by n (x ∷ xs) = ground (arith, length-insert_by n xs)

  pub length-sort_by : (xs : List A) → length (sort_by before xs) ≡ length xs
  length-sort_by [] = refl
  length-sort_by (x ∷ xs) = omega (arith, length-insert_by x (sort_by before xs), length-sort_by xs)

module _ {ℓ κ} {A : Type ℓ} (P : A → Type κ) (before : A → A → Bool) where
  pub All-insert_by : (n : A) (xs : List A) → P n → All P xs → All P (insert_by before n xs)
  All-insert_by n [] p h = (p, tt)
  All-insert_by n (x ∷ xs) p h = elim (Bool-cases (before n x)) [
    | inl e ↦ rw e (p, h)
    | inr e ↦ rw e (h.0, All-insert_by n xs p h.1)
  ]

  pub All-sort_by : (xs : List A) → All P xs → All P (sort_by before xs)
  All-sort_by [] h = tt
  All-sort_by (x ∷ xs) h = All-insert_by x (sort_by before xs) h.0 (All-sort_by xs h.1)

module _ {ℓ κ} {A : Type ℓ} (P : A → Type κ) (p : A → Bool) where
  pub All-filter_by : (xs : List A) → All P xs → All P (filter_by p xs)
  All-filter_by [] h = tt
  All-filter_by (x ∷ xs) h = elim (Bool-cases (p x)) [
    | inl e ↦ rw e (h.0, All-filter_by xs h.1)
    | inr e ↦ rw e (All-filter_by xs h.1)
  ]

module _ {ℓ} {A : Type ℓ} (p : A → Bool) where
  pub filter_by-All : (xs : List A) → All (λ x. p x ≡ true) (filter_by p xs)
  filter_by-All [] = tt
  filter_by-All (x ∷ xs) = elim (Bool-cases (p x)) [
    | inl e ↦ rw e (e, filter_by-All xs)
    | inr e ↦ rw e (filter_by-All xs)
  ]

module _ {ℓ} {A : Type ℓ} {key : A → ℕ} {before : A → A → Bool}
    (order : IsStrictOrder key before) where
  after-All :
      (n x : A) (xs : List A)
      → before n x ≡ true
      → All (λ y. before x y ≡ true) xs
      → All (λ y. before n y ≡ true) xs
  after-All n x [] e h = tt
  after-All n x (y ∷ xs) e h = (order.trans n x y e h.0, after-All n x xs e h.1)

  insert_by-IsSortedBy :
      (n : A) (xs : List A)
      → All (λ y. key y ≢ key n) xs
      → IsSortedBy before xs
      → IsSortedBy before (insert_by before n xs)
  insert_by-IsSortedBy n [] u s = (tt, tt)
  insert_by-IsSortedBy n (x ∷ xs) u s = elim (Bool-cases (before n x)) [
    | inl e ↦ rw e ((e, after-All n x xs e s.0), s)
    | inr e ↦
        let later : before x n ≡ true = order.total n x (λ q. u.0 (sym q)) e in
        rw e (
          All-insert_by (λ y. before x y ≡ true) before n xs later s.0,
          insert_by-IsSortedBy n xs u.1 s.1,
        )
  ]

  pub sort_by-IsSortedBy : (xs : List A) → UniqueKeys key xs → IsSortedBy before (sort_by before xs)
  sort_by-IsSortedBy [] u = tt
  sort_by-IsSortedBy (x ∷ xs) u =
      insert_by-IsSortedBy x (sort_by before xs) (All-sort_by (λ y. key y ≢ key x) before xs u.0)
        (sort_by-IsSortedBy xs u.1)

  insert_by-first :
      (n : A) (xs : List A) → All (λ y. before n y ≡ true) xs → insert_by before n xs ≡ n ∷ xs
  insert_by-first n [] h = refl
  insert_by-first n (x ∷ xs) h = rw h.0 refl

  module _ (p : A → Bool) where
    filter_by-insert_by :
        (n : A) (xs : List A)
        → IsSortedBy before xs
        → filter_by p (insert_by before n xs)
          ≡ (if p n then insert_by before n (filter_by p xs) else filter_by p xs)
    filter_by-insert_by n [] s = refl
    filter_by-insert_by n (x ∷ xs) s = elim (Bool-cases (before n x)) [
      | inl e ↦
          let first : insert_by before n (filter_by p (x ∷ xs)) ≡ n ∷ filter_by p (x ∷ xs) =
            insert_by-first n (filter_by p (x ∷ xs))
              (All-filter_by (λ y. before n y ≡ true) p (x ∷ xs) (e, after-All n x xs e s.0)) in
          rw e (elim (Bool-cases (p n)) [ inl q ↦ rw q (rw first refl) | inr q ↦ rw q refl ])
      | inr e ↦ ground (arith, e, filter_by-insert_by n xs s.1)
    ]

    -- Sorting the rows that pass a test is taking those of the sorted rows.
    pub sort_by-filter_by :
        (xs : List A)
        → UniqueKeys key xs
        → sort_by before (filter_by p xs) ≡ filter_by p (sort_by before xs)
    sort_by-filter_by [] u = refl
    sort_by-filter_by (x ∷ xs) u =
        let step = filter_by-insert_by x (sort_by before xs) (sort_by-IsSortedBy xs u.1) in
        elim (Bool-cases (p x)) [
          | inl q ↦
              let taken : filter_by p (insert_by before x (sort_by before xs))
                  ≡ insert_by before x (filter_by p (sort_by before xs)) =
                rw q at step in
              rw (q, taken) (ap (insert_by before x) (sort_by-filter_by xs u.1))
          | inr q ↦
              let left : filter_by p (insert_by before x (sort_by before xs))
                  ≡ filter_by p (sort_by before xs) =
                rw q at step in
              rw (q, left) (sort_by-filter_by xs u.1)
        ]

  filter_by-same :
      (c : A) (xs : List A) → All (λ y. before c y ≡ true) xs → filter_by (before c) xs ≡ xs
  filter_by-same c [] h = refl
  filter_by-same c (x ∷ xs) h = rw h.0 (ap (λ ys. x ∷ ys) (filter_by-same c xs h.1))

  head-before :
      (x c : A) (xs ys : List A) → All (λ y. before x y ≡ true) (xs ++ c ∷ ys) → before x c ≡ true
  head-before x c [] ys h = h.0
  head-before x c (z ∷ xs) ys h = head-before x c xs ys h.1

  not_itself : (c : A) → before c c ≡ false
  not_itself c = elim (Bool-cases (before c c)) [ inl e ↦ order.asym c c e | inr e ↦ e ]

  -- In sorted rows, those after one of them are those that follow it.
  pub filter_by-suffix :
      (c : A) (xs ys : List A)
      → IsSortedBy before (xs ++ c ∷ ys)
      → filter_by (before c) (xs ++ c ∷ ys) ≡ ys
  filter_by-suffix c [] ys s = rw (not_itself c) (filter_by-same c ys s.0)
  filter_by-suffix c (x ∷ xs) ys s =
      rw (order.asym x c (head-before x c xs ys s.0)) (filter_by-suffix c xs ys s.1)
