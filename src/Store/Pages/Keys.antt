-- ===== src/Store/Pages/Keys.antt =====
-- Rows that a key tells apart.
use sneakerbid.Base.{
  ℕ, Bool, some, List, [], ◌∷◌, ◌++◌, ◌≡◌, ◌≢◌, refl, arith, All, ◌==◌, filter_by, Bool-cases, inl,
  inr,
}
use sneakerbid.Store.Table.{find}
use sneakerbid.Store.Pages.Order.{UniqueKeys, All-filter_by}

module _ {ℓ κ} {A : Type ℓ} (P : A → Type κ) where
  pub All-middle : (c : A) (xs ys : List A) → All P (xs ++ c ∷ ys) → P c
  All-middle c [] ys h = h.0
  All-middle c (x ∷ xs) ys h = All-middle c xs ys h.1

module _ {ℓ} {A : Type ℓ} where
  pub filter_by-cong :
      (p q : A → Bool) (xs : List A) → All (λ x. p x ≡ q x) xs → filter_by p xs ≡ filter_by q xs
  filter_by-cong p q [] h = refl
  filter_by-cong p q (x ∷ xs) h = rw (h.0, filter_by-cong p q xs h.1) refl

module _ {ℓ} {A : Type ℓ} (key : A → ℕ) where
  -- A row that its key finds.
  abbrev pub IsFoundIn : List A → A → Type ℓ
  IsFoundIn xs x = find key (key x) xs ≡ some x

  IsFoundIn-cons :
      (x : A) (xs ys : List A)
      → All (λ y. key y ≢ key x) ys
      → All (IsFoundIn xs) ys
      → All (IsFoundIn (x ∷ xs)) ys
  IsFoundIn-cons x xs [] n h = tt
  IsFoundIn-cons x xs (y ∷ ys) n h = elim (Bool-cases (key x == key y)) [
    | inl e ↦ absurd (n.0 (ground arith))
    | inr e ↦ (rw e h.0, IsFoundIn-cons x xs ys n.1 h.1)
  ]

  pub All-IsFoundIn : (xs : List A) → UniqueKeys key xs → All (IsFoundIn xs) xs
  All-IsFoundIn [] u = tt
  All-IsFoundIn (x ∷ xs) u = (ground arith, IsFoundIn-cons x xs xs u.0 (All-IsFoundIn xs u.1))

  -- Two rows that one key finds are one row.
  pub same_row : (xs : List A) (a b : A) → IsFoundIn xs a → IsFoundIn xs b → key a ≡ key b → a ≡ b
  same_row xs a b f g e = cc

  pub UniqueKeys-filter_by :
      (p : A → Bool) (xs : List A) → UniqueKeys key xs → UniqueKeys key (filter_by p xs)
  UniqueKeys-filter_by p [] u = tt
  UniqueKeys-filter_by p (x ∷ xs) u = elim (Bool-cases (p x)) [
    | inl e ↦ rw e (All-filter_by (λ y. key y ≢ key x) p xs u.0, UniqueKeys-filter_by p xs u.1)
    | inr e ↦ rw e (UniqueKeys-filter_by p xs u.1)
  ]
