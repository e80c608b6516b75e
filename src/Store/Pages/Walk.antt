-- ===== src/Store/Pages/Walk.antt =====
-- The pages of a list, one after the other.
use sneakerbid.Base.{
  ℕ, zero, suc, ◌+◌, ◌≤◌, ◌<◌, true, Option, none, some, List, [], ◌∷◌, ◌++◌, ◌≡◌, refl, All,
  Option-cases, subst, arith, ltb, length, take, Bool-cases, inl, inr, ◌∙◌, ap, sym, append_assoc,
}
use sneakerbid.Store.Pages.{last_key, walk}

module _ {ℓ} {A : Type ℓ} where
  pub take_all : (n : ℕ) (ys : List A) → length ys ≤ n → take n ys ≡ ys
  take_all zero [] h = refl
  take_all zero (y ∷ ys) h = absurd (omega arith)
  take_all (suc n) [] h = refl
  take_all (suc n) (y ∷ ys) h = ap (λ x. y ∷ x) (take_all n ys (omega arith))

  pub take-take : (n : ℕ) (ys : List A) → take n (take (suc n) ys) ≡ take n ys
  take-take zero ys = refl
  take-take (suc n) [] = refl
  take-take (suc n) (y ∷ ys) = ap (λ x. y ∷ x) (take-take n ys)

  pub take_longer : (n : ℕ) (ys : List A) → n < length ys → length (take (suc n) ys) ≡ suc n
  take_longer n [] h = absurd (omega arith)
  take_longer zero (y ∷ ys) h = refl
  take_longer (suc n) (y ∷ ys) h = omega (arith, take_longer n ys (omega arith))

module _ {ℓ} {A : Type ℓ} (key : A → ℕ) where
  -- A list cut after its first rows.
  pub cut :
      (m : ℕ) (ys : List A)
      → m + 1 < length ys
      → (init : List A) × (c : A) × (rest : List A) × (ys ≡ init ++ c ∷ rest)
        × (take (suc m) ys ≡ init ++ c ∷ [])
        × (last_key key (take (suc m) ys) ≡ some (key c))
        × (length rest < length ys)
  cut m [] h = absurd (omega arith)
  cut zero (y ∷ ys) h = ([], y, ys, refl, refl, refl, omega arith)
  cut (suc m) (y ∷ []) h = absurd (omega arith)
  cut (suc m) (y ∷ z ∷ ys) h =
      let (init, c, rest, e, t, l, n) = cut m (z ∷ ys) (omega arith) in
      (y ∷ init, c, rest, ap (λ x. y ∷ x) e, ap (λ x. y ∷ x) t, l, omega arith)

  module _ (rows : Option ℕ → List A)
      (suffix : (xs ys : List A) (c : A)
        → rows none ≡ xs ++ c ∷ ys
        → rows (some (key c)) ≡ ys) where
    -- Where the rows after each row's cursor are those that follow it, the pages from a cursor give
    -- what comes after it.
    pub walk-rest :
        (fuel m : ℕ) (cursor : Option ℕ) (xs ys : List A)
        → rows cursor ≡ ys
        → rows none ≡ xs ++ ys
        → length ys < fuel
        → walk key fuel (suc m) rows cursor ≡ ys
    unfolding walk
    walk-rest zero m cursor xs ys r e n = absurd (omega arith)
    walk-rest (suc fuel) m cursor xs ys r e n = elim (Bool-cases (ltb (suc m) (length ys))) [
      | inr short ↦
          let all : take (suc (suc m)) ys ≡ ys = take_all (suc (suc m)) ys (ground arith) in
          rw (r, all, short) refl
      | inl long ↦
          let (init, x, rest, is_ys, taken, last, shorter) = cut m ys (ground arith) in
          let more : ltb (suc m) (suc (suc m)) ≡ true = ground arith in
          let whole : rows none ≡ (xs ++ init) ++ x ∷ rest =
            e ∙ ap (λ l. xs ++ l) is_ys ∙ sym (append_assoc xs init (x ∷ rest)) in
          let after : walk key fuel (suc m) rows (some (key x)) ≡ rest =
            walk-rest fuel m (some (key x)) ((xs ++ init) ++ x ∷ []) rest
              (suffix (xs ++ init) rest x whole)
              (whole ∙ sym (append_assoc (xs ++ init) (x ∷ []) rest)) (omega arith) in
          rw
            (
              r,
              take_longer (suc m) ys (ground arith),
              more,
              take-take (suc m) ys,
              last,
              after,
              taken,
            )
            (append_assoc init (x ∷ []) rest ∙ sym is_ys)
    ]

module _ {ℓ κ} {A : Type ℓ} (P : A → Type κ) where
  pub All-take : (n : ℕ) (xs : List A) → All P xs → All P (take n xs)
  All-take zero xs h = tt
  All-take (suc n) [] h = tt
  All-take (suc n) (x ∷ xs) h = (h.0, All-take n xs h.1)

  pub All-append : (xs ys : List A) → All P xs → All P ys → All P (xs ++ ys)
  All-append [] ys h k = k
  All-append (x ∷ xs) ys h k = (h.0, All-append xs ys h.1 k)

module _ {ℓ κ} {A : Type ℓ} (key : A → ℕ) (P : A → Type κ) (Past : ℕ → Type κ) where
  All-last_key :
      (xs : List A) (k : ℕ) → All (λ x. P x × Past (key x)) xs → last_key key xs ≡ some k → Past k
  All-last_key [] k h e = cc
  All-last_key (x ∷ []) k h e = let same : key x ≡ k = cc in subst Past same h.0.1
  All-last_key (x ∷ y ∷ xs) k h e = All-last_key (y ∷ xs) k h.1 e

  All-first : (xs : List A) → All (λ x. P x × Past (key x)) xs → All P xs
  All-first [] h = tt
  All-first (x ∷ xs) h = (h.0.0, All-first xs h.1)

  -- What every row after a cursor has, where the cursors that such rows give are again of the kind,
  -- all pages from such a cursor on have.
  pub walk-All :
      (rows : Option ℕ → List A) (fuel cap k : ℕ)
      → ((j : ℕ) → Past j → All (λ x. P x × Past (key x)) (rows (some j)))
      → Past k
      → All P (walk key fuel cap rows (some k))
  unfolding walk
  walk-All rows zero cap k keep past = tt
  walk-All rows (suc fuel) cap k keep past =
      let Both = λ (x : A). P x × Past (key x) in
      let read = take (suc cap) (rows (some k)) in
      let all = All-take Both (suc cap) (rows (some k)) (keep k past) in
      let front = All-take Both cap read all in
      elim (Bool-cases (ltb cap (length read))) [
        | inr e ↦ rw e (All-first read all)
        | inl e ↦ elim (Option-cases (last_key key (take cap read))) [
          | inl l ↦ rw (e, l) (All-append P (take cap read) [] (All-first (take cap read) front) tt)
          | inr (j, l) ↦
              rw (e, l)
                (All-append P (take cap read) _ (All-first (take cap read) front)
                  (walk-All rows fuel cap j keep (All-last_key (take cap read) j front l)))
        ]
      ]
