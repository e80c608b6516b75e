-- ===== src/Retention/Batches.antt =====
-- What a batch holds, and what deleting it leaves.
use sneakerbid.Base.{
  ℕ, zero, suc, ◌≤◌, ◌<◌, Bool, true, false, List, [], ◌∷◌, ◌≡◌, refl, arith, ◌==◌, any, filter_by,
  length, take, ap, ◌∙◌, sym, Bool-cases, inl, inr,
}
use sneakerbid.Retention.{contains, insert_oldest, oldest_first, ids_of, stamped, batch_of, without}

contains-insert :
    (k : ℕ) (r : ℕ × ℕ) (rows : List (ℕ × ℕ))
    → contains k (ids_of (insert_oldest r rows)) ≡ contains k (ids_of (r ∷ rows))
contains-insert k (t, j) [] = refl
contains-insert k (t, j) ((u, i) ∷ rows) = ground (arith, contains-insert k (t, j) rows)

contains-sort :
    (k : ℕ) (rows : List (ℕ × ℕ))
    → contains k (ids_of (oldest_first rows)) ≡ contains k (ids_of rows)
contains-sort k [] = refl
contains-sort k ((t, j) ∷ rows) =
    ground (arith, contains-insert k (t, j) (oldest_first rows), contains-sort k rows)

contains-take :
    (k n : ℕ) (rows : List (ℕ × ℕ))
    → contains k (ids_of (take n rows)) ≡ true
    → contains k (ids_of rows) ≡ true
contains-take k zero rows h = cc
contains-take k (suc n) [] h = h
contains-take k (suc n) ((t, j) ∷ rows) h = ground (arith, contains-take k n rows)

take-short : (n : ℕ) (rows : List (ℕ × ℕ)) → length (ids_of (take n rows)) < n → take n rows ≡ rows
take-short zero rows h = absurd (omega arith)
take-short (suc n) [] h = refl
take-short (suc n) ((t, j) ∷ rows) h = ap (λ l. (t, j) ∷ l) (take-short n rows (omega arith))

-- A batch that is not empty has an id.
first-contained : (ids : List ℕ) → (length ids == 0) ≡ false → (k : ℕ) × (contains k ids ≡ true)
first-contained [] h = absurd (ground arith)
first-contained (k ∷ ids) h = (k, ground arith)

module _ {Row : Type 0} (id : Row → ℕ) (time : Row → ℕ) (is_old : Row → Bool) where
  contains-stamped :
      (k : ℕ) (rows : List Row)
      → contains k (ids_of (stamped id time is_old rows)) ≡ true
      → any (λ r. id r == k) rows ≡ true
  contains-stamped k [] h = cc
  contains-stamped k (r ∷ rows) h = ground (arith, contains-stamped k rows)

  length-without : (ids : List ℕ) (rows : List Row) → length (without id ids rows) ≤ length rows
  length-without ids [] = omega arith
  length-without ids (r ∷ rows) = ground (arith, length-without ids rows)

  length-without_less :
      (ids : List ℕ) (k : ℕ) (rows : List Row)
      → contains k ids ≡ true
      → any (λ r. id r == k) rows ≡ true
      → length (without id ids rows) < length rows
  length-without_less ids k [] c h = cc
  length-without_less ids k (r ∷ rows) c h =
      ground (arith, length-without ids rows, length-without_less ids k rows c)

  -- Deleting a batch that is not empty leaves fewer rows,
  pub batch_of-fewer :
      (size : ℕ) (rows : List Row)
      → (length (batch_of id time is_old size rows) == 0) ≡ false
      → length (without id (batch_of id time is_old size rows) rows) < length rows
  batch_of-fewer size rows h =
      let (k, c) = first-contained (batch_of id time is_old size rows) h in
      let sorted = contains-take k size (oldest_first (stamped id time is_old rows)) c in
      length-without_less (batch_of id time is_old size rows) k rows c
        (contains-stamped k rows (sym (contains-sort k (stamped id time is_old rows)) ∙ sorted))

  without-old :
      (ids : List ℕ) (rows : List Row)
      → ((k : ℕ) → contains k (ids_of (stamped id time is_old rows)) ≡ true → contains k ids ≡ true)
      → filter_by is_old (without id ids rows) ≡ []
  without-old ids [] h = refl
  without-old ids (r ∷ rows) h = elim (Bool-cases (is_old r)) [
    | inl old ↦
        let here : contains (id r) ids ≡ true = h (id r) (ground arith) in
        let rest = without-old ids rows (λ k c. h k (ground (arith, c))) in
        ground (arith, here, rest)
    | inr young ↦
        let rest = without-old ids rows (λ k c. h k (ground (arith, c))) in ground (arith, rest)
  ]

  -- and one that is not full leaves no old row.
  pub batch_of-all :
      (size : ℕ) (rows : List Row)
      → length (batch_of id time is_old size rows) < size
      → filter_by is_old (without id (batch_of id time is_old size rows) rows) ≡ []
  batch_of-all size rows h =
      let all = take-short size (oldest_first (stamped id time is_old rows)) h in
      without-old (batch_of id time is_old size rows) rows (λ k c.
        ap (λ l. contains k (ids_of l)) all ∙ contains-sort k (stamped id time is_old rows) ∙ c)

  without-none : (ids : List ℕ) (rows : List Row) → length ids ≡ 0 → without id ids rows ≡ rows
  without-none [] [] h = refl
  without-none [] (r ∷ rows) h = ap (λ l. r ∷ l) (without-none [] rows h)
  without-none (k ∷ ids) rows h = absurd (omega arith)

  -- Where a batch is empty, no row is old.
  pub batch_of-none :
      (size : ℕ) (rows : List Row)
      → 0 < size
      → length (batch_of id time is_old size rows) ≡ 0
      → filter_by is_old rows ≡ []
  batch_of-none size rows pos h =
      ap (filter_by is_old) (sym (without-none (batch_of id time is_old size rows) rows h))
      ∙ batch_of-all size rows (omega arith)
