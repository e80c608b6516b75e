-- ===== src/Store/Pages.antt =====
-- Rows read in an order, page by page: `ORDER BY … LIMIT cap + 1` with a cursor, and the cut of the
-- page from what was read.
pub mod Order
pub mod Walk
pub mod Keys
use sneakerbid.Base.{
  ℕ, zero, suc, Bool, Option, none, some, List, [], ◌∷◌, ◌++◌, ltb, if◌then◌else◌, length, take,
}

module _ {ℓ} {A : Type ℓ} (before : A → A → Bool) where
  abbrev pub insert_by : A → List A → List A
  insert_by n [] = n ∷ []
  insert_by n (x ∷ xs) = if before n x then n ∷ x ∷ xs else x ∷ insert_by n xs

  -- `ORDER BY`
  abbrev pub sort_by : List A → List A
  sort_by [] = []
  sort_by (n ∷ ns) = insert_by n (sort_by ns)

module _ {ℓ} {A : Type ℓ} (key : A → ℕ) where
  -- `sliced[sliced.length - 1]?.id ?? null`
  abbrev pub last_key : List A → Option ℕ
  last_key [] = none
  last_key (x ∷ []) = some (key x)
  last_key (x ∷ y ∷ xs) = last_key (y ∷ xs)

  -- What a reader gets who asks for the pages from a cursor on, `fuel` pages at most, where `rows`
  -- gives all rows after a cursor and each page holds `cap`.
  unfoldable pub walk : ℕ → ℕ → (Option ℕ → List A) → Option ℕ → List A
  walk zero cap rows cursor = []
  walk (suc fuel) cap rows cursor =
      let read = take (suc cap) (rows cursor) in
      if ltb cap (length read)
      then take cap read
        ++ (elim (last_key (take cap read)) [ none ↦ [] | some k ↦ walk fuel cap rows (some k) ])
      else read
