-- ===== src/Store/Table.antt =====
-- A table with a primary key: `SELECT … WHERE id = $1`, `UPDATE … WHERE id = $1` and
-- `DELETE … WHERE id = $1`. The key is unique, so at most one row is concerned.
use sneakerbid.Base.{
  ℕ, false, Option, none, some, List, [], ◌∷◌, ◌≡◌, refl, arith, ◌==◌, if◌then◌else◌,
}

module _ {ℓ} {Row : Type ℓ} (key : Row → ℕ) where
  abbrev pub find : ℕ → List Row → Option Row
  find k [] = none
  find k (r ∷ rs) = if key r == k then some r else find k rs

  abbrev pub update : ℕ → (Row → Row) → List Row → List Row
  update k f [] = []
  update k f (r ∷ rs) = if key r == k then f r ∷ rs else r ∷ update k f rs

  abbrev pub remove : ℕ → List Row → List Row
  remove k [] = []
  remove k (r ∷ rs) = if key r == k then rs else r ∷ remove k rs

  -- A row that is found has the key that was asked for.
  pub find-key : (k : ℕ) (r : Row) (rs : List Row) → find k rs ≡ some r → key r ≡ k
  find-key k r [] h = cc
  find-key k r (x ∷ rs) h = ground (arith, find-key k r rs)

  module _ (f : Row → Row) (keeps : (r : Row) → key (f r) ≡ key r) where
    pub find-update_self :
        (k : ℕ) (rs : List Row) (r : Row) → find k rs ≡ some r → find k (update k f rs) ≡ some (f r)
    find-update_self k [] r h = cc
    find-update_self k (x ∷ rs) r h = ground (arith, keeps x, find-update_self k rs r)

    pub find-update_ne :
        (j k : ℕ) (rs : List Row) → (j == k) ≡ false → find j (update k f rs) ≡ find j rs
    find-update_ne j k [] h = refl
    find-update_ne j k (x ∷ rs) h = ground (arith, keeps x, find-update_ne j k rs h)

    pub find-update-none :
        (j k : ℕ) (rs : List Row) → find j rs ≡ none → find j (update k f rs) ≡ none
    find-update-none j k [] h = refl
    find-update-none j k (x ∷ rs) h = ground (arith, keeps x, find-update-none j k rs)
