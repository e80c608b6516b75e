-- ===== src/Bots/Merging.antt =====
-- The auctions that the bots are offered.
use sneakerbid.Base.{
  ℕ, zero, suc, true, false, List, [], ◌∷◌, ◌≡◌, refl, arith, ◌==◌, if◌then◌else◌, take, Bool-cases,
  inl, map, length, min, some, ◌*◌, inr,
}
use sneakerbid.Bots.Attempts.{
  has_row, set_row, set_rows, set_new_rows, merged_auctions, merged_auctions_for_bots,
}
use sneakerbid.Bots.Attempts.{select_bid_attempts}
use sneakerbid.Bots.Keys.{UniqueAuctions, UniqueBots, Distinct}
use sneakerbid.Bots.Choosing.{InRange, Covers, key_of, select_bid_attempts-ends}

module _ {A B : Type 0} (row_id : A → ℕ) (bot_id : B → ℕ) where
  has_row-set_row :
      (k : ℕ) (r : A) (xs : List A)
      → has_row row_id k (set_row row_id r xs)
        ≡ (if row_id r == k then true else has_row row_id k xs)
  has_row-set_row k r [] = refl
  has_row-set_row k r (x ∷ xs) = ground (arith, has_row-set_row k r xs)

  UniqueAuctions-set_row :
      (r : A) (xs : List A)
      → UniqueAuctions row_id bot_id xs
      → UniqueAuctions row_id bot_id (set_row row_id r xs)
  UniqueAuctions-set_row r [] u = (refl, tt)
  UniqueAuctions-set_row r (x ∷ xs) u =
      ground (arith, has_row-set_row (row_id x) r xs, UniqueAuctions-set_row r xs u.1)

  UniqueAuctions-set_rows :
      (rs m : List A)
      → UniqueAuctions row_id bot_id m
      → UniqueAuctions row_id bot_id (set_rows row_id rs m)
  UniqueAuctions-set_rows [] m u = u
  UniqueAuctions-set_rows (r ∷ rs) m u =
      UniqueAuctions-set_rows rs (set_row row_id r m) (UniqueAuctions-set_row r m u)

  UniqueAuctions-set_new_rows :
      (rs m : List A)
      → UniqueAuctions row_id bot_id m
      → UniqueAuctions row_id bot_id (set_new_rows row_id rs m)
  UniqueAuctions-set_new_rows [] m u = u
  UniqueAuctions-set_new_rows (r ∷ rs) m u = elim (Bool-cases (has_row row_id (row_id r) m)) [
    | inl there ↦ rw there (UniqueAuctions-set_new_rows rs m u)
    | inr missing ↦
        rw missing
          (UniqueAuctions-set_new_rows rs (set_row row_id r m) (UniqueAuctions-set_row r m u))
  ]

  has_row-take :
      (k n : ℕ) (xs : List A) → has_row row_id k xs ≡ false → has_row row_id k (take n xs) ≡ false
  has_row-take k zero xs h = refl
  has_row-take k (suc n) [] h = refl
  has_row-take k (suc n) (x ∷ xs) h = ground (arith, has_row-take k n xs)

  UniqueAuctions-take :
      (n : ℕ) (xs : List A)
      → UniqueAuctions row_id bot_id xs
      → UniqueAuctions row_id bot_id (take n xs)
  UniqueAuctions-take zero xs u = tt
  UniqueAuctions-take (suc n) [] u = tt
  UniqueAuctions-take (suc n) (x ∷ xs) u =
      (has_row-take (row_id x) n xs u.0, UniqueAuctions-take n xs u.1)

  -- Whatever rows the two queries return, the merged auctions have ids of their own.
  pub merged_auctions-UniqueAuctions :
      (main_rows bot_seller_rows : List A)
      → UniqueAuctions row_id bot_id (merged_auctions row_id main_rows bot_seller_rows)
  unfolding merged_auctions
  merged_auctions-UniqueAuctions main_rows bot_seller_rows =
      UniqueAuctions-take merged_auctions_for_bots
        (set_new_rows row_id main_rows (set_rows row_id bot_seller_rows []))
        (UniqueAuctions-set_new_rows main_rows (set_rows row_id bot_seller_rows [])
          (UniqueAuctions-set_rows bot_seller_rows [] tt))

-- Where bots have ids of their own, and whatever rows the two queries of auctions return, the choice
-- of pairs among the merged auctions and the bots ends once every pair of them was drawn, in whatever
-- order and however often: it has eight pairs, or as many as there are if these are fewer, and none
-- twice.
pub select_bid_attempts-merged_auctions :
    {A B : Type 0} (auction_id : A → ℕ) (bot_id : B → ℕ) (main_rows bot_seller_rows : List A)
    (bots : List B) (draws : List (ℕ × ℕ))
    → let auctions = merged_auctions auction_id main_rows bot_seller_rows in
      UniqueBots auction_id bot_id bots
      → InRange (length auctions) (length bots) draws
      → Covers (length auctions) (length bots) draws
      → (r : List (A × B)) × (select_bid_attempts auction_id bot_id auctions bots draws ≡ some r)
        × (length r ≡ min 8 (length auctions * length bots))
        × Distinct (map (key_of auction_id bot_id) r)
select_bid_attempts-merged_auctions auction_id bot_id main_rows bot_seller_rows bots draws ub range
      covers =
    select_bid_attempts-ends auction_id bot_id
      (merged_auctions auction_id main_rows bot_seller_rows) bots draws
      (merged_auctions-UniqueAuctions auction_id bot_id main_rows bot_seller_rows) ub range covers
