-- ===== src/Listing/Bounds.antt =====
-- Bounds of the statistics of trades and of the figures of the market.
use native.Mathlib.Nat.{div-mul-le_self, lt-div-mul-add, div-lt_iff_lt-mul}
use sneakerbid.Base.{ℕ, ◌+◌, ◌*◌, ◌≤◌, ◌<◌, some, List, [], ◌∷◌, ◌≡◌, refl, arith, All, length, max}
use sneakerbid.Listing.Figures.{sum, round_div}
use sneakerbid.Listing.History.{max_of, stats_of}

-- The rounded quotient is within half of one of the exact one.
round_div_near :
    (a b : ℕ)
    → 0 < b
    → (round_div a b * (2 * b) ≤ 2 * a + b) × (2 * a < round_div a b * (2 * b) + b)
round_div_near a b h =
    let low : round_div a b * (2 * b) ≤ 2 * a + b = div-mul-le_self (2 * a + b) (2 * b) in
    let high : 2 * a + b < round_div a b * (2 * b) + 2 * b = lt-div-mul-add (omega arith) in
    (low, omega arith)

round_div-le : (a b m : ℕ) → 0 < b → a ≤ m * b → round_div a b ≤ m
round_div-le a b m h k =
    let room : 2 * a + b < (m + 1) * (2 * b) = grind arith in
    let below : round_div a b < m + 1 = (div-lt_iff_lt-mul (omega arith)).1 room in omega arith

All-weaken : (m n : ℕ) (xs : List ℕ) → m ≤ n → All (λ x. x ≤ m) xs → All (λ x. x ≤ n) xs
All-weaken m n [] h a = tt
All-weaken m n (x ∷ xs) h a = (omega arith, All-weaken m n xs h a.1)

max_of-All : (xs : List ℕ) → All (λ x. x ≤ max_of xs) xs
max_of-All [] = tt
max_of-All (x ∷ xs) =
    (omega arith, All-weaken (max_of xs) (max x (max_of xs)) xs (omega arith) (max_of-All xs))

sum-le : (m : ℕ) (xs : List ℕ) → All (λ x. x ≤ m) xs → sum xs ≤ m * length xs
sum-le m [] h = omega arith
sum-le m (x ∷ xs) h = let rest = sum-le m xs h.1 in grind arith

-- The statistics of a day with a closing: all its prices are at most the highest, and the average is
-- at most the highest and within half of one of the exact average.
pub stats_of_bounds :
    (x : ℕ) (xs : List ℕ)
    → let n = length (x ∷ xs) in
      (average highest : ℕ) × (stats_of (x ∷ xs) ≡ record {
        trades_today = n;
        average_price_today = some average;
        max_price_today = some highest;
      })
      × All (λ p. p ≤ highest) (x ∷ xs)
      × (average ≤ highest)
      × (average * (2 * n) ≤ 2 * sum (x ∷ xs) + n)
      × (2 * sum (x ∷ xs) < average * (2 * n) + n)
unfolding stats_of
stats_of_bounds x xs =
    let prices = x ∷ xs in
    let near = round_div_near (sum prices) (length prices) (omega arith) in
    (
      round_div (sum prices) (length prices),
      max_of prices,
      refl,
      max_of-All prices,
      round_div-le (sum prices) (length prices) (max_of prices) (omega arith)
          (sum-le (max_of prices) prices (max_of-All prices)),
      near.0,
      near.1,
    )
