-- ===== src/Bots/Attempts.antt =====
-- The pairs of an auction and a bot that a turn tries, `selectBidAttempts` of
-- backend/src/bots/bots.service.ts.
use sneakerbid.Base.{
  ℕ, ◌*◌, min, Bool, Option, none, some, List, [], ◌∷◌, ◌&&◌, ◌==◌, leb, if◌then◌else◌, any, length,
  get_elem?, ◌++◌, take,
}

-- `BIDS_PER_TURN` of backend/src/common/constants/bot.constants.ts
abbrev pub bids_per_turn : ℕ
bids_per_turn = 8

-- The key of a pair, which the source writes as one text.
abbrev pub same_pair : ℕ × ℕ → ℕ × ℕ → Bool
same_pair (a, b) (c, d) = a == c && b == d

abbrev pub has : ℕ × ℕ → List (ℕ × ℕ) → Bool
has k ks = any (same_pair k) ks

-- The set of picked keys and the pairs, in the order in which they came.
pub record Picked (A B : Type 0) : Type 0 where
  pub keys : List (ℕ × ℕ)
  pub attempts : List (A × B)

abbrev pub nothing_picked : {A B : Type 0} → Picked A B
nothing_picked = record { keys = []; attempts = [] }

module _ {A B : Type 0} (auction_id : A → ℕ) (bot_id : B → ℕ) where
  -- `if (picked.has(key)) continue; picked.add(key); attempts.push(…)`
  abbrev pub pick : A → B → Picked A B → Picked A B
  pick a b p = if has (auction_id a, bot_id b) p.keys then p else record {
    keys = p.keys ++ (auction_id a, bot_id b) ∷ [];
    attempts = p.attempts ++ (a, b) ∷ [];
  }

  module _ (auctions : List A) (bots : List B) where
    -- `Math.min(BIDS_PER_TURN, maxPairs)`
    abbrev pub target : ℕ
    target = min bids_per_turn (length auctions * length bots)

    abbrev pub if_drawn :
        (Picked A B → Option (List (A × B)))
        → Option A
        → Option B
        → Picked A B
        → Option (List (A × B))
    if_drawn rest (some a) (some b) p = rest (pick a b p)
    if_drawn rest _ _ p = none

    -- The loop, on the indices that `randInt` draws: none while they do not suffice to end it.
    unfoldable pub select_loop : List (ℕ × ℕ) → Picked A B → Option (List (A × B))
    select_loop [] p = if leb target (length p.attempts) then some p.attempts else none
    select_loop ((i, j) ∷ draws) p =
        let rest = select_loop draws in
        if leb target (length p.attempts)
        then some p.attempts
        else if_drawn rest (get_elem? auctions i) (get_elem? bots j) p

    -- `selectBidAttempts`
    abbrev pub select_bid_attempts : List (ℕ × ℕ) → Option (List (A × B))
    select_bid_attempts draws = select_loop draws nothing_picked

-- `MERGED_AUCTIONS_FOR_BOTS` of backend/src/common/constants/bot.constants.ts
abbrev pub merged_auctions_for_bots : ℕ
merged_auctions_for_bots = 28

module _ {A : Type 0} (row_id : A → ℕ) where
  -- `byId.has(id)`
  abbrev pub has_row : ℕ → List A → Bool
  has_row id rows = any (λ x. row_id x == id) rows

  -- `byId.set(r.id, r)`: a row with the id gives its place to the new one.
  abbrev pub set_row : A → List A → List A
  set_row r [] = r ∷ []
  set_row r (x ∷ xs) = if row_id x == row_id r then r ∷ xs else x ∷ set_row r xs

  abbrev pub set_rows : List A → List A → List A
  set_rows [] m = m
  set_rows (r ∷ rs) m = set_rows rs (set_row r m)

  abbrev pub set_new_rows : List A → List A → List A
  set_new_rows [] m = m
  set_new_rows (r ∷ rs) m =
      let rest = set_new_rows rs in if has_row (row_id r) m then rest m else rest (set_row r m)

  -- The auctions of `fetchData`: those of bots that sell, and then the others, without repetitions.
  unfoldable pub merged_auctions : List A → List A → List A
  merged_auctions main_rows bot_seller_rows =
      take merged_auctions_for_bots (set_new_rows main_rows (set_rows bot_seller_rows []))
