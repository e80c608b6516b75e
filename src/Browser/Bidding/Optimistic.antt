-- ===== src/Browser/Bidding/Optimistic.antt =====
-- A bid whose answer is awaited while events come in.
use sneakerbid.Base.{ℕ, ◌+◌, ◌≤◌, List, [], ◌∷◌, ◌≡◌, ◌≢◌, refl, arith, All, String}
use sneakerbid.Browser.Bidding.{
  LogItem, Item, Page, bid_step, begin_bid, handle_new_bid, fail, display_current_price,
}
use sneakerbid.Browser.Bidding.Shown.{display_current_price_bounds}

-- The events of bids, in the order in which they come.
unfoldable pub receive : List LogItem → Page → Page
unfolding handle_new_bid
receive [] s = s
receive (b ∷ bids) s = receive bids (handle_new_bid b s)

-- The amount of the last event.
abbrev pub last_amount : ℕ → List LogItem → ℕ
last_amount n [] = n
last_amount n (b ∷ bids) = last_amount b.amount bids

receive-bid_amount : (bids : List LogItem) (s : Page) → (receive bids s).bid_amount ≡ s.bid_amount
unfolding receive
receive-bid_amount [] s = refl
receive-bid_amount (b ∷ bids) s = receive-bid_amount bids (handle_new_bid b s)

receive-current_price :
    (bids : List LogItem) (s : Page)
    → (receive bids s).current_price ≡ last_amount s.current_price bids
unfolding receive
receive-current_price [] s = refl
receive-current_price (b ∷ bids) s = receive-current_price bids (handle_new_bid b s)

-- The last event stands first in the history.
abbrev Heads : ℕ → List LogItem → Type 0
Heads n [] = ⊥
Heads n (b ∷ bids) = b.amount ≡ n

receive-Heads :
    (b : LogItem) (bids : List LogItem) (s : Page)
    → Heads (last_amount b.amount bids) (receive (b ∷ bids) s).bid_history
unfolding receive
receive-Heads b [] s = refl
receive-Heads b (c ∷ bids) s = receive-Heads c bids (handle_new_bid b s)

Heads-le :
    (n m : ℕ) (bids : List LogItem)
    → Heads n bids
    → All (λ (b : LogItem). b.amount ≤ m) bids
    → n ≤ m
Heads-le n m [] h a = absurd h
Heads-le n m (b ∷ bids) h a = omega (arith, h, a.0)

-- A bid that fails with no event since leaves the price and the amount that is entered as they were.
fail_alone :
    (item : Item) (msg : String) (s : Page)
    → fail item s msg (begin_bid item s) ≡ record s { bid_error = msg }
unfolding fail begin_bid
fail_alone item msg s = ground arith

module _ (digits : ℕ → ℕ) (item : Item) (msg : String) (s : Page) where
  -- A bid that fails takes back just what it set itself. Without an event since, only the message is
  -- new; after events the amount that is entered is what it was before the press, the last event's
  -- amount is the current price unless it is the amount of the bid, and the price that is shown is at
  -- least the last event's amount in any case.
  pub fail-receive :
      (fail item s msg (begin_bid item s) ≡ record s { bid_error = msg })
      × ((b : LogItem) (bids : List LogItem)
          → let t = fail item s msg (receive (b ∷ bids) (begin_bid item s)) in
            (t.bid_amount ≡ s.bid_amount)
            × (last_amount b.amount bids ≢ s.bid_amount
                → t.current_price ≡ last_amount b.amount bids)
            × (last_amount b.amount bids ≤ display_current_price digits t))
  unfolding fail begin_bid
  fail-receive = (
    fail_alone item msg s,
    λ b bids.
        let pending = receive (b ∷ bids) (begin_bid item s) in
        let t = fail item s msg pending in
        let price : pending.current_price ≡ last_amount b.amount bids =
          receive-current_price (b ∷ bids) (begin_bid item s) in
        let entered : pending.bid_amount ≡ s.bid_amount + bid_step item =
          receive-bid_amount (b ∷ bids) (begin_bid item s) in
        (
          ground (arith, entered),
          λ other. ground (arith, price, other),
          Heads-le (last_amount b.amount bids) (display_current_price digits t) t.bid_history
              (receive-Heads b bids (begin_bid item s)) (display_current_price_bounds digits t).1,
        ),
  )
