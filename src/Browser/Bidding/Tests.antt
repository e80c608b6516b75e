-- ===== src/Browser/Bidding/Tests.antt =====
-- A bid on the page of an auction.
use sneakerbid.Base.{ℕ, false, none, some, [], ◌∷◌, ◌≡◌, refl}
use sneakerbid.Base.Int.{pos}
use sneakerbid.Browser.Bidding.{
  LogItem, Item, ongoing, mount, begin_bid, handle_new_bid, fail, handle_bid, sends,
  display_current_price, on_message, auction_closed,
}

abbrev logged : ℕ → ℕ → LogItem
logged id amount = record {
  id = id;
  user = "kim";
  amount = amount;
  time = "방금 전";
  is_bot = false;
  participant_count = none;
}

abbrev item : Item
item = record {
  current_bid = 120;
  participants = 3;
  minimum_increment = some 10;
  status = ongoing;
  bids = logged 1 110 ∷ logged 2 120 ∷ [];
}

-- The least bid is sent, and the page shows it at once.
sent :
    handle_bid (λ a. a) (λ n. "") (some (pos 500)) item (mount item)
    ≡ sends 130 (begin_bid item (mount item))
unfolding handle_bid mount
sent = refl

-- Another bid of the same amount came in before the refusal: the price that is shown is that bid's.
overtaken :
    display_current_price
      (λ a. a)
      (fail item (mount item) "" (handle_new_bid (logged 3 130) (begin_bid item (mount item))))
    ≡ 130
unfolding display_current_price fail handle_new_bid begin_bid mount
overtaken = refl

-- A malformed event changes nothing.
malformed : on_message (auction_closed (some 130) "OPEN" none) (mount item) ≡ mount item
unfolding on_message
malformed = refl
