-- ===== src/Auctions/Methods.antt =====
-- The methods `placeBid`, `placeBidAsBot` and `patchAuctions` of backend/src/auctions/auctions.service.ts: the
-- transaction, and after its commit the events and the notifications.
use sneakerbid.Base.{
  Bool, ℕ, true, false, Option, none, some, List, [], ◌∷◌, ◌&&◌, ◌==◌, if◌then◌else◌, not, length,
  filter_by,
}
use sneakerbid.Store.Rows.{User, Auction, Db, Wishlist, Sneaker}
use sneakerbid.Store.Table.{find}
use sneakerbid.Service.{
  Action, Message, ◌>>=◌, ◌>>◌, pure, reads, in_transaction, if_reached, send, emit_new_bid,
}
use sneakerbid.Auctions.{place_bid_tx, place_bid_as_bot_tx}
use sneakerbid.Auctions.Editing.{UpdateAuctionDto, check_patch, patch_tx}
use sneakerbid.Store.Tx.{ok}

-- `countByAuctionId`: every bid on the auction, disqualified or not.
unfoldable pub count_by_auction_id : ℕ → Db → ℕ
count_by_auction_id auction_id db = length (filter_by (λ b. b.auction_id == auction_id) db.bids)

-- `notifyBidOvertaken` goes to a previous leader who is someone else.
abbrev pub notify_overtaken : Option ℕ → ℕ → ℕ → Action (Unit {0})
notify_overtaken none user_id auction_id = pure tt
notify_overtaken (some leader) user_id auction_id =
    if leader == user_id then pure tt else send (Message.bid_overtaken leader auction_id)

-- `findByIdWithSneaker` finds the auction joined with its sneaker.
abbrev pub joined_sneaker : Option Auction → Db → Option Sneaker
joined_sneaker none db = none
joined_sneaker (some a) db = find (λ s. s.id) a.sneaker_id db.sneakers

-- One message to each user who wishes for the auction, the bidder left out.
pub notify_wishlist : List Wishlist → ℕ → ℕ → ℕ → Action (Unit {0})
notify_wishlist [] user_id auction_id price = pure tt
notify_wishlist (l ∷ ls) user_id auction_id price =
    let rest = notify_wishlist ls user_id auction_id price in
    if (l.auction_id == auction_id) && not (l.user_id == user_id)
    then (λ w.
        rest
          (record w { sent = Message.wishlist_bid_activity l.user_id auction_id price ∷ w.sent }))
    else rest

abbrev pub notify_wishes : Option Sneaker → ℕ → ℕ → ℕ → Action (Unit {0})
notify_wishes none user_id auction_id price = pure tt
notify_wishes (some _) user_id auction_id price =
    λ w. notify_wishlist w.db.wishlists user_id auction_id price w

pub record BidPlaced : Type 0 where
  pub bid_id : ℕ
  pub current_price : ℕ

-- `placeBid`
unfoldable pub place_bid : ℕ → ℕ → ℕ → User → ℕ → Action BidPlaced
unfolding count_by_auction_id notify_wishlist
place_bid bid_id auction_id bid_price user now = do
  previous_leader ← in_transaction (place_bid_tx bid_id auction_id bid_price user.id now)
  participants ← reads (count_by_auction_id auction_id)
  emit_new_bid (Message.new_bid auction_id bid_id user.nickname bid_price false participants)
  notify_overtaken previous_leader user.id auction_id
  sneaker ← reads (λ db. joined_sneaker (find (λ a. a.id) auction_id db.auctions) db)
  notify_wishes sneaker user.id auction_id bid_price
  pure (record { bid_id = bid_id; current_price = bid_price })

abbrev after_bot_bid : Bool → ℕ → ℕ → ℕ → User → Option (Option ℕ) → Action (Option BidPlaced)
after_bot_bid counted bid_id auction_id bid_price bot none = pure none
after_bot_bid counted bid_id auction_id bid_price bot (some previous_leader) = do
  participants ← if_reached counted (reads (count_by_auction_id auction_id))
  emit_new_bid (Message.new_bid auction_id bid_id bot.nickname bid_price true participants)
  notify_overtaken previous_leader bot.id auction_id
  pure (some (record { bid_id = bid_id; current_price = bid_price }))

-- `placeBidAsBot`; `counted` tells whether the database is reached for the count after the commit.
unfoldable pub place_bid_as_bot : Bool → ℕ → ℕ → ℕ → User → ℕ → ℕ → Action (Option BidPlaced)
unfolding count_by_auction_id
place_bid_as_bot counted bid_id auction_id bid_price bot strategy now = do
  taken ← in_transaction (place_bid_as_bot_tx bid_id auction_id bid_price bot.id strategy now)
  after_bot_bid counted bid_id auction_id bid_price bot taken

abbrev if_joined : Option Auction → Option Sneaker → Option Auction
if_joined a none = none
if_joined a (some _) = a

-- `getAuctionByIdRaw`: the auction joined with its sneaker
unfoldable pub get_auction_by_id_raw : ℕ → Db → Option Auction
get_auction_by_id_raw id db =
    let a = find (λ x. x.id) id db.auctions in if_joined a (joined_sneaker a db)

-- What other requests commit while a method waits.
abbrev pub meanwhile : (Db → Db) → Action (Unit {0})
meanwhile others w = (ok tt, record w { db = others w.db })

-- `patchAuctions`; its answer is the row, and `others` is what was committed between its checks and
-- its transaction.
unfoldable pub patch_auctions :
    ℕ → UpdateAuctionDto → ℕ → (Db → Db) → ℕ → ℕ → Action (Option Auction)
unfolding check_patch patch_tx get_auction_by_id_raw
patch_auctions auction_id dto user_id others now later = do
  found ← reads (get_auction_by_id_raw auction_id)
  a ← in_transaction (check_patch found dto user_id now later)
  meanwhile others
  in_transaction (patch_tx a dto now)
