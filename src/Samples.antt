-- ===== src/Samples.antt =====
-- Rows and a database on which the tests run: one auction with three bids of two users, whose money
-- is held.
use sneakerbid.Base.{ℕ, none, some, [], ◌∷◌}
use sneakerbid.Base.Int.{pos, negsuc}
use sneakerbid.Store.Rows.{
  User, UserRole, Auction, AuctionStatus, Bid, BidSourceType, Order, OrderStatus, Db, Sneaker,
  WalletTransaction, WalletTxType, WalletRefType,
}

abbrev pub seller : User
seller = record { id = 1; nickname = "park"; role = UserRole.user; balance = pos 0 }

abbrev pub kim : User
kim = record { id = 2; nickname = "kim"; role = UserRole.user; balance = pos 1000 }

abbrev pub lee : User
lee = record { id = 3; nickname = "lee"; role = UserRole.user; balance = pos 500 }

abbrev pub bot : User
bot = record { id = 4; nickname = "bot"; role = UserRole.bot; balance = pos 10 }

abbrev pub sneaker : Sneaker
sneaker = record {
  id = 5;
  model_name = "Air Max 1";
  brand = "Nike";
  colorway = none;
  description = none;
  image_url = "/air-max.webp";
  created_at = 0;
}

abbrev pub auction : Auction
auction = record {
  id = 10;
  sneaker_id = 5;
  size = "270";
  start_price = 90;
  current_price = 120;
  buy_now_price = some 900;
  minimum_increment = 10;
  status = AuctionStatus.opened;
  end_time = 60000;
  winner_user_id = none;
  closed_at = none;
  last_extended_at = none;
  extend_count = 0;
  seller_user_id = 1;
  relisted_from_auction_id = none;
  post_close_finalize_payload = none;
}

abbrev pub bid_of : ℕ → ℕ → ℕ → Bid
bid_of id user_id price = record {
  id = id;
  auction_id = 10;
  user_id = user_id;
  bid_price = price;
  source_type = BidSourceType.from_user;
  strategy_type = none;
  disqualified_at = none;
}

abbrev pub hold_of : ℕ → ℕ → ℕ → WalletTransaction
hold_of bid_id user_id one_less = record {
  user_id = user_id;
  amount = negsuc one_less;
  type = WalletTxType.bid_hold;
  ref_type = WalletRefType.bid_ref;
  ref_id = bid_id;
}

abbrev pub db : Db
db = record {
  users = seller ∷ kim ∷ lee ∷ bot ∷ [];
  sneakers = sneaker ∷ [];
  auctions = auction ∷ [];
  bids = bid_of 21 3 120 ∷ bid_of 20 2 110 ∷ bid_of 19 3 100 ∷ [];
  orders = [];
  wallet_transactions = hold_of 21 3 119 ∷ hold_of 20 2 109 ∷ hold_of 19 3 99 ∷ [];
  wishlists = [];
}

abbrev pub pending_order : Order
pending_order = record {
  id = 30;
  auction_id = 10;
  buyer_user_id = 3;
  final_price = 120;
  status = OrderStatus.pending;
  failure_reason = none;
  created_at = 60001;
  paid_at = none;
}
