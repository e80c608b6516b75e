-- ===== src/Store/Rows.antt =====
-- The rows of the database (backend/src/database/transaction-client.ts) with the enumerations of
-- backend/supabase/migrations. Identifiers are numbers, times are milliseconds, prices are natural
-- numbers, and balances and wallet amounts are integers.
use sneakerbid.Base.{ℕ, Bool, true, false, Option, List, String}
use sneakerbid.Base.Int.{ℤ}
use sneakerbid.Store.Json.{Json}

pub data UserRole : Type 0 where
  user admin bot : UserRole

pub data AuctionStatus : Type 0 where
  opened closed : AuctionStatus

pub data OrderStatus : Type 0 where
  pending paid failed cancelled : OrderStatus

pub data BidSourceType : Type 0 where
  from_user from_bot : BidSourceType

pub data WalletTxType : Type 0 where
  bid_hold bid_release payment refund adjustment : WalletTxType

pub data WalletRefType : Type 0 where
  auction_ref order_ref bid_ref system_ref : WalletRefType

pub record User : Type 0 where
  pub id : ℕ
  pub nickname : String
  pub role : UserRole
  pub balance : ℤ

pub record Sneaker : Type 0 where
  pub id : ℕ
  pub model_name : String
  pub brand : String
  pub colorway : Option String
  pub description : Option String
  pub image_url : String
  pub created_at : ℕ

pub record Auction : Type 0 where
  pub id : ℕ
  pub sneaker_id : ℕ
  pub size : String
  pub start_price : ℕ
  pub current_price : ℕ
  pub buy_now_price : Option ℕ
  pub minimum_increment : ℕ
  pub status : AuctionStatus
  pub end_time : ℕ
  pub winner_user_id : Option ℕ
  pub closed_at : Option ℕ
  pub last_extended_at : Option ℕ
  pub extend_count : ℕ
  pub seller_user_id : ℕ
  pub relisted_from_auction_id : Option ℕ
  pub post_close_finalize_payload : Option Json

pub record Bid : Type 0 where
  pub id : ℕ
  pub auction_id : ℕ
  pub user_id : ℕ
  pub bid_price : ℕ
  pub source_type : BidSourceType
  pub strategy_type : Option ℕ
  pub disqualified_at : Option ℕ

pub record Order : Type 0 where
  pub id : ℕ
  pub auction_id : ℕ
  pub buyer_user_id : ℕ
  pub final_price : ℕ
  pub status : OrderStatus
  pub failure_reason : Option String
  pub created_at : ℕ
  pub paid_at : Option ℕ

pub record WalletTransaction : Type 0 where
  pub user_id : ℕ
  pub amount : ℤ
  pub type : WalletTxType
  pub ref_type : WalletRefType
  pub ref_id : ℕ

pub record Wishlist : Type 0 where
  pub user_id : ℕ
  pub auction_id : ℕ

pub record Db : Type 0 where
  pub users : List User
  pub sneakers : List Sneaker
  pub auctions : List Auction
  pub bids : List Bid
  pub orders : List Order
  pub wallet_transactions : List WalletTransaction
  pub wishlists : List Wishlist

abbrev pub is_opened : AuctionStatus → Bool
is_opened AuctionStatus.opened = true
is_opened AuctionStatus.closed = false

abbrev pub is_pending : OrderStatus → Bool
is_pending OrderStatus.pending = true
is_pending _ = false

abbrev pub is_paid : OrderStatus → Bool
is_paid OrderStatus.paid = true
is_paid _ = false

abbrev pub is_bid_release : WalletTxType → Bool
is_bid_release WalletTxType.bid_release = true
is_bid_release _ = false

abbrev pub is_bid_hold : WalletTxType → Bool
is_bid_hold WalletTxType.bid_hold = true
is_bid_hold _ = false

abbrev pub is_bid_ref : WalletRefType → Bool
is_bid_ref WalletRefType.bid_ref = true
is_bid_ref _ = false
