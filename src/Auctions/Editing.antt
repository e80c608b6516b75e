-- ===== src/Auctions/Editing.antt =====
-- `createAuction`, `patchAuctions` and `deleteAuction` of backend/src/auctions/auctions.service.ts.
use sneakerbid.Base.{
  ℕ, Bool, true, false, Option, none, some, List, [], ◌∷◌, ◌==◌, ◌&&◌, ◌||◌, ltb, leb,
  if◌then◌else◌, not, any, is_some, String, same_text,
}
use sneakerbid.Store.Rows.{User, UserRole, Auction, AuctionStatus, Sneaker, is_opened}
use sneakerbid.Store.Tx.{Tx, Error, ◌>>=◌, ◌>>◌, pure, throw_if, or_throw}
use sneakerbid.Store.Client.{
  user_find, sneaker_create, sneaker_update, auction_create, auction_update, auction_find,
}
use sneakerbid.Store.Lock.{lock_auction_for_update, open_after}
use sneakerbid.Store.Deletes.{
  count_bids_in_tx, find_auction_for_delete_lock, count_blocking_orders_in_tx,
  delete_orders_by_auction_in_tx, delete_auction_by_id_in_tx, delete_sneaker_by_id_in_tx,
}

-- `AUCTION_BRANDS` and `AUCTION_SIZES` of backend/src/common/constants/auction.constants.ts
abbrev pub auction_brands : List String
auction_brands =
    "Nike" ∷ "Adidas" ∷ "New Balance" ∷ "Jordan" ∷ "Converse" ∷ "Puma" ∷ "Asics" ∷ "Vans" ∷ "Reebok"
    ∷ "Yeezy" ∷ []

abbrev pub auction_sizes : List String
auction_sizes = "250" ∷ "255" ∷ "260" ∷ "265" ∷ "270" ∷ "275" ∷ "280" ∷ "285" ∷ []

unfoldable pub includes : List String → String → Bool
includes xs s = any (same_text s) xs

-- The body of the request; its end time as it was parsed, where that succeeds.
pub record CreateAuctionDto : Type 0 where
  pub model_name : String
  pub brand : String
  pub color : String
  pub description : String
  pub image_url : String
  pub size : String
  pub start_price : ℕ
  pub buy_now_price : Option ℕ
  pub minimum_increment : ℕ
  pub end_time : Option ℕ

-- `dto.buyNowPrice != null && dto.buyNowPrice < dto.startPrice`
abbrev pub is_below : Option ℕ → ℕ → Bool
is_below none start = false
is_below (some price) start = ltb price start

-- `Number.isNaN(t.getTime()) || t <= now`
abbrev pub is_bad_end : Option ℕ → ℕ → Bool
is_bad_end none now = true
is_bad_end (some t) now = leb t now

abbrev pub new_sneaker : ℕ → ℕ → CreateAuctionDto → Sneaker
new_sneaker sneaker_id now dto = record {
  id = sneaker_id;
  model_name = dto.model_name;
  brand = dto.brand;
  colorway = some dto.color;
  description = some dto.description;
  image_url = dto.image_url;
  created_at = now;
}

abbrev pub new_auction : ℕ → ℕ → ℕ → ℕ → CreateAuctionDto → Auction
new_auction auction_id sneaker_id user_id end_time dto = record {
  id = auction_id;
  sneaker_id = sneaker_id;
  size = dto.size;
  start_price = dto.start_price;
  current_price = dto.start_price;
  buy_now_price = dto.buy_now_price;
  minimum_increment = dto.minimum_increment;
  status = AuctionStatus.opened;
  end_time = end_time;
  winner_user_id = none;
  closed_at = none;
  last_extended_at = none;
  extend_count = 0;
  seller_user_id = user_id;
  relisted_from_auction_id = none;
  post_close_finalize_payload = none;
}

-- `createAuction`: its checks come before the transaction and read nothing of the database.
unfoldable pub create_auction : ℕ → ℕ → CreateAuctionDto → ℕ → ℕ → Tx Auction
unfolding user_find sneaker_create auction_create
create_auction auction_id sneaker_id dto user_id now = do
  throw_if (not (includes auction_brands dto.brand)) Error.brand_not_allowed
  throw_if (not (includes auction_sizes dto.size)) Error.size_not_allowed
  throw_if (is_below dto.buy_now_price dto.start_price) Error.buy_now_below_start
  throw_if (is_bad_end dto.end_time now) Error.bad_end_time
  end_time ← or_throw dto.end_time Error.bad_end_time
  found ← user_find user_id
  u ← or_throw found Error.unknown_user
  s ← sneaker_create (new_sneaker sneaker_id now dto)
  auction_create (new_auction auction_id s.id u.id end_time dto)

-- A missing field is `none`. A text that is empty counts as missing. The end time is parsed.
pub record UpdateAuctionDto : Type 0 where
  pub name : Option String
  pub brand : Option String
  pub size : Option String
  pub color : Option String
  pub description : Option String
  pub image_url : Option String
  pub start_price : Option ℕ
  pub buy_now_price : Option ℕ
  pub minimum_increment : Option ℕ
  pub end_time : Option (Option ℕ)

-- `if (text)`
abbrev pub given : Option String → Option String
given none = none
given (some s) = if same_text s "" then none else some s

-- A field that is given has to be in the list.
abbrev pub not_listed : Option String → List String → Bool
not_listed none xs = false
not_listed (some s) xs = not (includes xs s)

abbrev pub is_zero : Option ℕ → Bool
is_zero none = false
is_zero (some n) = n == 0

abbrev pub is_bad_new_end : Option (Option ℕ) → ℕ → Bool
is_bad_new_end none now = false
is_bad_new_end (some t) now = is_bad_end t now

-- `typeof x === 'number' ? x : y`
abbrev pub or_price : Option ℕ → Option ℕ → Option ℕ
or_price (some n) old = some n
or_price none old = old

-- `?? undefined` of a parsed end time; a text that cannot be parsed was refused before.
abbrev pub new_end : Option (Option ℕ) → ℕ → ℕ
new_end (some (some t)) old = t
new_end _ old = old

abbrev pub or_number : Option ℕ → ℕ → ℕ
or_number none old = old
or_number (some n) old = n

abbrev pub or_text : Option String → String → String
or_text none old = old
or_text (some s) old = s

abbrev pub or_some : Option String → Option String → Option String
or_some none old = old
or_some (some s) old = some s

-- `sneakerUpdates`, and whether it has a key
abbrev pub edit_sneaker : UpdateAuctionDto → Sneaker → Sneaker
edit_sneaker dto s = record s {
  model_name = or_text (given dto.name) s.model_name;
  brand = or_text (given dto.brand) s.brand;
  colorway = or_some (given dto.color) s.colorway;
  description = or_some (given dto.description) s.description;
  image_url = or_text (given dto.image_url) s.image_url;
}

unfoldable pub edits_sneaker : UpdateAuctionDto → Bool
edits_sneaker dto =
    is_some (given dto.name)
    || is_some (given dto.brand)
    || is_some (given dto.color)
    || is_some (given dto.description)
    || is_some (given dto.image_url)

-- `auctionUpdates`, and whether it has a key
abbrev pub edit_auction : UpdateAuctionDto → Auction → Auction
edit_auction dto a = record a {
  size = or_text (given dto.size) a.size;
  start_price = or_number dto.start_price a.start_price;
  current_price = or_number dto.start_price a.current_price;
  buy_now_price = or_price dto.buy_now_price a.buy_now_price;
  minimum_increment = or_number dto.minimum_increment a.minimum_increment;
  end_time = new_end dto.end_time a.end_time;
}

unfoldable pub edits_auction : UpdateAuctionDto → Bool
edits_auction dto =
    is_some (given dto.size)
    || is_some dto.start_price
    || is_some dto.buy_now_price
    || is_some dto.minimum_increment
    || is_some dto.end_time

-- An UPDATE without columns only reads the row.
abbrev pub update_if : Bool → ℕ → (Auction → Auction) → Tx (Option Auction)
update_if false id f = auction_find id
update_if true id f = auction_update id f

abbrev pub update_sneaker_if : Bool → ℕ → (Sneaker → Sneaker) → Tx (Unit {0})
update_sneaker_if false id f = pure tt
update_sneaker_if true id f = sneaker_update id f

-- The transaction of `patchAuctions`, for the auction that was read before.
unfoldable pub patch_tx : Auction → UpdateAuctionDto → ℕ → Tx (Option Auction)
unfolding lock_auction_for_update count_bids_in_tx
patch_tx a dto now = do
  locked ← lock_auction_for_update a.id (open_after now)
  throw_if (not locked) Error.not_editable
  bids ← count_bids_in_tx a.id
  throw_if (ltb 0 bids && is_some dto.start_price) Error.start_price_fixed
  throw_if (ltb 0 bids && is_some dto.buy_now_price) Error.buy_now_price_fixed
  update_sneaker_if (edits_sneaker dto) a.sneaker_id (edit_sneaker dto)
  update_if (edits_auction dto) a.id (edit_auction dto)

-- The checks of `patchAuctions` before its transaction; `later` is its second look at the clock.
unfoldable pub check_patch : Option Auction → UpdateAuctionDto → ℕ → ℕ → ℕ → Tx Auction
check_patch found dto user_id now later = do
  a ← or_throw found Error.auction_not_found
  throw_if (not (a.seller_user_id == user_id)) Error.not_permitted
  throw_if (not (is_opened a.status)) Error.not_open
  throw_if (leb a.end_time now) Error.already_ended
  throw_if (not_listed (given dto.brand) auction_brands) Error.brand_not_allowed
  throw_if (not_listed (given dto.size) auction_sizes) Error.size_not_allowed
  throw_if (is_zero dto.minimum_increment) Error.bad_increment
  throw_if (is_bad_new_end dto.end_time later) Error.bad_end_time
  throw_if
      (is_below (or_price dto.buy_now_price a.buy_now_price)
        (or_number dto.start_price a.start_price))
      Error.buy_now_below_start
  pure a

-- `user.role !== UserRole.ADMIN`, the other way round
abbrev pub is_admin : UserRole → Bool
is_admin UserRole.admin = true
is_admin _ = false

-- The transaction of `deleteAuction`
unfoldable pub delete_auction : ℕ → User → Tx (Unit {0})
unfolding find_auction_for_delete_lock count_bids_in_tx count_blocking_orders_in_tx
delete_auction auction_id user = do
  found ← find_auction_for_delete_lock auction_id
  a ← or_throw found Error.auction_not_found
  throw_if (not (is_admin user.role) && not (a.seller_user_id == user.id)) Error.not_permitted
  bids ← count_bids_in_tx auction_id
  throw_if (ltb 0 bids) Error.has_bids
  orders ← count_blocking_orders_in_tx auction_id
  throw_if (ltb 0 orders) Error.has_orders
  delete_orders_by_auction_in_tx auction_id
  delete_auction_by_id_in_tx auction_id
  delete_sneaker_by_id_in_tx a.sneaker_id
