-- ===== src/Orders/Payload.antt =====
-- The result of closing an auction, and its form in the column `postCloseFinalizePayload`
-- (backend/src/orders/orders.service.ts).
use sneakerbid.Base.{ℕ, Option, none, some, List, [], ◌∷◌, ◌≡◌, refl, arith, ◌==◌, if◌then◌else◌}
use sneakerbid.Store.Json.{Json, Items, Fields, get_field}

pub record LosingBid : Type 0 where
  pub user_id : ℕ
  pub bid_price : ℕ
  pub id : ℕ

pub record CloseResult : Type 0 where
  pub auction_id : ℕ
  pub winner_user_id : Option ℕ
  pub final_price : ℕ
  pub losing_bids : List LosingBid

-- The names of the fields.
abbrev key_v : ℕ
key_v = 0

abbrev key_winner : ℕ
key_winner = 1

abbrev key_price : ℕ
key_price = 2

abbrev key_losing : ℕ
key_losing = 3

abbrev key_user : ℕ
key_user = 4

abbrev key_bid : ℕ
key_bid = 5

abbrev key_id : ℕ
key_id = 6

-- `FINALIZE_PAYLOAD_VERSION`
abbrev finalize_payload_version : ℕ
finalize_payload_version = 1

abbrev json_of_id : Option ℕ → Json
json_of_id none = Json.null
json_of_id (some u) = Json.text u

abbrev json_of_losing_bid : LosingBid → Json
json_of_losing_bid b = Json.object (
    Fields.field key_user (Json.text b.user_id) (
      Fields.field key_bid (Json.number b.bid_price)
        (Fields.field key_id (Json.text b.id) Fields.end)))

abbrev items_of_losing_bids : List LosingBid → Items
items_of_losing_bids [] = Items.nil
items_of_losing_bids (b ∷ bs) = Items.cons (json_of_losing_bid b) (items_of_losing_bids bs)

unfoldable pub close_result_to_db_payload : CloseResult → Json
close_result_to_db_payload r = Json.object (
    Fields.field key_v (Json.number finalize_payload_version) (
      Fields.field key_winner (json_of_id r.winner_user_id) (
        Fields.field key_price (Json.number r.final_price)
          (Fields.field key_losing (Json.array (items_of_losing_bids r.losing_bids)) Fields.end))))

infixl 5 ◌>>=◌ ◌>>◌
abbrev ◌>>=◌ : {A B : Type 0} → Option A → (A → Option B) → Option B
none >>= f = none
some a >>= f = f a

abbrev ◌>>◌ : {A B : Type 0} → Option A → Option B → Option B
m >> k = m >>= λ _. k

-- `typeof x === 'number'`
abbrev as_number : Option Json → Option ℕ
as_number (some (Json.number n)) = some n
as_number _ = none

-- `typeof x === 'string'`
abbrev as_text : Option Json → Option ℕ
as_text (some (Json.text u)) = some u
as_text _ = none

-- `typeof x === 'object'`, but not `null`; an array is one without these fields.
abbrev fields_of : Json → Option Fields
fields_of (Json.object fs) = some fs
fields_of (Json.array _) = some Fields.end
fields_of _ = none

-- `Array.isArray`
abbrev as_array : Option Json → Option Items
as_array (some (Json.array xs)) = some xs
as_array _ = none

parse_losing_bid : Json → Option LosingBid
parse_losing_bid item = do
  fs ← fields_of item
  user_id ← as_text (get_field key_user fs)
  bid_price ← as_number (get_field key_bid fs)
  id ← as_text (get_field key_id fs)
  some (record { user_id = user_id; bid_price = bid_price; id = id })

parse_losing_bids : Items → Option (List LosingBid)
parse_losing_bids Items.nil = some []
parse_losing_bids (Items.cons x xs) = do
  b ← parse_losing_bid x
  bs ← parse_losing_bids xs
  some (b ∷ bs)

abbrev has_version : Option ℕ → Option (Unit {0})
has_version none = none
has_version (some v) = if v == finalize_payload_version then some tt else none

unfoldable pub parse_close_result_from_payload : ℕ → Json → Option CloseResult
unfolding parse_losing_bids parse_losing_bid
parse_close_result_from_payload auction_id raw = do
  fs ← fields_of raw
  has_version (as_number (get_field key_v fs))
  let winner_user_id = as_text (get_field key_winner fs)
  final_price ← as_number (get_field key_price fs)
  items ← as_array (get_field key_losing fs)
  losing_bids ← parse_losing_bids items
  some (record {
    auction_id = auction_id;
    winner_user_id = winner_user_id;
    final_price = final_price;
    losing_bids = losing_bids;
  })

parse_losing_bids-items :
    (bs : List LosingBid) → parse_losing_bids (items_of_losing_bids bs) ≡ some bs
unfolding parse_losing_bids parse_losing_bid
parse_losing_bids-items [] = refl
parse_losing_bids-items (b ∷ bs) = rw (parse_losing_bids-items bs) refl

-- A stored result is read back as it was.
pub parse_close_result-payload :
    (r : CloseResult)
    → parse_close_result_from_payload r.auction_id (close_result_to_db_payload r) ≡ some r
unfolding parse_close_result_from_payload close_result_to_db_payload
parse_close_result-payload r = ground (arith, parse_losing_bids-items r.losing_bids)
