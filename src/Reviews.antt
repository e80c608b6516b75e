-- ===== src/Reviews.antt =====
-- backend/src/reviews/reviews.service.ts with backend/src/database/repositories/review.repository.ts.
pub mod Parties
mod Tests
use sneakerbid.Base.{
  ℕ, Bool, true, false, Option, none, some, List, [], ◌∷◌, ◌&&◌, ◌==◌, leb, if◌then◌else◌, not, any,
  String, same_text,
}
use sneakerbid.Store.Rows.{Auction, Order, Db, is_paid}
use sneakerbid.Store.Table.{find}
use sneakerbid.Store.Tx.{Result, Error, ok, err}

-- `ReviewRow`
pub record Review : Type 0 where
  pub id : ℕ
  pub order_id : ℕ
  pub author_user_id : ℕ
  pub target_user_id : ℕ
  pub rating : ℕ
  pub comment : Option String
  pub created_at : ℕ

-- `OrderReviewContextRow` of backend/src/database/repositories/order.repository.ts
pub record ReviewContext : Type 0 where
  pub buyer_user_id : ℕ
  pub seller_user_id : ℕ
  pub paid : Bool

abbrev pub context_of : Order → Option Auction → Option ReviewContext
context_of o none = none
context_of o (some a) = some (record {
  buyer_user_id = o.buyer_user_id;
  seller_user_id = a.seller_user_id;
  paid = is_paid o.status;
})

abbrev pub joined : Option Order → Db → Option ReviewContext
joined none db = none
joined (some o) db = context_of o (find (λ a. a.id) o.auction_id db.auctions)

-- `findForReview`
unfoldable pub find_for_review : ℕ → Db → Option ReviewContext
find_for_review order_id db = joined (find (λ o. o.id) order_id db.orders) db

-- The other party of the trade.
abbrev pub target_of : ℕ → ReviewContext → Option ℕ
target_of u c =
    if u == c.buyer_user_id
    then some c.seller_user_id
    else if u == c.seller_user_id
    then some c.buyer_user_id
    else none

abbrev pub is_by : ℕ → ℕ → Review → Bool
is_by order_id author r = r.order_id == order_id && r.author_user_id == author

-- The INSERT, with the constraints on the rating and on one review of each author
unfoldable pub insert : Review → List Review → Result (List Review)
insert r rs =
    if not (leb 1 r.rating && leb r.rating 5)
    then err Error.check_violation
    else if any (is_by r.order_id r.author_user_id) rs
    then err Error.unique_violation
    else ok (r ∷ rs)

-- `comment || null`
abbrev pub or_null : Option String → Option String
or_null none = none
or_null (some t) = if same_text t "" then none else some t

abbrev pub trimmed : (String → String) → Option String → Option String
trimmed trim none = none
trimmed trim (some t) = some (trim t)

module _ (trim : String → String) where
  abbrev pub new_review : ℕ → ℕ → ℕ → ℕ → ℕ → Option String → ℕ → Review
  new_review id order_id author target rating comment now = record {
    id = id;
    order_id = order_id;
    author_user_id = author;
    target_user_id = target;
    rating = rating;
    comment = or_null (trimmed trim comment);
    created_at = now;
  }

  abbrev pub review_target :
      ℕ → ℕ → ℕ → ℕ → Option String → ℕ → Option ℕ → List Review → Result (List Review)
  unfolding insert
  review_target id order_id u rating comment now none rs = err Error.not_a_party
  review_target id order_id u rating comment now (some target) rs =
      if any (is_by order_id u) rs
      then err Error.already_reviewed
      else insert (new_review id order_id u target rating comment now) rs

  abbrev pub review_context :
      ℕ → ℕ → ℕ → ℕ → Option String → ℕ → Option ReviewContext → List Review → Result (List Review)
  unfolding insert
  review_context id order_id u rating comment now none rs = err Error.no_order_to_review
  review_context id order_id u rating comment now (some c) rs =
      if c.paid
      then review_target id order_id u rating comment now (target_of u c) rs
      else err Error.order_not_paid

  -- `createForOrder`: the reviews afterwards.
  unfoldable pub create_for_order :
      ℕ → ℕ → ℕ → ℕ → Option String → ℕ → Db → List Review → Result (List Review)
  unfolding find_for_review insert
  create_for_order id order_id u rating comment now db rs =
      review_context id order_id u rating comment now (find_for_review order_id db) rs
