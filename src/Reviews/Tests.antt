-- ===== src/Reviews/Tests.antt =====
-- The buyer of a paid order reviews its seller.
use sneakerbid.Base.{ℕ, ◌≤◌, true, false, some, none, Option, [], ◌∷◌, ◌≡◌, ◌⊎◌, refl, any, String}
use sneakerbid.Store.Rows.{Auction, Order, Db, is_paid}
use sneakerbid.Store.Table.{find}
use sneakerbid.Store.Tx.{err, Error}
use sneakerbid.Samples.{db, pending_order}
use sneakerbid.Orders.{paid_order}
use sneakerbid.Reviews.{Review, create_for_order, find_for_review, insert, is_by, new_review}
use sneakerbid.Reviews.Parties.{create_for_order-ok}

abbrev paid : Db
paid = record db { orders = paid_order 60002 pending_order ∷ [] }

abbrev trim : String → String
trim t = t

abbrev review : Review
review = new_review trim 90 30 3 1 5 none 70000

create_for_order-ok_example :
    (o : Order) × (a : Auction) × (target : ℕ) × (find (λ x. x.id) 30 paid.orders ≡ some o)
    × (find (λ x. x.id) o.auction_id paid.auctions ≡ some a)
    × (is_paid o.status ≡ true)
    × (((3 ≡ o.buyer_user_id) × (target ≡ a.seller_user_id))
        ⊎ ((3 ≡ a.seller_user_id) × (target ≡ o.buyer_user_id)))
    × (1 ≤ 5)
    × (5 ≤ 5)
    × (any (is_by 30 3) [] ≡ false)
    × (review ∷ [] ≡ new_review trim 90 30 3 target 5 none 70000 ∷ [])
    × ((id rating : ℕ) (comment : Option String) (later : ℕ)
        → create_for_order trim id 30 3 rating comment later paid (review ∷ [])
          ≡ err Error.already_reviewed)
unfolding create_for_order find_for_review insert
create_for_order-ok_example =
    create_for_order-ok trim 90 30 3 5 none 70000 paid [] (review ∷ []) refl
