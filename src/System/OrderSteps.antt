-- ===== src/System/OrderSteps.antt =====
-- What a transaction does to the orders.
use sneakerbid.Base.{
  ℕ, false, Option, none, some, List, ◌≡◌, refl, inl, inr, ap, sym, ◌∙◌, [], ◌∷◌, String,
}
use sneakerbid.Store.Rows.{Order, Db, BidSourceType}
use sneakerbid.Store.Table.{find, update}
use sneakerbid.Store.Tx.{ok}
use sneakerbid.Store.Lock.{LockOptions}
use sneakerbid.Store.Client.{active_bids}
use sneakerbid.Auctions.{place_bid_as_bot_tx}
use sneakerbid.Auctions.Bidding.{bid_taken, place_bid_tx-ok, place_bid_as_bot_tx-ok}
use sneakerbid.Auctions.Patching.{create_auction-ok}
use sneakerbid.Auctions.Deletion.{delete_auction-ok}
use sneakerbid.Orders.{execute_close_in_transaction, new_order, cancel_and_reopen, cancelled_order}
use sneakerbid.Orders.Payload.{CloseResult, LosingBid}
use sneakerbid.Orders.Finalize.{set_payload}
use sneakerbid.Orders.Closing.{execute_close-IsClosing, execute_close-none}
use sneakerbid.Orders.CloseWith.{orders_after, blocked}
use sneakerbid.Orders.Buying.{buy_now_tx-ok}
use sneakerbid.Orders.Payment.{pay_order_tx-orders}
use sneakerbid.Orders.Releases.{released, release_each, released-orders, release_all-release_each}
use sneakerbid.Orders.Reopening.{cancel_and_reopen_cases, reopen_with-ok}
use sneakerbid.System.{
  Step, bid, bot_bid, close, release, store_payload, cancel, pay_order, buy_now, create, patch,
  delete, relist, top_up,
}
use sneakerbid.System.Moves.{OrdersMove}
use sneakerbid.System.Effects.{
  place_bid_as_bot_tx-none, patch_tx-kept, insert_after_bot_win-kept, auction_update-kept,
}

release_each-orders : (ls : List LosingBid) (db : Db) → (release_each ls db).orders ≡ db.orders
unfolding release_each
release_each-orders [] db = refl
release_each-orders (l ∷ ls) db =
    release_each-orders ls (released l.user_id l.bid_price l.id db)
    ∙ released-orders l.user_id l.bid_price l.id db

bid_taken-orders :
    (bid_id auction_id price user_id now : ℕ) (source : BidSourceType) (strategy : Option ℕ)
    (db : Db)
    → (bid_taken bid_id auction_id price user_id now source strategy db).orders ≡ db.orders
unfolding bid_taken
bid_taken-orders bid_id auction_id price user_id now source strategy db = refl

bot_bid-moves :
    (bid_id auction_id price user_id strategy now : ℕ) (l : Option (Option ℕ)) (db d : Db)
    → place_bid_as_bot_tx bid_id auction_id price user_id strategy now db ≡ ok (l, d)
    → d.orders ≡ db.orders
bot_bid-moves bid_id auction_id price user_id strategy now none db d e =
    ap (λ (x : Db). x.orders)
      (place_bid_as_bot_tx-none bid_id auction_id price user_id strategy now db d e)
bot_bid-moves bid_id auction_id price user_id strategy now (some l) db d e =
    let (_, _, _, _, after) =
      place_bid_as_bot_tx-ok bid_id auction_id price user_id strategy now l db d e in
    ap (λ (x : Db). x.orders) after
    ∙ bid_taken-orders bid_id auction_id price user_id now BidSourceType.from_bot (some strategy) db

closed-moves :
    (order_id auction_id price now : ℕ) (w : Option ℕ) (db d : Db)
    → find (λ x. x.id) order_id db.orders ≡ none
    → blocked auction_id w db.orders ≡ false
    → d.orders ≡ orders_after order_id auction_id w price now db.orders
    → OrdersMove db d
closed-moves order_id auction_id price now none db d fresh free e = OrdersMove.kept e
closed-moves order_id auction_id price now (some u) db d fresh free e =
    OrdersMove.placed (new_order order_id auction_id u price now) refl fresh free e

close-moves :
    (order_id auction_id now : ℕ) (o : LockOptions) (r : Option CloseResult) (db d : Db)
    → find (λ x. x.id) order_id db.orders ≡ none
    → execute_close_in_transaction order_id auction_id o now db ≡ ok (r, d)
    → OrdersMove db d
close-moves order_id auction_id now o none db d fresh e =
    OrdersMove.kept
      (ap (λ (x : Db). x.orders) (execute_close-none order_id auction_id now o db d e))
close-moves order_id auction_id now o (some r) db d fresh e =
    let c = execute_close-IsClosing order_id auction_id now o r db d e in
    closed-moves order_id auction_id r.final_price now r.winner_user_id db d fresh c.not_ordered
      c.ordered

cancel-moves :
    (reason : String) (now : ℕ) (o : Order) (db d : Db)
    → cancel_and_reopen reason now o db ≡ ok (tt, d)
    → OrdersMove db d
cancel-moves reason now o db d e = elim (cancel_and_reopen_cases reason now o db d e) [
  | inl (same, _) ↦ OrdersMove.kept (ap (λ (x : Db). x.orders) same)
  | inr (a, p, found, _, ordered, pending, k) ↦
      let os = update (λ x. x.id) o.id (cancelled_order reason) db.orders in
      let (_, orders) =
        reopen_with-ok now o a (active_bids o.auction_id db.bids) (record db { orders = os }) d
          found k in
      OrdersMove.dropped o.id reason p ordered pending orders
]

-- What a step does to the orders.
pub Step-OrdersMove : (db d : Db) → Step db d → OrdersMove db d
Step-OrdersMove db d (bid bid_id auction_id price user_id now l e) =
    let (_, _, _, _, after) = place_bid_tx-ok bid_id auction_id price user_id now l db d e in
    OrdersMove.kept (
      ap (λ (x : Db). x.orders) after
      ∙ bid_taken-orders bid_id auction_id price user_id now BidSourceType.from_user none db)
Step-OrdersMove db d (bot_bid bid_id auction_id price user_id strategy now l e) =
    OrdersMove.kept (bot_bid-moves bid_id auction_id price user_id strategy now l db d e)
Step-OrdersMove db d (close order_id auction_id now o r fresh e) =
    close-moves order_id auction_id now o r db d fresh e
Step-OrdersMove db d (release ls e) =
    let same : release_each ls db ≡ d = cc (release_all-release_each ls db) in
    OrdersMove.kept (ap (λ (x : Db). x.orders) (sym same) ∙ release_each-orders ls db)
Step-OrdersMove db d (store_payload auction_id p r e) =
    OrdersMove.kept (auction_update-kept auction_id (set_payload p) r db d e)
Step-OrdersMove db d (cancel reason now o e) = cancel-moves reason now o db d e
Step-OrdersMove db d (pay_order row w user_id now r e) =
    let (o, found, pending, _, orders) = pay_order_tx-orders row w user_id now r db d e in
    OrdersMove.settled row.order.id now o found pending orders
Step-OrdersMove db d (buy_now order_id auction_id price user_id now o fresh e) =
    let (_, _, _, _, free, is_o, after) =
      buy_now_tx-ok order_id auction_id price user_id now o db d e in
    OrdersMove.placed (new_order order_id auction_id user_id price now) refl fresh free
      (ap (λ (x : Db). x.orders) after ∙ ap (λ x. x ∷ db.orders) is_o)
Step-OrdersMove db d (create auction_id sneaker_id user_id now dto a e) =
    let (_, _, _, _, _, _, _, _, after) =
      create_auction-ok auction_id sneaker_id user_id now dto a db d e in
    OrdersMove.kept (ap (λ (x : Db). x.orders) after)
Step-OrdersMove db d (patch a dto now r e) =
    let (_, orders) = patch_tx-kept a dto now r db d e in OrdersMove.kept orders
Step-OrdersMove db d (delete auction_id user e) =
    let (_, _, _, _, none_left, _, orders, _, _, _) = delete_auction-ok auction_id user db d e in
    OrdersMove.purged auction_id none_left orders
Step-OrdersMove db d (relist id winner end_time a inserted e) =
    let (_, orders) = insert_after_bot_win-kept id winner end_time a inserted db d e in
    OrdersMove.kept orders
Step-OrdersMove db d (top_up u n e) = OrdersMove.kept (ap (λ (x : Db). x.orders) e)
