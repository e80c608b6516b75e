-- ===== src/Orders/Stuck.antt =====
-- `closeExpiredAuctions` at an auction that has had an order before.
use sneakerbid.Base.{ℕ, true, none, some, List, ◌∷◌, ◌≡◌, refl, arith, ◌==◌, any, ◌<◌}
use sneakerbid.Store.Rows.{Auction, Bid, Db}
use sneakerbid.Store.Table.{find}
use sneakerbid.Store.Tx.{err, Error, transaction}
use sneakerbid.Store.Client.{active_bids, auction_check}
use sneakerbid.Store.Lock.{open_until, lock_condition}
use sneakerbid.Service.{World}
use sneakerbid.Orders.{closed_auction}
use sneakerbid.Orders.Closing.{execute_close-ordered_before}
use sneakerbid.Orders.Methods.{Turn, close_turns}

-- The turn's auction is due and has an active bid, its row meets the constraints when it is closed,
-- and it has an order of whatever status, such as one that was cancelled for want of payment.
pub record IsStuck (t : Turn) (now : ℕ) (db : Db) : Type 0 where
  pub auction : Auction
  pub top : Bid
  pub others : List Bid
  pub found : find (λ a. a.id) t.auction_id db.auctions ≡ some auction
  pub due : lock_condition true (some now) none auction ≡ true
  pub bid_on : active_bids t.auction_id db.bids ≡ top ∷ others
  pub holds : auction_check (closed_auction now (some top.user_id) top.bid_price auction) ≡ true
  pub ordered : any (λ o. o.auction_id == t.auction_id) db.orders ≡ true

-- When a turn of `closeExpiredAuctions` comes within the time limit for an auction that is due, has
-- an active bid, meets the constraints when it is closed, and has an order of whatever status, the
-- loop throws there: nothing has changed, and none of the turns after it is made.
pub close_turns-IsStuck :
    (t : Turn) (ts : List Turn) (now : ℕ) (w : World)
    → IsStuck t now w.db
    → t.elapsed < 55000
    → close_turns (t ∷ ts) now w ≡ (err Error.unique_violation, w)
unfolding close_turns transaction
close_turns-IsStuck t ts now w s early = ground (
  arith,
  execute_close-ordered_before t.order_id t.auction_id now (open_until now) w.db refl s.auction
      s.found s.due s.top s.others s.bid_on s.holds s.ordered,
)
