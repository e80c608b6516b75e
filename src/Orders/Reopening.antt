-- ===== src/Orders/Reopening.antt =====
-- An order that is cancelled, and its auction that is open again.
use sneakerbid.Base.{
  ℕ, Bool, true, false, Option, none, some, List, ◌≡◌, refl, arith, Option-cases, Bool-cases, inl,
  inr, ◌⊎◌, ◌∙◌, ap, sym, String, subst, [], ◌∷◌, ◌==◌, ◌&&◌, if◌then◌else◌, ◌+◌, ◌*◌,
}
use sneakerbid.Store.Rows.{Auction, Bid, Order, AuctionStatus, Db, is_opened, is_pending}
use sneakerbid.Store.Table.{find, update, find-update_self}
use sneakerbid.Store.Tx.{ok}
use sneakerbid.Store.Client.{
  active_bids, auction_check, auction_update, order_update_pending, bid_disqualify, disqualify,
}
use sneakerbid.Store.Laws.{>>=-eq-ok, auction_update-written, auction_update-violation}
use sneakerbid.Orders.{
  cancel_and_reopen, reopen_with, drop_winner, cancelled_order, reopened_auction, baseline_price,
  is_auction_winner, first_bid,
}
use sneakerbid.Orders.Releases.{released, release_bid_hold-released}
use sneakerbid.Orders.Payment.{clash}

-- The auctions and the orders are those of before.
abbrev SameTrade : Db → Db → Type 0
SameTrade db d = (d.auctions ≡ db.auctions) × (d.orders ≡ db.orders)

released-SameTrade : (u n b : ℕ) (db : Db) → SameTrade db (released u n b db)
unfolding released
released-SameTrade u n b db = (ground arith, ground arith)

drop_winner-SameTrade :
    (w : Bool) (b : Option Bid) (now : ℕ) (db d : Db)
    → drop_winner w b now db ≡ ok (tt, d)
    → SameTrade db d
unfolding bid_disqualify
drop_winner-SameTrade true (some b) now db d h =
    let db1 : Db = record db { bids = update (λ x. x.id) b.id (disqualify now) db.bids } in
    let same : released b.user_id b.bid_price b.id db1 ≡ d =
      cc (release_bid_hold-released b.user_id b.bid_price b.id db1) in
    subst (λ x. SameTrade db x) same (released-SameTrade b.user_id b.bid_price b.id db1)
drop_winner-SameTrade true none now db d h = (cc, cc)
drop_winner-SameTrade false b now db d h = (cc, cc)

auction_update-found :
    (id : ℕ) (f : Auction → Auction) (a : Auction) (r : Option Auction) (db d : Db)
    → ((x : Auction) → (f x).id ≡ x.id)
    → find (λ x. x.id) id db.auctions ≡ some a
    → auction_update id f db ≡ ok (r, d)
    → (find (λ x. x.id) id d.auctions ≡ some (f a)) × (d.orders ≡ db.orders)
auction_update-found id f a r db d keeps e h = elim (Bool-cases (auction_check (f a))) [
  | inl holds ↦
      let w = auction_update-written id f a db e holds in
      let same : record db { auctions = update (λ x. x.id) id f db.auctions } ≡ d = cc in
      subst (λ (x : Db). (find (λ y. y.id) id x.auctions ≡ some (f a)) × (x.orders ≡ db.orders))
        same (find-update_self (λ x. x.id) f keeps id db.auctions a e, refl)
  | inr fails ↦ absurd (clash (sym (auction_update-violation id f a db e fails) ∙ h))
]

-- The auction as a cancelled order leaves it.
abbrev pub reopened_by : ℕ → Order → Auction → List Bid → Auction
reopened_by now o a bids =
    reopened_auction now
      (baseline_price (is_auction_winner (first_bid bids) o.buyer_user_id o.final_price) bids
        a.start_price)
      a

pub reopen_with-ok :
    (now : ℕ) (o : Order) (a : Auction) (bids : List Bid) (db d : Db)
    → find (λ x. x.id) o.auction_id db.auctions ≡ some a
    → reopen_with now o a bids db ≡ ok (tt, d)
    → (find (λ x. x.id) o.auction_id d.auctions ≡ some (reopened_by now o a bids))
      × (d.orders ≡ db.orders)
reopen_with-ok now o a bids db d e h =
    let winning = is_auction_winner (first_bid bids) o.buyer_user_id o.final_price in
    let f = reopened_auction now (baseline_price winning bids a.start_price) in
    let (_, d1, e1, h1) = >>=-eq-ok (drop_winner winning (first_bid bids) now) _ {db = db} h in
    let (as1, os1) = drop_winner-SameTrade winning (first_bid bids) now db d1 e1 in
    let (r, d2, e2, h2) = >>=-eq-ok (auction_update o.auction_id f) _ {db = d1} h1 in
    let (written, os2) =
      auction_update-found o.auction_id f a r d1 d2 (λ x. refl)
        (ap (find (λ x. x.id) o.auction_id) as1 ∙ e) e2 in
    let same : d2 ≡ d = cc in
    subst
      (λ (x : Db).
        (find (λ y. y.id) o.auction_id x.auctions ≡ some (reopened_by now o a bids))
        × (x.orders ≡ db.orders))
      same (written, os2 ∙ os1)

module _ (reason : String) (now : ℕ) (o : Order) (a : Auction) (p : Order) (db : Db)
    (found : find (λ x. x.id) o.auction_id db.auctions ≡ some a)
    (is_closed : is_opened a.status ≡ false) (ordered : find (λ x. x.id) o.id db.orders ≡ some p)
    (open_order : is_pending p.status ≡ true) where
  abbrev pub cancelled_db : Db
  cancelled_db = record db { orders = update (λ x. x.id) o.id (cancelled_order reason) db.orders }

  cancel_and_reopen-reopen_with :
      cancel_and_reopen reason now o db
      ≡ reopen_with now o a (active_bids o.auction_id db.bids) cancelled_db
  unfolding cancel_and_reopen order_update_pending
  cancel_and_reopen-reopen_with =
      rw found (rw found (rw is_closed (rw ordered (rw open_order refl))))

-- What keeps an order from being cancelled: its auction is missing or open, or the order itself is
-- missing or no longer pending.
abbrev pub IsUnready : Order → Db → Type 0
IsUnready o db =
    (find (λ x. x.id) o.auction_id db.auctions ≡ none)
    ⊎ (((a : Auction) × (find (λ x. x.id) o.auction_id db.auctions ≡ some a)
          × (is_opened a.status ≡ true))
        ⊎ ((find (λ x. x.id) o.id db.orders ≡ none)
            ⊎ ((p : Order) × (find (λ x. x.id) o.id db.orders ≡ some p)
                × (is_pending p.status ≡ false))))

-- A cancellation that returns changes nothing, or it reopens the auction after the order's update.
pub cancel_and_reopen_cases :
    (reason : String) (now : ℕ) (o : Order) (db d : Db)
    → cancel_and_reopen reason now o db ≡ ok (tt, d)
    → ((d ≡ db) × IsUnready o db)
      ⊎ ((a : Auction) × (p : Order) × (found : find (λ x. x.id) o.auction_id db.auctions ≡ some a)
          × (is_closed : is_opened a.status ≡ false) × (ordered : find (λ x. x.id) o.id db.orders
              ≡ some p)
          × (open_order : is_pending p.status ≡ true) × (reopen_with now o a
                (active_bids o.auction_id db.bids)
                (record db { orders = update (λ x. x.id) o.id (cancelled_order reason) db.orders })
              ≡ ok (tt, d)))
unfolding cancel_and_reopen order_update_pending
cancel_and_reopen_cases reason now o db d h =
    elim (Option-cases (find (λ x. x.id) o.auction_id db.auctions)) [
      | inl missing ↦ inl (ground arith, inl missing)
      | inr (a, found) ↦ elim (Bool-cases (is_opened a.status)) [
        | inl still_open ↦ inl (ground arith, inr (inl (a, found, still_open)))
        | inr is_closed ↦ elim (Option-cases (find (λ x. x.id) o.id db.orders)) [
          | inl no_order ↦ inl (ground arith, inr (inr (inl no_order)))
          | inr (p, ordered) ↦ elim (Bool-cases (is_pending p.status)) [
            | inr not_pending ↦ inl (ground arith, inr (inr (inr (p, ordered, not_pending))))
            | inl open_order ↦ inr (
              a,
              p,
              found,
              is_closed,
              ordered,
              open_order,
              sym (
                    cancel_and_reopen-reopen_with reason now o a p db found is_closed ordered
                      open_order)
                  ∙ h,
            )
          ]
        ]
      ]
    ]

-- The price of the dearest of the bids, or else the start price, where a dearest bid that is the
-- buyer's at the price of the order does not count.
abbrev pub price_left : Order → ℕ → List Bid → ℕ
price_left o start [] = start
price_left o start (b ∷ []) =
    if b.user_id == o.buyer_user_id && b.bid_price == o.final_price then start else b.bid_price
price_left o start (b ∷ c ∷ bids) =
    if b.user_id == o.buyer_user_id && b.bid_price == o.final_price
    then c.bid_price
    else b.bid_price

-- The auction, open for an hour at a price.
abbrev pub open_again : ℕ → ℕ → Auction → Auction
open_again now price a = record a {
  status = AuctionStatus.opened;
  winner_user_id = none;
  closed_at = none;
  end_time = now + 60 * 60 * 1000;
  current_price = price;
  post_close_finalize_payload = none;
}
