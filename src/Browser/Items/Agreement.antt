-- ===== src/Browser/Items/Agreement.antt =====
-- Whether an auction is over, as the server's queries, the two forms of its answers and the client's
-- items say it.
use sneakerbid.Base.{
  ℕ, ◌+◌, ◌*◌, Bool, true, false, Option, ◌≡◌, refl, arith, not, String, Bool-cases, inl, inr, leb,
  ltb, or_else, same_text, if◌then◌else◌, ◌&&◌,
}
use sneakerbid.Store.Rows.{AuctionStatus, is_opened}
use sneakerbid.Listing.{Entry, to_summary, is_ongoing}
use sneakerbid.Listing.Detail.{DetailStatus, detail_status}
use sneakerbid.Browser.Bidding.{is_terminal, ongoing, closed}
use sneakerbid.Browser.Items.{
  status_text, terminal_status, status_by_time, build_item, summary_to_auction_item,
  summary_to_item,
}

abbrev pub is_over_detail : DetailStatus → Bool
is_over_detail DetailStatus.ongoing = false
is_over_detail DetailStatus.ending_soon = false
is_over_detail DetailStatus.closed = true
is_over_detail DetailStatus.failed = true

-- The status of a summary, by the columns that it is made of.
abbrev shown_status : AuctionStatus → ℕ → ℕ → AuctionStatus
shown_status t end_time now = if is_opened t && leb end_time now then AuctionStatus.closed else t

item-over :
    (t : AuctionStatus) (end_time now : ℕ)
    → is_terminal (
        or_else
          (terminal_status (status_text (shown_status t end_time now)))
          (status_by_time end_time now))
      ≡ not (is_opened t && ltb now end_time)
unfolding terminal_status
item-over AuctionStatus.closed end_time now = refl
item-over AuctionStatus.opened end_time now = elim (Bool-cases (leb end_time now)) [
  | inl e ↦ rw e (ground (arith, e))
  | inr e ↦ rw e (elim (Bool-cases (leb end_time (now + 60 * 1000))) [
    | inl f ↦ rw f (ground (arith, e))
    | inr f ↦ rw f (ground (arith, e))
  ])
]

list-over :
    (t : AuctionStatus) (end_time now : ℕ)
    → is_terminal
        (if same_text (status_text (shown_status t end_time now)) "OPEN" then ongoing else closed)
      ≡ not (is_opened t && ltb now end_time)
list-over AuctionStatus.closed end_time now = refl
list-over AuctionStatus.opened end_time now = elim (Bool-cases (leb end_time now)) [
  | inl e ↦ rw e (ground (arith, e))
  | inr e ↦ rw e (ground (arith, e))
]

module _ (number_of : String → ℕ) (now : ℕ) (wished : Option Bool) (e : Entry) where
  -- At one time the item that the client makes of a summary, the one that its lists make of it, and
  -- the page of the auction all say that the auction is over exactly when the server's lists of
  -- ongoing auctions leave it out.
  pub summary_to_auction_item-detail_status :
      let s = to_summary now wished e in
      (is_terminal (summary_to_auction_item number_of now s).status ≡ not (is_ongoing now e))
      × (is_terminal (summary_to_item number_of s).status ≡ not (is_ongoing now e))
      × (is_over_detail (detail_status now e.auction) ≡ not (is_ongoing now e))
  unfolding to_summary summary_to_auction_item summary_to_item build_item terminal_status
      detail_status
  summary_to_auction_item-detail_status = (
    item-over e.auction.status e.auction.end_time now,
    list-over e.auction.status e.auction.end_time now,
    ground arith,
  )
