-- ===== src/Browser/Items/Tests.antt =====
-- The items of an auction before and after its end.
use sneakerbid.Base.{ℕ, not, none, ◌≡◌, refl, String}
use sneakerbid.Samples.{auction, sneaker}
use sneakerbid.Listing.{Entry, to_summary, is_ongoing}
use sneakerbid.Listing.Detail.{detail_status}
use sneakerbid.Browser.Bidding.{ending_soon, is_terminal}
use sneakerbid.Browser.Items.{summary_to_auction_item, summary_to_item}
use sneakerbid.Browser.Items.Agreement.{is_over_detail, summary_to_auction_item-detail_status}

abbrev entry : Entry
entry = record {
  auction = auction;
  sneaker = sneaker;
  bid_count = 3;
  created_at = 0;
  updated_at = 0;
}

abbrev number_of : String → ℕ
number_of s = 270

-- A minute before the end.
last_minute :
    (summary_to_auction_item number_of 1000 (to_summary 1000 none entry)).status ≡ ending_soon
unfolding summary_to_auction_item to_summary
last_minute = refl

summary_to_auction_item-detail_status_example :
    let s = to_summary 60000 none entry in
    (is_terminal (summary_to_auction_item number_of 60000 s).status ≡ not (is_ongoing 60000 entry))
    × (is_terminal (summary_to_item number_of s).status ≡ not (is_ongoing 60000 entry))
    × (is_over_detail (detail_status 60000 entry.auction) ≡ not (is_ongoing 60000 entry))
summary_to_auction_item-detail_status_example =
    summary_to_auction_item-detail_status number_of 60000 none entry
