-- ===== src/Auctions/SoftClose.antt =====
-- The soft close: how far bids can move the end of an auction.
use sneakerbid.Base.{ℕ, ◌+◌, ◌-◌, ◌*◌, ◌≤◌, ◌<◌, some, List, [], ◌∷◌, ◌≡◌, refl, arith, ◌∙◌, ◌⊎◌}
use sneakerbid.Store.Rows.{Auction}
use sneakerbid.Auctions.{build_bid_update_data}

-- A bid moves the end exactly when the auction closes within ten seconds and has been extended
-- fewer than three times; it then moves it by five minutes, counts the extension and notes the
-- time. Otherwise it leaves all three alone. In either case the price becomes the bid's.
pub build_bid_update_data_cases :
    (now price : ℕ) (a : Auction)
    → let b = build_bid_update_data now price a in
      (b.current_price ≡ price)
      × (((a.end_time ≤ now + 10000)
            × (a.extend_count < 3)
            × (b.end_time ≡ a.end_time + 300000)
            × (b.extend_count ≡ a.extend_count + 1)
            × (b.last_extended_at ≡ some now))
          ⊎ (((now + 10000 < a.end_time) ⊎ (3 ≤ a.extend_count))
              × (b.end_time ≡ a.end_time)
              × (b.extend_count ≡ a.extend_count)
              × (b.last_extended_at ≡ a.last_extended_at)))
unfolding build_bid_update_data
build_bid_update_data_cases now price a = grind arith

-- The bids that an auction takes, each with its time and its price.
unfoldable pub bid_all : List (ℕ × ℕ) → Auction → Auction
bid_all [] a = a
bid_all ((now, price) ∷ bids) a = bid_all bids (build_bid_update_data now price a)

-- The last end that the auction can still be given.
abbrev pub latest_end : Auction → ℕ
latest_end a = a.end_time + 300000 * (3 - a.extend_count)

latest_end-build_bid_update_data :
    (now price : ℕ) (a : Auction) → latest_end (build_bid_update_data now price a) ≡ latest_end a
unfolding build_bid_update_data
latest_end-build_bid_update_data now price a = ground arith

latest_end-bid_all :
    (bids : List (ℕ × ℕ)) (a : Auction) → latest_end (bid_all bids a) ≡ latest_end a
unfolding bid_all
latest_end-bid_all [] a = refl
latest_end-bid_all ((now, price) ∷ bids) a =
    latest_end-bid_all bids (build_bid_update_data now price a)
    ∙ latest_end-build_bid_update_data now price a

end_time-build_bid_update_data :
    (now price : ℕ) (a : Auction) → a.end_time ≤ (build_bid_update_data now price a).end_time
unfolding build_bid_update_data
end_time-build_bid_update_data now price a = ground arith

end_time-bid_all : (bids : List (ℕ × ℕ)) (a : Auction) → a.end_time ≤ (bid_all bids a).end_time
unfolding bid_all
end_time-bid_all [] a = omega arith
end_time-bid_all ((now, price) ∷ bids) a = omega (
  arith,
  end_time-bid_all bids (build_bid_update_data now price a),
  end_time-build_bid_update_data now price a,
)

-- However many bids come and whenever, the end of a new auction never moves back, and moves on by
-- fifteen minutes at most.
pub end_time-bid_all_bounds :
    (bids : List (ℕ × ℕ)) (a : Auction)
    → a.extend_count ≡ 0
    → (a.end_time ≤ (bid_all bids a).end_time) × ((bid_all bids a).end_time ≤ a.end_time + 900000)
end_time-bid_all_bounds bids a h = omega (arith, latest_end-bid_all bids a, end_time-bid_all bids a)
