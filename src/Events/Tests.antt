-- ===== src/Events/Tests.antt =====
-- Two listeners of one auction, one of which leaves, and one of another auction.
use sneakerbid.Base.{ℕ, some, none, List, [], ◌∷◌, ◌++◌, map, ◌≡◌, refl}
use sneakerbid.Events.{
  Streams, Event, empty_hub, emit_to_local, on_messages, emit_new_bid, emit_auction_closed,
  emit_new_deal, emit_recent_bid_to_history, publish_notification,
}
use sneakerbid.Events.Live.{
  Op, run, open_after, Proper, listeners, run-open_after, subject_of, count_of,
}
use sneakerbid.Events.Delivery.{to_all, on_messages-emit}

abbrev ops : List Op
ops = Op.begins 1 10 ∷ Op.begins 2 10 ∷ Op.begins 3 11 ∷ Op.ends 1 10 ∷ []

abbrev proper : Proper ops []
proper = (refl, tt)

abbrev price : Event ℕ
price = record { type = "newBid"; payload = some 130 }

run-open_after_example :
    (emit_to_local 10 price (run ops empty_hub)
      ≡ map (λ id. (id, price)) (listeners 10 (open_after ops [])))
    × ((run ops empty_hub).subjects 10 ≡ subject_of (listeners 10 (open_after ops [])))
    × ((run ops empty_hub).ref_counts 10 ≡ count_of (listeners 10 (open_after ops [])))
run-open_after_example = run-open_after ops 10 price proper

abbrev amount : ℕ
amount = 130

abbrev streams : Streams
streams = record {
  auctions = run ops empty_hub;
  history = 7 ∷ 8 ∷ [];
  notifications = run ops empty_hub;
}

on_messages-emit_example :
    (on_messages (emit_new_bid 10 amount) streams
      ≡ to_all "newBid" (some amount) (listeners 10 (open_after ops []))
        ++ to_all "statsUpdate" none streams.history)
    × (on_messages (emit_auction_closed 10 amount) streams
        ≡ to_all "auctionClosed" (some amount) (listeners 10 (open_after ops [])))
    × (on_messages (publish_notification 10 amount) streams
        ≡ to_all "notification" (some amount) (listeners 10 (open_after ops [])))
    × (on_messages (emit_new_deal amount) streams
        ≡ to_all "newDeal" (some amount) streams.history
          ++ to_all "statsUpdate" none streams.history)
    × (on_messages (emit_recent_bid_to_history amount) streams
        ≡ to_all "newBid" (some amount) streams.history
          ++ to_all "statsUpdate" none streams.history)
on_messages-emit_example = on_messages-emit streams 10 amount ops ops refl refl proper proper
