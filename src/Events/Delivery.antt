-- ===== src/Events/Delivery.antt =====
-- What arrives of what the services send.
use sneakerbid.Base.{ℕ, Option, none, some, List, [], ◌++◌, map, ◌≡◌, refl, String, append_nil}
use sneakerbid.Events.{
  Streams, Event, empty_hub, on_messages, emit_new_bid, emit_auction_closed, emit_new_deal,
  emit_recent_bid_to_history, on_message, publish_notification, to_auction, to_user,
}
use sneakerbid.Events.Live.{Op, run, open_after, Proper, listeners, run-open_after}

-- An event for each of some listeners.
abbrev pub to_all : {P : Type 0} → String → Option P → List ℕ → List (ℕ × Event P)
to_all type p is = map (λ id. (id, record { type = type; payload = p })) is

module _ {P : Type 0} (s : Streams) (k : ℕ) (p : P) (ops ops' : List Op)
    (auctions : s.auctions ≡ run ops empty_hub)
    (notifications : s.notifications ≡ run ops' empty_hub) (proper : Proper ops [])
    (proper' : Proper ops' []) where
  -- Where the subscriptions to auctions and to notifications began and ended as they may: a new bid
  -- reaches the open subscriptions of its auction as `newBid` with its payload, and then all that
  -- listen to the history as a bare `statsUpdate`; a closing reaches those of its auction as
  -- `auctionClosed`; a notification reaches those of its user as `notification`; and a deal and a
  -- recent bid reach the history as `newDeal` and `newBid`, each with a `statsUpdate` after it.
  pub on_messages-emit :
      (on_messages (emit_new_bid k p) s
        ≡ to_all "newBid" (some p) (listeners k (open_after ops []))
          ++ to_all "statsUpdate" none s.history)
      × (on_messages (emit_auction_closed k p) s
          ≡ to_all "auctionClosed" (some p) (listeners k (open_after ops [])))
      × (on_messages (publish_notification k p) s
          ≡ to_all "notification" (some p) (listeners k (open_after ops' [])))
      × (on_messages (emit_new_deal p) s
          ≡ to_all "newDeal" (some p) s.history ++ to_all "statsUpdate" none s.history)
      × (on_messages (emit_recent_bid_to_history p) s
          ≡ to_all "newBid" (some p) s.history ++ to_all "statsUpdate" none s.history)
  unfolding on_message emit_new_bid emit_auction_closed emit_new_deal emit_recent_bid_to_history
      to_auction to_user
  on_messages-emit =
      let stats = append_nil (to_all {P = P} "statsUpdate" none s.history) in
      (
        rw
            (
              auctions,
              (run-open_after ops k (record { type = "newBid"; payload = some p }) proper).0,
              stats,
            )
            refl,
        rw
            (
              auctions,
              (run-open_after ops k (record { type = "auctionClosed"; payload = some p }) proper).0,
            )
            (append_nil _),
        rw
            (
              notifications,
              (run-open_after ops' k (record { type = "notification"; payload = some p })
                  proper').0,
            )
            (append_nil _),
        rw stats refl,
        rw stats refl,
      )
