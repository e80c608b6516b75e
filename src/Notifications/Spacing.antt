-- ===== src/Notifications/Spacing.antt =====
-- How far apart the notifications about wishes are.
use sneakerbid.Base.{
  ℕ, ◌+◌, ◌*◌, ◌≤◌, Bool, true, false, List, [], ◌∷◌, ◌≡◌, arith, All, ◌==◌, ◌&&◌, Bool-cases, inl,
  inr, String, same_text, drop, zero, suc,
}
use sneakerbid.Notifications.{
  Notification, Box, exists_recent_for_auction_type, create_and_publish, notify_bid_overtaken,
  notify_auction_won, notify_wishlist_ending_soon, notify_wishlist_bid_activity,
}

-- Whether a notification is of that type for that user and auction.
abbrev pub is_of : ℕ → String → ℕ → Notification → Bool
is_of u type a n = n.user_id == u && same_text n.type type && n.metadata.auction_id == a

-- Every one of that kind was made so many minutes before the time.
abbrev pub Earlier : ℕ → String → ℕ → ℕ → ℕ → List Notification → Type 0
Earlier u type a minutes now ns =
    All (λ (m : Notification). is_of u type a m ≡ true → m.created_at + minutes * 60000 ≤ now) ns

-- Of one type, what one user got about one auction came so many minutes apart, except for what has
-- fewer than so many rows between it.
abbrev pub SpacedBeyond : ℕ → String → ℕ → List Notification → Type 0
SpacedBeyond k type minutes [] = Unit
SpacedBeyond k type minutes (n ∷ ns) =
    (same_text n.type type ≡ true
      → Earlier n.user_id type n.metadata.auction_id minutes n.created_at (drop k ns))
    × SpacedBeyond k type minutes ns

exists_recent-Earlier :
    (u : ℕ) (type : String) (a minutes asked now : ℕ) (ns : List Notification)
    → asked ≤ now
    → exists_recent_for_auction_type u type a minutes asked ns ≡ false
    → Earlier u type a minutes now ns
unfolding exists_recent_for_auction_type
exists_recent-Earlier u type a minutes asked now [] t h = tt
exists_recent-Earlier u type a minutes asked now (n ∷ ns) t h =
    (λ k. ground arith, exists_recent-Earlier u type a minutes asked now ns t (ground arith))

module _ (P : Notification → Type 0) where
  All-drop : (i k : ℕ) (ns : List Notification) → i ≤ k → All P (drop i ns) → All P (drop k ns)
  All-drop zero zero ns l h = h
  All-drop zero (suc k) [] l h = tt
  All-drop zero (suc k) (n ∷ ns) l h = All-drop zero k ns (omega arith) h.1
  All-drop (suc i) zero ns l h = absurd (omega arith)
  All-drop (suc i) (suc k) [] l h = tt
  All-drop (suc i) (suc k) (n ∷ ns) l h = All-drop i k ns (omega arith) h

-- What a service calls. The calls about wishes read at a time `asked`, after which `lag` rows are
-- inserted by other calls before their own.
pub data Call : Type 0 where
  bid_overtaken : (id now u auction_id : ℕ) → Call
  auction_won : (id now u auction_id price : ℕ) → Call
  wishlist_ending_soon :
      (lag asked id now u auction_id : ℕ) (title_hint : String) (end_time : ℕ) → Call
  wishlist_bid_activity :
      (lag asked id now u auction_id : ℕ) (brand model_name : String) (price : ℕ) → Call

-- A call reads before it writes, and at most so many rows come between.
abbrev pub IsWithin : ℕ → Call → Type 0
IsWithin k (Call.wishlist_ending_soon lag asked id now u a hint end_time) =
    (lag ≤ k) × (asked ≤ now)
IsWithin k (Call.wishlist_bid_activity lag asked id now u a brand model price) =
    (lag ≤ k) × (asked ≤ now)
IsWithin k _ = Unit

module _ (number_text date_text : ℕ → String) where
  abbrev pub called : Call → Box → Box
  called (Call.bid_overtaken id now u a) b = notify_bid_overtaken id now u a b
  called (Call.auction_won id now u a price) b =
      notify_auction_won number_text date_text id now u a price b
  called (Call.wishlist_ending_soon lag asked id now u a hint end_time) b =
      notify_wishlist_ending_soon number_text date_text (drop lag b.rows) asked id now u a hint
        end_time b
  called (Call.wishlist_bid_activity lag asked id now u a brand model price) b =
      notify_wishlist_bid_activity number_text date_text (drop lag b.rows) asked id now u a brand
        model price b

  -- The calls in the order in which they insert.
  abbrev pub called_all : List Call → Box → Box
  called_all [] b = b
  called_all (c ∷ cs) b = called_all cs (called c b)

  module _ (k : ℕ) where
    -- Both kinds of notifications about a wish are spaced.
    abbrev pub AllSpaced : Box → Type 0
    AllSpaced b =
        SpacedBeyond k "WISHLIST_ENDING_SOON" 1440 b.rows
        × SpacedBeyond k "WISHLIST_BID_ACTIVITY" 60 b.rows

    called-AllSpaced : (c : Call) (b : Box) → IsWithin k c → AllSpaced b → AllSpaced (called c b)
    unfolding notify_bid_overtaken notify_auction_won notify_wishlist_ending_soon
        notify_wishlist_bid_activity create_and_publish
    called-AllSpaced (bid_overtaken id now u a) b w h = ((λ same. cc, h.0), (λ same. cc, h.1))
    called-AllSpaced (auction_won id now u a price) b w h = ((λ same. cc, h.0), (λ same. cc, h.1))
    called-AllSpaced (wishlist_ending_soon lag asked id now u a hint end_time) b w h =
        let seen = drop lag b.rows in
        elim (Bool-cases
          (exists_recent_for_auction_type u "WISHLIST_ENDING_SOON" a 1440 asked seen)) [
            | inl recent ↦ rw recent h
            | inr free ↦
                let gap =
                  exists_recent-Earlier u "WISHLIST_ENDING_SOON" a 1440 asked now seen w.1 free in
                rw free ((λ _. All-drop _ lag k b.rows w.0 gap, h.0), (λ same. cc, h.1))
          ]
    called-AllSpaced (wishlist_bid_activity lag asked id now u a brand model price) b w h =
        let seen = drop lag b.rows in
        elim (Bool-cases
          (exists_recent_for_auction_type u "WISHLIST_BID_ACTIVITY" a 60 asked seen)) [
            | inl recent ↦ rw recent h
            | inr free ↦
                let gap =
                  exists_recent-Earlier u "WISHLIST_BID_ACTIVITY" a 60 asked now seen w.1 free in
                rw free ((λ same. cc, h.0), (λ _. All-drop _ lag k b.rows w.0 gap, h.1))
          ]

    -- Where at most k rows are inserted by other calls between the query of a call and its own row, two
    -- notifications to one user about one auction, of its end within 24 hours or of its price within
    -- 60 minutes, have fewer than k rows between them, where that was so before; if no row comes
    -- between, there are no two such.
    pub called_all-AllSpaced :
        (cs : List Call) (b : Box) → All (IsWithin k) cs → AllSpaced b → AllSpaced (called_all cs b)
    called_all-AllSpaced [] b w h = h
    called_all-AllSpaced (c ∷ cs) b w h =
        called_all-AllSpaced cs (called c b) w.1 (called-AllSpaced c b w.0 h)
