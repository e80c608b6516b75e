-- ===== src/Wishlist/Alerts.antt =====
-- Who is told of an end.
use sneakerbid.Base.{
  ℕ, ◌+◌, Bool, true, List, [], ◌∷◌, ◌≡◌, arith, ◌==◌, any, Bool-cases, inl, inr, String, eq_of_==,
  zero, suc, drop, subst,
}
use sneakerbid.Store.Rows.{Auction, Wishlist, Db}
use sneakerbid.Notifications.{
  Notification, Box, exists_recent_for_auction_type, create_and_publish,
  notify_wishlist_ending_soon, ending_soon,
}
use sneakerbid.Wishlist.{
  is_wishlisted, find_user_ids_by_auction_id, contains, alert_user, alert_users, alert_auctions,
  notify_ending_soon, find_open_ending_before,
}

-- Whether a user was told of the end of an auction in the last 24 hours.
abbrev pub told : ℕ → ℕ → ℕ → Box → Bool
told u a now b = exists_recent_for_auction_type u "WISHLIST_ENDING_SOON" a 1440 now b.rows

created-told :
    (n : Notification) (u a now : ℕ) (b : Box)
    → told u a now b ≡ true
    → told u a now (create_and_publish n b) ≡ true
unfolding create_and_publish exists_recent_for_auction_type
created-told n u a now b h = ground arith

-- What was made at that moment is recent.
just_told :
    (number_text date_text : ℕ → String) (id now u a end_time : ℕ) (hint : String) (b : Box)
    → told u a now
        (create_and_publish (ending_soon number_text date_text id now u a hint end_time) b)
      ≡ true
unfolding create_and_publish exists_recent_for_auction_type
just_told number_text date_text id now u a end_time hint b = ground arith

contains-user :
    (u a : ℕ) (ws : List Wishlist)
    → is_wishlisted u a ws ≡ true
    → contains u (find_user_ids_by_auction_id a ws) ≡ true
unfolding find_user_ids_by_auction_id
contains-user u a [] h = cc
contains-user u a (w ∷ ws) h = ground (arith, contains-user u a ws)

exists_recent-drop :
    (u : ℕ) (type : String) (a minutes now k : ℕ) (ns : List Notification)
    → exists_recent_for_auction_type u type a minutes now (drop k ns) ≡ true
    → exists_recent_for_auction_type u type a minutes now ns ≡ true
unfolding exists_recent_for_auction_type
exists_recent-drop u type a minutes now zero ns h = h
exists_recent-drop u type a minutes now (suc k) [] h = h
exists_recent-drop u type a minutes now (suc k) (n ∷ ns) h =
    let later = exists_recent-drop u type a minutes now k ns h in ground (arith, later)

module _ (new_id : ℕ → ℕ → ℕ) (lag : ℕ → ℕ → ℕ) (up : ℕ → ℕ → Bool)
    (number_text date_text : ℕ → String) (title_hint : Auction → String) where
  alert_user-told :
      (now : ℕ) (x : Auction) (u v c : ℕ) (b : Box)
      → told v c now b ≡ true
      → told v c now (alert_user new_id lag up number_text date_text title_hint now x u b) ≡ true
  unfolding notify_wishlist_ending_soon
  alert_user-told now x u v c b h = elim (Bool-cases (up x.id u)) [
    | inr down ↦ rw down h
    | inl works ↦
        elim (Bool-cases (
          exists_recent_for_auction_type u "WISHLIST_ENDING_SOON" x.id 1440 now
            (drop (lag x.id u) b.rows))) [
              | inl recent ↦ rw (works, recent) h
              | inr free ↦
                  rw (works, free)
                    (created-told
                      (ending_soon number_text date_text (new_id x.id u) now u x.id (title_hint x)
                        x.end_time)
                      v c now b h)
            ]
  ]

  alert_user-told_self :
      (now : ℕ) (x : Auction) (u : ℕ) (b : Box)
      → up x.id u ≡ true
      → told u x.id now (alert_user new_id lag up number_text date_text title_hint now x u b) ≡ true
  unfolding notify_wishlist_ending_soon
  alert_user-told_self now x u b works =
      elim (Bool-cases (
        exists_recent_for_auction_type u "WISHLIST_ENDING_SOON" x.id 1440 now
          (drop (lag x.id u) b.rows))) [
            | inl recent ↦
                rw (works, recent)
                  (exists_recent-drop u "WISHLIST_ENDING_SOON" x.id 1440 now (lag x.id u) b.rows
                    recent)
            | inr free ↦
                rw (works, free)
                  (just_told number_text date_text (new_id x.id u) now u x.id x.end_time
                    (title_hint x) b)
          ]

  alert_users-told :
      (now : ℕ) (a : Auction) (us : List ℕ) (v c : ℕ) (b : Box)
      → told v c now b ≡ true
      → told v c now (alert_users new_id lag up number_text date_text title_hint now a us b) ≡ true
  unfolding alert_users
  alert_users-told now a [] v c b h = h
  alert_users-told now a (u ∷ us) v c b h =
      alert_users-told now a us v c _ (alert_user-told now a u v c b h)

  alert_users-told_self :
      (now : ℕ) (a : Auction) (us : List ℕ) (u : ℕ) (b : Box)
      → contains u us ≡ true
      → up a.id u ≡ true
      → told u a.id now (alert_users new_id lag up number_text date_text title_hint now a us b)
        ≡ true
  unfolding alert_users
  alert_users-told_self now a [] u b h works = cc
  alert_users-told_self now a (v ∷ us) u b h works = elim (Bool-cases (v == u)) [
    | inl same ↦
        alert_users-told now a us u a.id _
          (rw (eq_of_== v u same) (alert_user-told_self now a u b works))
    | inr other ↦ alert_users-told_self now a us u _ (rw other at h) works
  ]

  alert_auctions-told :
      (now : ℕ) (xs : List Auction) (ws : List Wishlist) (v c : ℕ) (b : Box)
      → told v c now b ≡ true
      → told v c now (alert_auctions new_id lag up number_text date_text title_hint now xs ws b)
        ≡ true
  unfolding alert_auctions
  alert_auctions-told now [] ws v c b h = h
  alert_auctions-told now (a ∷ xs) ws v c b h =
      alert_auctions-told now xs ws v c _
        (alert_users-told now a (find_user_ids_by_auction_id a.id ws) v c b h)

  alert_auctions-told_self :
      (now : ℕ) (xs : List Auction) (ws : List Wishlist) (u c : ℕ) (b : Box)
      → any (λ a. a.id == c) xs ≡ true
      → is_wishlisted u c ws ≡ true
      → up c u ≡ true
      → told u c now (alert_auctions new_id lag up number_text date_text title_hint now xs ws b)
        ≡ true
  unfolding alert_auctions
  alert_auctions-told_self now [] ws u c b h k works = cc
  alert_auctions-told_self now (a ∷ xs) ws u c b h k works = elim (Bool-cases (a.id == c)) [
    | inl same ↦
        let is_c = eq_of_== a.id c same in
        alert_auctions-told now xs ws u c _ (
          subst
            (λ x.
              told u x now (
                alert_users new_id lag up number_text date_text title_hint now a
                  (find_user_ids_by_auction_id a.id ws) b)
              ≡ true)
            is_c
            (alert_users-told_self now a (find_user_ids_by_auction_id a.id ws) u b
              (contains-user u a.id ws (rw is_c k)) (rw is_c works)))
    | inr other ↦ alert_auctions-told_self now xs ws u c _ (rw other at h) k works
  ]

  -- After the alerts of a moment, whatever rows the queries of their calls missed, everybody who has
  -- an auction on the list that is open and ends within 15 minutes from then, and for whom the call
  -- did not fail, was told of its end within the last 24 hours.
  pub notify_ending_soon-told :
      (now u c : ℕ) (db : Db) (b : Box)
      → any (λ a. a.id == c) (find_open_ending_before (now + 900000) now db.auctions) ≡ true
      → is_wishlisted u c db.wishlists ≡ true
      → up c u ≡ true
      → told u c now (notify_ending_soon new_id lag up number_text date_text title_hint now db b)
        ≡ true
  unfolding notify_ending_soon
  notify_ending_soon-told now u c db b h k works =
      alert_auctions-told_self now (find_open_ending_before (now + 900000) now db.auctions)
        db.wishlists u c b h k works
