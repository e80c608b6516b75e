-- ===== src/Listing/Status.antt =====
-- The lists of a seller by their status.
use sneakerbid.Base.{
  ℕ, ◌+◌, Bool, true, none, List, [], ◌∷◌, ◌≡◌, refl, arith, All, ◌==◌, filter_by, length, map, ap,
}
use sneakerbid.Store.Rows.{AuctionStatus}
use sneakerbid.Store.Pages.{insert_by, sort_by}
use sneakerbid.Store.Pages.Order.{All-sort_by, filter_by-All}
use sneakerbid.Listing.{Entry, Summary, to_summary, is_ongoing, effective_status}
use sneakerbid.Listing.Views.{
  StatusFilter, ongoing, closed, has_status, is_over, by_creation, get_my_selling_auctions,
}

module _ {ℓ} {A : Type ℓ} (before : A → A → Bool) where
  length-insert_by : (n : A) (xs : List A) → length (insert_by before n xs) ≡ length xs + 1
  length-insert_by n [] = refl
  length-insert_by n (x ∷ xs) = ground (arith, length-insert_by n xs)

  length-sort_by : (xs : List A) → length (sort_by before xs) ≡ length xs
  length-sort_by [] = refl
  length-sort_by (x ∷ xs) = omega (arith, length-insert_by x (sort_by before xs), length-sort_by xs)

length-map : (f : Entry → Summary) (xs : List Entry) → length (map f xs) ≡ length xs
length-map f [] = refl
length-map f (x ∷ xs) = omega (arith, length-map f xs)

-- An auction is ongoing or over.
length-partition :
    (now : ℕ) (es : List Entry)
    → length es ≡ length (filter_by (is_ongoing now) es) + length (filter_by (is_over now) es)
length-partition now [] = refl
length-partition now (e ∷ es) = ground (arith, length-partition now es)

is_ongoing-status :
    (now : ℕ) (e : Entry)
    → is_ongoing now e ≡ true
    → effective_status now e.auction ≡ AuctionStatus.opened
is_ongoing-status now e h = ground arith

is_over-status :
    (now : ℕ) (e : Entry)
    → is_over now e ≡ true
    → effective_status now e.auction ≡ AuctionStatus.closed
is_over-status now e h = ground arith

All-status :
    (t : AuctionStatus) (now : ℕ) (xs : List Entry)
    → All (λ e. effective_status now e.auction ≡ t) xs
    → All (λ s. s.status ≡ t) (map (to_summary now none) xs)
unfolding to_summary
All-status t now [] h = tt
All-status t now (x ∷ xs) h = (h.0, All-status t now xs h.1)

All-effective :
    (t : AuctionStatus) (now : ℕ) (p : Entry → Bool) (xs : List Entry)
    → ((e : Entry) → p e ≡ true → effective_status now e.auction ≡ t)
    → All (λ e. p e ≡ true) xs
    → All (λ e. effective_status now e.auction ≡ t) xs
All-effective t now p [] f h = tt
All-effective t now p (x ∷ xs) f h = (f x h.0, All-effective t now p xs f h.1)

selling-status :
    (t : AuctionStatus) (seller : ℕ) (status : StatusFilter) (now : ℕ) (es : List Entry)
    → ((e : Entry) → has_status status now e ≡ true → effective_status now e.auction ≡ t)
    → All (λ s. s.status ≡ t) (get_my_selling_auctions seller status now es)
unfolding get_my_selling_auctions
selling-status t seller status now es f =
    let mine = filter_by (λ (e : Entry). e.auction.seller_user_id == seller) es in
    All-status t now _ (
      All-sort_by (λ e. effective_status now e.auction ≡ t) by_creation
        (filter_by (has_status status now) mine)
        (All-effective t now (has_status status now) (filter_by (has_status status now) mine) f
          (filter_by-All (has_status status now) mine)))

filter_by-every : (es : List Entry) → filter_by (λ _. true) es ≡ es
filter_by-every [] = refl
filter_by-every (e ∷ es) = ap (λ l. e ∷ l) (filter_by-every es)

-- A seller's ongoing auctions are shown as open and the closed ones as closed, also those that are
-- over and not closed yet, and together they are as many as all of the seller's auctions.
pub get_my_selling_auctions-status :
    (seller now : ℕ) (es : List Entry)
    → All (λ s. s.status ≡ AuctionStatus.opened) (get_my_selling_auctions seller ongoing now es)
      × All (λ s. s.status ≡ AuctionStatus.closed) (get_my_selling_auctions seller closed now es)
      × (length (get_my_selling_auctions seller StatusFilter.all now es)
          ≡ length (get_my_selling_auctions seller ongoing now es)
            + length (get_my_selling_auctions seller closed now es))
unfolding get_my_selling_auctions
get_my_selling_auctions-status seller now es =
    let mine = filter_by (λ (e : Entry). e.auction.seller_user_id == seller) es in
    let all = filter_by (has_status StatusFilter.all now) mine in
    let open_ones = filter_by (is_ongoing now) mine in
    let over = filter_by (is_over now) mine in
    (
      selling-status AuctionStatus.opened seller ongoing now es (is_ongoing-status now),
      selling-status AuctionStatus.closed seller closed now es (is_over-status now),
      omega (
        arith,
        length-map (to_summary now none) (sort_by by_creation all),
        length-map (to_summary now none) (sort_by by_creation open_ones),
        length-map (to_summary now none) (sort_by by_creation over),
        length-sort_by by_creation all,
        length-sort_by by_creation open_ones,
        length-sort_by by_creation over,
        ap (length {A = Entry}) (filter_by-every mine),
        length-partition now mine,
      ),
    )
