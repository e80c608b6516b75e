-- ===== src/Browser/Caches/Counts.antt =====
-- The number of bids in the caches, after a bid of one's own and its event.
use mathlib.Core.Option
use sneakerbid.Base.{
  ℕ, ◌+◌, true, false, Option, none, some, List, [], ◌∷◌, ◌==◌, ◌≡◌, refl, arith, All, map, or_else,
  Bool-cases, inl, inr,
}
use sneakerbid.Listing.{Summary}
use sneakerbid.Browser.Caches.{
  Caches, update_one, set_bid, update_main, update_lists, update_main_cache_auction_bid,
  update_list_cache_auction_bid, on_bid_placed, on_bid_event,
}

-- The copies of an auction in all caches have a property.
abbrev InList : (Summary → Type 0) → ℕ → List Summary → Type 0
InList P id xs = All (λ a. a.auction_id ≡ id → P a) xs

abbrev InMain : (Summary → Type 0) → ℕ → Option (List Summary) → Type 0
InMain P id none = Unit
InMain P id (some xs) = InList P id xs

abbrev InPages : (Summary → Type 0) → ℕ → Option (List (List Summary)) → Type 0
InPages P id none = Unit
InPages P id (some pages) = All (InList P id) pages

abbrev pub InCaches : (Summary → Type 0) → ℕ → Caches → Type 0
InCaches P id c = InMain P id c.main × All (InPages P id) c.lists

-- The price and the number of bids that are shown.
abbrev pub Shows : ℕ → ℕ → Summary → Type 0
Shows price count a = (a.current_price ≡ price) × (a.bid_count ≡ count)

module _ (P Q : Summary → Type 0) (f : Summary → Summary) (id : ℕ)
    (step : (a : Summary) → Q a → P (f a)) where
  one-In : (xs : List Summary) → InList Q id xs → InList P id (update_one f id xs)
  one-In [] h = tt
  one-In (a ∷ xs) h = elim (Bool-cases (a.auction_id == id)) [
    | inl e ↦ rw e (λ _. step a (h.0 (ground (arith, e))), one-In xs h.1)
    | inr e ↦ rw e (λ same. absurd (ground (arith, e, same)), one-In xs h.1)
  ]

  main-In :
      (m : Option (List Summary)) → InMain Q id m → InMain P id (Option.map (update_one f id) m)
  main-In none h = tt
  main-In (some xs) h = one-In xs h

  pages-In :
      (ps : List (List Summary))
      → All (InList Q id) ps
      → All (InList P id) (map (update_one f id) ps)
  pages-In [] h = tt
  pages-In (p ∷ ps) h = (one-In p h.0, pages-In ps h.1)

  lists-In :
      (ls : List (Option (List (List Summary))))
      → All (InPages Q id) ls
      → All (InPages P id) (map (λ l. Option.map (map (update_one f id)) l) ls)
  lists-In [] h = tt
  lists-In (none ∷ ls) h = (tt, lists-In ls h.1)
  lists-In (some ps ∷ ls) h = (pages-In ps h.0, lists-In ls h.1)

  both-In : (c : Caches) → InCaches Q id c → InCaches P id (update_lists f id (update_main f id c))
  both-In c h = (main-In c.main h.0, lists-In c.lists h.1)

-- Nothing is asked of the copies.
abbrev Anything : Summary → Type 0
Anything a = Unit

list-any : (id : ℕ) (xs : List Summary) → InList Anything id xs
list-any id [] = tt
list-any id (a ∷ xs) = (λ _. tt, list-any id xs)

pages-any : (id : ℕ) (ps : List (List Summary)) → All (InList Anything id) ps
pages-any id [] = tt
pages-any id (p ∷ ps) = (list-any id p, pages-any id ps)

lists-any : (id : ℕ) (ls : List (Option (List (List Summary)))) → All (InPages Anything id) ls
lists-any id [] = tt
lists-any id (none ∷ ls) = (tt, lists-any id ls)
lists-any id (some ps ∷ ls) = (pages-any id ps, lists-any id ls)

main-any : (id : ℕ) (m : Option (List Summary)) → InMain Anything id m
main-any id none = tt
main-any id (some xs) = list-any id xs

caches-any : (id : ℕ) (c : Caches) → InCaches Anything id c
caches-any id c = (main-any id c.main, lists-any id c.lists)

event-Shows :
    (id amount n : ℕ) (c : Caches)
    → InCaches (Shows amount n) id (on_bid_event id amount (some n) c)
unfolding on_bid_event update_main_cache_auction_bid update_list_cache_auction_bid
event-Shows id amount n c =
    both-In (Shows amount n) Anything (set_bid amount n true) id (λ a h. (refl, refl)) c
      (caches-any id c)

-- An event with the number of bids makes every copy of the auction in the caches show that number and
-- its amount, if it comes after the answer to one's own bid; if it comes before, every copy shows one
-- bid more than there are.
pub on_bid_placed-on_bid_event :
    (id amount n : ℕ) (answered : Option ℕ) (c : Caches)
    → InCaches
        (Shows amount n)
        id
        (on_bid_event id amount (some n) (on_bid_placed answered id amount c))
      × InCaches
          (Shows (or_else answered amount) (n + 1))
          id
          (on_bid_placed answered id amount (on_bid_event id amount (some n) c))
unfolding on_bid_placed update_main_cache_auction_bid update_list_cache_auction_bid
on_bid_placed-on_bid_event id amount n answered c = (
  event-Shows id amount n (on_bid_placed answered id amount c),
  both-In (Shows (or_else answered amount) (n + 1)) (Shows amount n)
      (set_bid (or_else answered amount) 1 false) id (λ a h. (refl, omega (arith, h.1)))
      (on_bid_event id amount (some n) c) (event-Shows id amount n c),
)
