-- ===== src/Browser/Bidding/Shown.antt =====
-- The price that the page shows, and the bids that it sends.
use sneakerbid.Base.{
  ℕ, ◌+◌, ◌≤◌, true, false, Option, none, some, List, [], ◌∷◌, ◌≡◌, refl, arith, All, ltb, String,
  Bool-cases, inl, inr, sym, subst,
}
use sneakerbid.Base.Int.{ℤ, pos, negsuc}
use sneakerbid.Store.Pages.{insert_by, sort_by}
use sneakerbid.Browser.Bidding.{
  LogItem, Item, Page, bid_step, precedes, sort_bid_history, amount_of_first, display_current_price,
  min_bid, handle_bid, begin_bid, sends, shows_error, is_below,
}

abbrev AtMost : ℕ → List LogItem → Type 0
AtMost n = All (λ (b : LogItem). b.amount ≤ n)

module _ (digits : ℕ → ℕ) where
  precedes-le : (a b : LogItem) → precedes digits a b ≡ true → b.amount ≤ a.amount
  precedes-le a b h = ground arith

  precedes-ge : (a b : LogItem) → precedes digits a b ≡ false → a.amount ≤ b.amount
  precedes-ge a b h = ground arith

  head-insert :
      (n : LogItem) (bids : List LogItem) (price : ℕ)
      → (n.amount ≤ amount_of_first digits (insert_by (precedes digits) n bids) price)
        × (amount_of_first digits bids 0
            ≤ amount_of_first digits (insert_by (precedes digits) n bids) price)
  head-insert n [] price = (omega arith, omega arith)
  head-insert n (b ∷ bids) price = elim (Bool-cases (precedes digits n b)) [
    | inl e ↦ let le = precedes-le n b e in rw e (omega arith, le)
    | inr e ↦ let le = precedes-ge n b e in rw e (le, omega arith)
  ]

  sorted-AtMost :
      (n price : ℕ) (bids : List LogItem)
      → amount_of_first digits (sort_by (precedes digits) bids) price ≤ n
      → AtMost n bids
  sorted-AtMost n price [] h = tt
  sorted-AtMost n price (b ∷ bids) h =
      let head = head-insert b (sort_by (precedes digits) bids) price in
      (omega (arith, head.0), sorted-AtMost n 0 bids (omega (arith, head.1)))

  above-All :
      (m k n : ℕ) (bids : List LogItem)
      → m + k ≤ n
      → AtMost m bids
      → All (λ (b : LogItem). b.amount + k ≤ n) bids
  above-All m k n [] h a = tt
  above-All m k n (b ∷ bids) h a = (omega (arith, a.0), above-All m k n bids h a.1)

  error-sends : (s : Page) (n : ℕ) (t : Page) → shows_error s ≡ sends n t → ⊥
  error-sends s n t h = cc

  affordable :
      (balance : ℤ) (n : ℕ)
      → is_below balance n ≡ false
      → (b : ℕ) × (some balance ≡ some (pos b)) × (n ≤ b)
  affordable (pos b) n h = (b, refl, ground (arith, h))
  affordable (negsuc b) n h = cc

  -- The price that is shown is at least the current one and at least the amount of every bid in the
  -- history, in whatever order they came.
  pub display_current_price_bounds :
      (s : Page)
      → (s.current_price ≤ display_current_price digits s)
        × AtMost (display_current_price digits s) s.bid_history
  unfolding display_current_price sort_bid_history
  display_current_price_bounds s = (
    omega arith,
    sorted-AtMost (display_current_price digits s) s.current_price s.bid_history (omega arith),
  )

  -- A bid that is sent is the amount that was entered; it is at least a step above the price that is
  -- shown, so above the current one and above every bid in the history, and within the balance.
  pub handle_bid-sends :
      (too_low : ℕ → String) (user : Option ℤ) (item : Item) (s : Page) (n : ℕ) (t : Page)
      → handle_bid digits too_low user item s ≡ sends n t
      → (n ≡ s.bid_amount)
        × (t ≡ begin_bid item s)
        × (s.current_price + bid_step item ≤ n)
        × All (λ (b : LogItem). b.amount + bid_step item ≤ n) s.bid_history
        × ((balance : ℕ) × (user ≡ some (pos balance)) × (n ≤ balance))
  unfolding handle_bid min_bid
  handle_bid-sends too_low none item s n t h = cc
  handle_bid-sends too_low (some balance) item s n t h =
      let shown = display_current_price_bounds s in
      elim (Bool-cases (ltb s.bid_amount (min_bid digits item s))) [
        | inl e ↦ absurd (error-sends _ n t (rw e at h))
        | inr e ↦ elim (Bool-cases (is_below balance s.bid_amount)) [
          | inl f ↦ absurd (error-sends _ n t (rw f at rw e at h))
          | inr f ↦
              let sent : sends s.bid_amount (begin_bid item s) ≡ sends n t = rw f at rw e at h in
              let amount : s.bid_amount ≡ n = cc in
              let after : begin_bid item s ≡ t = cc in
              let room : display_current_price digits s + bid_step item ≤ n =
                ground (arith, e, amount) in
              (
                sym amount,
                sym after,
                omega (arith, shown.0),
                above-All (display_current_price digits s) (bid_step item) n s.bid_history room
                    shown.1,
                affordable balance n (subst (λ k. is_below balance k ≡ false) amount f),
              )
        ]
      ]
