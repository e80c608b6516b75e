-- ===== src/Listing/Skipping.antt =====
-- The sorts whose cursor does not agree with their order.
use sneakerbid.Base.{
  ℕ, ◌<◌, Bool, true, false, Option, some, List, [], ◌∷◌, ◌≡◌, ◌≢◌, arith, All, filter_by, map,
  String, subst,
}
use sneakerbid.Store.Rows.{Wishlist}
use sneakerbid.Store.Table.{find}
use sneakerbid.Store.Pages.Order.{UniqueKeys, All-filter_by, All-sort_by, filter_by-All}
use sneakerbid.Store.Pages.Keys.{IsFoundIn, All-IsFoundIn, same_row}
use sneakerbid.Store.Pages.Walk.{walk-All}
use sneakerbid.Listing.{
  Entry, id_of, Sort, ending_soon, popular, newest, price_low, bid_count, row_lt, sort_value,
  order_clause, is_past, ListQuery, matches, rows_after, follow, to_summary,
}
use sneakerbid.Listing.Paging.{is_ascending}
use sneakerbid.Listing.Following.{follow-walk, summary_of}

is_past-lt :
    (s : Sort) (k : ℕ) (c x : Entry)
    → is_ascending s ≡ false
    → is_past s k (some c) x ≡ true
    → row_lt (sort_value s) x c ≡ true
is_past-lt ending_soon k c x a h = cc
is_past-lt price_low k c x a h = cc
is_past-lt popular k c x a h = h
is_past-lt newest k c x a h = h
is_past-lt bid_count k c x a h = h

row_lt_trans :
    (v : Entry → ℕ) (x y z : Entry)
    → row_lt v x y ≡ true
    → row_lt v y z ≡ true
    → row_lt v x z ≡ true
row_lt_trans v x y z p q = ground arith

row_lt-asym : (v : Entry → ℕ) (x y : Entry) → row_lt v x y ≡ true → row_lt v y x ≡ true → ⊥
row_lt-asym v x y p q = ground arith

module _ (trim slice_80 : String → String) (ilike : String → String → Bool) (q : ListQuery)
    (now : ℕ) (es : List Entry) (e : Entry) where
  abbrev IsAbsent : Entry → Type 0
  IsAbsent x = id_of x ≢ id_of e

  -- The row of the cursor comes before `e` in the order of values and ids.
  abbrev IsBefore : ℕ → Type 0
  IsBefore k = (c : Entry) × (find id_of k es ≡ some c) × (row_lt (sort_value q.sort) c e ≡ true)

  IsAbsent-All :
      (c : Entry) (k : ℕ) (xs : List Entry)
      → is_ascending q.sort ≡ false
      → IsFoundIn id_of es e
      → row_lt (sort_value q.sort) c e ≡ true
      → All (IsFoundIn id_of es) xs
      → All (λ x. is_past q.sort k (some c) x ≡ true) xs
      → All (λ x. IsAbsent x × IsBefore (id_of x)) xs
  IsAbsent-All c k [] a f lt found past = tt
  IsAbsent-All c k (x ∷ xs) a f lt found past =
      let below = is_past-lt q.sort k c x a past.0 in
      let chain = row_lt_trans (sort_value q.sort) x c e below lt in
      (
        (
          λ same.
              row_lt-asym (sort_value q.sort) e e
                (subst (λ y. row_lt (sort_value q.sort) y e ≡ true)
                  (same_row id_of es x e found.0 f same) chain)
                (subst (λ y. row_lt (sort_value q.sort) y e ≡ true)
                  (same_row id_of es x e found.0 f same) chain),
          (x, found.0, chain),
        ),
        IsAbsent-All c k xs a f lt found.1 past.1,
      )

  rows_after-IsAbsent :
      UniqueKeys id_of es
      → is_ascending q.sort ≡ false
      → IsFoundIn id_of es e
      → (k : ℕ) → IsBefore k
      → All
          (λ x. IsAbsent x × IsBefore (id_of x))
          (rows_after trim slice_80 ilike q now es (some k))
  unfolding rows_after
  rows_after-IsAbsent unique a f k (c, here, lt) =
      let few = filter_by (matches trim slice_80 ilike q now) es in
      let found =
        All-filter_by (IsFoundIn id_of es) (matches trim slice_80 ilike q now) es
          (All-IsFoundIn id_of es unique) in
      let Both = λ (x : Entry). IsAbsent x × IsBefore (id_of x) in
      rw here (
        All-sort_by Both (order_clause q.sort) (filter_by (is_past q.sort k (some c)) few) (
          IsAbsent-All c k (filter_by (is_past q.sort k (some c)) few) a f lt
            (All-filter_by (IsFoundIn id_of es) (is_past q.sort k (some c)) few found)
            (filter_by-All (is_past q.sort k (some c)) few)))

All-summary :
    (k : ℕ) (user : Option ℕ) (ws : List Wishlist) (now : ℕ) (xs : List Entry)
    → All (λ x. id_of x ≢ k) xs
    → All (λ s. s.auction_id ≢ k) (map (summary_of user ws now) xs)
unfolding to_summary
All-summary k user ws now [] h = tt
All-summary k user ws now (x ∷ xs) h = (h.0, All-summary k user ws now xs h.1)

tied-order :
    (s : Sort) (c e : Entry)
    → sort_value s c ≡ sort_value s e
    → id_of c < id_of e
    → (order_clause s c e ≡ true) × (row_lt (sort_value s) c e ≡ true)
tied-order ending_soon c e v h = (ground arith, ground arith)
tied-order popular c e v h = (ground arith, ground arith)
tied-order newest c e v h = (ground arith, ground arith)
tied-order price_low c e v h = (ground arith, ground arith)
tied-order bid_count c e v h = (ground arith, ground arith)

-- Where the sort is by the highest price, the newest or the number of bids, and an auction has the
-- value of the one that a cursor names and a greater id, the order puts it after that one, and yet
-- neither the page after the cursor nor any that follows has it.
pub follow-skips :
    (trim slice_80 : String → String) (ilike : String → String → Bool) (user : Option ℕ)
    (ws : List Wishlist) (q : ListQuery) (now : ℕ) (es : List Entry) (c e : Entry) (fuel : ℕ)
    → UniqueKeys id_of es
    → is_ascending q.sort ≡ false
    → IsFoundIn id_of es c
    → IsFoundIn id_of es e
    → sort_value q.sort c ≡ sort_value q.sort e
    → id_of c < id_of e
    → (order_clause q.sort c e ≡ true)
      × All
          (λ s. s.auction_id ≢ id_of e)
          (follow trim slice_80 ilike user ws fuel q now es (some (id_of c)))
follow-skips trim slice_80 ilike user ws q now es c e fuel unique a here found v h =
    let (next, lt) = tied-order q.sort c e v h in
    (
      next,
      rw (follow-walk trim slice_80 ilike user ws q now es fuel (some (id_of c))) (
          All-summary (id_of e) user ws now _ (
            walk-All id_of (IsAbsent trim slice_80 ilike q now es e)
              (IsBefore trim slice_80 ilike q now es e) (rows_after trim slice_80 ilike q now es)
              fuel q.limit (id_of c)
              (rows_after-IsAbsent trim slice_80 ilike q now es e unique a found) (c, here, lt))),
    )
