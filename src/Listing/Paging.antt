-- ===== src/Listing/Paging.antt =====
-- The pages of the list of auctions, one after the other.
use sneakerbid.Base.{
  ℕ, Bool, true, false, none, some, List, [], ◌∷◌, ◌++◌, ◌≡◌, ◌⊎◌, refl, arith, All, filter_by,
  String, inl, inr, ap, subst,
}
use sneakerbid.Store.Table.{find}
use sneakerbid.Store.Pages.{sort_by}
use sneakerbid.Store.Pages.Order.{
  IsStrictOrder, UniqueKeys, IsSortedBy, All-filter_by, All-sort_by, sort_by-IsSortedBy,
  sort_by-filter_by, filter_by-suffix,
}
use sneakerbid.Store.Pages.Keys.{
  All-middle, filter_by-cong, IsFoundIn, All-IsFoundIn, same_row, UniqueKeys-filter_by,
}
use sneakerbid.Listing.{
  Entry, id_of, Sort, ending_soon, popular, newest, price_low, bid_count, row_lt, descending,
  sort_value, order_clause, is_past, ListQuery, matches, rows_after,
}

row_lt-IsStrictOrder : (v : Entry → ℕ) → IsStrictOrder id_of (row_lt v)
row_lt-IsStrictOrder v = record {
  trans = λ x y z p q. ground arith;
  asym = λ x y p. ground arith;
  total = λ x y n p. ground arith;
}

descending-IsStrictOrder : (v : Entry → ℕ) → IsStrictOrder id_of (descending v)
descending-IsStrictOrder v = record {
  trans = λ x y z p q. ground arith;
  asym = λ x y p. ground arith;
  total = λ x y n p. ground arith;
}

pub order_clause-IsStrictOrder : (s : Sort) → IsStrictOrder id_of (order_clause s)
order_clause-IsStrictOrder ending_soon = row_lt-IsStrictOrder (sort_value ending_soon)
order_clause-IsStrictOrder popular = descending-IsStrictOrder (sort_value popular)
order_clause-IsStrictOrder newest = descending-IsStrictOrder (sort_value newest)
order_clause-IsStrictOrder price_low = row_lt-IsStrictOrder (sort_value price_low)
order_clause-IsStrictOrder bid_count = descending-IsStrictOrder (sort_value bid_count)

-- The sorts whose cursor agrees with their order whatever the rows are.
abbrev pub is_ascending : Sort → Bool
is_ascending ending_soon = true
is_ascending price_low = true
is_ascending _ = false

-- The sort reads no two rows alike, or it is one of those.
abbrev pub IsPageable : Sort → List Entry → Type 0
IsPageable s es = (is_ascending s ≡ true) ⊎ UniqueKeys (sort_value s) es

-- Rows of one value are one row.
abbrev Apart : Sort → Entry → Entry → Type 0
Apart s c e = sort_value s e ≡ sort_value s c → id_of e ≡ id_of c

is_past-order :
    (s : Sort) (k : ℕ) (c e : Entry)
    → (is_ascending s ≡ true) ⊎ Apart s c e
    → is_past s k (some c) e ≡ order_clause s c e
is_past-order ending_soon k c e h = refl
is_past-order price_low k c e h = refl
is_past-order popular k c e (inl h) = cc
is_past-order popular k c e (inr h) = ground (arith, h)
is_past-order newest k c e (inl h) = cc
is_past-order newest k c e (inr h) = ground (arith, h)
is_past-order bid_count k c e (inl h) = cc
is_past-order bid_count k c e (inr h) = ground (arith, h)

-- All rows that one condition holds of.
Apart-All :
    (s : Sort) (c : Entry) (ms es xs : List Entry)
    → IsFoundIn (sort_value s) ms c
    → All (IsFoundIn (sort_value s) ms) xs
    → All (λ e. is_past s (id_of c) (some c) e ≡ order_clause s c e) xs
Apart-All s c ms es [] f h = tt
Apart-All s c ms es (x ∷ xs) f h = (
  is_past-order s (id_of c) c x (inr (λ e. ap id_of (same_row (sort_value s) ms x c h.0 f e))),
  Apart-All s c ms es xs f h.1,
)

ascending-All :
    (s : Sort) (c : Entry) (xs : List Entry)
    → is_ascending s ≡ true
    → All (λ e. is_past s (id_of c) (some c) e ≡ order_clause s c e) xs
ascending-All s c [] h = tt
ascending-All s c (x ∷ xs) h = (is_past-order s (id_of c) c x (inl h), ascending-All s c xs h)

is_past-All :
    (s : Sort) (ms xs ys : List Entry) (c : Entry)
    → IsPageable s ms
    → sort_by (order_clause s) ms ≡ xs ++ c ∷ ys
    → All (λ e. is_past s (id_of c) (some c) e ≡ order_clause s c e) ms
is_past-All s ms xs ys c (inl h) e = ascending-All s c ms h
is_past-All s ms xs ys c (inr u) e =
    let found = All-IsFoundIn (sort_value s) ms u in
    let sorted = All-sort_by (IsFoundIn (sort_value s) ms) (order_clause s) ms found in
    let middle =
      All-middle (IsFoundIn (sort_value s) ms) c xs ys
        (subst (All (IsFoundIn (sort_value s) ms)) e sorted) in
    Apart-All s c ms ms ms middle found

module _ (trim slice_80 : String → String) (ilike : String → String → Bool) (q : ListQuery)
    (now : ℕ) (es : List Entry) where
  -- The rows that a list is about.
  abbrev pub matching : List Entry
  matching = filter_by (matches trim slice_80 ilike q now) es

  -- What follows a cursor is what comes after its row.
  pub rows_after-suffix :
      (xs ys : List Entry) (c : Entry)
      → UniqueKeys id_of es
      → IsPageable q.sort matching
      → rows_after trim slice_80 ilike q now es none ≡ xs ++ c ∷ ys
      → rows_after trim slice_80 ilike q now es (some (id_of c)) ≡ ys
  unfolding rows_after
  rows_after-suffix xs ys c unique pageable e =
      let order = order_clause-IsStrictOrder q.sort in
      let few = UniqueKeys-filter_by id_of (matches trim slice_80 ilike q now) es unique in
      let found =
        All-filter_by (IsFoundIn id_of es) (matches trim slice_80 ilike q now) es
          (All-IsFoundIn id_of es unique) in
      let self : find id_of (id_of c) es ≡ some c = All-middle (IsFoundIn id_of es) c xs ys (
        subst (All (IsFoundIn id_of es)) e
          (All-sort_by (IsFoundIn id_of es) (order_clause q.sort) matching found)) in
      let cut =
        filter_by-cong (is_past q.sort (id_of c) (some c)) (order_clause q.sort c) matching
          (is_past-All q.sort matching xs ys c pageable e) in
      let sorted : IsSortedBy (order_clause q.sort) (xs ++ c ∷ ys) =
        subst (IsSortedBy (order_clause q.sort)) e (sort_by-IsSortedBy order matching few) in
      rw (self, cut, sort_by-filter_by order (order_clause q.sort c) matching few, e)
        (filter_by-suffix order c xs ys sorted)
