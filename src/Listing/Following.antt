-- ===== src/Listing/Following.antt =====
-- What a client has that follows the cursors of the list to its end.
use mathlib.Core.List.{map-append}
use sneakerbid.Base.{
  ℕ, zero, suc, ◌+◌, ◌<◌, Bool, true, false, Option, none, some, List, [], ◌∷◌, ◌≡◌, refl, arith,
  All, ◌==◌, ltb, length, take, map, String, Bool-cases, Option-cases, inl, inr, ◌∙◌, ap, sym,
  append_nil,
}
use sneakerbid.Store.Rows.{Wishlist}
use sneakerbid.Store.Pages.{walk, last_key, sort_by}
use sneakerbid.Store.Pages.Order.{UniqueKeys}
use sneakerbid.Store.Pages.Walk.{walk-rest}
use sneakerbid.Wishlist.{is_wishlisted, contains}
use sneakerbid.Wishlist.Toggling.{get_wishlisted_map-is_wishlisted}
use sneakerbid.Listing.{
  Entry, id_of, ListQuery, Summary, rows_after, list_with_filters, list_auctions, follow,
  to_summary, flag_of, with_flags, with_wishes, order_clause,
}
use sneakerbid.Listing.Paging.{IsPageable, matching, rows_after-suffix}

-- Whether the one who asks has the auction on the list of wishes.
abbrev pub wished_by : Option ℕ → List Wishlist → ℕ → Bool
wished_by none ws a = false
wished_by (some u) ws a = is_wishlisted u a ws

flag_of-map :
    (g : ℕ → Bool) (k : ℕ) (ids : List ℕ)
    → contains k ids ≡ true
    → flag_of k (map {B = ℕ × Bool} (λ a. (a, g a)) ids) ≡ g k
flag_of-map g k [] h = cc
flag_of-map g k (a ∷ ids) h = elim (Bool-cases (a == k)) [
  | inl e ↦ let same : a ≡ k = ground arith in rw e (ap g same)
  | inr e ↦ rw e (flag_of-map g k ids (rw e at h))
]

-- Each row of a list with the summary that it has by itself.
abbrev pub summary_of : Option ℕ → List Wishlist → ℕ → Entry → Summary
summary_of user ws now e = to_summary now (some (wished_by user ws (id_of e))) e

with_flags-some :
    (u : ℕ) (ws : List Wishlist) (now : ℕ) (ids : List ℕ) (es : List Entry)
    → All (λ e. contains (id_of e) ids ≡ true) es
    → with_flags now (map {B = ℕ × Bool} (λ a. (a, is_wishlisted u a ws)) ids) es
      ≡ map (summary_of (some u) ws now) es
with_flags-some u ws now ids [] h = refl
with_flags-some u ws now ids (e ∷ es) h =
    rw (flag_of-map (λ a. is_wishlisted u a ws) (id_of e) ids h.0)
      (ap (λ l. summary_of (some u) ws now e ∷ l) (with_flags-some u ws now ids es h.1))

contains-cons :
    (k : ℕ) (ids : List ℕ) (es : List Entry)
    → All (λ e. contains (id_of e) ids ≡ true) es
    → All (λ e. contains (id_of e) (k ∷ ids) ≡ true) es
contains-cons k ids [] h = tt
contains-cons k ids (e ∷ es) h = (ground (arith, h.0), contains-cons k ids es h.1)

contains-own : (es : List Entry) → All (λ e. contains (id_of e) (map id_of es) ≡ true) es
contains-own [] = tt
contains-own (e ∷ es) = (ground arith, contains-cons (id_of e) (map id_of es) es (contains-own es))

with_flags-none :
    (ws : List Wishlist) (now : ℕ) (es : List Entry)
    → with_flags now [] es ≡ map (summary_of none ws now) es
with_flags-none ws now [] = refl
with_flags-none ws now (e ∷ es) = ap (λ l. summary_of none ws now e ∷ l) (with_flags-none ws now es)

pub with_wishes_lem :
    (user : Option ℕ) (ws : List Wishlist) (now : ℕ) (es : List Entry)
    → with_wishes user ws now es ≡ map (summary_of user ws now) es
with_wishes_lem none ws now es = with_flags-none ws now es
with_wishes_lem (some u) ws now es =
    rw (get_wishlisted_map-is_wishlisted u (map id_of es) ws)
      (with_flags-some u ws now (map id_of es) es (contains-own es))

module _ (trim slice_80 : String → String) (ilike : String → String → Bool) (user : Option ℕ)
    (ws : List Wishlist) (q : ListQuery) (now : ℕ) (es : List Entry) where
  pub follow-walk :
      (fuel : ℕ) (cursor : Option ℕ)
      → follow trim slice_80 ilike user ws fuel q now es cursor
        ≡ map
            (summary_of user ws now)
            (walk id_of fuel q.limit (rows_after trim slice_80 ilike q now es) cursor)
  unfolding follow walk list_auctions list_with_filters
  follow-walk zero cursor = refl
  follow-walk (suc fuel) cursor =
      let read = take (suc q.limit) (rows_after trim slice_80 ilike q now es cursor) in
      let one : q.limit + 1 ≡ suc q.limit = omega arith in
      rw one (elim (Bool-cases (ltb q.limit (length read))) [
        | inr e ↦
            rw e (append_nil (with_wishes user ws now read) ∙ with_wishes_lem user ws now read)
        | inl e ↦
            let front = with_wishes_lem user ws now (take q.limit read) in
            elim (Option-cases (last_key id_of (take q.limit read))) [
              | inl l ↦
                  rw (e, l, front)
                    (sym (map-append (summary_of user ws now) (take q.limit read) []))
              | inr (k, l) ↦
                  rw (e, l, front, follow-walk fuel (some k))
                    (sym (map-append (summary_of user ws now) (take q.limit read) _))
            ]
      ])

  -- Where no two auctions have one id, and the sort is by the end or by the lowest price, or no two
  -- auctions that are found have one value in the column of the sort, following the cursors of the
  -- pages, while nothing changes, ends after at most one page more than there are auctions found, and
  -- gives each auction that is found once, in the order of the sort, with whether the one who asks
  -- has it on the list of wishes.
  pub follow-sorted :
      (fuel m : ℕ)
      → UniqueKeys id_of es
      → IsPageable q.sort (matching trim slice_80 ilike q now es)
      → q.limit ≡ suc m
      → length (sort_by (order_clause q.sort) (matching trim slice_80 ilike q now es)) < fuel
      → follow trim slice_80 ilike user ws fuel q now es none
        ≡ map
            (summary_of user ws now)
            (sort_by (order_clause q.sort) (matching trim slice_80 ilike q now es))
  unfolding rows_after
  follow-sorted fuel m unique pageable size enough =
      follow-walk fuel none
      ∙ ap (map (summary_of user ws now)) (
          ap (λ c. walk id_of fuel c (rows_after trim slice_80 ilike q now es) none) size
          ∙ walk-rest id_of (rows_after trim slice_80 ilike q now es)
              (λ xs ys c e.
                rows_after-suffix trim slice_80 ilike q now es xs ys c unique pageable e)
              fuel m none [] (sort_by (order_clause q.sort) (matching trim slice_80 ilike q now es))
              refl refl enough)
