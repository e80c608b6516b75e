-- ===== src/Reviews/Parties.antt =====
-- Who reviews whom.
use sneakerbid.Base.{
  ℕ, ◌≤◌, true, Option, some, List, ◌∷◌, ◌≡◌, refl, arith, ◌⊎◌, inl, inr, ◌==◌, any, String,
  Option-cases, false, Bool-cases, eq_of_==,
}
use sneakerbid.Store.Rows.{Auction, Order, Db, is_paid}
use sneakerbid.Store.Table.{find}
use sneakerbid.Store.Tx.{Error, ok, err}
use sneakerbid.Reviews.{Review, create_for_order, find_for_review, insert, is_by, new_review}

module _ (trim : String → String) where
  -- A review that is taken is about an order that is paid and whose auction is there, by its buyer about
  -- its seller or the other way round, with one to five points, and it is the only one of its author
  -- about the order; a further one is refused, whatever it says.
  pub create_for_order-ok :
      (id order_id u rating : ℕ) (comment : Option String) (now : ℕ) (db : Db)
      (rs rs' : List Review)
      → create_for_order trim id order_id u rating comment now db rs ≡ ok rs'
      → (o : Order) × (a : Auction) × (target : ℕ) × (find (λ x. x.id) order_id db.orders ≡ some o)
        × (find (λ x. x.id) o.auction_id db.auctions ≡ some a)
        × (is_paid o.status ≡ true)
        × (((u ≡ o.buyer_user_id) × (target ≡ a.seller_user_id))
            ⊎ ((u ≡ a.seller_user_id) × (target ≡ o.buyer_user_id)))
        × (1 ≤ rating)
        × (rating ≤ 5)
        × (any (is_by order_id u) rs ≡ false)
        × (rs' ≡ new_review trim id order_id u target rating comment now ∷ rs)
        × ((id' rating' : ℕ) (comment' : Option String) (later : ℕ)
            → create_for_order trim id' order_id u rating' comment' later db rs'
              ≡ err Error.already_reviewed)
  unfolding create_for_order find_for_review insert
  create_for_order-ok id order_id u rating comment now db rs rs' h =
      elim (Option-cases (find (λ x. x.id) order_id db.orders)) [
        | inl missing ↦ absurd (ground arith)
        | inr (o, e) ↦ elim (Option-cases (find (λ x. x.id) o.auction_id db.auctions)) [
          | inl no_auction ↦ absurd (ground arith)
          | inr (a, ea) ↦ elim (Bool-cases (u == o.buyer_user_id)) [
            | inl buyer ↦ (
              o,
              a,
              a.seller_user_id,
              e,
              ea,
              ground arith,
              inl (eq_of_== u o.buyer_user_id buyer, refl),
              ground arith,
              ground arith,
              ground arith,
              ground arith,
              λ id' rating' comment' later. ground arith,
            )
            | inr other ↦ (
              o,
              a,
              o.buyer_user_id,
              e,
              ea,
              ground arith,
              inr (ground arith, refl),
              ground arith,
              ground arith,
              ground arith,
              ground arith,
              λ id' rating' comment' later. ground arith,
            )
          ]
        ]
      ]
