-- ===== src/Store/Ranking.antt =====
-- The order in which `tx.auction.findUnique` of backend/src/database/transaction-client.ts reads the
-- bids of an auction.
use sneakerbid.Base.{
  ℕ, ◌≤◌, Bool, List, [], ◌∷◌, ◌≡◌, refl, arith, All, filter_by, length, ◌&&◌, ◌∙◌,
}
use sneakerbid.Store.Rows.{Bid}
use sneakerbid.Store.Client.{active_bids, is_active_for, insert_by_price, sort_by_price}

abbrev pub AtMost : ℕ → List Bid → Type 0
AtMost p bs = All (λ (b : Bid). b.bid_price ≤ p) bs

AtMost-insert :
    (p : ℕ) (b : Bid) (bs : List Bid)
    → b.bid_price ≤ p
    → AtMost p bs
    → AtMost p (insert_by_price b bs)
AtMost-insert p b [] h k = (h, tt)
AtMost-insert p b (x ∷ bs) h k = ground (arith, AtMost-insert p b bs h k.1)

pub AtMost-sort : (p : ℕ) (bs : List Bid) → AtMost p bs → AtMost p (sort_by_price bs)
AtMost-sort p [] h = tt
AtMost-sort p (b ∷ bs) h = AtMost-insert p b (sort_by_price bs) h.0 (AtMost-sort p bs h.1)

pub AtMost-mono : (p q : ℕ) (bs : List Bid) → p ≤ q → AtMost p bs → AtMost q bs
AtMost-mono p q [] h k = tt
AtMost-mono p q (b ∷ bs) h k = (omega arith, AtMost-mono p q bs h k.1)

-- The prices of a list of bids do not rise.
abbrev pub Falling : List Bid → Type 0
Falling [] = Unit
Falling (b ∷ bs) = AtMost b.bid_price bs × Falling bs

Falling-insert : (b : Bid) (bs : List Bid) → Falling bs → Falling (insert_by_price b bs)
Falling-insert b [] h = (tt, tt)
Falling-insert b (x ∷ bs) h = ground (
  arith,
  AtMost-mono x.bid_price b.bid_price bs,
  AtMost-insert x.bid_price b bs,
  Falling-insert b bs h.1,
)

Falling-sort : (bs : List Bid) → Falling (sort_by_price bs)
Falling-sort [] = tt
Falling-sort (b ∷ bs) = Falling-insert b (sort_by_price bs) (Falling-sort bs)

pub active_bids-Falling : (id : ℕ) (bs : List Bid) → Falling (active_bids id bs)
unfolding active_bids
active_bids-Falling id bs = Falling-sort (filter_by (is_active_for id) bs)

-- How many bids pass a test.
abbrev pub count : (Bid → Bool) → List Bid → ℕ
count p bs = length (filter_by p bs)

count-insert :
    (p : Bid → Bool) (b : Bid) (bs : List Bid) → count p (insert_by_price b bs) ≡ count p (b ∷ bs)
count-insert p b [] = refl
count-insert p b (x ∷ bs) = ground (arith, count-insert p b bs)

count-sort : (p : Bid → Bool) (bs : List Bid) → count p (sort_by_price bs) ≡ count p bs
count-sort p [] = refl
count-sort p (b ∷ bs) = ground (arith, count-insert p b (sort_by_price bs), count-sort p bs)

count-filter :
    (p q : Bid → Bool) (bs : List Bid) → count p (filter_by q bs) ≡ count (λ b. q b && p b) bs
count-filter p q [] = refl
count-filter p q (b ∷ bs) = ground (arith, count-filter p q bs)

-- The active bids of an auction are read dearest first, and they are the bids on it that are not
-- disqualified: as many pass any test as there are such bids in the table that pass it.
pub active_bids-ranking :
    (id : ℕ) (bs : List Bid)
    → Falling (active_bids id bs)
      × ((p : Bid → Bool) → count p (active_bids id bs) ≡ count (λ b. is_active_for id b && p b) bs)
unfolding active_bids
active_bids-ranking id bs = (
  active_bids-Falling id bs,
  λ p. count-sort p (filter_by (is_active_for id) bs) ∙ count-filter p (is_active_for id) bs,
)
