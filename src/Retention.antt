-- ===== src/Retention.antt =====
-- The deletion of old rows in backend/src/retention/data-retention.service.ts: closed auctions with
-- what hangs on them, orders, and sneakers that no auction has. Its requests come one after the other,
-- and the configuration is a parameter.
pub mod Daily
pub mod Batches
pub mod Ending
mod Tests
use sneakerbid.Base.{
  ℕ, zero, suc, ◌+◌, ◌-◌, ◌*◌, Bool, true, false, Option, none, some, List, [], ◌∷◌, ◌&&◌, ◌||◌,
  ◌==◌, ltb, leb, min, String, same_text, if◌then◌else◌, not, any, filter_by, length, take, map,
}
use sneakerbid.Base.Int.{ℤ, pos, negsuc}
use sneakerbid.Store.Rows.{
  Auction, Bid, Order, Sneaker, Db, WalletTransaction, WalletRefType, is_opened, is_bid_ref,
}

-- `DATA_RETENTION_BATCH_SIZE` of backend/src/common/constants/retention.constants.ts
abbrev pub data_retention_batch_size : ℕ
data_retention_batch_size = 200

abbrev pub contains : ℕ → List ℕ → Bool
contains k ids = any (λ x. x == k) ids

-- Rows with their time, the oldest first.
abbrev pub insert_oldest : ℕ × ℕ → List (ℕ × ℕ) → List (ℕ × ℕ)
insert_oldest (t, k) [] = (t, k) ∷ []
insert_oldest (t, k) ((u, j) ∷ rows) =
    if leb t u then (t, k) ∷ (u, j) ∷ rows else (u, j) ∷ insert_oldest (t, k) rows

abbrev pub oldest_first : List (ℕ × ℕ) → List (ℕ × ℕ)
oldest_first [] = []
oldest_first (r ∷ rows) = insert_oldest r (oldest_first rows)

abbrev pub ids_of : List (ℕ × ℕ) → List ℕ
ids_of [] = []
ids_of ((t, k) ∷ rows) = k ∷ ids_of rows

module _ {Row : Type 0} (id : Row → ℕ) where
  -- `DELETE … WHERE id = ANY($1)`
  abbrev pub without : List ℕ → List Row → List Row
  without ids rows = filter_by (λ r. not (contains (id r) ids)) rows

  module _ (time : Row → ℕ) (is_old : Row → Bool) where
    abbrev pub stamped : List Row → List (ℕ × ℕ)
    stamped rows = map (λ r. (time r, id r)) (filter_by is_old rows)

    -- `SELECT id … WHERE … ORDER BY … ASC LIMIT $2`
    abbrev pub batch_of : ℕ → List Row → List ℕ
    batch_of size rows = ids_of (take size (oldest_first (stamped rows)))

-- The loop that all three methods have: what is deleted in all, and the database, or none while the
-- fuel does not suffice. `rows` counts the rows of the table.
module _ (batch : Db → List ℕ) (purge : List ℕ → Db → Db) (rows : Db → ℕ) (size : ℕ) where
  unfoldable pub purge_batches : ℕ → ℕ → Db → Option (ℕ × Db)
  purge_batches zero total db = none
  purge_batches (suc fuel) total db =
      let ids = batch db in
      let db' = purge ids db in
      let total' = total + (rows db - rows db') in
      let rest = purge_batches fuel total' db' in
      if length ids == 0
      then some (total, db)
      else if ltb (length ids) size
      then some (total', db')
      else rest

abbrev pub or_zero : Option ℕ → ℕ
or_zero none = 0
or_zero (some t) = t

-- `"closedAt" IS NOT NULL AND "closedAt" < $1`
abbrev pub is_before : ℕ → Option ℕ → Bool
is_before cutoff none = false
is_before cutoff (some t) = ltb t cutoff

abbrev pub is_expired : ℕ → Auction → Bool
is_expired cutoff a = not (is_opened a.status) && is_before cutoff a.closed_at

abbrev pub closed_batch : ℕ → ℕ → Db → List ℕ
closed_batch cutoff size db =
    batch_of (λ a. a.id) (λ a. or_zero a.closed_at) (is_expired cutoff) size db.auctions

-- An entry of the ledger about an order, a bid or an auction.
abbrev pub refers : WalletRefType → ℕ → List ℕ → Db → Bool
refers WalletRefType.order_ref ref ids db =
    any (λ o. o.id == ref && contains o.auction_id ids) db.orders
refers WalletRefType.bid_ref ref ids db =
    any (λ b. b.id == ref && contains b.auction_id ids) db.bids
refers WalletRefType.auction_ref ref ids db = contains ref ids
refers WalletRefType.system_ref ref ids db = false

abbrev pub has_origin_in : Option ℕ → List ℕ → Bool
has_origin_in none ids = false
has_origin_in (some k) ids = contains k ids

abbrev pub forget_origins : List ℕ → Auction → Auction
forget_origins ids a =
    if has_origin_in a.relisted_from_auction_id ids
    then record a { relisted_from_auction_id = none }
    else a

-- The transaction of a batch of auctions: the ledger, the orders, and the auctions, with which bids and
-- wishes go.
unfoldable pub purge_auctions : List ℕ → Db → Db
purge_auctions ids db = record db {
  wallet_transactions =
      filter_by (λ t. not (refers t.ref_type t.ref_id ids db)) db.wallet_transactions;
  orders = filter_by (λ o. not (contains o.auction_id ids)) db.orders;
  auctions = map (forget_origins ids) (without (λ a. a.id) ids db.auctions);
  bids = filter_by (λ b. not (contains b.auction_id ids)) db.bids;
  wishlists = filter_by (λ l. not (contains l.auction_id ids)) db.wishlists;
}

-- `purgeClosedAuctionBatches`
unfoldable pub purge_closed_auction_batches : ℕ → ℕ → Db → Option (ℕ × Db)
unfolding purge_batches purge_auctions
purge_closed_auction_batches fuel cutoff db =
    purge_batches (closed_batch cutoff data_retention_batch_size) purge_auctions
      (λ d. length d.auctions) data_retention_batch_size fuel 0 db

abbrev pub is_order_ref : WalletRefType → Bool
is_order_ref WalletRefType.order_ref = true
is_order_ref _ = false

abbrev pub order_batch : ℕ → ℕ → Db → List ℕ
order_batch cutoff size db =
    batch_of (λ o. o.id) (λ o. o.created_at) (λ o. ltb o.created_at cutoff) size db.orders

-- The transaction of a batch of orders, whatever their status
unfoldable pub purge_orders : List ℕ → Db → Db
purge_orders ids db = record db {
  wallet_transactions =
      filter_by (λ t. not (is_order_ref t.ref_type && contains t.ref_id ids))
        db.wallet_transactions;
  orders = without (λ o. o.id) ids db.orders;
}

-- `purgeOrdersOlderThan`
unfoldable pub purge_orders_older_than : ℕ → ℕ → Db → Option (ℕ × Db)
unfolding purge_batches purge_orders
purge_orders_older_than fuel cutoff db =
    purge_batches (order_batch cutoff data_retention_batch_size) purge_orders (λ d. length d.orders)
      data_retention_batch_size fuel 0 db

-- `s."createdAt" < $1 AND NOT EXISTS (SELECT 1 FROM "Auction" a WHERE a."sneakerId" = s.id)`
abbrev pub is_orphan : ℕ → List Auction → Sneaker → Bool
is_orphan cutoff auctions s =
    ltb s.created_at cutoff && not (any (λ a. a.sneaker_id == s.id) auctions)

abbrev pub sneaker_batch : ℕ → ℕ → Db → List ℕ
sneaker_batch cutoff size db =
    batch_of (λ s. s.id) (λ s. s.created_at) (is_orphan cutoff db.auctions) size db.sneakers

-- `DELETE FROM "Sneaker"`
unfoldable pub purge_sneakers : List ℕ → Db → Db
purge_sneakers ids db = record db { sneakers = without (λ s. s.id) ids db.sneakers }

-- `purgeOrphanSneakersOlderThan`
unfoldable pub purge_orphan_sneakers_older_than : ℕ → ℕ → Db → Option (ℕ × Db)
unfolding purge_batches purge_sneakers
purge_orphan_sneakers_older_than fuel cutoff db =
    purge_batches (sneaker_batch cutoff data_retention_batch_size) purge_sneakers
      (λ d. length d.sneakers) data_retention_batch_size fuel 0 db

-- A value of the configuration: a number rounded down, if it is finite, or a text.
pub data Setting : Type 0 where
  missing : Setting
  number : (floor : Option ℤ) → Setting
  text : (raw : String) → Setting

-- Seven days where there is no number from 0 on, and a year at most.
abbrev pub days_of : Option ℤ → ℕ
days_of none = 7
days_of (some (pos n)) = min 365 n
days_of (some (negsuc _)) = 7

-- `normalizeDataRetentionDays` of backend/src/common/config/env.validation.ts, over `String.trim` and
-- `parseInt`.
unfoldable pub normalize_data_retention_days : (String → String) → (String → Option ℤ) → Setting → ℕ
normalize_data_retention_days trim parse_int missing = 7
normalize_data_retention_days trim parse_int (number floor) = days_of floor
normalize_data_retention_days trim parse_int (text raw) =
    if same_text raw "" || same_text (trim raw) "" then 7 else days_of (parse_int (trim raw))

-- The numbers that a run logs.
pub record Purged : Type 0 where
  pub total_auctions : ℕ
  pub total_orders : ℕ
  pub total_sneakers : ℕ

-- `cutoff` of `purgeOldClosedAuctions`; times are after the first days of 1970.
abbrev pub cutoff_of : ℕ → ℕ → ℕ
cutoff_of days now = now - days * (24 * 60 * 60 * 1000)

infixl 5 ◌>>=◌
abbrev ◌>>=◌ : {A B : Type 0} → Option A → (A → Option B) → Option B
none >>= f = none
some x >>= f = f x

-- `purgeOldClosedAuctions`, each loop with the fuel: what was deleted, if anything was to be, and the
-- database.
unfoldable pub purge_old_closed_auctions : ℕ → ℕ → ℕ → Db → Option (Option Purged × Db)
unfolding purge_closed_auction_batches purge_orders_older_than purge_orphan_sneakers_older_than
purge_old_closed_auctions fuel zero now db = some (none, db)
purge_old_closed_auctions fuel (suc days) now db =
    let cutoff = cutoff_of (suc days) now in
    do
      (total_auctions, db_1) ← purge_closed_auction_batches fuel cutoff db
      (total_orders, db_2) ← purge_orders_older_than fuel cutoff db_1
      (total_sneakers, db_3) ← purge_orphan_sneakers_older_than fuel cutoff db_2
      some (
        some (record {
          total_auctions = total_auctions;
          total_orders = total_orders;
          total_sneakers = total_sneakers;
        }),
        db_3,
      )
