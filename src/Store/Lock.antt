-- ===== src/Store/Lock.antt =====
-- backend/src/auctions/auction-lock.helper.ts: the row of an auction is locked when it satisfies
-- the options. A transaction holds the lock to its end, so transactions on one auction follow one
-- another, and each is one step of the database.
use sneakerbid.Base.{ℕ, Bool, true, false, Option, none, some, ◌&&◌, ltb, leb, is_some}
use sneakerbid.Store.Table.{find}
use sneakerbid.Store.Rows.{Auction, is_opened}
use sneakerbid.Store.Tx.{Tx, Error, ◌>>◌, gets, throw_if}

pub record LockOptions : Type 0 where
  pub status_open : Bool
  pub end_time_lte : Option ℕ
  pub end_time_gt : Option ℕ

-- The WHERE clause beyond the id; a bound on the end time is read only beside `status: 'OPEN'`.
abbrev pub lock_condition : Bool → Option ℕ → Option ℕ → Auction → Bool
lock_condition true (some t) _ a = is_opened a.status && leb a.end_time t
lock_condition true none (some t) a = is_opened a.status && ltb t a.end_time
lock_condition true none none a = is_opened a.status
lock_condition false _ _ a = true

abbrev pub row_locked : LockOptions → Option Auction → Bool
row_locked o none = false
row_locked o (some a) = lock_condition o.status_open o.end_time_lte o.end_time_gt a

unfoldable pub lock_auction_for_update : ℕ → LockOptions → Tx Bool
lock_auction_for_update id o = do
  throw_if (is_some o.end_time_lte && is_some o.end_time_gt) Error.lock_options_clash
  gets (λ db. row_locked o (find (λ a. a.id) id db.auctions))

-- `{ status: 'OPEN', endTimeGt: now }`
abbrev pub open_after : ℕ → LockOptions
open_after now = record { status_open = true; end_time_lte = none; end_time_gt = some now }

-- `{ status: 'OPEN', endTimeLte: now }`
abbrev pub open_until : ℕ → LockOptions
open_until now = record { status_open = true; end_time_lte = some now; end_time_gt = none }

-- `{ status: 'OPEN' }`
abbrev pub open_any : LockOptions
open_any = record { status_open = true; end_time_lte = none; end_time_gt = none }

-- no options
abbrev pub any_status : LockOptions
any_status = record { status_open = false; end_time_lte = none; end_time_gt = none }
