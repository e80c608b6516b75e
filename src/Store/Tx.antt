-- ===== src/Store/Tx.antt =====
-- A transaction of backend/src/database/database.service.ts as a function of the database that
-- returns a value with the new database, or throws. A throw loses the writes: nothing in a
-- transaction catches, so `transaction` rolls back.
use sneakerbid.Base.{ℕ, Bool, true, false, Option, none, some}
use sneakerbid.Store.Rows.{Db}

-- What the code throws, with the exception's class and what its message tells.
pub data Error : Type 0 where
  -- NotFoundException
  auction_not_found order_not_found notification_not_found : Error
  -- ForbiddenException
  not_permitted not_own_order not_a_party : Error
  -- ConflictException
  already_paid already_reviewed : Error
  -- BadRequestException
  own_auction already_leading not_open already_ended insufficient_balance : Error
  bid_too_low : ℕ → Error
  brand_not_allowed size_not_allowed buy_now_below_start bad_end_time unknown_user : Error
  no_buy_now_price already_sold has_bids has_orders not_editable bad_increment : Error
  start_price_fixed buy_now_price_fixed not_payable : Error
  no_order_to_review order_not_paid : Error
  -- Error
  token_not_persisted user_not_found : Error
  -- thrown by the database or its client
  check_violation unique_violation foreign_key_violation no_row lock_options_clash lost_connection :
      Error

pub data Result {ℓ} (A : Type ℓ) : Type ℓ where
  ok : A → Result A
  err : Error → Result A

abbrev pub Tx : Type 0 → Type 0
Tx A = Db → Result (A × Db)

abbrev pub after : {A B : Type 0} → (A → Tx B) → Result (A × Db) → Result (B × Db)
after f (ok (a, db)) = f a db
after f (err e) = err e

infixl 5 ◌>>=◌ ◌>>◌
abbrev pub ◌>>=◌ : {A B : Type 0} → Tx A → (A → Tx B) → Tx B
◌>>=◌ m f db = after f (m db)

abbrev pub ◌>>◌ : {A B : Type 0} → Tx A → Tx B → Tx B
m >> k = m >>= λ _. k

module _ {A : Type 0} where
  abbrev pub pure : A → Tx A
  pure a db = ok (a, db)

  abbrev pub throw : Error → Tx A
  throw e db = err e

  abbrev pub gets : (Db → A) → Tx A
  gets f db = ok (f db, db)

  -- `if (!value) throw e`
  abbrev pub or_throw : Option A → Error → Tx A
  or_throw none e = throw e
  or_throw (some a) e = pure a

-- `if (c) throw e`
abbrev pub throw_if : Bool → Error → Tx (Unit {0})
throw_if true e = throw e
throw_if false e = pure tt

abbrev pub modify : (Db → Db) → Tx (Unit {0})
modify f db = ok (tt, f db)

-- What the caller gets, and the database afterwards.
abbrev pub settle : {A : Type 0} → Db → Result (A × Db) → Result A × Db
settle db (ok (a, db')) = (ok a, db')
settle db (err e) = (err e, db)

-- BEGIN, the body, and COMMIT or, after a throw, ROLLBACK.
unfoldable pub transaction : {A : Type 0} → Tx A → Db → Result A × Db
transaction m db = settle db (m db)

-- `if (c) return null`: the transaction ends, and commits.
abbrev pub null_if : {A : Type 0} → Bool → Tx (Option A) → Tx (Option A)
null_if true k = pure none
null_if false k = k

-- `if (!value) return null`
abbrev pub or_null : {A B : Type 0} → Option A → (A → Tx (Option B)) → Tx (Option B)
or_null none k = pure none
or_null (some a) k = k a
