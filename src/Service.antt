-- ===== src/Service.antt =====
-- What a method of a service works on between its transactions: the database, and what it has sent
-- through backend/src/events/events.service.ts and backend/src/notifications/notifications.service.ts.
-- A throw keeps what was committed and sent before it.
use sneakerbid.Base.{ℕ, Bool, true, false, Option, none, some, List, ◌∷◌, String}
use sneakerbid.Store.Rows.{Db}
use sneakerbid.Store.Tx.{Error, Result, ok, err, Tx, transaction}

-- `AuctionHistoryItem`, without its picture and date
pub record HistoryItem : Type 0 where
  pub auction_id : ℕ
  pub brand : String
  pub model_name : String
  pub participants : ℕ
  pub final_price : ℕ
  pub completed : Bool

-- The `status` of the payload of an `auctionClosed` event.
pub data ClosedBy : Type 0 where
  time_or_admin buy_now : ClosedBy

pub data Message : Type 0 where
  new_bid :
      (auction_id bid_id : ℕ) (who : String) (amount : ℕ) (is_bot : Bool) (participants : ℕ)
      → Message
  stats_update : Message
  auction_closed : (auction_id : ℕ) → ClosedBy → Option ℕ → (final_price : ℕ) → Message
  new_deal : HistoryItem → Message
  bid_overtaken : (user_id auction_id : ℕ) → Message
  auction_won : (user_id auction_id final_price : ℕ) → Message
  wishlist_bid_activity : (user_id auction_id price : ℕ) → Message

-- `sent` has the newest message first.
pub record World : Type 0 where
  pub db : Db
  pub sent : List Message

abbrev pub Action : Type 0 → Type 0
Action A = World → Result A × World

infixl 5 ◌>>=◌ ◌>>◌
abbrev pub next : {A B : Type 0} → (A → Action B) → Result A × World → Result B × World
next f (ok a, w) = f a w
next f (err e, w) = (err e, w)

abbrev pub ◌>>=◌ : {A B : Type 0} → Action A → (A → Action B) → Action B
◌>>=◌ m f w = next f (m w)

abbrev pub ◌>>◌ : {A B : Type 0} → Action A → Action B → Action B
m >> k = m >>= λ _. k

module _ {A : Type 0} where
  abbrev pub pure : A → Action A
  pure a w = (ok a, w)

  abbrev pub throw : Error → Action A
  throw e w = (err e, w)

  -- A read outside a transaction.
  abbrev pub reads : (Db → A) → Action A
  reads f w = (ok (f w.db), w)

  abbrev pub or_throw : Option A → Error → Action A
  or_throw none e = throw e
  or_throw (some a) e = pure a

  -- `db.transaction(…)`
  abbrev pub in_transaction : Tx A → Action A
  in_transaction m w = let (r, db) = transaction m w.db in (r, record w { db = db })

  -- A call of the database while it can be reached or not.
  abbrev pub if_reached : Bool → Action A → Action A
  if_reached true m = m
  if_reached false m = throw Error.lost_connection

  -- `try { … } catch { log }`
  abbrev pub attempt : Result A × World → World
  attempt (_, w) = w

abbrev pub throw_if : Bool → Error → Action (Unit {0})
throw_if true e = throw e
throw_if false e = pure tt

abbrev pub send : Message → Action (Unit {0})
send m w = (ok tt, record w { sent = m ∷ w.sent })

-- `emitNewBid` and `emitNewDeal` send the signal for the statistics too.
abbrev pub emit_new_bid : Message → Action (Unit {0})
emit_new_bid m = send m >> send Message.stats_update

abbrev pub emit_new_deal : Option HistoryItem → Action (Unit {0})
emit_new_deal none = pure tt
emit_new_deal (some item) = send (Message.new_deal item) >> send Message.stats_update
