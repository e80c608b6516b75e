-- ===== src/Bots/TopUp.antt =====
-- The money that bots get each day: `dailyBotBalanceTopUp` of backend/src/bots/bots.service.ts, with the
-- ranges of backend/src/common/constants/bot.constants.ts. Each update is a query of its own.
use sneakerbid.Base.{
  ℕ, ◌+◌, ◌≤◌, Bool, true, false, some, List, [], ◌∷◌, ◌==◌, ◌≡◌, refl, arith, if◌then◌else◌,
  String, same_text, Bool-cases, inl, inr, ◌∙◌, ap,
}
use sneakerbid.Base.Int.{ℤ, pos, ◌+ℤ◌, int_laws}
use sneakerbid.Store.Rows.{User, Db}
use sneakerbid.Store.Table.{find, update, find-update_self, find-update_ne}

-- `BotRow`, where nothing reads `enabled`
pub record BotRow : Type 0 where
  pub id : ℕ
  pub user_id : ℕ
  pub type : String

-- `DAILY_TOPUP_RANGE_BY_TYPE[bot.type] ?? DEFAULT_RANGE`
abbrev pub range_of : String → ℕ × ℕ
range_of type =
    if same_text type "AGGRESSIVE"
    then (80000, 150000)
    else if same_text type "CALCULATED"
    then (50000, 120000)
    else if same_text type "TROLL"
    then (20000, 60000)
    else if same_text type "EMOTIONAL"
    then (40000, 100000)
    else if same_text type "FOLLOWER"
    then (50000, 110000)
    else (30000, 80000)

-- `incrementUserBalance`
abbrev pub increment_user_balance : ℕ → ℕ → Db → Db
increment_user_balance user_id amount db = record db {
  users = update (λ u. u.id) user_id (λ u. record u { balance = u.balance +ℤ pos amount }) db.users;
}

-- `draw n` is `randInt` at its n-th call, and `up n` whether the database takes the n-th update: where it
-- does not, the loop throws, and what was committed stays.
module _ (draw : ℕ → ℕ → ℕ → ℕ) (up : ℕ → Bool) where
  -- `dailyBotBalanceTopUp` from its n-th bot on: whether it returns, and the database.
  unfoldable pub daily_bot_balance_top_up : ℕ → List BotRow → Db → Bool × Db
  daily_bot_balance_top_up n [] db = (true, db)
  daily_bot_balance_top_up n (bot ∷ bots) db =
      let (least, most) = range_of bot.type in
      if up n
      then daily_bot_balance_top_up (n + 1) bots
          (increment_user_balance bot.user_id (draw n least most) db)
      else (false, db)

-- What the bots of a user get at least, and at most.
abbrev least_for : ℕ → List BotRow → ℕ
least_for u [] = 0
least_for u (bot ∷ bots) =
    (if bot.user_id == u then (range_of bot.type).0 else 0) + least_for u bots

abbrev most_for : ℕ → List BotRow → ℕ
most_for u [] = 0
most_for u (bot ∷ bots) = (if bot.user_id == u then (range_of bot.type).1 else 0) + most_for u bots

range_of-least : (type : String) → (range_of type).0 ≤ (range_of type).1
range_of-least type = ground arith

+ℤ_twice : (b : ℤ) (m n : ℕ) → (b +ℤ pos m) +ℤ pos n ≡ b +ℤ pos (m + n)
+ℤ_twice b m n = grind int_laws

+ℤ_zero : (b : ℤ) → b +ℤ pos 0 ≡ b
+ℤ_zero b = grind int_laws

share :
    (b : Bool) (x y m n : ℕ) → x ≤ y → m ≤ n → (if b then x else 0) + m ≤ (if b then y else 0) + n
share true x y m n p q = omega arith
share false x y m n p q = omega arith

-- A user with more money.
abbrev richer : ℕ → User → User
richer n u = record u { balance = u.balance +ℤ pos n }

richer-zero : (u : User) → richer 0 u ≡ u
richer-zero u = ap (λ (b : ℤ). record u { balance = b }) (+ℤ_zero u.balance)

richer_twice : (m n : ℕ) (u : User) → richer n (richer m u) ≡ richer (m + n) u
richer_twice m n u = ap (λ (b : ℤ). record u { balance = b }) (+ℤ_twice u.balance m n)

-- What an update of a user by an id leaves of a row.
find-increment :
    (k id amount : ℕ) (db : Db) (u : User)
    → find (λ x. x.id) k db.users ≡ some u
    → find (λ x. x.id) k (increment_user_balance id amount db).users
      ≡ some (richer (if id == k then amount else 0) u)
find-increment k id amount db u h = elim (Bool-cases (id == k)) [
  | inl e ↦
      let same : id ≡ k = ground arith in
      rw (e, same) (find-update_self (λ x. x.id) (richer amount) (λ r. refl) k db.users u h)
  | inr e ↦
      let other : (k == id) ≡ false = ground arith in
      let kept = find-update_ne (λ x. x.id) (richer amount) (λ r. refl) k id db.users other in
      rw (e, richer-zero u) (kept ∙ h)
]

module _ (draw : ℕ → ℕ → ℕ → ℕ) (up : ℕ → Bool) where
  -- Where `randInt` keeps to its range, and whether or not the database fails in between: no user loses
  -- money or changes otherwise, each gets at most what the ranges of the types of its bots allow, and one
  -- without a bot nothing; if the run returns, each gets at least what they promise.
  daily_bot_balance_top_up-bounds :
      ((n least most : ℕ) → least ≤ most → (least ≤ draw n least most) × (draw n least most ≤ most))
      → (n k : ℕ) (bots : List BotRow) (db : Db) (u : User) → find (λ x. x.id) k db.users ≡ some u
      → let r = daily_bot_balance_top_up draw up n bots db in
        (total : ℕ) × (find (λ x. x.id) k r.1.users ≡ some (richer total u))
        × (total ≤ most_for k bots)
        × (r.0 ≡ true → least_for k bots ≤ total)
  unfolding daily_bot_balance_top_up
  daily_bot_balance_top_up-bounds range n k [] db u h =
      (0, rw (richer-zero u) h, omega arith, λ e. omega arith)
  daily_bot_balance_top_up-bounds range n k (bot ∷ bots) db u h = elim (Bool-cases (up n)) [
    | inr e ↦ rw e (0, rw (richer-zero u) h, omega arith, λ f. cc)
    | inl e ↦
        let amount = draw n (range_of bot.type).0 (range_of bot.type).1 in
        let within =
          range n (range_of bot.type).0 (range_of bot.type).1 (range_of-least bot.type) in
        let got = if bot.user_id == k then amount else 0 in
        let (total, found, high, low) =
          daily_bot_balance_top_up-bounds range (n + 1) k bots
            (increment_user_balance bot.user_id amount db) (richer got u)
            (find-increment k bot.user_id amount db u h) in
        rw e (
          got + total,
          found ∙ ap some (richer_twice got total u),
          share (bot.user_id == k) amount (range_of bot.type).1 total (most_for k bots) within.1
              high,
          λ f.
              share (bot.user_id == k) (range_of bot.type).0 amount (least_for k bots) total
                within.0 (low f),
        )
  ]
