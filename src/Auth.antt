-- ===== src/Auth.antt =====
-- The sessions of backend/src/auth/auth.service.ts, whose refresh tokens
-- backend/src/redis/redis.service.ts keeps. A token is a text that is only compared, so it is a number.
-- `JwtService.sign` is a parameter: the token of a payload, a lifetime and the second in which it is
-- signed, which is the `iat` of the token. So is the `single()` of the database's client, of the rows
-- that a query finds.
pub mod Rotation
pub mod Accounts
mod Tests
use sneakerbid.Base.{
  ℕ, ◌+◌, ◌*◌, Bool, true, false, Option, none, some, List, [], ◌∷◌, ◌==◌, ltb, if◌then◌else◌, not,
  filter_by, String, same_text,
}
use sneakerbid.Store.Rows.{User, UserRole}
use sneakerbid.Store.Table.{find}
use sneakerbid.Store.Tx.{Result, Error, ok, err}

-- A refresh token that is stored, with its user and the second in which Redis drops it.
pub record Stored : Type 0 where
  pub token : ℕ
  pub user_id : ℕ
  pub expires_at : ℕ

abbrev pub revoked : ℕ → List Stored → List Stored
revoked token ks = filter_by (λ k. not (k.token == token)) ks

-- `setRefreshToken`
unfoldable pub set_refresh_token : ℕ → ℕ → ℕ → ℕ → List Stored → List Stored
set_refresh_token now token user_id ttl ks =
    record { token = token; user_id = user_id; expires_at = now + ttl } ∷ revoked token ks

abbrev pub user_if_live : ℕ → Option Stored → Option ℕ
user_if_live now none = none
user_if_live now (some k) = if ltb now k.expires_at then some k.user_id else none

-- `getUserIdByRefreshToken`
unfoldable pub get_user_id_by_refresh_token : ℕ → ℕ → List Stored → Option ℕ
get_user_id_by_refresh_token now token ks = user_if_live now (find (λ k. k.token) token ks)

-- `revokeRefreshToken`
unfoldable pub revoke_refresh_token : ℕ → List Stored → List Stored
revoke_refresh_token token ks = revoked token ks

-- `REFRESH_TTL` of backend/src/common/constants/auction.constants.ts, in seconds
abbrev pub refresh_ttl : ℕ
refresh_ttl = 7 * 24 * 60 * 60

-- The values of the attribute `SameSite`.
pub data SameSite : Type 0 where
  lax strict none_allowed : SameSite

pub record CookieSettings : Type 0 where
  pub http_only : Bool
  pub secure : Bool
  pub same_site : SameSite
  pub path : String

-- of the configured text, trimmed and in lower case
abbrev pub same_site_of : Option String → SameSite
same_site_of none = SameSite.lax
same_site_of (some raw) =
    if same_text raw "none"
    then SameSite.none_allowed
    else if same_text raw "strict"
    then SameSite.strict
    else SameSite.lax

abbrev pub is_secure : SameSite → Bool → Bool
is_secure SameSite.none_allowed production = true
is_secure _ production = production

-- `getCookieBaseSettings`
unfoldable pub get_cookie_base_settings : Option String → Bool → CookieSettings
get_cookie_base_settings raw production = record {
  http_only = true;
  secure = is_secure (same_site_of raw) production;
  same_site = same_site_of raw;
  path = "/";
}

-- The cookies that a response sets, with their lifetimes in milliseconds.
pub record Cookies : Type 0 where
  pub access_token : ℕ
  pub access_max_age : ℕ
  pub refresh_token : ℕ
  pub refresh_max_age : ℕ
  pub settings : CookieSettings

-- Whether Redis can be reached for each of the calls.
pub record Weather : Type 0 where
  pub get_reached : Bool
  pub set_reached : Bool
  pub revoke_reached : Bool

-- What an answer leaves: the stored tokens, and the cookies that it set.
pub record Session : Type 0 where
  pub stored : List Stored
  pub cookies : Option Cookies

-- A call of `revokeRefreshToken`, after which the handler returns `b`.
abbrev pub then_revoke : Bool → ℕ → Bool → Session → Result Bool × Session
then_revoke true token b s = (ok b, record s { stored = revoke_refresh_token token s.stored })
then_revoke false token b s = (err Error.lost_connection, s)

-- `findUserById` of backend/src/database/database.service.ts, of the rows with the id: an error of
-- the client is thrown.
abbrev pub find_user_by_id :
    (List User → Result (Option User)) → ℕ → List User → Result (Option User)
find_user_by_id single id us = single (filter_by (λ u. u.id == id) us)

module _ (sign : ℕ → UserRole → ℕ → ℕ → ℕ) (single : List User → Result (Option User))
    (settings : CookieSettings) where
  abbrev pub access_token_of : User → ℕ → ℕ
  access_token_of u now = sign u.id u.role (15 * 60) now

  abbrev pub refresh_token_of : User → ℕ → ℕ
  refresh_token_of u now = sign u.id u.role refresh_ttl now

  abbrev pub cookies_of : User → ℕ → Cookies
  cookies_of u now = record {
    access_token = access_token_of u now;
    access_max_age = 15 * 60 * 1000;
    refresh_token = refresh_token_of u now;
    refresh_max_age = 7 * 24 * 60 * 60 * 1000;
    settings = settings;
  }

  -- `login` and `loginWithCookies`: without Redis no cookie is set.
  unfoldable pub login_with_cookies : User → ℕ → Bool → List Stored → Result (Unit {0}) × Session
  unfolding set_refresh_token
  login_with_cookies u now false ks =
      (err Error.token_not_persisted, record { stored = ks; cookies = none })
  login_with_cookies u now true ks = (
    ok tt,
    record {
      stored = set_refresh_token now (refresh_token_of u now) u.id refresh_ttl ks;
      cookies = some (cookies_of u now);
    },
  )

  abbrev pub revoke_old : ℕ → Weather → Result (Unit {0}) × Session → Result Bool × Session
  revoke_old token w (ok _, s) = then_revoke w.revoke_reached token true s
  revoke_old token w (err e, s) = (err e, s)

  abbrev pub refresh_user :
      ℕ → ℕ → Weather → Result (Option User) → List Stored → Result Bool × Session
  refresh_user token now w (err e) ks = (err e, record { stored = ks; cookies = none })
  refresh_user token now w (ok none) ks =
      then_revoke w.revoke_reached token false (record { stored = ks; cookies = none })
  refresh_user token now w (ok (some u)) ks =
      revoke_old token w (login_with_cookies u now w.set_reached ks)

  abbrev pub refresh_id :
      ℕ → ℕ → Weather → List User → Option ℕ → List Stored → Result Bool × Session
  refresh_id token now w us none ks = (ok false, record { stored = ks; cookies = none })
  refresh_id token now w us (some id) ks =
      refresh_user token now w (find_user_by_id single id us) ks

  -- `refreshWithCookies`: when Redis cannot be reached, it refuses.
  unfoldable pub refresh_with_cookies :
      ℕ → ℕ → Weather → List User → List Stored → Result Bool × Session
  unfolding get_user_id_by_refresh_token login_with_cookies
  refresh_with_cookies token now w us ks =
      if w.get_reached
      then refresh_id token now w us (get_user_id_by_refresh_token now token ks) ks
      else (ok false, record { stored = ks; cookies = none })

  -- `handleRefresh`: the status of the response, if none throws.
  abbrev pub status_of : Result Bool × Session → Option ℕ × Session
  status_of (ok true, s) = (some 200, s)
  status_of (ok false, s) = (some 401, s)
  status_of (err e, s) = (none, s)

  unfoldable pub handle_refresh :
      Option ℕ → ℕ → Weather → List User → List Stored → Option ℕ × Session
  unfolding refresh_with_cookies
  handle_refresh none now w us ks = (some 401, record { stored = ks; cookies = none })
  handle_refresh (some token) now w us ks = status_of (refresh_with_cookies token now w us ks)

-- The part of `logout` that concerns Redis: the tokens afterwards, if it does not throw.
unfoldable pub logout : Option ℕ → Bool → List Stored → Result (List Stored)
unfolding revoke_refresh_token
logout none reached ks = ok ks
logout (some token) true ks = ok (revoke_refresh_token token ks)
logout (some token) false ks = err Error.lost_connection
