-- ===== src/Auth/Tests.antt =====
-- A refresh, one in the second of the login, and two logins with one account.
use sneakerbid.Base.{
  ℕ, ◌+◌, ◌<◌, true, false, some, none, Option, List, [], ◌∷◌, ◌≡◌, ◌==◌, refl, length,
}
use sneakerbid.Store.Rows.{User, UserRole}
use sneakerbid.Store.Tx.{Result, ok, err, Error}
use sneakerbid.Samples.{kim, lee}
use sneakerbid.Auth.{
  Stored, Weather, Session, CookieSettings, get_cookie_base_settings, refresh_with_cookies,
  refresh_token_of, cookies_of, get_user_id_by_refresh_token, find_user_by_id, refresh_ttl,
  login_with_cookies, set_refresh_token, revoke_refresh_token,
}
use sneakerbid.Auth.Rotation.{refresh_with_cookies-ok}
use sneakerbid.Auth.Accounts.{
  Accounts, Account, OauthProvider, OauthProfile, find_or_create_user_by_oauth, new_account,
  find_or_create-find_or_create, created,
}

-- A token for each user, lifetime and second.
abbrev sign : ℕ → UserRole → ℕ → ℕ → ℕ
sign id role lifetime now = id + lifetime + now

abbrev single : List User → Result (Option User)
single (u ∷ []) = ok (some u)
single us = err Error.no_row

abbrev settings : CookieSettings
settings = get_cookie_base_settings none true

abbrev reached : Weather
reached = record { get_reached = true; set_reached = true; revoke_reached = true }

abbrev login_token : ℕ
login_token = sign 2 UserRole.user refresh_ttl 100

abbrev stored : List Stored
stored = record { token = login_token; user_id = 2; expires_at = 100 + refresh_ttl } ∷ []

abbrev after : Session
after = record {
  stored =
      revoke_refresh_token login_token
        (set_refresh_token 160 (sign 2 UserRole.user refresh_ttl 160) 2 refresh_ttl stored);
  cookies = some (cookies_of sign single settings kim 160);
}

refresh_with_cookies-ok_example :
    (u : User) × (id : ℕ) × (get_user_id_by_refresh_token 160 login_token stored ≡ some id)
    × (find_user_by_id single id (kim ∷ lee ∷ []) ≡ ok (some u))
    × (after.cookies ≡ some (cookies_of sign single settings u 160))
    × ((later : ℕ) → get_user_id_by_refresh_token later login_token after.stored ≡ none)
    × ((later : ℕ)
        → (refresh_token_of sign single settings u 160 == login_token) ≡ false
        → later < 160 + refresh_ttl
        → get_user_id_by_refresh_token later
            (refresh_token_of sign single settings u 160)
            after.stored
          ≡ some u.id)
    × ((later : ℕ)
        → (refresh_token_of sign single settings u 160 == login_token) ≡ true
        → get_user_id_by_refresh_token later
            (refresh_token_of sign single settings u 160)
            after.stored
          ≡ none)
unfolding refresh_with_cookies get_user_id_by_refresh_token login_with_cookies
refresh_with_cookies-ok_example =
    refresh_with_cookies-ok sign single settings login_token 160 reached (kim ∷ lee ∷ []) stored
      after refl

abbrev profile : OauthProfile
profile = record {
  provider_id = 77;
  nickname = some "choi";
  or_user = "user_77";
  email = none;
  profile_image_url = none;
}

abbrev no_accounts : Accounts
no_accounts = record { users = []; social_accounts = [] }

find_or_create-find_or_create_example :
    (a : Account) × (d : Accounts) × (find_or_create_user_by_oauth 52 62 OauthProvider.kakao
        (record profile { profile_image_url = some "/me.png" })
        (created 51 61 OauthProvider.kakao profile no_accounts)
      ≡ ok (a, d))
    × (a.id ≡ 51)
    × (a.balance ≡ (new_account 51 profile).balance)
    × (length d.users ≡ 1)
    × (d.social_accounts ≡ (created 51 61 OauthProvider.kakao profile no_accounts).social_accounts)
unfolding find_or_create_user_by_oauth
find_or_create-find_or_create_example =
    find_or_create-find_or_create 51 61 52 62 OauthProvider.kakao profile
      (record profile { profile_image_url = some "/me.png" }) (new_account 51 profile) no_accounts
      (created 51 61 OauthProvider.kakao profile no_accounts) refl refl
