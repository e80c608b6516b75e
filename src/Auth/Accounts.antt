-- ===== src/Auth/Accounts.antt =====
-- `findOrCreateUserByOAuth` of backend/src/auth/auth.service.ts, while the database answers.
use sneakerbid.Base.{
  ℕ, Bool, true, false, Option, none, some, List, [], ◌∷◌, ◌≡◌, refl, arith, ◌==◌, ◌&&◌,
  if◌then◌else◌, length, String, ap, ◌∙◌, sym, Option-cases, inl, inr,
}
use sneakerbid.Base.Int.{ℤ, pos}
use sneakerbid.Store.Rows.{UserRole}
use sneakerbid.Store.Table.{find, update, find-key, find-update_self}
use sneakerbid.Store.Tx.{Result, Error, ok, err}

pub data OauthProvider : Type 0 where
  google kakao : OauthProvider

abbrev same_provider : OauthProvider → OauthProvider → Bool
same_provider OauthProvider.google OauthProvider.google = true
same_provider OauthProvider.kakao OauthProvider.kakao = true
same_provider _ _ = false

-- `OAuthProfile`; an empty text is a missing one, but for `or_user`, the name that is made of the
-- provider's id where the nickname is empty.
pub record OauthProfile : Type 0 where
  pub provider_id : ℕ
  pub nickname : Option String
  pub or_user : String
  pub email : Option String
  pub profile_image_url : Option String

-- The row of a user, as far as an account needs it.
pub record Account : Type 0 where
  pub id : ℕ
  pub nickname : String
  pub email : Option String
  pub role : UserRole
  pub balance : ℤ
  pub profile_image_url : Option String

pub record SocialAccount : Type 0 where
  pub id : ℕ
  pub user_id : ℕ
  pub provider : OauthProvider
  pub provider_id : ℕ

pub record Accounts : Type 0 where
  pub users : List Account
  pub social_accounts : List SocialAccount

-- `.eq('provider', …).eq('providerId', …).maybeSingle()`, of which the unique index leaves one row
abbrev pub find_social : OauthProvider → ℕ → List SocialAccount → Option SocialAccount
find_social p id [] = none
find_social p id (s ∷ ss) =
    if same_provider s.provider p && s.provider_id == id then some s else find_social p id ss

-- `INITIAL_USER_BALANCE` of backend/src/common/constants/auth.constants.ts
abbrev pub initial_user_balance : ℕ
initial_user_balance = 1000000

abbrev name_or : Option String → String → String
name_or none other = other
name_or (some name) other = name

abbrev pub new_account : ℕ → OauthProfile → Account
new_account id p = record {
  id = id;
  nickname = name_or p.nickname p.or_user;
  email = p.email;
  role = UserRole.user;
  balance = pos initial_user_balance;
  profile_image_url = p.profile_image_url;
}

abbrev pub with_image : Option String → Account → Account
with_image none a = a
with_image (some url) a = record a { profile_image_url = some url }

abbrev pub with_image_written : Option String → ℕ → Accounts → Accounts
with_image_written none id d = d
with_image_written (some url) id d = record d {
  users = update (λ u. u.id) id (with_image (some url)) d.users;
}

abbrev pub known : OauthProfile → Option Account → Accounts → Result (Account × Accounts)
known p none d = err Error.user_not_found
known p (some a) d =
    ok (with_image p.profile_image_url a, with_image_written p.profile_image_url a.id d)

-- The transaction that inserts both rows; the id of the user is new.
abbrev pub created : ℕ → ℕ → OauthProvider → OauthProfile → Accounts → Accounts
created id social_id provider p d = record {
  users = new_account id p ∷ d.users;
  social_accounts =
      record { id = social_id; user_id = id; provider = provider; provider_id = p.provider_id }
      ∷ d.social_accounts;
}

abbrev pub found_or_created :
    ℕ
    → ℕ
    → OauthProvider
    → OauthProfile
    → Option SocialAccount
    → Accounts
    → Result (Account × Accounts)
found_or_created id social_id provider p none d =
    ok (new_account id p, created id social_id provider p d)
found_or_created id social_id provider p (some s) d = known p (find (λ u. u.id) s.user_id d.users) d

unfoldable pub find_or_create_user_by_oauth :
    ℕ → ℕ → OauthProvider → OauthProfile → Accounts → Result (Account × Accounts)
find_or_create_user_by_oauth id social_id provider p d =
    found_or_created id social_id provider p (find_social provider p.provider_id d.social_accounts)
      d

same_provider_self : (p : OauthProvider) → same_provider p p ≡ true
same_provider_self google = refl
same_provider_self kakao = refl

length-update :
    (id : ℕ) (f : Account → Account) (us : List Account)
    → length (update (λ u. u.id) id f us) ≡ length us
length-update id f [] = refl
length-update id f (u ∷ us) = ground (arith, length-update id f us)

-- A known account is found again in what a login with it left.
find-with_image :
    (image : Option String) (id : ℕ) (a : Account) (d : Accounts)
    → find (λ u. u.id) id d.users ≡ some a
    → find (λ u. u.id) id (with_image_written image a.id d).users ≡ some (with_image image a)
find-with_image none id a d e = e
find-with_image (some url) id a d e =
    ap (λ i. find (λ u. u.id) id (update (λ u. u.id) i (with_image (some url)) d.users))
      (find-key (λ u. u.id) id a d.users e)
    ∙ (find-update_self (λ u. u.id) (with_image (some url)) (λ u. refl) id d.users a e)

with_image-kept :
    (image : Option String) (a : Account)
    → ((with_image image a).id ≡ a.id) × ((with_image image a).balance ≡ a.balance)
with_image-kept none a = (refl, refl)
with_image-kept (some url) a = (refl, refl)

with_image_written-kept :
    (image : Option String) (id : ℕ) (d : Accounts)
    → (length (with_image_written image id d).users ≡ length d.users)
      × ((with_image_written image id d).social_accounts ≡ d.social_accounts)
with_image_written-kept none id d = (refl, refl)
with_image_written-kept (some url) id d = (length-update id (with_image (some url)) d.users, refl)

-- What a login leaves: the account is linked and there.
linked :
    (id social_id : ℕ) (prov : OauthProvider) (p : OauthProfile) (a : Account) (d d' : Accounts)
    → find_or_create_user_by_oauth id social_id prov p d ≡ ok (a, d')
    → (s : SocialAccount) × (find_social prov p.provider_id d'.social_accounts ≡ some s)
      × (find (λ u. u.id) s.user_id d'.users ≡ some a)
unfolding find_or_create_user_by_oauth
linked id social_id prov p a d d' h =
    elim (Option-cases (find_social prov p.provider_id d.social_accounts)) [
      | inl unknown ↦ (
        record { id = social_id; user_id = id; provider = prov; provider_id = p.provider_id },
        ground (arith, same_provider_self prov),
        ground arith,
      )
      | inr (s, link) ↦ elim (Option-cases (find (λ u. u.id) s.user_id d.users)) [
        | inl gone ↦ absurd (ground arith)
        | inr (b, found) ↦
            let is_a : with_image p.profile_image_url b ≡ a = ground arith in
            let is_d : with_image_written p.profile_image_url b.id d ≡ d' = ground arith in
            (
              s,
              ap (λ (x : Accounts). find_social prov p.provider_id x.social_accounts) (sym is_d)
                  ∙ ap (find_social prov p.provider_id)
                      (with_image_written-kept p.profile_image_url b.id d).1
                  ∙ link,
              rw (← is_d, ← is_a) (find-with_image p.profile_image_url s.user_id b d found),
            )
      ]
    ]

-- After a login with an account of a provider succeeded, a login with the same account of the
-- provider succeeds, whatever else its profile says: it is the same user with the same balance, and
-- no user and no link is created.
pub find_or_create-find_or_create :
    (id social_id id' social_id' : ℕ) (prov : OauthProvider) (p p' : OauthProfile) (a : Account)
    (d d' : Accounts)
    → find_or_create_user_by_oauth id social_id prov p d ≡ ok (a, d')
    → p'.provider_id ≡ p.provider_id
    → (a' : Account) × (d'' : Accounts) × (find_or_create_user_by_oauth id' social_id' prov p' d'
        ≡ ok (a', d''))
      × (a'.id ≡ a.id)
      × (a'.balance ≡ a.balance)
      × (length d''.users ≡ length d'.users)
      × (d''.social_accounts ≡ d'.social_accounts)
unfolding find_or_create_user_by_oauth
find_or_create-find_or_create id social_id id' social_id' prov p p' a d d' h same =
    let (s, link, found) = linked id social_id prov p a d d' h in
    let image = p'.profile_image_url in
    let (keeps_id, keeps_balance) = with_image-kept image a in
    let (users, links) = with_image_written-kept image a.id d' in
    (
      with_image image a,
      with_image_written image a.id d',
      rw (same, link, found) refl,
      keeps_id,
      keeps_balance,
      users,
      links,
    )
