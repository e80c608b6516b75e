-- ===== src/Auth/Rotation.antt =====
-- What becomes of a refresh token that is used.
use sneakerbid.Base.{
  ℕ, ◌+◌, ◌<◌, Bool, true, false, Option, none, some, List, [], ◌∷◌, ◌≡◌, refl, arith, ◌==◌,
  Bool-cases, Option-cases, inl, inr, eq_of_==,
}
use sneakerbid.Store.Rows.{User, UserRole}
use sneakerbid.Store.Table.{find}
use sneakerbid.Store.Tx.{Result, Error, ok, err}
use sneakerbid.Auth.{
  Stored, CookieSettings, Weather, Session, revoked, set_refresh_token,
  get_user_id_by_refresh_token, revoke_refresh_token, refresh_ttl, refresh_with_cookies,
  refresh_token_of, cookies_of, find_user_by_id, login_with_cookies, refresh_user,
}

find-revoked_self :
    (token : ℕ) (ks : List Stored) → find (λ k. k.token) token (revoked token ks) ≡ none
find-revoked_self token [] = refl
find-revoked_self token (k ∷ ks) = ground (arith, find-revoked_self token ks)

find-revoked_ne :
    (token other : ℕ) (ks : List Stored)
    → (other == token) ≡ false
    → find (λ k. k.token) other (revoked token ks) ≡ find (λ k. k.token) other ks
find-revoked_ne token other [] h = refl
find-revoked_ne token other (k ∷ ks) h = ground (arith, find-revoked_ne token other ks h)

not_refused : {s s' : Session} → ◌≡◌ {A = Result Bool × Session} (ok false, s) (ok true, s') → ⊥
not_refused h = cc

not_lost :
    {e : Error} {s s' : Session} → ◌≡◌ {A = Result Bool × Session} (err e, s) (ok true, s') → ⊥
not_lost h = cc

same_session :
    {s s' : Session} → ◌≡◌ {A = Result Bool × Session} (ok true, s) (ok true, s') → s' ≡ s
same_session h = cc

module _ (sign : ℕ → UserRole → ℕ → ℕ → ℕ) (single : List User → Result (Option User))
    (settings : CookieSettings) where
  -- What a refresh that succeeds has found and leaves.
  record Refreshed (token now : ℕ) (us : List User) (ks : List Stored) (s : Session) : Type 0 where
    pub user : User
    pub id : ℕ
    pub was_live : get_user_id_by_refresh_token now token ks ≡ some id
    pub found : find_user_by_id single id us ≡ ok (some user)
    pub after : s ≡ record {
      stored = revoke_refresh_token token (
          set_refresh_token now
            (refresh_token_of sign single settings user now)
            user.id
            refresh_ttl
            ks);
      cookies = some (cookies_of sign single settings user now);
    }

  user_found :
      (token now id : ℕ) (w : Weather) (us : List User) (r : Result (Option User))
      (ks : List Stored) (s : Session)
      → get_user_id_by_refresh_token now token ks ≡ some id
      → find_user_by_id single id us ≡ r
      → refresh_user sign single settings token now w r ks ≡ (ok true, s)
      → Refreshed token now us ks s
  unfolding login_with_cookies
  user_found token now id w us (err e) ks s live found h = absurd (ground arith)
  user_found token now id w us (ok none) ks s live found h = elim (Bool-cases w.revoke_reached) [
    | inl reached ↦ absurd (not_refused (rw reached at h))
    | inr lost ↦ absurd (not_lost (rw lost at h))
  ]
  user_found token now id w us (ok (some u)) ks s live found h = elim (Bool-cases w.set_reached) [
    | inr lost ↦ absurd (not_lost (rw lost at h))
    | inl set_reached ↦ elim (Bool-cases w.revoke_reached) [
      | inr lost ↦ absurd (not_lost (rw lost at rw set_reached at h))
      | inl reached ↦ record {
        user = u;
        id = id;
        was_live = live;
        found = found;
        after = same_session (rw reached at rw set_reached at h);
      }
    ]
  ]

  refreshed :
      (token now : ℕ) (w : Weather) (us : List User) (ks : List Stored) (s : Session)
      → refresh_with_cookies sign single settings token now w us ks ≡ (ok true, s)
      → Refreshed token now us ks s
  unfolding refresh_with_cookies
  refreshed token now w us ks s h = elim (Bool-cases w.get_reached) [
    | inr lost ↦ absurd (not_refused (rw lost at h))
    | inl reached ↦ elim (Option-cases (get_user_id_by_refresh_token now token ks)) [
      | inl unknown ↦ absurd (not_refused (rw unknown at rw reached at h))
      | inr (id, live) ↦
          user_found token now id w us (find_user_by_id single id us) ks s live refl
            (rw live at rw reached at h)
    ]
  ]

get_user_id-revoked :
    (token now : ℕ) (ks : List Stored)
    → get_user_id_by_refresh_token now token (revoke_refresh_token token ks) ≡ none
unfolding get_user_id_by_refresh_token revoke_refresh_token
get_user_id-revoked token now ks = rw (find-revoked_self token ks) refl

get_user_id-fresh :
    (token fresh now later user_id : ℕ) (ks : List Stored)
    → (fresh == token) ≡ false
    → later < now + refresh_ttl
    → get_user_id_by_refresh_token later fresh
        (revoke_refresh_token token (set_refresh_token now fresh user_id refresh_ttl ks))
      ≡ some user_id
unfolding get_user_id_by_refresh_token revoke_refresh_token set_refresh_token
get_user_id-fresh token fresh now later user_id ks ne live = ground arith

module _ (sign : ℕ → UserRole → ℕ → ℕ → ℕ) (single : List User → Result (Option User))
    (settings : CookieSettings) where
  -- A refresh that succeeds was asked for with a token that was live, of a user that was found; from
  -- then on no refresh succeeds with that token, and the response sets the new tokens. When the new
  -- refresh token is another one, it is good for seven days; when it is the same one, as a token
  -- signed in the same second is, it is good for nothing.
  pub refresh_with_cookies-ok :
      (token now : ℕ) (w : Weather) (us : List User) (ks : List Stored) (s : Session)
      → refresh_with_cookies sign single settings token now w us ks ≡ (ok true, s)
      → (u : User) × (id : ℕ) × (get_user_id_by_refresh_token now token ks ≡ some id)
        × (find_user_by_id single id us ≡ ok (some u))
        × (s.cookies ≡ some (cookies_of sign single settings u now))
        × ((later : ℕ) → get_user_id_by_refresh_token later token s.stored ≡ none)
        × ((later : ℕ)
            → (refresh_token_of sign single settings u now == token) ≡ false
            → later < now + refresh_ttl
            → get_user_id_by_refresh_token later
                (refresh_token_of sign single settings u now)
                s.stored
              ≡ some u.id)
        × ((later : ℕ)
            → (refresh_token_of sign single settings u now == token) ≡ true
            → get_user_id_by_refresh_token later
                (refresh_token_of sign single settings u now)
                s.stored
              ≡ none)
  refresh_with_cookies-ok token now w us ks s h =
      let r = refreshed sign single settings token now w us ks s h in
      let fresh = refresh_token_of sign single settings r.user now in
      (
        r.user,
        r.id,
        r.was_live,
        r.found,
        rw r.after refl,
        λ later. rw r.after (get_user_id-revoked token later _),
        λ later ne live. rw r.after (get_user_id-fresh token fresh now later r.user.id ks ne live),
        λ later same. rw (r.after, eq_of_== fresh token same) (get_user_id-revoked token later _),
      )
