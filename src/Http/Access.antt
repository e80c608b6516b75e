-- ===== src/Http/Access.antt =====
-- Whom the guards let through.
use sneakerbid.Base.{
  ℕ, Bool, true, false, Option, none, some, List, [], ◌∷◌, any, ◌≡◌, ◌⊎◌, inl, inr, refl,
  Bool-cases,
}
use sneakerbid.Store.Rows.{UserRole}
use sneakerbid.Http.{
  same_role, Passage, granted, refused, Token, valid, invalid, failing, Route, handle_request,
  jwt_can_activate, allowed, then_roles, guarded,
}

-- A token of one of the roles.
abbrev pub IsAllowed : List UserRole → Option UserRole → Type 0
IsAllowed roles u = (role : UserRole) × (u ≡ some role) × (any (same_role role) roles ≡ true)

allowed-IsAllowed :
    (roles : List UserRole) (v u : Option UserRole)
    → allowed roles v ≡ granted u
    → (v ≡ u) × ((roles ≡ []) ⊎ IsAllowed roles u)
allowed-IsAllowed [] v u h = (cc, inl refl)
allowed-IsAllowed (r ∷ rs) none u h = cc
allowed-IsAllowed (r ∷ rs) (some role) u h = elim (Bool-cases (any (same_role role) (r ∷ rs))) [
  | inl e ↦
      let same : granted (some role) ≡ granted u = rw e at h in
      let user : some role ≡ u = cc in (user, inr (role, cc, e))
  | inr e ↦ let never : refused 403 ≡ granted u = rw e at h in cc
]

request-valid :
    (failure : ℕ) (optional : Bool) (t : Token) (role : UserRole)
    → handle_request failure optional t ≡ granted (some role)
    → t ≡ valid role
unfolding handle_request
request-valid failure true (valid r) role h = cc
request-valid failure true invalid role h = cc
request-valid failure true failing role h = cc
request-valid failure false (valid r) role h = cc
request-valid failure false invalid role h = cc
request-valid failure false failing role h = cc

passed-IsAllowed :
    (r : Route) (p : Passage) (u : Option UserRole)
    → then_roles r p ≡ granted u
    → (p ≡ granted u) × ((r.roles ≡ []) ⊎ IsAllowed r.roles u)
passed-IsAllowed r (granted v) u h =
    let (same, roles) = allowed-IsAllowed r.roles v u h in (cc, roles)
passed-IsAllowed r (refused status) u h = cc

request-none :
    (failure : ℕ) (optional : Bool) (t : Token)
    → handle_request failure optional t ≡ granted none
    → optional ≡ true
unfolding handle_request
request-none failure true t h = refl
request-none failure false (valid r) h = cc
request-none failure false invalid h = cc
request-none failure false failing h = cc

-- Whom a route asks for.
abbrev pub IsOpenTo : Route → Token → Option UserRole → Type 0
IsOpenTo r t none = (r.roles ≡ []) × ((r.is_public ≡ true) ⊎ (r.optional_auth ≡ true))
IsOpenTo r t (some role) =
    (r.is_public ≡ false)
    × (t ≡ valid role)
    × ((r.roles ≡ []) ⊎ (any (same_role role) r.roles ≡ true))

after_jwt-IsOpenTo :
    (failure : ℕ) (r : Route) (t : Token) (u : Option UserRole)
    → jwt_can_activate failure r t ≡ granted u
    → (r.roles ≡ []) ⊎ IsAllowed r.roles u
    → IsOpenTo r t u
unfolding jwt_can_activate
after_jwt-IsOpenTo failure r t none h (inr (role, e, found)) = cc
after_jwt-IsOpenTo failure r t none h (inl no_roles) = elim (Bool-cases r.is_public) [
  | inl e ↦ (no_roles, inl e)
  | inr e ↦
      let asked : handle_request failure r.optional_auth t ≡ granted none = rw e at h in
      (no_roles, inr (request-none failure r.optional_auth t asked))
]
after_jwt-IsOpenTo failure r t (some role) h roles = elim (Bool-cases r.is_public) [
  | inl e ↦
      let open_to_all : granted none ≡ granted (some role) = rw e at h in
      let never : none ≡ some role = cc in cc
  | inr e ↦
      let asked : handle_request failure r.optional_auth t ≡ granted (some role) = rw e at h in
      let named = request-valid failure r.optional_auth t role asked in
      (
        e,
        named,
        elim roles [
          | inl no_roles ↦ inl no_roles
          | inr (other, same, found) ↦ let one : other ≡ role = cc in inr (rw one at found)
        ],
      )
]

-- A request that both guards let through with a user is of a route that is not public, has a valid
-- token of that user's role, and the route asks for no role or for that one. One that they let through
-- without a user is of a route without roles that is public or leaves the login open.
pub guarded-granted :
    (failure : ℕ) (r : Route) (t : Token) (u : Option UserRole)
    → guarded failure r t ≡ granted u
    → IsOpenTo r t u
unfolding guarded
guarded-granted failure r t u h =
    let (passed, roles) = passed-IsAllowed r (jwt_can_activate failure r t) u h in
    after_jwt-IsOpenTo failure r t u passed roles
