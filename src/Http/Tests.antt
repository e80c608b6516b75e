-- ===== src/Http/Tests.antt =====
-- Requests of routes and the bodies of their answers.
use sneakerbid.Base.{true, false, some, [], ◌∷◌, ◌≡◌, refl}
use sneakerbid.Store.Rows.{UserRole}
use sneakerbid.Http.Body.{object, field, end, boolean, number}
use sneakerbid.Http.Access.{IsOpenTo, guarded-granted}
use sneakerbid.Http.{transform, Route, guarded, valid, invalid, refused}

abbrev admin_route : Route
admin_route = record { is_public = false; optional_auth = false; roles = UserRole.admin ∷ [] }

for_admins : guarded 401 admin_route (valid UserRole.user) ≡ refused 403
unfolding guarded
for_admins = refl

without_token : guarded 401 admin_route invalid ≡ refused 401
unfolding guarded
without_token = refl

of_an_object :
    transform false (object (field "id" (number 3) end))
    ≡ object (field "success" (boolean true) (field "id" (number 3) end))
unfolding transform
of_an_object = refl

guarded-granted_example : IsOpenTo admin_route (valid UserRole.admin) (some UserRole.admin)
unfolding guarded
guarded-granted_example =
    guarded-granted 401 admin_route (valid UserRole.admin) (some UserRole.admin) refl
