-- ===== src/Http.antt =====
-- What surrounds the handlers of requests: the interceptors of backend/src/common/interceptors, the
-- filters of exceptions of backend/src/common/filters and the guards of backend/src/common/guard.
-- Passport's check of a token and its outcome are arguments.
pub mod Body
pub mod Access
mod Tests
use sneakerbid.Base.{
  ℕ, Bool, true, false, Option, none, some, List, [], ◌∷◌, if◌then◌else◌, ◌==◌, any, String,
  same_text, or_else,
}
use sneakerbid.Store.Rows.{UserRole}
use sneakerbid.Http.Body.{
  Json, null, boolean, number, text, array, object, Items, nil, cons, Fields, end, field, get_field,
  without,
}

-- `{ success: true, ...data }`: a field of that name in the data stays as it is.
abbrev pub spread : Option Json → Fields → Json
spread none fs = object (field "success" (boolean true) fs)
spread (some v) fs = object (field "success" v (without "success" fs))

-- `{ success: true, data }`
abbrev pub enclosed : Json → Json
enclosed j = object (field "success" (boolean true) (field "data" j end))

abbrev pub enveloped : Json → Json
enveloped (object fs) = spread (get_field "success" fs) fs
enveloped j = enclosed j

-- `TransformInterceptor.intercept`, of a path that is that of a stream of events or not.
unfoldable pub transform : Bool → Json → Json
transform is_events j = if is_events then j else enveloped j

-- `UndefinedToNullInterceptor.intercept`
unfoldable pub undefined_to_null : Option Json → Json
undefined_to_null none = null
undefined_to_null (some j) = j

-- A response of a filter: its status and its body.
pub record Reply : Type 0 where
  pub status : ℕ
  pub body : Json

-- The response of an `HttpException`: a text, or an object whose message may be missing.
pub data Exception : Type 0 where
  plain : String → Exception
  with_message : Option Json → Exception

abbrev message_of : Exception → Json
message_of (plain s) = text s
message_of (with_message none) = text "알 수 없는 오류가 발생했습니다."
message_of (with_message (some null)) = text "알 수 없는 오류가 발생했습니다."
message_of (with_message (some j)) = j

-- `HttpExceptionFilter.catch`
unfoldable pub http_exception_filter : ℕ → Exception → Reply
http_exception_filter status e = record {
  status = status;
  body = object (
      field "success" (boolean false)
        (field "code" (number status) (field "data" (message_of e) end)));
}

abbrev message_reply : ℕ → String → Reply
message_reply status s = record { status = status; body = object (field "message" (text s) end) }

-- `DatabaseExceptionFilter.catch`: `none` where the exception is thrown on, since it has no code of
-- five letters and digits.
unfoldable pub database_exception_filter : (String → Bool) → Option String → Option Reply
database_exception_filter is_code none = none
database_exception_filter is_code (some code) =
    if is_code code
    then some (
        if same_text code "23505"
        then message_reply 409 "이미 존재하는 데이터입니다."
        else if same_text code "23503"
        then message_reply 400 "참조 무결성 오류입니다."
        else if same_text code "23502"
        then message_reply 400 "필수 값이 누락되었습니다."
        else if same_text code "42P01"
        then message_reply 404 "대상을 찾을 수 없습니다."
        else message_reply 500 "Database Error")
    else none

abbrev pub same_role : UserRole → UserRole → Bool
same_role UserRole.user UserRole.user = true
same_role UserRole.admin UserRole.admin = true
same_role UserRole.bot UserRole.bot = true
same_role _ _ = false

-- A guard lets a request through, with or without a user, or refuses it with a status.
pub data Passage : Type 0 where
  granted : Option UserRole → Passage
  refused : ℕ → Passage

-- The user that a valid token names, and whether the check failed with an error of its own.
pub data Token : Type 0 where
  valid : UserRole → Token
  invalid failing : Token

-- The marks of a route.
pub record Route : Type 0 where
  pub is_public : Bool
  pub optional_auth : Bool
  pub roles : List UserRole

-- `handleRequest`, with the status of the exception that a failing check throws.
unfoldable pub handle_request : ℕ → Bool → Token → Passage
handle_request failure true (valid u) = granted (some u)
handle_request failure true invalid = granted none
handle_request failure true failing = granted none
handle_request failure false (valid u) = granted (some u)
handle_request failure false invalid = refused 401
handle_request failure false failing = refused failure

-- `JwtAuthGuard.canActivate`
unfoldable pub jwt_can_activate : ℕ → Route → Token → Passage
unfolding handle_request
jwt_can_activate failure r t =
    if r.is_public then granted none else handle_request failure r.optional_auth t

-- `RolesGuard.canActivate`, after the other guard.
abbrev pub allowed : List UserRole → Option UserRole → Passage
allowed [] u = granted u
allowed (r ∷ rs) none = refused 403
allowed (r ∷ rs) (some u) = if any (same_role u) (r ∷ rs) then granted (some u) else refused 403

unfoldable pub roles_can_activate : Route → Option UserRole → Passage
roles_can_activate r u = allowed r.roles u

abbrev pub then_roles : Route → Passage → Passage
then_roles r (granted u) = allowed r.roles u
then_roles r (refused status) = refused status

-- Both guards, in the order of `AppModule`.
unfoldable pub guarded : ℕ → Route → Token → Passage
unfolding jwt_can_activate roles_can_activate
guarded failure r t = then_roles r (jwt_can_activate failure r t)
