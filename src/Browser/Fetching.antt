-- ===== src/Browser/Fetching.antt =====
-- The calls of the server with one retry after a refresh of the login:
-- frontend/lib/util/fetcher.ts. The network is a parameter, a state with the answers to the request
-- and to the call of `/auth/refresh`; so are JavaScript's `JSON.parse` and `String`.
pub mod Messages
pub mod Retry
pub mod Envelope
mod Tests
use sneakerbid.Base.{
  ℕ, zero, suc, Bool, true, false, Option, none, some, List, [], ◌∷◌, ◌++◌, ◌&&◌, ◌==◌, not,
  if◌then◌else◌, or_else, String, same_text, is_some,
}
use sneakerbid.Http.Body.{
  Json, null, boolean, number, text, array, object, Items, nil, cons, Fields, end, field, get_field,
}

abbrev is_true : Option Json → Bool
is_true (some (boolean b)) = b
is_true _ = false

-- `{ success: true, data }` is unwrapped, any other body is the data.
abbrev unwrapped : Json → Option Json → Bool → Json
unwrapped body (some v) true = v
unwrapped body _ _ = body

unfoldable pub unwrap : Json → Json
unwrap null = null
unwrap (boolean b) = boolean b
unwrap (number n) = number n
unwrap (text s) = text s
unwrap (array xs) = array xs
unwrap (object fs) = unwrapped (object fs) (get_field "data" fs) (is_true (get_field "success" fs))

-- `Response`, with the text of its body.
pub record Response : Type 0 where
  pub ok : Bool
  pub status : ℕ
  pub body : String

-- What `doFetch` hands on: nothing for a response that is not ok, the response itself where no JSON
-- is asked for, or the data; and an exception where the body is no JSON.
pub data Fetched : Type 0 where
  missing raw : Fetched
  value : Json → Fetched
  broken : Fetched

pub data Call : Type 0 where
  request refresh : Call

-- The network: `none` for a call that is rejected.
pub record Network (S : Type 0) : Type 0 where
  pub answer : S → Option Response × S
  pub refreshes : S → Option Bool × S

-- What the caller gets.
pub data Outcome : Type 0 where
  returned : Fetched → Outcome
  http_error : String → ℕ → Outcome
  rejected : Outcome

-- The state of the network, and the calls so far.
pub record World (S : Type 0) : Type 0 where
  pub server : S
  pub calls : List Call

abbrev or_empty : String → String → String
or_empty s d = if same_text s "" then d else s

-- `body?.data ?? body?.message`
abbrev not_null : Option Json → Option Json → Option Json
not_null none e = e
not_null (some null) e = e
not_null (some v) e = some v

abbrev pub raw_of : Json → Option Json
raw_of (object fs) = not_null (get_field "data" fs) (get_field "message" fs)
raw_of _ = none

module _ {S : Type 0} (net : Network S) (parse : String → Option Json) (string_of : Json → String)
    (friendly : String → ℕ → String) where
  abbrev pub body_of : Option Json → Fetched
  body_of none = broken
  body_of (some j) = value (unwrap j)

  abbrev pub fetched : Bool → Response → Fetched
  fetched json r = if r.ok then (if json then body_of (parse r.body) else raw) else missing

  -- `doFetch`
  unfoldable pub do_fetch : Bool → World S → Option (Response × Fetched) × World S
  do_fetch json w =
      let (o, s) = net.answer w.server in
      (
        elim o [ none ↦ none | some r ↦ some (r, fetched json r) ],
        record { server = s; calls = w.calls ++ request ∷ [] },
      )

  -- `(raw[0] as string | undefined) || rawMessage`
  abbrev first_of : Items → String → String
  first_of nil d = d
  first_of (cons null xs) d = d
  first_of (cons (boolean false) xs) d = d
  first_of (cons (number zero) xs) d = d
  first_of (cons (text s) xs) d = or_empty s d
  first_of (cons (number (suc n)) xs) d = or_empty (string_of (number (suc n))) d
  first_of (cons v xs) d = or_empty (string_of v) d

  abbrev pub message_in : Option Json → String → String
  message_in (some (array xs)) d = first_of xs d
  message_in (some (text s)) d = or_empty s d
  message_in _ d = d

  abbrev pub raw_message_in : Option Json → String → String
  raw_message_in none body = or_empty body "api 요청 실패"
  raw_message_in (some j) body = message_in (raw_of j) "api 요청 실패"

  -- The error that is thrown for a response.
  unfoldable pub error_of : Response → Outcome
  error_of r = http_error (friendly (raw_message_in (parse r.body) r.body) r.status) r.status

  -- The answer to the retry, after which the error of the first response is thrown.
  abbrev pub retried : Response → Option (Response × Fetched) → Outcome
  retried r none = rejected
  retried r (some (t, missing)) = error_of r
  retried r (some (t, broken)) = rejected
  retried r (some (t, f)) = returned f

  abbrev pub after_refresh : Bool → Response → Option Bool → World S → Outcome × World S
  after_refresh json r none w = (rejected, w)
  after_refresh json r (some false) w = (error_of r, w)
  after_refresh json r (some true) w = let (o, w') = do_fetch json w in (retried r o, w')

  -- A response that is not ok.
  unfoldable pub after_failure : Bool → Bool → Response → World S → Outcome × World S
  unfolding do_fetch error_of
  after_failure json skip r w =
      if r.status == 401 && not skip
      then (let (o, s) = net.refreshes w.server in
          after_refresh json r o (record { server = s; calls = w.calls ++ refresh ∷ [] }))
      else (error_of r, w)

  abbrev pub after_first : Bool → Bool → Option (Response × Fetched) → World S → Outcome × World S
  after_first json skip none w = (rejected, w)
  after_first json skip (some (r, missing)) w = after_failure json skip r w
  after_first json skip (some (r, broken)) w = (rejected, w)
  after_first json skip (some (r, f)) w = (returned f, w)

  -- `Fetcher`, with `json` and `_skipRefreshRetry`
  unfoldable pub fetcher : Bool → Bool → World S → Outcome × World S
  unfolding do_fetch after_failure
  fetcher json skip w = let (o, w') = do_fetch json w in after_first json skip o w'
