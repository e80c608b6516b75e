-- ===== src/Browser/Fetching/Tests.antt =====
-- Runs of a call of the client on a network whose first answer is a 401.
use sneakerbid.Base.{
  ℕ, zero, suc, true, false, Option, none, some, [], ◌∷◌, ◌++◌, ◌≡◌, ◌⊎◌, refl, String,
}
use sneakerbid.Http.Body.{Json, object, field, end, number, boolean}
use sneakerbid.Browser.Fetching.{
  Response, value, request, refresh, Network, returned, World, fetcher, unwrap,
}
use sneakerbid.Browser.Fetching.Retry.{IsFinal, IsRenewed, fetcher-calls}

abbrev refusal : Response
refusal = record { ok = false; status = 401; body = "" }

abbrev granting : Response
granting = record { ok = true; status = 200; body = "{}" }

abbrev answer_at : ℕ → Option Response
answer_at zero = some refusal
answer_at (suc n) = some granting

-- Each call moves the network on by one.
abbrev network : Network ℕ
network = record { answer = λ n. (answer_at n, suc n); refreshes = λ n. (some true, suc n) }

abbrev parse : String → Option Json
parse s = some (object (field "data" (number 7) (field "success" (boolean true) end)))

abbrev string_of : Json → String
string_of j = ""

abbrev friendly : String → ℕ → String
friendly s k = s

abbrev begin : World ℕ
begin = record { server = 0; calls = [] }

-- The retry after the refresh has the data.
renewed :
    fetcher network parse string_of friendly true false begin
    ≡ (returned (value (number 7)), record { server = 3; calls = request ∷ refresh ∷ request ∷ [] })
unfolding fetcher unwrap
renewed = refl

-- A call that is a retry makes no other.
not_renewed : (fetcher network parse string_of friendly true true begin).1.calls ≡ request ∷ []
unfolding fetcher
not_renewed = refl

fetcher-calls_example :
    let w' = (fetcher network parse string_of friendly true false begin).1 in
    ((some refusal ≡ none) × (w'.calls ≡ [] ++ request ∷ []))
    ⊎ ((r : Response) × (some refusal ≡ some r)
        × ((IsFinal network parse string_of friendly false r × (w'.calls ≡ [] ++ request ∷ []))
            ⊎ ((r.ok ≡ false)
                × IsRenewed network parse string_of friendly false
                    ([] ++ request ∷ [])
                    r
                    (record { server = 1; calls = request ∷ [] })
                    w')))
fetcher-calls_example = fetcher-calls network parse string_of friendly true false begin
