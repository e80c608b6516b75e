-- ===== src/Browser/Fetching/Retry.antt =====
-- How often the client calls the server for one request.
use sneakerbid.Base.{
  ℕ, Bool, true, false, Option, none, some, List, [], ◌∷◌, ◌++◌, ◌&&◌, ◌==◌, ◌≡◌, ◌≢◌, ◌⊎◌, inl,
  inr, not, if◌then◌else◌, String, refl, arith, Bool-cases, Option-cases, append_assoc, ap, ◌∙◌,
}
use sneakerbid.Http.Body.{Json}
use sneakerbid.Browser.Fetching.{
  Response, Fetched, missing, raw, value, broken, Call, request, refresh, Network, World, body_of,
  fetched, do_fetch, after_refresh, after_failure, after_first, fetcher,
}

module _ {S : Type 0} (net : Network S) (parse : String → Option Json) (string_of : Json → String)
    (friendly : String → ℕ → String) where
  -- The first response was refused for want of a login, and what was called after it.
  abbrev pub IsRenewed : Bool → List Call → Response → World S → World S → Type 0
  IsRenewed skip before r w w' =
      (skip ≡ false)
      × (r.status ≡ 401)
      × ((((net.refreshes w.server).0 ≢ some true) × (w'.calls ≡ before ++ refresh ∷ []))
          ⊎ (((net.refreshes w.server).0 ≡ some true)
              × (w'.calls ≡ before ++ refresh ∷ request ∷ [])))

  -- A response after which nothing more is called for.
  abbrev pub IsFinal : Bool → Response → Type 0
  IsFinal skip r = (r.ok ≡ true) ⊎ ((r.status ≢ 401) ⊎ (skip ≡ true))

  IsFinal-failure :
      (skip : Bool) (r : Response) → (r.status == 401 && not skip) ≡ false → IsFinal skip r
  IsFinal-failure true r e = inr (inr refl)
  IsFinal-failure false r e = inr (inl (λ h. ground (arith, h, e)))

  after_refresh-calls :
      (json : Bool) (r : Response) (before : List Call) (o : Option Bool) (w : World S)
      → w.calls ≡ before ++ refresh ∷ []
      → let w' = (after_refresh net parse string_of friendly json r o w).1 in
        ((o ≢ some true) × (w'.calls ≡ before ++ refresh ∷ []))
        ⊎ ((o ≡ some true) × (w'.calls ≡ before ++ refresh ∷ request ∷ []))
  unfolding do_fetch
  after_refresh-calls json r before none w e = inl (cc, e)
  after_refresh-calls json r before (some false) w e = inl (cc, e)
  after_refresh-calls json r before (some true) w e =
      inr (refl, ap (λ l. l ++ request ∷ []) e ∙ append_assoc before (refresh ∷ []) (request ∷ []))

  after_failure-calls :
      (json skip : Bool) (r : Response) (w : World S)
      → let w' = (after_failure net parse string_of friendly json skip r w).1 in
        (IsFinal skip r × (w'.calls ≡ w.calls)) ⊎ IsRenewed skip w.calls r w w'
  unfolding after_failure
  after_failure-calls json skip r w = elim (Bool-cases (r.status == 401 && not skip)) [
    | inr e ↦ rw e (inl (IsFinal-failure skip r e, refl))
    | inl e ↦
        let kept : skip ≡ false = ground (arith, e) in
        let refused : r.status ≡ 401 = ground (arith, e) in
        rw e (
          inr (
            kept,
            refused,
            after_refresh-calls json r w.calls (net.refreshes w.server).0
                (record { server = (net.refreshes w.server).1; calls = w.calls ++ refresh ∷ [] })
                refl,
          ))
  ]

  body-found : (o : Option Json) → body_of net parse string_of friendly o ≢ missing
  body-found none = cc
  body-found (some j) = cc

  value-ne-missing :
      (json : Bool) (r : Response)
      → (if json then body_of net parse string_of friendly (parse r.body) else raw) ≢ missing
  value-ne-missing true r = body-found (parse r.body)
  value-ne-missing false r = cc

  fetched-missing :
      (json : Bool) (r : Response)
      → fetched net parse string_of friendly json r ≡ missing
      → r.ok ≡ false
  fetched-missing json r e = elim (Bool-cases r.ok) [
    | inr no_ok ↦ no_ok
    | inl is_ok ↦ absurd (value-ne-missing json r (rw is_ok at e))
  ]

  answer-missing :
      (json : Bool) (r : Response)
      → fetched net parse string_of friendly json r ≢ missing
      → r.ok ≡ true
  answer-missing json r h = elim (Bool-cases r.ok) [
    | inl is_ok ↦ is_ok
    | inr no_ok ↦ absurd (h (rw no_ok refl))
  ]

  after_first-calls :
      (json skip : Bool) (r : Response) (f : Fetched) (w : World S)
      → (f ≡ missing → r.ok ≡ false)
      → (f ≢ missing → r.ok ≡ true)
      → let w' = (after_first net parse string_of friendly json skip (some (r, f)) w).1 in
        (IsFinal skip r × (w'.calls ≡ w.calls)) ⊎ ((r.ok ≡ false) × IsRenewed skip w.calls r w w')
  after_first-calls json skip r missing w h k = elim (after_failure-calls json skip r w) [
    | inl e ↦ inl e
    | inr v ↦ inr (h refl, v)
  ]
  after_first-calls json skip r raw w h k = inl (inl (k (λ e. cc)), refl)
  after_first-calls json skip r (value j) w h k = inl (inl (k (λ e. cc)), refl)
  after_first-calls json skip r broken w h k = inl (inl (k (λ e. cc)), refl)

  -- A call of the client makes its request. Nothing more is called exactly where no response comes,
  -- the response is ok or has another status than 401, or the call is already a retry. Otherwise the
  -- login is refreshed once; where that is granted the request is made once more, and where it is not
  -- nothing more is called.
  pub fetcher-calls :
      (json skip : Bool) (w : World S)
      → let first = net.answer w.server in
        let w' = (fetcher net parse string_of friendly json skip w).1 in
        ((first.0 ≡ none) × (w'.calls ≡ w.calls ++ request ∷ []))
        ⊎ ((r : Response) × (first.0 ≡ some r)
            × ((IsFinal skip r × (w'.calls ≡ w.calls ++ request ∷ []))
                ⊎ ((r.ok ≡ false)
                    × IsRenewed skip
                        (w.calls ++ request ∷ [])
                        r
                        (record { server = first.1; calls = w.calls ++ request ∷ [] })
                        w')))
  unfolding fetcher do_fetch
  fetcher-calls json skip w = elim (Option-cases (net.answer w.server).0) [
    | inl e ↦ rw e (inl (refl, refl))
    | inr (r, e) ↦
        let later =
          after_first-calls json skip r (fetched net parse string_of friendly json r)
            (record { server = (net.answer w.server).1; calls = w.calls ++ request ∷ [] })
            (fetched-missing json r) (answer-missing json r) in
        rw e (inr (r, refl, later))
  ]
