-- ===== src/Browser/Fetching/Envelope.antt =====
-- What the server's interceptors and filters make of a value or a message, read by the client.
use sneakerbid.Base.{
  ℕ, Bool, true, false, Option, none, some, ◌≡◌, refl, String, same_text, Bool-cases, inl, inr, ap,
  ◌∙◌,
}
use sneakerbid.Http.Body.{
  Json, null, boolean, number, text, array, object, Fields, end, field, get_field, without,
}
use sneakerbid.Http.{transform, spread, enveloped, plain, http_exception_filter}
use sneakerbid.Browser.Fetching.{Network, Response, http_error, unwrap, error_of}

some-none : {x : Json} → some x ≡ none → ⊥
some-none h = cc

without-none : (k : String) (fs : Fields) → get_field k fs ≡ none → without k fs ≡ fs
without-none k end e = refl
without-none k (field j v fs) e = elim (Bool-cases (same_text j k)) [
  | inl h ↦ absurd (some-none (rw h at e))
  | inr h ↦ rw h (ap (field j v) (without-none k fs (rw h at e)))
]

without-without : (k : String) (fs : Fields) → without k (without k fs) ≡ without k fs
without-without k end = refl
without-without k (field j v fs) = elim (Bool-cases (same_text j k)) [
  | inl h ↦ rw h (without-without k fs)
  | inr h ↦ rw (h, h) (ap (field j v) (without-without k fs))
]

enveloped-spread :
    (o : Option Json) (fs : Fields)
    → get_field "success" fs ≡ o
    → enveloped (spread o fs) ≡ spread o fs
enveloped-spread none fs e = rw (without-none "success" fs e) refl
enveloped-spread (some v) fs e = rw (without-without "success" fs) refl

-- The interceptor is registered twice, and the second time changes nothing.
pub transform-transform :
    (is_events : Bool) (j : Json)
    → transform is_events (transform is_events j) ≡ transform is_events j
unfolding transform
transform-transform true j = refl
transform-transform false null = refl
transform-transform false (boolean b) = refl
transform-transform false (number n) = refl
transform-transform false (text s) = refl
transform-transform false (array xs) = refl
transform-transform false (object fs) = enveloped-spread (get_field "success" fs) fs refl

-- Neither an object nor left out.
abbrev pub IsPlain : Json → Type 0
IsPlain (object fs) = ⊥
IsPlain _ = Unit

unwrap-plain : (j : Json) → IsPlain j → unwrap (transform false j) ≡ j
unfolding transform unwrap
unwrap-plain null h = refl
unwrap-plain (boolean b) h = refl
unwrap-plain (number n) h = refl
unwrap-plain (text s) h = refl
unwrap-plain (array xs) h = refl
unwrap-plain (object fs) h = absurd h

unwrap-fields :
    (fs : Fields) (o d : Option Json)
    → get_field "success" fs ≡ o
    → o ≡ none
    → get_field "data" fs ≡ d
    → unwrap (transform false (object fs))
      ≡ (elim d [ none ↦ object (field "success" (boolean true) fs) | some v ↦ v ])
unfolding transform unwrap
unwrap-fields fs (some v) d e n f = cc
unwrap-fields fs none none e n f = rw (e, f) refl
unwrap-fields fs none (some v) e n f = rw (e, f) refl

-- The client reads a value that a handler answers with, after both turns of the interceptor, as it
-- was, if it is no object; an object without the fields `success` and `data` has the field `success`
-- besides, and of an object with a field `data` and none named `success` only that field is left.
pub unwrap-transform :
    ((j : Json) → IsPlain j → unwrap (transform false (transform false j)) ≡ j)
    × ((fs : Fields)
        → get_field "success" fs ≡ none
        → get_field "data" fs ≡ none
        → unwrap (transform false (transform false (object fs)))
          ≡ object (field "success" (boolean true) fs))
    × ((fs : Fields) (v : Json)
        → get_field "success" fs ≡ none
        → get_field "data" fs ≡ some v
        → unwrap (transform false (transform false (object fs))) ≡ v)
unwrap-transform = (
  λ j h. ap unwrap (transform-transform false j) ∙ unwrap-plain j h,
  λ fs e f. ap unwrap (transform-transform false (object fs)) ∙ unwrap-fields fs none none e refl f,
  λ fs v e f.
      ap unwrap (transform-transform false (object fs)) ∙ unwrap-fields fs none (some v) e refl f,
)

-- The message that a service throws is the one that the client's error is made of, with the status.
pub error_of-http_exception_filter :
    {S : Type 0} (net : Network S) (parse : String → Option Json) (string_of : Json → String)
    (friendly : String → ℕ → String) (r : Response) (status : ℕ) (message : String)
    → same_text message "" ≡ false
    → r.status ≡ status
    → parse r.body ≡ some (http_exception_filter status (plain message)).body
    → error_of net parse string_of friendly r ≡ http_error (friendly message status) status
unfolding error_of http_exception_filter
error_of-http_exception_filter net parse string_of friendly r status message shown s e =
    rw (e, s, shown) refl
