-- ===== src/Browser/Fetching/Messages.antt =====
-- The messages of errors: frontend/lib/util/apiError.ts. JavaScript's `trim` and `length` and the two
-- regular expressions are parameters.
use sneakerbid.Base.{
  ℕ, Bool, true, false, Option, none, some, List, [], ◌∷◌, ◌&&◌, ◌||◌, ◌==◌, ltb, not,
  if◌then◌else◌, String, same_text, is_some, or_else, ◌≡◌, refl, Bool-cases, Option-cases, inl, inr,
  All, subst,
}

-- `STATUS_MESSAGES`
abbrev pub status_messages : List (ℕ × String)
status_messages =
    (400, "잘못된 요청입니다.")
    ∷ (401, "로그인이 필요합니다.")
    ∷ (403, "접근 권한이 없습니다.")
    ∷ (404, "요청한 항목을 찾을 수 없습니다.")
    ∷ (409, "이미 처리된 요청입니다.")
    ∷ (500, "서버 오류가 발생했습니다. 잠시 후 다시 시도해 주세요.")
    ∷ []

-- `TECHNICAL_MESSAGE_MAP`
abbrev pub technical_message_map : List (String × String)
technical_message_map =
    ("Unauthorized", "로그인이 필요합니다.")
    ∷ ("Unauthorized Exception", "로그인이 필요합니다.")
    ∷ ("Forbidden", "접근 권한이 없습니다.")
    ∷ ("Forbidden Exception", "접근 권한이 없습니다.")
    ∷ ("Not Found", "요청한 항목을 찾을 수 없습니다.")
    ∷ ("Not Found Exception", "요청한 항목을 찾을 수 없습니다.")
    ∷ ("Bad Request", "잘못된 요청입니다.")
    ∷ ("Conflict", "이미 처리된 요청입니다.")
    ∷ ("Internal Server Error", "서버 오류가 발생했습니다. 잠시 후 다시 시도해 주세요.")
    ∷ ("Failed to fetch", "네트워크 연결을 확인해 주세요.")
    ∷ ("Network request failed", "네트워크 연결을 확인해 주세요.")
    ∷ []

abbrev pub by_status : ℕ → List (ℕ × String) → Option String
by_status k [] = none
by_status k ((j, s) ∷ m) = if j == k then some s else by_status k m

abbrev pub by_text : String → List (String × String) → Option String
by_text k [] = none
by_text k ((j, s) ∷ m) = if same_text j k then some s else by_text k m

module _ (length_of : String → ℕ) (has_hangul looks_technical : String → Bool) where
  -- `isUserFriendlyMessage`
  unfoldable pub is_user_friendly_message : String → Bool
  is_user_friendly_message s =
      if same_text s "" || ltb (length_of s) 2
      then false
      else has_hangul s
        || ltb 40 (length_of s)
          && not (is_some (by_text s technical_message_map))
          && not (looks_technical s)

  -- The last choice: the message itself, or the fallback where it is empty.
  abbrev last_choice : String → String → String
  last_choice s fallback = if same_text s "" then fallback else s

  -- `toUserFriendlyMessage`, of a trimmed message and a status
  unfoldable pub friendly_of : String → String → Option ℕ → String
  unfolding is_user_friendly_message
  friendly_of fallback s status =
      if is_user_friendly_message s then s else elim (by_text s technical_message_map) [
        | some t ↦ t
        | none ↦ elim status [
          | none ↦ last_choice s fallback
          | some k ↦ elim (by_status k status_messages) [
            | some t ↦ t
            | none ↦ last_choice s fallback
          ]
        ]
      ]

  -- `toUserFriendlyMessage`, of an error with a message that may be missing and a status.
  unfoldable pub to_user_friendly_message :
      (String → String) → String → Option String → Option ℕ → String
  unfolding friendly_of
  to_user_friendly_message trim fallback message status =
      friendly_of fallback (trim (or_else message "")) status

some-injective : {s t : String} → some s ≡ some t → s ≡ t
some-injective e = cc

-- A text that says something.
abbrev pub IsShown : String → Type 0
IsShown s = same_text s "" ≡ false

by_text-IsShown :
    (k t : String) (m : List (String × String))
    → All (λ (p : String × String). IsShown p.1) m
    → by_text k m ≡ some t
    → IsShown t
by_text-IsShown k t [] h e = cc
by_text-IsShown k t ((j, s) ∷ m) h e = elim (Bool-cases (same_text j k)) [
  | inl same ↦ let found : s ≡ t = some-injective (rw same at e) in subst IsShown found h.0
  | inr other ↦ by_text-IsShown k t m h.1 (rw other at e)
]

by_status-IsShown :
    (k : ℕ) (t : String) (m : List (ℕ × String))
    → All (λ (p : ℕ × String). IsShown p.1) m
    → by_status k m ≡ some t
    → IsShown t
by_status-IsShown k t [] h e = cc
by_status-IsShown k t ((j, s) ∷ m) h e = elim (Bool-cases (j == k)) [
  | inl same ↦ let found : s ≡ t = some-injective (rw same at e) in subst IsShown found h.0
  | inr other ↦ by_status-IsShown k t m h.1 (rw other at e)
]

technical-IsShown : All (λ (p : String × String). IsShown p.1) technical_message_map
technical-IsShown =
    (refl, (refl, (refl, (refl, (refl, (refl, (refl, (refl, (refl, (refl, (refl, tt)))))))))))

status-IsShown : All (λ (p : ℕ × String). IsShown p.1) status_messages
status-IsShown = (refl, (refl, (refl, (refl, (refl, (refl, tt))))))

module _ (length_of : String → ℕ) (has_hangul looks_technical : String → Bool) where
  last_choice-IsShown :
      (s fallback : String)
      → IsShown fallback
      → IsShown (last_choice length_of has_hangul looks_technical s fallback)
  last_choice-IsShown s fallback h = elim (Bool-cases (same_text s "")) [
    | inl e ↦ rw e h
    | inr e ↦ rw e e
  ]

  by_status_or :
      (s fallback : String) (status : Option ℕ)
      → IsShown fallback
      → IsShown (elim status [
        | none ↦ last_choice length_of has_hangul looks_technical s fallback
        | some k ↦ elim (by_status k status_messages) [
          | some t ↦ t
          | none ↦ last_choice length_of has_hangul looks_technical s fallback
        ]
      ])
  by_status_or s fallback none h = last_choice-IsShown s fallback h
  by_status_or s fallback (some k) h = elim (Option-cases (by_status k status_messages)) [
    | inl e ↦ rw e (last_choice-IsShown s fallback h)
    | inr (t, e) ↦ rw e (by_status-IsShown k t status_messages status-IsShown e)
  ]

  user_friendly-IsShown :
      (s : String)
      → is_user_friendly_message length_of has_hangul looks_technical s ≡ true
      → IsShown s
  unfolding is_user_friendly_message
  user_friendly-IsShown s h = elim (Bool-cases (same_text s "")) [
    | inl e ↦ let never : false ≡ true = rw e at h in cc
    | inr e ↦ e
  ]

  friendly_of-IsShown :
      (fallback s : String) (status : Option ℕ)
      → IsShown fallback
      → IsShown (friendly_of length_of has_hangul looks_technical fallback s status)
  unfolding friendly_of
  friendly_of-IsShown fallback s status h =
      elim (Bool-cases (is_user_friendly_message length_of has_hangul looks_technical s)) [
        | inl e ↦ rw e (user_friendly-IsShown s e)
        | inr e ↦ elim (Option-cases (by_text s technical_message_map)) [
          | inl n ↦ rw (e, n) (by_status_or s fallback status h)
          | inr (t, n) ↦ rw (e, n) (by_text-IsShown s t technical_message_map technical-IsShown n)
        ]
      ]

  -- What is shown of an error is never an empty text, whatever its message and its status, where the
  -- fallback is not empty; and a message in Korean of two letters or more is shown as it is.
  pub to_user_friendly_message-IsShown :
      (trim : String → String) (fallback : String) (message : Option String) (status : Option ℕ)
      → IsShown fallback
      → let s = trim (or_else message "") in
        let shown =
          to_user_friendly_message length_of has_hangul looks_technical trim fallback message
            status in
        IsShown shown × (IsShown s → ltb (length_of s) 2 ≡ false → has_hangul s ≡ true → shown ≡ s)
  unfolding to_user_friendly_message friendly_of is_user_friendly_message
  to_user_friendly_message-IsShown trim fallback message status h = (
    friendly_of-IsShown fallback (trim (or_else message "")) status h,
    λ a b c. rw (a, b, c) refl,
  )
