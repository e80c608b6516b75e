-- ===== src/Bots/Keys.antt =====
-- Keys of pairs: distinct ones, and those of all pairs of an auction and a bot.
use sneakerbid.Base.{
  ℕ, zero, suc, ◌*◌, ◌≤◌, ◌<◌, true, false, some, List, [], ◌∷◌, ◌++◌, ◌≡◌, refl, arith, ◌==◌, any,
  length, get_elem?, All, Bool-cases, inl, inr, ◌∙◌, if◌then◌else◌, length-append,
}
use sneakerbid.Bots.Attempts.{same_pair, has}

-- No key stands twice.
abbrev pub Distinct : List (ℕ × ℕ) → Type 0
Distinct [] = Unit
Distinct (k ∷ ks) = (has k ks ≡ false) × Distinct ks

pub has-append :
    (k : ℕ × ℕ) (xs ys : List (ℕ × ℕ)) → has k (xs ++ ys) ≡ (if has k xs then true else has k ys)
has-append k [] ys = refl
has-append k (x ∷ xs) ys = elim (Bool-cases (same_pair k x)) [
  | inl t ↦ rw t refl
  | inr f ↦ rw f (has-append k xs ys)
]

same_pair_comm : (j k : ℕ × ℕ) → same_pair j k ≡ same_pair k j
same_pair_comm (a, b) (c, d) = ground arith

pub same_pair_subst : (j k : ℕ × ℕ) (ks : List (ℕ × ℕ)) → same_pair j k ≡ true → has j ks ≡ has k ks
same_pair_subst (a, b) (c, d) [] e = refl
same_pair_subst (a, b) (c, d) ((x, y) ∷ ks) e = ground (arith, same_pair_subst (a, b) (c, d) ks)

pub has-head : (k : ℕ × ℕ) (ks : List (ℕ × ℕ)) → has k (k ∷ ks) ≡ true
has-head (a, b) ks = ground arith

pub has-tail : (k x : ℕ × ℕ) (xs : List (ℕ × ℕ)) → has k xs ≡ true → has k (x ∷ xs) ≡ true
has-tail k x xs h = elim (Bool-cases (same_pair k x)) [ inl t ↦ rw t refl | inr f ↦ rw f h ]

pub Distinct-append :
    (xs ys : List (ℕ × ℕ))
    → Distinct xs
    → Distinct ys
    → ((k : ℕ × ℕ) → has k xs ≡ true → has k ys ≡ false)
    → Distinct (xs ++ ys)
Distinct-append [] ys dx dy apart = dy
Distinct-append (x ∷ xs) ys dx dy apart = (
  has-append x xs ys ∙ rw dx.0 (apart x (has-head x xs)),
  Distinct-append xs ys dx.1 dy (λ k h. apart k (has-tail k x xs h)),
)

-- Taking one key out.
abbrev without : ℕ × ℕ → List (ℕ × ℕ) → List (ℕ × ℕ)
without k [] = []
without k (x ∷ xs) = if same_pair k x then xs else x ∷ without k xs

length-without :
    (k : ℕ × ℕ) (ks : List (ℕ × ℕ)) → has k ks ≡ true → length ks ≡ suc (length (without k ks))
length-without k [] h = cc
length-without k (x ∷ xs) h = ground (arith, length-without k xs)

has-without :
    (j k : ℕ × ℕ) (ks : List (ℕ × ℕ))
    → same_pair j k ≡ false
    → has j ks ≡ true
    → has j (without k ks) ≡ true
has-without j k [] ne h = h
has-without (a, b) (c, d) ((x, y) ∷ xs) ne h = ground (arith, has-without (a, b) (c, d) xs ne)

-- Distinct keys that are all in another list are not more than it has.
pub pigeonhole :
    (xs ys : List (ℕ × ℕ))
    → Distinct xs
    → ((k : ℕ × ℕ) → has k xs ≡ true → has k ys ≡ true)
    → length xs ≤ length ys
pigeonhole [] ys d sub = omega arith
pigeonhole (x ∷ xs) ys d sub =
    let there = sub x (has-head x xs) in
    let rest : (k : ℕ × ℕ) → has k xs ≡ true → has k (without x ys) ≡ true = λ k h.
      elim (Bool-cases (same_pair k x)) [
        | inl same ↦ absurd (cc (same_pair_subst k x xs same))
        | inr ne ↦ has-without k x ys ne (sub k (has-tail k x xs h))
      ] in
    omega (arith, length-without x ys there, pigeonhole xs (without x ys) d.1 rest)

-- A property of all that stand at some index.
pub All-get {ℓ κ} :
    {A : Type ℓ} (P : A → Type κ) (xs : List A)
    → ((i : ℕ) (x : A) → get_elem? xs i ≡ some x → P x)
    → All P xs
All-get P [] h = tt
All-get P (x ∷ xs) h = (h 0 x refl, All-get P xs (λ i y e. h (suc i) y e))

-- The entry at an index below the length.
pub get_elem?-some {ℓ} :
    {A : Type ℓ} (xs : List A) (i : ℕ) → i < length xs → (x : A) × (get_elem? xs i ≡ some x)
get_elem?-some [] i h = absurd (omega arith)
get_elem?-some (x ∷ xs) zero h = (x, refl)
get_elem?-some (x ∷ xs) (suc i) h = get_elem?-some xs i (omega arith)

pub get_elem?-below {ℓ} :
    {A : Type ℓ} (xs : List A) (i : ℕ) (x : A) → get_elem? xs i ≡ some x → i < length xs
get_elem?-below [] i x h = cc
get_elem?-below (y ∷ xs) zero x h = omega arith
get_elem?-below (y ∷ xs) (suc i) x h = omega (arith, get_elem?-below xs i x h)

module _ {A B : Type 0} (auction_id : A → ℕ) (bot_id : B → ℕ) where
  -- The keys of an auction with each bot, and those of all pairs.
  abbrev pub keys_with : A → List B → List (ℕ × ℕ)
  keys_with a [] = []
  keys_with a (b ∷ bs) = (auction_id a, bot_id b) ∷ keys_with a bs

  abbrev pub all_keys : List A → List B → List (ℕ × ℕ)
  all_keys [] bs = []
  all_keys (a ∷ xs) bs = keys_with a bs ++ all_keys xs bs

  length-keys_with : (a : A) (bs : List B) → length (keys_with a bs) ≡ length bs
  length-keys_with a [] = refl
  length-keys_with a (b ∷ bs) = omega (arith, length-keys_with a bs)

  pub length-all_keys :
      (xs : List A) (bs : List B) → length (all_keys xs bs) ≡ length xs * length bs
  length-all_keys [] bs = omega arith
  length-all_keys (a ∷ xs) bs = omega (
    arith,
    length-append (keys_with a bs) (all_keys xs bs),
    length-keys_with a bs,
    length-all_keys xs bs,
  )

  -- No two have one id.
  abbrev pub UniqueBots : List B → Type 0
  UniqueBots [] = Unit
  UniqueBots (b ∷ bs) = (any (λ x. bot_id x == bot_id b) bs ≡ false) × UniqueBots bs

  abbrev pub UniqueAuctions : List A → Type 0
  UniqueAuctions [] = Unit
  UniqueAuctions (a ∷ xs) = (any (λ x. auction_id x == auction_id a) xs ≡ false) × UniqueAuctions xs

  has-keys_with_bot :
      (a : A) (c m : ℕ) (bs : List B)
      → any (λ x. bot_id x == m) bs ≡ false
      → has (c, m) (keys_with a bs) ≡ false
  has-keys_with_bot a c m [] h = refl
  has-keys_with_bot a c m (b ∷ bs) h = ground (arith, has-keys_with_bot a c m bs)

  Distinct-keys_with : (a : A) (bs : List B) → UniqueBots bs → Distinct (keys_with a bs)
  Distinct-keys_with a [] u = tt
  Distinct-keys_with a (b ∷ bs) u =
      (has-keys_with_bot a (auction_id a) (bot_id b) bs u.0, Distinct-keys_with a bs u.1)

  has-keys_with_auction :
      (a : A) (c m : ℕ) (bs : List B) → has (c, m) (keys_with a bs) ≡ true → c ≡ auction_id a
  has-keys_with_auction a c m [] h = cc
  has-keys_with_auction a c m (b ∷ bs) h = ground (arith, has-keys_with_auction a c m bs)

  has-keys_with_ne :
      (a : A) (c m : ℕ) (bs : List B)
      → (c == auction_id a) ≡ false
      → has (c, m) (keys_with a bs) ≡ false
  has-keys_with_ne a c m [] h = refl
  has-keys_with_ne a c m (b ∷ bs) h = ground (arith, has-keys_with_ne a c m bs h)

  has-all_keys_ne :
      (c m : ℕ) (xs : List A) (bs : List B)
      → any (λ x. auction_id x == c) xs ≡ false
      → has (c, m) (all_keys xs bs) ≡ false
  has-all_keys_ne c m [] bs h = refl
  has-all_keys_ne c m (a ∷ xs) bs h =
      has-append (c, m) (keys_with a bs) (all_keys xs bs)
      ∙ ground (arith, has-keys_with_ne a c m bs, has-all_keys_ne c m xs bs)

  pub Distinct-all_keys :
      (xs : List A) (bs : List B) → UniqueAuctions xs → UniqueBots bs → Distinct (all_keys xs bs)
  Distinct-all_keys [] bs ua ub = tt
  Distinct-all_keys (a ∷ xs) bs ua ub =
      Distinct-append (keys_with a bs) (all_keys xs bs) (Distinct-keys_with a bs ub)
        (Distinct-all_keys xs bs ua.1 ub)
        (λ (c, m) h.
          rw (has-keys_with_auction a c m bs h) (has-all_keys_ne (auction_id a) m xs bs ua.0))

  -- Where every pair has its key among some keys, they have all keys.
  has-keys_with-All :
      (a : A) (bs : List B) (ks : List (ℕ × ℕ)) (k : ℕ × ℕ)
      → All (λ (b : B). has (auction_id a, bot_id b) ks ≡ true) bs
      → has k (keys_with a bs) ≡ true
      → has k ks ≡ true
  has-keys_with-All a [] ks k all h = cc
  has-keys_with-All a (b ∷ bs) ks k all h =
      elim (Bool-cases (same_pair k (auction_id a, bot_id b))) [
        | inl same ↦ same_pair_subst k (auction_id a, bot_id b) ks same ∙ all.0
        | inr other ↦ has-keys_with-All a bs ks k all.1 (rw other at h)
      ]

  pub has-all_keys-All :
      (xs : List A) (bs : List B) (ks : List (ℕ × ℕ)) (k : ℕ × ℕ)
      → All (λ (a : A). All (λ (b : B). has (auction_id a, bot_id b) ks ≡ true) bs) xs
      → has k (all_keys xs bs) ≡ true
      → has k ks ≡ true
  has-all_keys-All [] bs ks k all h = cc
  has-all_keys-All (a ∷ xs) bs ks k all h = elim (Bool-cases (has k (keys_with a bs))) [
    | inl first ↦ has-keys_with-All a bs ks k all.0 first
    | inr later ↦
        let split = has-append k (keys_with a bs) (all_keys xs bs) in
        has-all_keys-All xs bs ks k all.1 (rw later at rw split at h)
  ]
