-- ===== src/Bots/Choosing.antt =====
-- That the choice of pairs ends, and what it chooses.
use sneakerbid.Base.{
  ℕ, ◌+◌, ◌*◌, ◌≤◌, ◌<◌, min, true, false, some, List, [], ◌∷◌, ◌++◌, ◌≡◌, refl, arith, leb, length,
  get_elem?, map, All, Bool-cases, inl, inr, ◌⊎◌, ap, sym, ◌∙◌, length-append,
}
use sneakerbid.Bots.Attempts.{
  same_pair, has, Picked, nothing_picked, pick, target, select_loop, select_bid_attempts,
}
use sneakerbid.Bots.Keys.{
  Distinct, Distinct-append, has-append, has-head, same_pair_subst, pigeonhole, All-get,
  get_elem?-some, get_elem?-below, all_keys, length-all_keys, Distinct-all_keys, UniqueAuctions,
  UniqueBots, has-all_keys-All,
}

map-append_one {ℓ} :
    {A B : Type ℓ} (f : A → B) (xs : List A) (x : A) → map f (xs ++ x ∷ []) ≡ map f xs ++ f x ∷ []
map-append_one f [] x = refl
map-append_one f (y ∷ xs) x = ap (λ ys. f y ∷ ys) (map-append_one f xs x)

length-map {ℓ} : {A B : Type ℓ} (f : A → B) (xs : List A) → length (map f xs) ≡ length xs
length-map f [] = refl
length-map f (x ∷ xs) = omega (arith, length-map f xs)

same_entry {ℓ} :
    {A : Type ℓ} (xs : List A) (i j : ℕ) (x y : A)
    → j ≡ i
    → get_elem? xs i ≡ some x
    → get_elem? xs j ≡ some y
    → y ≡ x
same_entry xs i j x y e ex ey = cc

-- Every pair of indices is in range, and each was drawn.
abbrev pub InRange : ℕ → ℕ → List (ℕ × ℕ) → Type 0
InRange n m [] = Unit
InRange n m ((i, j) ∷ draws) = ((i < n) × (j < m)) × InRange n m draws

abbrev pub Covers : ℕ → ℕ → List (ℕ × ℕ) → Type 0
Covers n m draws = (i j : ℕ) → i < n → j < m → has (i, j) draws ≡ true

module _ {A B : Type 0} (auction_id : A → ℕ) (bot_id : B → ℕ) where
  abbrev pub key_of : A × B → ℕ × ℕ
  key_of (a, b) = (auction_id a, bot_id b)

  -- The set has the keys of the pairs, none twice.
  abbrev Good : Picked A B → Type 0
  Good p = (p.keys ≡ map key_of p.attempts) × Distinct p.keys

  pick-Good : (a : A) (b : B) (p : Picked A B) → Good p → Good (pick auction_id bot_id a b p)
  pick-Good a b p (same, distinct) = elim (Bool-cases (has (auction_id a, bot_id b) p.keys)) [
    | inl there ↦ rw there (same, distinct)
    | inr fresh ↦
        let k : ℕ × ℕ = (auction_id a, bot_id b) in
        let apart : (j : ℕ × ℕ) → has j p.keys ≡ true → has j (k ∷ []) ≡ false = λ j h.
          elim (Bool-cases (same_pair j k)) [
            | inl t ↦ absurd (cc (same_pair_subst j k p.keys t))
            | inr f ↦ rw f refl
          ] in
        rw fresh (
          ap (λ ks. ks ++ k ∷ []) same ∙ sym (map-append_one key_of p.attempts (a, b)),
          Distinct-append p.keys (k ∷ []) distinct (refl, tt) apart,
        )
  ]

  pick-has :
      (a : A) (b : B) (p : Picked A B)
      → (has (auction_id a, bot_id b) (pick auction_id bot_id a b p).keys ≡ true)
        × ((k : ℕ × ℕ) → has k p.keys ≡ true → has k (pick auction_id bot_id a b p).keys ≡ true)
        × (length (pick auction_id bot_id a b p).attempts ≤ length p.attempts + 1)
  pick-has a b p = elim (Bool-cases (has (auction_id a, bot_id b) p.keys)) [
    | inl there ↦ rw there (there, λ k h. h, omega arith)
    | inr fresh ↦
        let k : ℕ × ℕ = (auction_id a, bot_id b) in
        rw fresh (
          has-append k p.keys (k ∷ []) ∙ rw fresh (has-head k []),
          λ j h. has-append j p.keys (k ∷ []) ∙ rw h refl,
          omega (arith, length-append p.attempts ((a, b) ∷ [])),
        )
  ]

  module _ (auctions : List A) (bots : List B) where
    -- The pairs of the drawn indices have their keys among some.
    abbrev Drawn : List (ℕ × ℕ) → List (ℕ × ℕ) → Type 0
    Drawn draws ks =
        (i j : ℕ) (a : A) (b : B)
        → has (i, j) draws ≡ true
        → get_elem? auctions i ≡ some a
        → get_elem? bots j ≡ some b
        → has (auction_id a, bot_id b) ks ≡ true

    abbrev limit : ℕ
    limit = target auction_id bot_id auctions bots

    -- The loop ends with so many pairs, or what it picked has every key that was drawn.
    abbrev Outcome : List (ℕ × ℕ) → Picked A B → Type 0
    Outcome draws p =
        ((r : List (A × B)) × (select_loop auction_id bot_id auctions bots draws p ≡ some r)
          × (length r ≡ limit)
          × Distinct (map key_of r))
        ⊎ ((q : Picked A B) × Good q
            × (length q.attempts < limit)
            × ((k : ℕ × ℕ) → has k p.keys ≡ true → has k q.keys ≡ true)
            × Drawn draws q.keys)

    outcome :
        (draws : List (ℕ × ℕ)) (p : Picked A B)
        → Good p
        → length p.attempts ≤ limit
        → InRange (length auctions) (length bots) draws
        → Outcome draws p
    unfolding select_loop
    outcome [] p good below range = elim (Bool-cases (leb limit (length p.attempts))) [
      | inl done ↦ inl (p.attempts, rw done refl, ground arith, rw (← good.0) good.1)
      | inr short ↦ inr (p, good, ground arith, λ k h. h, λ i j a b h. cc)
    ]
    outcome ((i, j) ∷ draws) p good below range =
        let (a, ea) = get_elem?-some auctions i range.0.0 in
        let (b, eb) = get_elem?-some bots j range.0.1 in
        let next = pick auction_id bot_id a b p in
        let (picked, kept, longer) = pick-has a b p in
        elim (Bool-cases (leb limit (length p.attempts))) [
          | inl done ↦ inl (p.attempts, rw done refl, ground arith, rw (← good.0) good.1)
          | inr short ↦ elim (outcome draws next (pick-Good a b p good) (ground arith) range.1) [
            | inl (r, e, n, d) ↦ inl (r, rw (short, ea, eb) e, n, d)
            | inr (q, g, n, sub, drawn) ↦ inr (
              q,
              g,
              n,
              λ k h. sub k (kept k h),
              λ i' j' a' b' h ea' eb'. elim (Bool-cases (same_pair (i', j') (i, j))) [
                | inl same ↦
                    let is_i : i' ≡ i = ground arith in
                    let is_j : j' ≡ j = ground arith in
                    let is_a : a' ≡ a = same_entry auctions i i' a a' is_i ea ea' in
                    let is_b : b' ≡ b = same_entry bots j j' b b' is_j eb eb' in
                    rw (is_a, is_b) (sub (auction_id a, bot_id b) picked)
                | inr other ↦ drawn i' j' a' b' (rw other at h) ea' eb'
              ],
            )
          ]
        ]

    All-Drawn :
        (draws ks : List (ℕ × ℕ))
        → Covers (length auctions) (length bots) draws
        → Drawn draws ks
        → All (λ (a : A). All (λ (b : B). has (auction_id a, bot_id b) ks ≡ true) bots) auctions
    All-Drawn draws ks covers drawn = All-get _ auctions (λ i a ea. All-get _ bots (λ j b eb.
        drawn i j a b (covers i j (get_elem?-below auctions i a ea) (get_elem?-below bots j b eb))
          ea eb))

    -- Where auctions and bots have ids of their own, the choice of pairs ends once every pair of them
    -- was drawn, in whatever order and however often: it has eight pairs, or as many as there are if
    -- these are fewer, and none twice.
    pub select_bid_attempts-ends :
        (draws : List (ℕ × ℕ))
        → UniqueAuctions auction_id bot_id auctions
        → UniqueBots auction_id bot_id bots
        → InRange (length auctions) (length bots) draws
        → Covers (length auctions) (length bots) draws
        → (r : List (A × B)) × (select_bid_attempts auction_id bot_id auctions bots draws ≡ some r)
          × (length r ≡ min 8 (length auctions * length bots))
          × Distinct (map key_of r)
    select_bid_attempts-ends draws ua ub range covers =
        elim (outcome draws nothing_picked (refl, tt) (omega arith) range) [
          | inl ended ↦ ended
          | inr (q, good, few, sub, drawn) ↦
              let ks = all_keys auction_id bot_id auctions bots in
              let all = All-Drawn draws q.keys covers drawn in
              let enough : length ks ≤ length q.keys =
                pigeonhole ks q.keys (Distinct-all_keys auction_id bot_id auctions bots ua ub)
                  (λ k h. has-all_keys-All auction_id bot_id auctions bots q.keys k all h) in
              absurd (
                omega (
                  arith,
                  few,
                  enough,
                  length-all_keys auction_id bot_id auctions bots,
                  ap length good.0,
                  length-map key_of q.attempts,
                ))
        ]
