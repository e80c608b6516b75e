-- ===== src/Notifications/Paging.antt =====
-- The pages of the notifications, one after the other.
use sneakerbid.Base.{
  ℕ, zero, suc, ◌+◌, ◌<◌, min, Option, none, some, List, [], ◌∷◌, ◌++◌, ◌≡◌, refl, arith, All, ◌==◌,
  ◌-◌, ltb, length, take, Bool-cases, Option-cases, inl, inr, ◌∙◌, ap, subst, append_nil,
}
use sneakerbid.Base.Int.{ℤ, pos, negsuc}
use sneakerbid.Store.Table.{find}
use sneakerbid.Store.Pages.{last_key, walk}
use sneakerbid.Store.Pages.Order.{
  IsStrictOrder, UniqueKeys, IsSortedBy, All-sort_by, sort_by-IsSortedBy, sort_by-filter_by,
  filter_by-suffix, length-sort_by,
}
use sneakerbid.Store.Pages.Walk.{walk-rest}
use sneakerbid.Store.Pages.Keys.{All-middle, filter_by-cong, IsFoundIn, All-IsFoundIn, same_row}
use sneakerbid.Notifications.{
  Notification, id_of, is_before, created_before, newest_first, of_user, rows_after, list_for_user,
  cap_of, list, follow,
}

abbrev pub time_of : Notification → ℕ
time_of n = n.created_at

is_before-IsStrictOrder : IsStrictOrder time_of is_before
is_before-IsStrictOrder = record {
  trans = λ x y z p q. ground arith;
  asym = λ x y p. ground arith;
  total = λ x y n p. ground arith;
}

created_before-is_before :
    (c n : Notification)
    → (time_of n ≡ time_of c → n ≡ c)
    → created_before (time_of c) n ≡ is_before c n
created_before-is_before c n same = elim (Bool-cases (n.created_at == c.created_at)) [
  | inl e ↦ rw (same (ground arith)) (ground arith)
  | inr e ↦ ground arith
]

-- In rows of different times, the cursor's condition is to come after its row.
created_before-All :
    (c : Notification) (ns xs : List Notification)
    → IsFoundIn time_of ns c
    → All (IsFoundIn time_of ns) xs
    → All (λ n. created_before (time_of c) n ≡ is_before c n) xs
created_before-All c ns [] f h = tt
created_before-All c ns (x ∷ xs) f h =
    (created_before-is_before c x (same_row time_of ns x c h.0 f), created_before-All c ns xs f h.1)

cap_of-pos : (limit : ℤ) → (m : ℕ) × (cap_of limit ≡ suc m)
cap_of-pos (pos zero) = (0, refl)
cap_of-pos (pos (suc n)) = (min 100 (suc n) - 1, omega arith)
cap_of-pos (negsuc n) = (0, refl)

-- What follows a cursor is what comes after its row.
rows_after-suffix :
    (u : ℕ) (ns xs ys : List Notification) (c : Notification)
    → UniqueKeys time_of (of_user u ns)
    → UniqueKeys id_of (of_user u ns)
    → rows_after u none ns ≡ xs ++ c ∷ ys
    → rows_after u (some c.id) ns ≡ ys
rows_after-suffix u ns xs ys c times ids e =
    let mine = of_user u ns in
    let self : find id_of c.id mine ≡ some c = All-middle (IsFoundIn id_of mine) c xs ys (
      subst (All (IsFoundIn id_of mine)) e
        (All-sort_by (IsFoundIn id_of mine) is_before mine (All-IsFoundIn id_of mine ids))) in
    let found = All-IsFoundIn time_of mine times in
    let timed : IsFoundIn time_of mine c = All-middle (IsFoundIn time_of mine) c xs ys (
      subst (All (IsFoundIn time_of mine)) e
        (All-sort_by (IsFoundIn time_of mine) is_before mine found)) in
    let cut =
      filter_by-cong (created_before c.created_at) (is_before c) mine
        (created_before-All c mine mine timed found) in
    let sorted : IsSortedBy is_before (xs ++ c ∷ ys) =
      subst (IsSortedBy is_before) e (sort_by-IsSortedBy is_before-IsStrictOrder mine times) in
    rw (self, cut, sort_by-filter_by is_before-IsStrictOrder (is_before c) mine times, e)
      (filter_by-suffix is_before-IsStrictOrder c xs ys sorted)

module _ (u : ℕ) (limit : ℤ) (ns : List Notification) where
  follow-walk :
      (fuel : ℕ) (cursor : Option ℕ)
      → follow fuel u limit cursor ns
        ≡ walk id_of fuel (cap_of limit) (λ c. rows_after u c ns) cursor
  unfolding follow walk list list_for_user
  follow-walk zero cursor = refl
  follow-walk (suc fuel) cursor =
      let read = take (suc (cap_of limit)) (rows_after u cursor ns) in
      let one : cap_of limit + 1 ≡ suc (cap_of limit) = omega arith in
      rw one (elim (Bool-cases (ltb (cap_of limit) (length read))) [
        | inr e ↦ rw e (append_nil read)
        | inl e ↦ elim (Option-cases (last_key id_of (take (cap_of limit) read))) [
          | inl l ↦ rw (e, l) refl
          | inr (k, l) ↦ rw (e, l, follow-walk fuel (some k)) refl
        ]
      ])

  -- Where no two notifications of the user have one time, and no two one id, whatever limit is asked
  -- for, following the cursors of the pages ends, after at most one page more than there are
  -- notifications, and gives all of the user's notifications, newest first, each once.
  pub follow-newest_first :
      (fuel : ℕ)
      → UniqueKeys time_of (of_user u ns)
      → UniqueKeys id_of (of_user u ns)
      → length (of_user u ns) < fuel
      → follow fuel u limit none ns ≡ newest_first (of_user u ns)
  follow-newest_first fuel times ids h =
      let (m, size) = cap_of-pos limit in
      follow-walk fuel none
      ∙ ap (λ c. walk id_of fuel c (λ c. rows_after u c ns) none) size
      ∙ walk-rest id_of (λ c. rows_after u c ns)
          (λ xs ys c e. rows_after-suffix u ns xs ys c times ids e) fuel m none []
          (newest_first (of_user u ns)) refl refl
          (omega (arith, length-sort_by is_before (of_user u ns)))
