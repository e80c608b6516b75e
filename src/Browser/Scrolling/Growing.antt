-- ===== src/Browser/Scrolling/Growing.antt =====
-- What is shown of data that stays: a beginning of it, and after enough pages all of it.
use sneakerbid.Base.{
  ℕ, zero, suc, ◌+◌, ◌-◌, ◌*◌, ◌≤◌, ◌<◌, min, true, false, List, [], ◌∷◌, ◌++◌, ◌≡◌, refl, arith,
  ltb, length, take, Bool-cases, inl, inr, ap, sym, ◌∙◌,
}
use sneakerbid.Store.Pages.Walk.{take_all}
use sneakerbid.Browser.Scrolling.{
  Scroll, drop, slice, mount, load_more, append_page, on_timer, scroll,
}

module _ {ℓ} {T : Type ℓ} where
  length-drop : (n : ℕ) (xs : List T) → length (drop n xs) ≡ length xs - n
  length-drop zero xs = omega arith
  length-drop (suc n) [] = omega arith
  length-drop (suc n) (x ∷ xs) = omega (arith, length-drop n xs)

  length-take : (n : ℕ) (xs : List T) → length (take n xs) ≡ min n (length xs)
  length-take zero xs = omega arith
  length-take (suc n) [] = omega arith
  length-take (suc n) (x ∷ xs) = omega (arith, length-take n xs)

  slice-nil : (m n : ℕ) → slice {T = T} m n [] ≡ []
  slice-nil zero zero = refl
  slice-nil zero (suc n) = refl
  slice-nil (suc m) zero = refl
  slice-nil (suc m) (suc n) = refl

  take-nil : (n : ℕ) → take {A = T} n [] ≡ []
  take-nil zero = refl
  take-nil (suc n) = refl

  -- A beginning and the slice after it are a longer beginning.
  take-slice : (m n : ℕ) (xs : List T) → take m xs ++ slice m n xs ≡ take (m + n) xs
  take-slice zero n xs = let none_more : 0 + n ≡ n = omega arith in rw none_more refl
  take-slice (suc m) n [] = rw (slice-nil (suc m) n, take-nil (suc m + n)) refl
  take-slice (suc m) n (x ∷ xs) =
      let more : suc m + n ≡ suc (m + n) = omega arith in
      rw more (ap (λ l. x ∷ l) (take-slice m n xs))

  length-slice : (m n : ℕ) (xs : List T) → length (slice m n xs) ≡ min n (length xs - m)
  length-slice m n xs = rw (length-take n (drop m xs), length-drop m xs) refl

  -- The first `k` entries of the data are shown, and no timer is pending.
  record IsShown (k : ℕ) (xs : List T) (s : Scroll T) : Type ℓ where
    pub source_is : s.source ≡ xs
    pub items_are : s.items ≡ take k xs
    pub is_idle : s.is_loading ≡ false
    pub none_pending : s.is_pending ≡ false
    pub more_is : s.has_more ≡ ltb k (length xs)

  append_page-IsShown :
      (k p : ℕ) (xs next : List T) (s : Scroll T)
      → s.source ≡ xs
      → s.items ≡ take k xs
      → k < length xs
      → take k xs ++ next ≡ take (k + suc p) xs
      → length next ≡ min (suc p) (length xs - k)
      → IsShown (k + suc p) xs (append_page next s)
  append_page-IsShown k p xs [] s src it h e l = absurd (omega (arith, l))
  append_page-IsShown k p xs (x ∷ next) s src it h e l =
      let shown : length s.items ≡ k = rw it (omega (arith, length-take k xs)) in
      record {
        source_is = src;
        items_are = rw it e;
        is_idle = refl;
        none_pending = refl;
        more_is = rw (src, shown) (ground (arith, l));
      }

  page-IsShown :
      (k p : ℕ) (xs : List T) (s : Scroll T)
      → IsShown k xs s
      → IsShown (k + suc p) xs (on_timer (suc p) (load_more s))
  unfolding on_timer load_more
  page-IsShown k p xs s v = elim (Bool-cases (ltb k (length xs))) [
    | inl more ↦
        let has : s.has_more ≡ true = v.more_is ∙ more in
        let shown : length s.items ≡ k = rw v.items_are (ground (arith, length-take k xs, more)) in
        let page : length (slice k (suc p) xs) ≡ min (suc p) (length xs - k) =
          length-slice k (suc p) xs in
        rw (v.is_idle, has, shown, v.source_is)
          (append_page-IsShown k p xs (slice k (suc p) xs)
            (record {
              source = xs;
              items = s.items;
              is_loading = true;
              has_more = true;
              is_pending = true;
            })
            refl v.items_are (ground (arith, more)) (take-slice k (suc p) xs) page)
    | inr done ↦
        let has : s.has_more ≡ false = v.more_is ∙ done in
        rw (v.is_idle, has, v.none_pending)
          (record {
            source_is = v.source_is;
            items_are =
                v.items_are
                ∙ take_all k xs (ground (arith, done))
                ∙ sym (take_all (k + suc p) xs (ground (arith, done)));
            is_idle = refl;
            none_pending = refl;
            more_is = ground (arith, done);
          })
  ]

  scroll-IsShown :
      (n k p : ℕ) (xs : List T) (s : Scroll T)
      → IsShown k xs s
      → IsShown (k + n * suc p) xs (scroll (suc p) n s)
  unfolding scroll
  scroll-IsShown zero k p xs s v = let same : k + 0 * suc p ≡ k = omega arith in rw same v
  scroll-IsShown (suc n) k p xs s v =
      let more : k + suc n * suc p ≡ (k + suc p) + n * suc p = grind arith in
      rw more (
        scroll-IsShown n (k + suc p) p xs (on_timer (suc p) (load_more s))
          (page-IsShown k p xs s v))

  mount-IsShown : (p : ℕ) (xs : List T) → IsShown (suc p) xs (mount (suc p) xs)
  unfolding mount
  mount-IsShown p xs = record {
    source_is = refl;
    items_are = refl;
    is_idle = refl;
    none_pending = refl;
    more_is = refl;
  }

  -- While the data stays, asking for `n` pages after the first shows the first `n + 1` pages of it, in
  -- order and each entry once, and says that there is more exactly while entries are left; once the
  -- pages are enough for the data, all of it is shown.
  pub scroll-pages :
      (n p : ℕ) (xs : List T)
      → let s = scroll (suc p) n (mount (suc p) xs) in
        (s.items ≡ take ((n + 1) * suc p) xs)
        × (s.has_more ≡ ltb ((n + 1) * suc p) (length xs))
        × (length xs ≤ (n + 1) * suc p → (s.items ≡ xs) × (s.has_more ≡ false))
  scroll-pages n p xs =
      let v = scroll-IsShown n (suc p) p xs (mount (suc p) xs) (mount-IsShown p xs) in
      let size : suc p + n * suc p ≡ (n + 1) * suc p = grind arith in
      let items : (scroll (suc p) n (mount (suc p) xs)).items ≡ take ((n + 1) * suc p) xs =
        v.items_are ∙ ap (λ k. take k xs) size in
      let more : (scroll (suc p) n (mount (suc p) xs)).has_more
          ≡ ltb ((n + 1) * suc p) (length xs) =
        v.more_is ∙ ap (λ k. ltb k (length xs)) size in
      (
        items,
        more,
        λ enough. (items ∙ take_all ((n + 1) * suc p) xs enough, more ∙ ground (arith, enough)),
      )
