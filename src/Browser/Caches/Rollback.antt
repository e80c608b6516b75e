-- ===== src/Browser/Caches/Rollback.antt =====
-- A toggle that fails, and one that succeeds.
use mathlib.Core.Option
use sneakerbid.Base.{
  ℕ, Bool, false, Option, none, some, List, [], ◌∷◌, ◌==◌, ◌≡◌, refl, arith, All, map, not, or_else,
  Bool-cases, inl, inr, ap, ◌∙◌, subst,
}
use sneakerbid.Store.Table.{find}
use sneakerbid.Listing.{Summary}
use sneakerbid.Browser.Caches.{
  Caches, update_one, set_wished, update_lists, update_main_cache_wishlist,
  update_list_cache_wishlist, was_wishlisted, on_mutate, on_error, restore_main,
}

-- The copies of an auction in a list have one flag.
abbrev pub AllWished : ℕ → Option Bool → List Summary → Type 0
AllWished id b xs = All (λ a. a.auction_id ≡ id → a.is_wishlisted ≡ b) xs

abbrev pub AllPages : ℕ → Option Bool → Option (List (List Summary)) → Type 0
AllPages id b none = Unit
AllPages id b (some pages) = All (AllWished id b) pages

abbrev pub AllLists : ℕ → Option Bool → Caches → Type 0
AllLists id b c = All (AllPages id b) c.lists

-- The last flag that is written to the copies counts.
update_one-twice :
    (id : ℕ) (b d : Bool) (xs : List Summary)
    → update_one (set_wished d) id (update_one (set_wished b) id xs)
      ≡ update_one (set_wished d) id xs
update_one-twice id b d [] = refl
update_one-twice id b d (a ∷ xs) = elim (Bool-cases (a.auction_id == id)) [
  | inl e ↦ rw (e, e) (ap (λ l. set_wished d a ∷ l) (update_one-twice id b d xs))
  | inr e ↦ rw (e, e) (ap (λ l. a ∷ l) (update_one-twice id b d xs))
]

-- A copy that has the flag already stays as it is.
update_one-same :
    (id : ℕ) (b : Bool) (xs : List Summary)
    → AllWished id (some b) xs
    → update_one (set_wished b) id xs ≡ xs
update_one-same id b [] h = refl
update_one-same id b (a ∷ xs) h = elim (Bool-cases (a.auction_id == id)) [
  | inl e ↦
      let same : a.is_wishlisted ≡ some b = h.0 (ground (arith, e)) in
      rw (e, update_one-same id b xs h.1) (ground (arith, same))
  | inr e ↦ rw e (ap (λ l. a ∷ l) (update_one-same id b xs h.1))
]

update_one-wished :
    (id : ℕ) (b : Bool) (xs : List Summary)
    → AllWished id (some b) (update_one (set_wished b) id xs)
update_one-wished id b [] = tt
update_one-wished id b (a ∷ xs) = elim (Bool-cases (a.auction_id == id)) [
  | inl e ↦ rw e (λ _. refl, update_one-wished id b xs)
  | inr e ↦ rw e (λ same. absurd (ground (arith, e, same)), update_one-wished id b xs)
]

pages-twice :
    (id : ℕ) (b d : Bool) (ps : List (List Summary))
    → map (update_one (set_wished d) id) (map (update_one (set_wished b) id) ps)
      ≡ map (update_one (set_wished d) id) ps
pages-twice id b d [] = refl
pages-twice id b d (p ∷ ps) = rw (update_one-twice id b d p, pages-twice id b d ps) refl

pages-same :
    (id : ℕ) (b : Bool) (ps : List (List Summary))
    → All (AllWished id (some b)) ps
    → map (update_one (set_wished b) id) ps ≡ ps
pages-same id b [] h = refl
pages-same id b (p ∷ ps) h = rw (update_one-same id b p h.0, pages-same id b ps h.1) refl

pages-wished :
    (id : ℕ) (b : Bool) (ps : List (List Summary))
    → All (AllWished id (some b)) (map (update_one (set_wished b) id) ps)
pages-wished id b [] = tt
pages-wished id b (p ∷ ps) = (update_one-wished id b p, pages-wished id b ps)

abbrev lists_with :
    Bool → ℕ → List (Option (List (List Summary))) → List (Option (List (List Summary)))
lists_with b id = map (λ l. Option.map (map (update_one (set_wished b) id)) l)

lists-twice :
    (id : ℕ) (b d : Bool) (ls : List (Option (List (List Summary))))
    → lists_with d id (lists_with b id ls) ≡ lists_with d id ls
lists-twice id b d [] = refl
lists-twice id b d (none ∷ ls) = ap (λ l. none ∷ l) (lists-twice id b d ls)
lists-twice id b d (some ps ∷ ls) = rw (pages-twice id b d ps, lists-twice id b d ls) refl

lists-same :
    (id : ℕ) (b : Bool) (ls : List (Option (List (List Summary))))
    → All (AllPages id (some b)) ls
    → lists_with b id ls ≡ ls
lists-same id b [] h = refl
lists-same id b (none ∷ ls) h = ap (λ l. none ∷ l) (lists-same id b ls h.1)
lists-same id b (some ps ∷ ls) h = rw (pages-same id b ps h.0, lists-same id b ls h.1) refl

lists-wished :
    (id : ℕ) (b : Bool) (ls : List (Option (List (List Summary))))
    → All (AllPages id (some b)) (lists_with b id ls)
lists-wished id b [] = tt
lists-wished id b (none ∷ ls) = (tt, lists-wished id b ls)
lists-wished id b (some ps ∷ ls) = (pages-wished id b ps, lists-wished id b ls)

-- What a failed toggle leaves: the main page as it was, and the lists with one flag.
abbrev rolled_back : ℕ → Caches → Caches
rolled_back id c = record c { lists = lists_with (was_wishlisted id c) id c.lists }

restored :
    (m : Option (List Summary)) (c : Caches)
    → (m ≡ none → c.main ≡ none)
    → restore_main m c ≡ record c { main = m }
restored none c h = let gone : c.main ≡ none = h refl in ground (arith, gone)
restored (some xs) c h = refl

main-none :
    (id : ℕ) (b : Bool) (m : Option (List Summary))
    → m ≡ none
    → Option.map (update_one (set_wished b) id) m ≡ none
main-none id b m e = rw e refl

failed_toggle :
    (id : ℕ) (c : Caches) → on_error id (on_mutate id c).0 (on_mutate id c).1 ≡ rolled_back id c
unfolding on_error on_mutate update_list_cache_wishlist update_main_cache_wishlist
failed_toggle id c =
    let before = was_wishlisted id c in
    let toggled = record c {
      main = Option.map (update_one (set_wished (not before)) id) c.main;
      lists = lists_with (not before) id c.lists;
    } in
    ap (λ d. update_lists (set_wished before) id d)
      (restored c.main toggled (main-none id (not before) c.main))
    ∙ ap (λ ls. record c { lists = ls }) (lists-twice id (not before) before c.lists)

-- A toggle that fails leaves the main page as it was. In the lists every copy of the auction then has
-- the flag that the list of wishes and the main page gave it, which is none where neither has it,
-- whatever the copies had before; all is as it was if they had that flag.
pub on_error-on_mutate :
    (id : ℕ) (c : Caches)
    → let after = on_error id (on_mutate id c).0 (on_mutate id c).1 in
      (after.main ≡ c.main)
      × AllLists id (some (was_wishlisted id c)) after
      × (AllLists id (some (was_wishlisted id c)) c → after ≡ c)
on_error-on_mutate id c =
    let e = failed_toggle id c in
    (
      ap (λ (d : Caches). d.main) e,
      rw e (lists-wished id (was_wishlisted id c) c.lists),
      λ h. e ∙ ap (λ ls. record c { lists = ls }) (lists-same id (was_wishlisted id c) c.lists h),
    )

-- Where the list of wishes is not loaded and the main page does not have the auction, a toggle that
-- fails leaves every copy of it in the lists without the mark, also those that had it.
pub on_error-unmarks :
    (id : ℕ) (c : Caches)
    → c.wishlist_my ≡ none
    → find (λ a. a.auction_id) id (or_else c.main []) ≡ none
    → AllLists id (some false) (on_error id (on_mutate id c).0 (on_mutate id c).1)
unfolding was_wishlisted
on_error-unmarks id c w m =
    let unknown : was_wishlisted id c ≡ false = rw (w, m) refl in
    subst (λ b. AllLists id (some b) (on_error id (on_mutate id c).0 (on_mutate id c).1)) unknown
      (on_error-on_mutate id c).1
