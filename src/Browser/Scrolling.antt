-- ===== src/Browser/Scrolling.antt =====
-- The list that grows as one scrolls: frontend/hooks/useInfiniteScroll.ts. What is read back through
-- `dataRef` and `itemsRef` is what was last drawn.
pub mod Growing
mod Tests
use sneakerbid.Base.{
  ℕ, zero, suc, ◌+◌, Bool, true, false, List, [], ◌∷◌, ◌++◌, ◌||◌, ltb, not, if◌then◌else◌, length,
  take,
}

module _ {ℓ} {T : Type ℓ} where
  abbrev pub drop : ℕ → List T → List T
  drop zero xs = xs
  drop (suc n) [] = []
  drop (suc n) (x ∷ xs) = drop n xs

  -- `xs.slice(from, from + n)`
  abbrev pub slice : ℕ → ℕ → List T → List T
  slice from n xs = take n (drop from xs)

-- The state of the hook, the data that it is given, and whether a timer is pending.
pub record Scroll {ℓ} (T : Type ℓ) : Type ℓ where
  pub source : List T
  pub items : List T
  pub is_loading : Bool
  pub has_more : Bool
  pub is_pending : Bool

module _ {ℓ} {T : Type ℓ} where
  -- The timer's callback with the next entries
  abbrev pub append_page : List T → Scroll T → Scroll T
  append_page [] s = record s { has_more = false; is_loading = false; is_pending = false }
  append_page (x ∷ next) s = record s {
    items = s.items ++ (x ∷ next);
    has_more = ltb (length s.items + length (x ∷ next)) (length s.source);
    is_loading = false;
    is_pending = false;
  }

  -- `loadMore`, until the timer is set
  unfoldable pub load_more : Scroll T → Scroll T
  load_more s =
      if s.is_loading || not s.has_more
      then s
      else record s { is_loading = true; is_pending = true }

  -- The hook is given other data; what is shown stays until a reset.
  unfoldable pub give : List T → Scroll T → Scroll T
  give xs s = record s { source = xs }

module _ {ℓ} {T : Type ℓ} (page_size : ℕ) where
  -- The first state.
  unfoldable pub mount : List T → Scroll T
  mount xs = record {
    source = xs;
    items = take page_size xs;
    is_loading = false;
    has_more = ltb page_size (length xs);
    is_pending = false;
  }

  -- `reset`
  unfoldable pub reset : Scroll T → Scroll T
  reset s = record s {
    items = take page_size s.source;
    is_loading = false;
    has_more = ltb page_size (length s.source);
    is_pending = false;
  }

  -- The callback of the timer
  unfoldable pub on_timer : Scroll T → Scroll T
  on_timer s = if s.is_pending then append_page (slice (length s.items) page_size s.source) s else s

  -- So many pages asked for, each when the one before it is there.
  unfoldable pub scroll : ℕ → Scroll T → Scroll T
  unfolding on_timer load_more
  scroll zero s = s
  scroll (suc n) s = scroll n (on_timer (load_more s))
