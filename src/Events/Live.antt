-- ===== src/Events/Live.antt =====
-- Who is listening: the subjects and counts against the subscriptions that are open.
use sneakerbid.Base.{
  ℕ, ◌+◌, Bool, true, false, Option, none, some, List, [], ◌∷◌, ◌++◌, ◌==◌, ◌&&◌, if◌then◌else◌,
  any, length, map, ◌≡◌, refl, arith, length-append, append_nil, Bool-cases, inl, inr, eq_of_==,
  ◌∙◌, ap, sym,
}
use sneakerbid.Store.Table.{remove}
use sneakerbid.Events.{Hub, empty_hub, stream, end_stream, emit_to_local, Event, or_nobody, or_zero}

-- A subscription that begins, and one that ends.
pub data Op : Type 0 where
  begins ends : (id key : ℕ) → Op

-- The hub after some subscriptions.
unfoldable pub run : List Op → Hub → Hub
run [] h = h
run (Op.begins id k ∷ ops) h = run ops (stream id k h)
run (Op.ends id k ∷ ops) h = run ops (end_stream id k h)

-- The open subscriptions, each a listener with its key, in the order in which they began.
abbrev pub Open : Type 0
Open = List (ℕ × ℕ)

abbrev pub is_pair : ℕ → ℕ → ℕ × ℕ → Bool
is_pair id k (i, j) = i == id && j == k

abbrev pub without : ℕ → ℕ → Open → Open
without id k [] = []
without id k (p ∷ ps) = if is_pair id k p then ps else p ∷ without id k ps

abbrev pub open_after : List Op → Open → Open
open_after [] ps = ps
open_after (Op.begins id k ∷ ops) ps = open_after ops (ps ++ (id, k) ∷ [])
open_after (Op.ends id k ∷ ops) ps = open_after ops (without id k ps)

-- A subscription ends only while it is open.
abbrev pub Proper : List Op → Open → Type 0
Proper [] ps = Unit
Proper (Op.begins id k ∷ ops) ps = Proper ops (ps ++ (id, k) ∷ [])
Proper (Op.ends id k ∷ ops) ps = (any (is_pair id k) ps ≡ true) × Proper ops (without id k ps)

-- The listeners of a key.
abbrev pub listeners : ℕ → Open → List ℕ
listeners k [] = []
listeners k ((i, j) ∷ ps) = if j == k then i ∷ listeners k ps else listeners k ps

abbrev pub subject_of : List ℕ → Option (List ℕ)
subject_of [] = none
subject_of (i ∷ is) = some (i ∷ is)

abbrev pub count_of : List ℕ → Option ℕ
count_of [] = none
count_of (i ∷ is) = some (length (i ∷ is))

-- The hub has a subject for the keys that are listened to and for no other, and counts right.
abbrev pub Tracks : Hub → Open → Type 0
Tracks h ps =
    (k : ℕ)
    → (h.subjects k ≡ subject_of (listeners k ps)) × (h.ref_counts k ≡ count_of (listeners k ps))

listeners-append :
    (k id j : ℕ) (ps : Open)
    → listeners k (ps ++ (id, j) ∷ []) ≡ listeners k ps ++ (if j == k then id ∷ [] else [])
listeners-append k id j [] = ground arith
listeners-append k id j ((i, l) ∷ ps) = ground (arith, listeners-append k id j ps)

listeners-without_self :
    (id k : ℕ) (ps : Open) → listeners k (without id k ps) ≡ remove (λ x. x) id (listeners k ps)
listeners-without_self id k [] = refl
listeners-without_self id k ((i, l) ∷ ps) = ground (arith, listeners-without_self id k ps)

listeners-without_ne :
    (id k j : ℕ) (ps : Open) → (j == k) ≡ false → listeners j (without id k ps) ≡ listeners j ps
listeners-without_ne id k j [] ne = refl
listeners-without_ne id k j ((i, l) ∷ ps) ne = ground (arith, listeners-without_ne id k j ps ne)

-- How many listeners are left when one that is there is removed.
length-remove :
    (id k : ℕ) (ps : Open)
    → any (is_pair id k) ps ≡ true
    → length (listeners k ps) ≡ length (remove (λ x. x) id (listeners k ps)) + 1
length-remove id k [] h = cc
length-remove id k ((i, l) ∷ ps) h = ground (arith, length-remove id k ps)

or_nobody-subject_of : (is : List ℕ) → or_nobody (subject_of is) ≡ is
or_nobody-subject_of [] = refl
or_nobody-subject_of (i ∷ is) = refl

or_zero-count_of : (is : List ℕ) → or_zero (count_of is) ≡ length is
or_zero-count_of [] = refl
or_zero-count_of (i ∷ is) = refl

subject_of-snoc : (is : List ℕ) (i : ℕ) → subject_of (is ++ i ∷ []) ≡ some (is ++ i ∷ [])
subject_of-snoc [] i = refl
subject_of-snoc (j ∷ is) i = refl

count_of-snoc : (is : List ℕ) (i : ℕ) → count_of (is ++ i ∷ []) ≡ some (length is + 1)
count_of-snoc [] i = refl
count_of-snoc (j ∷ is) i = ap some (omega (arith, length-append is (i ∷ [])))

module _ (id k : ℕ) (h : Hub) (ps : Open) (t : Tracks h ps) where
  stream-same :
      (j : ℕ)
      → (k == j) ≡ true
      → ((stream id k h).subjects j ≡ subject_of (listeners j (ps ++ (id, k) ∷ [])))
        × ((stream id k h).ref_counts j ≡ count_of (listeners j (ps ++ (id, k) ∷ [])))
  unfolding stream
  stream-same j e = (
    grind (
      arith,
      t k,
      e,
      listeners-append j id k ps,
      or_nobody-subject_of (listeners k ps),
      subject_of-snoc (listeners k ps) id,
    ),
    grind (
      arith,
      t k,
      e,
      listeners-append j id k ps,
      or_zero-count_of (listeners k ps),
      count_of-snoc (listeners k ps) id,
    ),
  )

  stream-other :
      (j : ℕ)
      → (k == j) ≡ false
      → ((stream id k h).subjects j ≡ subject_of (listeners j (ps ++ (id, k) ∷ [])))
        × ((stream id k h).ref_counts j ≡ count_of (listeners j (ps ++ (id, k) ∷ [])))
  unfolding stream
  stream-other j e = (
    grind (arith, t j, e, listeners-append j id k ps, append_nil (listeners j ps)),
    grind (arith, t j, e, listeners-append j id k ps, append_nil (listeners j ps)),
  )

stream-Tracks :
    (id k : ℕ) (h : Hub) (ps : Open) → Tracks h ps → Tracks (stream id k h) (ps ++ (id, k) ∷ [])
stream-Tracks id k h ps t j = elim (Bool-cases (k == j)) [
  | inl same ↦ stream-same id k h ps t j same
  | inr other ↦ stream-other id k h ps t j other
]

-- The key of a subscription that ends, when its listeners were a list with the listener in it.
end_stream-left :
    (id k : ℕ) (h : Hub) (is rest : List ℕ)
    → h.subjects k ≡ subject_of is
    → h.ref_counts k ≡ count_of is
    → rest ≡ remove (λ x. x) id is
    → length is ≡ length rest + 1
    → ((end_stream id k h).subjects k ≡ subject_of rest)
      × ((end_stream id k h).ref_counts k ≡ count_of rest)
unfolding end_stream
end_stream-left id k h [] rest s c e n = absurd (omega arith)
end_stream-left id k h (i ∷ is) [] s c e n = (grind arith, grind arith)
end_stream-left id k h (i ∷ is) (r ∷ rs) s c e n = (grind arith, grind arith)

module _ (id k : ℕ) (h : Hub) (ps : Open) (t : Tracks h ps)
    (is_open : any (is_pair id k) ps ≡ true) where
  end_stream-same :
      (j : ℕ)
      → (k == j) ≡ true
      → ((end_stream id k h).subjects j ≡ subject_of (listeners j (without id k ps)))
        × ((end_stream id k h).ref_counts j ≡ count_of (listeners j (without id k ps)))
  end_stream-same j e =
      let (s, c) =
        end_stream-left id k h (listeners k ps) (listeners k (without id k ps)) (t k).0 (t k).1
          (listeners-without_self id k ps)
          (length-remove id k ps is_open
            ∙ ap (λ is. length is + 1) (sym (listeners-without_self id k ps))) in
      rw (← eq_of_== k j e) (s, c)

  end_stream-other :
      (j : ℕ)
      → (k == j) ≡ false
      → ((end_stream id k h).subjects j ≡ subject_of (listeners j (without id k ps)))
        × ((end_stream id k h).ref_counts j ≡ count_of (listeners j (without id k ps)))
  unfolding end_stream
  end_stream-other j e = (
    grind (arith, t j, e, listeners-without_ne id k j ps),
    grind (arith, t j, e, listeners-without_ne id k j ps),
  )

end_stream-Tracks :
    (id k : ℕ) (h : Hub) (ps : Open)
    → Tracks h ps
    → any (is_pair id k) ps ≡ true
    → Tracks (end_stream id k h) (without id k ps)
end_stream-Tracks id k h ps t is_open j = elim (Bool-cases (k == j)) [
  | inl same ↦ end_stream-same id k h ps t is_open j same
  | inr other ↦ end_stream-other id k h ps t is_open j other
]

run-Tracks :
    (ops : List Op) (h : Hub) (ps : Open)
    → Tracks h ps
    → Proper ops ps
    → Tracks (run ops h) (open_after ops ps)
unfolding run
run-Tracks [] h ps t p = t
run-Tracks (begins id k ∷ ops) h ps t p =
    run-Tracks ops (stream id k h) (ps ++ (id, k) ∷ []) (stream-Tracks id k h ps t) p
run-Tracks (ends id k ∷ ops) h ps t p =
    run-Tracks ops (end_stream id k h) (without id k ps) (end_stream-Tracks id k h ps t p.0) p.1

-- After whatever subscriptions began and ended, each ending only while it was open, an event for a
-- key reaches exactly the open subscriptions of the key, in the order in which they began, and a key
-- has a subject and a count only while somebody listens to it; the count is the number of listeners.
pub run-open_after :
    {P : Type 0} (ops : List Op) (k : ℕ) (e : Event P)
    → Proper ops []
    → (emit_to_local k e (run ops empty_hub)
        ≡ map (λ id. (id, e)) (listeners k (open_after ops [])))
      × ((run ops empty_hub).subjects k ≡ subject_of (listeners k (open_after ops [])))
      × ((run ops empty_hub).ref_counts k ≡ count_of (listeners k (open_after ops [])))
unfolding emit_to_local
run-open_after ops k e p =
    let (s, c) = run-Tracks ops empty_hub [] (λ j. (refl, refl)) p k in
    (
      ap (λ is. map (λ id. (id, e)) (or_nobody is)) s
          ∙ ap (map (λ id. (id, e))) (or_nobody-subject_of (listeners k (open_after ops []))),
      s,
      c,
    )
