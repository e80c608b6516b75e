-- ===== src/Notifications/Reading.antt =====
-- What reading a notification, or all of them, changes.
use sneakerbid.Base.{
  ℕ, ◌+◌, true, false, List, [], ◌∷◌, subst, ◌≡◌, ◌≢◌, All, refl, arith, ◌==◌, ◌&&◌, any, filter_by,
  length, map, Bool-cases, inl, inr,
}
use sneakerbid.Store.Pages.Order.{UniqueKeys}
use sneakerbid.Store.Tx.{ok, err, Error}
use sneakerbid.Notifications.{
  Notification, id_of, is_unread, read_if, count_unread, mark_read_row, mark_read, mark_all_read,
}

abbrev marked : ℕ → ℕ → ℕ → List Notification → List Notification
marked u id now ns = map (λ n. read_if (n.id == id && is_unread u n) now n) ns

any-marked :
    (u id now : ℕ) (ns : List Notification)
    → any (λ n. n.id == id && is_unread u n) (marked u id now ns) ≡ false
any-marked u id now [] = refl
any-marked u id now (n ∷ ns) = ground (arith, any-marked u id now ns)

-- Where the id is not, nothing is marked.
marked-missing :
    (u id now : ℕ) (ns : List Notification) → All (λ n. id_of n ≢ id) ns → marked u id now ns ≡ ns
marked-missing u id now [] h = refl
marked-missing u id now (n ∷ ns) h = ground (arith, marked-missing u id now ns)

any-missing :
    (u id : ℕ) (ns : List Notification)
    → All (λ n. id_of n ≢ id) ns
    → any (λ n. n.id == id && is_unread u n) ns ≡ false
any-missing u id [] h = refl
any-missing u id (n ∷ ns) h = ground (arith, any-missing u id ns)

count-marked :
    (u id now : ℕ) (ns : List Notification)
    → UniqueKeys id_of ns
    → any (λ n. n.id == id && is_unread u n) ns ≡ true
    → length (filter_by (is_unread u) ns)
      ≡ length (filter_by (is_unread u) (marked u id now ns)) + 1
count-marked u id now [] uniq h = cc
count-marked u id now (n ∷ ns) uniq h = elim (Bool-cases (n.id == id)) [
  | inl e ↦
      let others : All (λ m. id_of m ≢ id) ns =
        subst (λ k. All (λ m. id_of m ≢ k) ns) (ground arith) uniq.0 in
      let same = marked-missing u id now ns others in
      let quiet = any-missing u id ns others in rw same (ground (arith, e, quiet, h))
  | inr e ↦ ground (arith, e, count-marked u id now ns uniq.1)
]

count-marked_other :
    (u v id now : ℕ) (ns : List Notification)
    → (v == u) ≡ false
    → length (filter_by (is_unread v) (marked u id now ns)) ≡ length (filter_by (is_unread v) ns)
count-marked_other u v id now [] ne = refl
count-marked_other u v id now (n ∷ ns) ne = ground (arith, count-marked_other u v id now ns)

-- Where ids are unique, marking a notification as read succeeds only when the user has an unread one
-- with that id; then the user has one unread notification less, every other user as many as before,
-- and marking it again, at whatever time, throws that there is none.
pub mark_read_lem :
    (u id now : ℕ) (ns ns' : List Notification)
    → UniqueKeys id_of ns
    → mark_read u id now ns ≡ ok ns'
    → (any (λ n. n.id == id && is_unread u n) ns ≡ true)
      × (count_unread u ns ≡ count_unread u ns' + 1)
      × ((v : ℕ) → (v == u) ≡ false → count_unread v ns' ≡ count_unread v ns)
      × ((later : ℕ) → mark_read u id later ns' ≡ err Error.notification_not_found)
unfolding mark_read mark_read_row count_unread
mark_read_lem u id now ns ns' uniq h =
    elim (Bool-cases (any (λ n. n.id == id && is_unread u n) ns)) [
      | inr missing ↦ absurd (ground arith)
      | inl there ↦
          let is_marked : ns' ≡ marked u id now ns = ground arith in
          rw is_marked (
            there,
            count-marked u id now ns uniq there,
            λ v ne. count-marked_other u v id now ns ne,
            λ later. rw (any-marked u id now ns) refl,
          )
    ]

abbrev all_marked : ℕ → ℕ → List Notification → List Notification
all_marked u now ns = map (λ n. read_if (is_unread u n) now n) ns

unread-all_marked :
    (u now : ℕ) (ns : List Notification)
    → length (filter_by (is_unread u) (all_marked u now ns)) ≡ 0
unread-all_marked u now [] = refl
unread-all_marked u now (n ∷ ns) = ground (arith, unread-all_marked u now ns)

unread-all_marked_other :
    (u v now : ℕ) (ns : List Notification)
    → (v == u) ≡ false
    → length (filter_by (is_unread v) (all_marked u now ns)) ≡ length (filter_by (is_unread v) ns)
unread-all_marked_other u v now [] ne = refl
unread-all_marked_other u v now (n ∷ ns) ne = ground (arith, unread-all_marked_other u v now ns)

-- Marking all as read reports as many as were unread, leaves the user none, and every other user as
-- many as before.
pub mark_all_read_lem :
    (u now : ℕ) (ns : List Notification)
    → let r = mark_all_read u now ns in
      (r.0 ≡ count_unread u ns)
      × (count_unread u r.1 ≡ 0)
      × ((v : ℕ) → (v == u) ≡ false → count_unread v r.1 ≡ count_unread v ns)
unfolding mark_all_read count_unread
mark_all_read_lem u now ns =
    (refl, unread-all_marked u now ns, λ v ne. unread-all_marked_other u v now ns ne)
