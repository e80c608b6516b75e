-- ===== src/Notifications.antt =====
-- backend/src/notifications/notifications.service.ts with
-- backend/src/database/repositories/notification.repository.ts. Ids are compared as numbers, times
-- are milliseconds, and the texts that `toLocaleString('ko-KR')` gives are a parameter.
pub mod Paging
pub mod Reading
pub mod Spacing
mod Tests
use sneakerbid.Base.{
  ℕ, zero, suc, ◌+◌, ◌*◌, min, max, Bool, true, false, Option, none, some, List, [], ◌∷◌, ◌++◌,
  ◌&&◌, ◌||◌, ◌==◌, ltb, if◌then◌else◌, not, any, filter_by, length, take, map, String, same_text,
  append_text, is_some,
}
use sneakerbid.Base.Int.{ℤ, pos, negsuc}
use sneakerbid.Store.Table.{find}
use sneakerbid.Store.Pages.{sort_by, last_key}
use sneakerbid.Store.Tx.{Result, Error, ok, err}

-- The metadata of a notification: the auction, and a price or an end.
pub record Metadata : Type 0 where
  pub auction_id : ℕ
  pub final_price : Option ℕ
  pub current_price : Option ℕ
  pub end_time : Option ℕ

-- `NotificationRow`
pub record Notification : Type 0 where
  pub id : ℕ
  pub user_id : ℕ
  pub type : String
  pub title : String
  pub body : Option String
  pub read_at : Option ℕ
  pub metadata : Metadata
  pub created_at : ℕ

-- The table, and what was published for whom, the newest first.
pub record Box : Type 0 where
  pub rows : List Notification
  pub published : List Notification

-- `ORDER BY "createdAt" DESC, id DESC`
abbrev pub is_before : Notification → Notification → Bool
is_before a b = ltb b.created_at a.created_at || a.created_at == b.created_at && ltb b.id a.id

abbrev pub newest_first : List Notification → List Notification
newest_first = sort_by is_before

abbrev pub id_of : Notification → ℕ
id_of n = n.id

abbrev pub of_user : ℕ → List Notification → List Notification
of_user u ns = filter_by (λ n. n.user_id == u) ns

abbrev pub created_before : ℕ → Notification → Bool
created_before t n = ltb n.created_at t

-- The rows of a user that come after a row that may be missing.
abbrev pub older_than : Option Notification → List Notification → List Notification
older_than none ns = []
older_than (some c) ns = filter_by (created_before c.created_at) ns

-- `listForUser`, without its LIMIT
abbrev pub rows_after : ℕ → Option ℕ → List Notification → List Notification
rows_after u none ns = newest_first (of_user u ns)
rows_after u (some c) ns = newest_first (older_than (find id_of c (of_user u ns)) (of_user u ns))

-- `listForUser`
unfoldable pub list_for_user : ℕ → ℕ → Option ℕ → List Notification → List Notification
list_for_user u limit cursor ns = take limit (rows_after u cursor ns)

-- `Math.min(100, Math.max(1, limit))`
abbrev pub cap_of : ℤ → ℕ
cap_of (pos n) = min 100 (max 1 n)
cap_of (negsuc n) = 1

pub record Page : Type 0 where
  pub items : List Notification
  pub next_cursor : Option ℕ

abbrev pub page_of : ℕ → List Notification → Page
page_of cap rows =
    if ltb cap (length rows)
    then record { items = take cap rows; next_cursor = last_key id_of (take cap rows) }
    else record { items = rows; next_cursor = none }

-- `list`
unfoldable pub list : ℕ → ℤ → Option ℕ → List Notification → Page
unfolding list_for_user
list u limit cursor ns = page_of (cap_of limit) (list_for_user u (cap_of limit + 1) cursor ns)

-- What a client gets that asks for a page and then for those after it, `fuel` pages at most.
unfoldable pub follow : ℕ → ℕ → ℤ → Option ℕ → List Notification → List Notification
follow zero u limit cursor ns = []
follow (suc fuel) u limit cursor ns =
    let page = list u limit cursor ns in
    page.items ++ (elim page.next_cursor [ none ↦ [] | some c ↦ follow fuel u limit (some c) ns ])

abbrev pub is_unread : ℕ → Notification → Bool
is_unread u n = n.user_id == u && not (is_some n.read_at)

-- `countUnread`
unfoldable pub count_unread : ℕ → List Notification → ℕ
count_unread u ns = length (filter_by (is_unread u) ns)

abbrev pub read_if : Bool → ℕ → Notification → Notification
read_if b now n = if b then record n { read_at = some now } else n

-- The repository's `markRead`: whether a row was changed, and the rows.
unfoldable pub mark_read_row : ℕ → ℕ → ℕ → List Notification → Bool × List Notification
mark_read_row u id now ns = (
  any (λ n. n.id == id && is_unread u n) ns,
  map (λ n. read_if (n.id == id && is_unread u n) now n) ns,
)

abbrev read_or_throw : Bool × List Notification → Result (List Notification)
read_or_throw (true, ns) = ok ns
read_or_throw (false, ns) = err Error.notification_not_found

-- `markRead`
unfoldable pub mark_read : ℕ → ℕ → ℕ → List Notification → Result (List Notification)
unfolding mark_read_row
mark_read u id now ns = read_or_throw (mark_read_row u id now ns)

-- `markAllRead`: how many rows were changed, and the rows.
unfoldable pub mark_all_read : ℕ → ℕ → List Notification → ℕ × List Notification
mark_all_read u now ns =
    (length (filter_by (is_unread u) ns), map (λ n. read_if (is_unread u n) now n) ns)

-- `existsRecentForAuctionType`
unfoldable pub exists_recent_for_auction_type : ℕ → String → ℕ → ℕ → ℕ → List Notification → Bool
exists_recent_for_auction_type u type auction_id within_minutes now ns =
    any
      (λ n.
        n.user_id == u
        && same_text n.type type
        && n.metadata.auction_id == auction_id
        && ltb now (n.created_at + within_minutes * 60000))
      ns

-- The row of `createAndPublish`, which is not read yet.
abbrev pub new_notification : ℕ → ℕ → ℕ → String → String → String → Metadata → Notification
new_notification id u now type title body metadata = record {
  id = id;
  user_id = u;
  type = type;
  title = title;
  body = some body;
  read_at = none;
  metadata = metadata;
  created_at = now;
}

-- `createAndPublish`, while Redis takes what is published; a failure there is only logged.
unfoldable pub create_and_publish : Notification → Box → Box
create_and_publish n b = record { rows = n ∷ b.rows; published = n ∷ b.published }

abbrev about : ℕ → Metadata
about auction_id = record {
  auction_id = auction_id;
  final_price = none;
  current_price = none;
  end_time = none;
}

abbrev pub overtaken : ℕ → ℕ → ℕ → ℕ → Notification
overtaken id now u auction_id =
    new_notification id u now "BID_OVERTAKEN" "입찰이 추월되었습니다" "다른 참가자가 더 높은 금액으로 입찰했습니다."
      (about auction_id)

-- `notifyBidOvertaken`
unfoldable pub notify_bid_overtaken : ℕ → ℕ → ℕ → ℕ → Box → Box
unfolding create_and_publish
notify_bid_overtaken id now u auction_id = create_and_publish (overtaken id now u auction_id)

-- `toLocaleString('ko-KR')` of a number and of a date
module _ (number_text date_text : ℕ → String) where
  abbrev pub won : ℕ → ℕ → ℕ → ℕ → ℕ → Notification
  won id now u auction_id price =
      new_notification id u now "AUCTION_WON" "경매에 낙찰되었습니다"
        (append_text "낙찰가 " (append_text (number_text price) "원입니다. 결제를 진행해 주세요."))
        (record (about auction_id) { final_price = some price })

  -- `notifyAuctionWon`
  unfoldable pub notify_auction_won : ℕ → ℕ → ℕ → ℕ → ℕ → Box → Box
  unfolding create_and_publish
  notify_auction_won id now u auction_id price = create_and_publish (won id now u auction_id price)

  abbrev pub ending_soon : ℕ → ℕ → ℕ → ℕ → String → ℕ → Notification
  ending_soon id now u auction_id title_hint end_time =
      new_notification id u now "WISHLIST_ENDING_SOON" "찜한 경매가 곧 마감됩니다"
        (append_text title_hint (append_text " — 마감 " (date_text end_time)))
        (record (about auction_id) { end_time = some end_time })

  -- `notifyWishlistEndingSoon`: its two queries are by themselves, so that the first one reads at the
  -- time `asked` the rows `seen`, and the second one writes to the rows that are there by then.
  unfoldable pub notify_wishlist_ending_soon :
      List Notification → ℕ → ℕ → ℕ → ℕ → ℕ → String → ℕ → Box → Box
  unfolding exists_recent_for_auction_type create_and_publish
  notify_wishlist_ending_soon seen asked id now u auction_id title_hint end_time b =
      if exists_recent_for_auction_type u "WISHLIST_ENDING_SOON" auction_id (24 * 60) asked seen
      then b
      else create_and_publish (ending_soon id now u auction_id title_hint end_time) b

  abbrev pub bid_activity : ℕ → ℕ → ℕ → ℕ → String → String → ℕ → Notification
  bid_activity id now u auction_id brand model_name price =
      new_notification id u now "WISHLIST_BID_ACTIVITY" "찜한 경매가격이 변동했습니다"
        (append_text brand (
          append_text " "
            (append_text model_name (append_text " — 현재가 " (append_text (number_text price) "원")))))
        (record (about auction_id) { current_price = some price })

  -- `notifyWishlistBidActivity`, in two queries likewise
  unfoldable pub notify_wishlist_bid_activity :
      List Notification → ℕ → ℕ → ℕ → ℕ → ℕ → String → String → ℕ → Box → Box
  unfolding exists_recent_for_auction_type create_and_publish
  notify_wishlist_bid_activity seen asked id now u auction_id brand model_name price b =
      if exists_recent_for_auction_type u "WISHLIST_BID_ACTIVITY" auction_id 60 asked seen
      then b
      else create_and_publish (bid_activity id now u auction_id brand model_name price) b
