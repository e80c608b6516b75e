-- ===== src/Browser/Forms.antt =====
-- The form of an auction: `handleSubmit` and `auctionToFormValues` of
-- frontend/components/auction/AuctionForm.tsx and `toFormInitialData` of
-- frontend/lib/auction/auctionToFormData.ts. JavaScript's `trim`, `parseInt`, `String` of a number and
-- the texts of dates are parameters.
pub mod Checks
mod Tests
use sneakerbid.Base.{
  ℕ, zero, suc, Bool, true, false, Option, none, some, ◌&&◌, ◌||◌, not, if◌then◌else◌, or_else,
  is_some, String, same_text,
}
use sneakerbid.Base.Int.{ℤ, pos, negsuc}

-- `AuctionFormValues`, and whether an image was chosen
pub record Values : Type 0 where
  pub model_name : String
  pub brand : String
  pub color : String
  pub description : String
  pub size : String
  pub start_price : String
  pub buy_now_price : String
  pub minimum_increment : String
  pub end_time : String
  pub has_image : Bool

-- `INITIAL_VALUES`
unfoldable pub initial_values : Values
initial_values = record {
  model_name = "";
  brand = "";
  color = "";
  description = "";
  size = "";
  start_price = "";
  buy_now_price = "";
  minimum_increment = "10000";
  end_time = "";
  has_image = false;
}

-- `GetAuctionResponse`, as far as the form reads it
pub record Given : Type 0 where
  pub model_name : Option String
  pub brand : Option String
  pub colorway : Option String
  pub description : Option String
  pub size : Option ℕ
  pub start_price : Option ℕ
  pub buy_now_price : Option ℕ
  pub minimum_increment : Option ℕ
  pub end_time : Option ℕ
  pub image_url : Option String
  pub id : Option ℕ

-- A JavaScript number that `parseInt` gives: `none` is NaN.
abbrev pub Number : Type 0
Number = Option ℤ

-- `CreateAuctionDto` and `UpdateAuctionDto` of the client; `image_url` is left out where an image
-- is to be uploaded for an edit.
pub record Dto : Type 0 where
  pub model_name : String
  pub brand : String
  pub color : String
  pub description : String
  pub image_url : Option String
  pub size : String
  pub start_price : ℤ
  pub buy_now_price : Option Number
  pub minimum_increment : ℤ
  pub end_time : String

pub data Submission : Type 0 where
  shows : String → Submission
  submits : Dto → Submission

abbrev pub is_negative : ℤ → Bool
is_negative (pos n) = false
is_negative (negsuc n) = true

abbrev pub is_below_one : ℤ → Bool
is_below_one (pos zero) = true
is_below_one (pos (suc n)) = false
is_below_one (negsuc n) = true

module _ (trim : String → String) (parse_int : String → Number) (to_iso : String → String) where
  abbrev pub is_blank : String → Bool
  is_blank s = same_text s "" || same_text (trim s) ""

  -- `formData.buyNowPrice ? parseInt(…) : undefined`
  abbrev buy_now_of : String → Option Number
  buy_now_of s = if same_text s "" then none else some (parse_int s)

  abbrev pub dto_of : Option String → Values → ℤ → ℤ → Dto
  dto_of image v start increment = record {
    model_name = v.model_name;
    brand = v.brand;
    color = v.color;
    description = v.description;
    image_url = image;
    size = v.size;
    start_price = start;
    buy_now_price = buy_now_of v.buy_now_price;
    minimum_increment = increment;
    end_time = to_iso v.end_time;
  }

  -- The checks after the prices were read.
  abbrev pub priced : Option String → Values → Number → Number → Submission
  priced image v none m = shows "시작 가격을 올바르게 입력해주세요."
  priced image v (some start) m =
      if is_negative start then shows "시작 가격을 올바르게 입력해주세요." else elim m [
        | none ↦ shows "최소 입찰 단위를 선택해주세요."
        | some increment ↦
            if is_below_one increment
            then shows "최소 입찰 단위를 선택해주세요."
            else if same_text v.end_time ""
            then shows "경매 종료 일시를 입력해주세요."
            else submits (dto_of image v start increment)
      ]

  -- The image of the request: of a new auction it is filled in after the upload, of one that is
  -- edited it is the old one unless another was chosen.
  abbrev pub image_of : Option String → Values → Option String
  image_of none v = some ""
  image_of (some url) v = if v.has_image then none else some url

  -- `handleSubmit`, of a new auction or of one with an image that is edited
  unfoldable pub handle_submit : Option String → Values → Submission
  handle_submit edited v =
      if not (is_some edited) && not v.has_image
      then shows "상품 이미지를 등록해주세요."
      else if is_blank v.model_name
      then shows "모델명을 입력해주세요."
      else if is_blank v.brand
      then shows "브랜드를 선택해주세요."
      else if same_text v.size ""
      then shows "사이즈를 선택해주세요."
      else priced (image_of edited v) v (parse_int v.start_price) (parse_int v.minimum_increment)

-- `String(n)`, and the local time of a date, or of now where there is none, in the form of the input
module _ (number_text : ℕ → String) (local_time : Option ℕ → String) where
  abbrev text_or_empty : Option ℕ → String
  text_or_empty none = ""
  text_or_empty (some n) = number_text n

  -- `auctionToFormValues`
  unfoldable pub auction_to_form_values : Given → Values
  auction_to_form_values a = record {
    model_name = or_else a.model_name "";
    brand = or_else a.brand "";
    color = or_else a.colorway "";
    description = or_else a.description "";
    size = text_or_empty a.size;
    start_price = text_or_empty a.start_price;
    buy_now_price = text_or_empty a.buy_now_price;
    minimum_increment =
        if is_some a.minimum_increment then text_or_empty a.minimum_increment else "10000";
    end_time = local_time a.end_time;
    has_image = false;
  }

abbrev is_given : Option String → Bool
is_given none = false
is_given (some s) = not (same_text s "")

-- `toFormInitialData`: whether the form is opened for the item
unfoldable pub to_form_initial_data : Option Given → Option Given
to_form_initial_data none = none
to_form_initial_data (some a) =
    if is_some a.id
      && is_given a.model_name
      && is_given a.brand
      && is_given a.image_url
      && is_some a.description
      && is_some a.start_price
      && is_some a.end_time
      && is_some a.size
    then some a
    else none
