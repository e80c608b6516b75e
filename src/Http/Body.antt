-- ===== src/Http/Body.antt =====
-- The JSON bodies of requests and responses.
use sneakerbid.Base.{ℕ, Bool, Option, none, some, if◌then◌else◌, String, same_text}

-- A JSON value.
mutual
  pub data Json : Type 0 where
    null : Json
    boolean : Bool → Json
    number : ℕ → Json
    text : String → Json
    array : Items → Json
    object : Fields → Json

  pub data Items : Type 0 where
    nil : Items
    cons : Json → Items → Items

  pub data Fields : Type 0 where
    end : Fields
    field : String → Json → Fields → Fields

abbrev pub get_field : String → Fields → Option Json
get_field k end = none
get_field k (field j v fs) = if same_text j k then some v else get_field k fs

-- The fields but those of a key.
abbrev pub without : String → Fields → Fields
without k end = end
without k (field j v fs) = if same_text j k then without k fs else field j v (without k fs)
