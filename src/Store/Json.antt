-- ===== src/Store/Json.antt =====
-- The JSON value that the column `postCloseFinalizePayload` holds. An identifier is a text that
-- the program only compares, so it is a number here, and a JSON text is such an identifier.
use sneakerbid.Base.{ℕ, Option, none, some, ◌==◌, if◌then◌else◌}

mutual
  pub data Json : Type 0 where
    null : Json
    number : ℕ → Json
    text : ℕ → Json
    array : Items → Json
    object : Fields → Json

  pub data Items : Type 0 where
    nil : Items
    cons : Json → Items → Items

  pub data Fields : Type 0 where
    end : Fields
    field : ℕ → Json → Fields → Fields

-- `o[key]`; a missing key reads as `undefined`, which is `none`.
abbrev pub get_field : ℕ → Fields → Option Json
get_field k end = none
get_field k (field j v fs) = if j == k then some v else get_field k fs
