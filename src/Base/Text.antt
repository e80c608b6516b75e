-- ===== src/Base/Text.antt =====
-- Equality of texts.
use mathlib.Core.Bool.{Bool}
use Prim.Native.String.{String}
use Prim.Native.String as Native
use text.Mathlib.Text.{◌==◌}

abbrev pub same_text : String → String → Bool
same_text s t = s == t

-- The texts of a template, one after the other.
abbrev pub append_text : String → String → String
append_text s t = Native.◌++◌ s t
