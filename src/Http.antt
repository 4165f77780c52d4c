-- ===== src/Http.antt =====
-- The values and the text of answers over HTTP, for src/common.
--
-- A value of JavaScript is one that JSON can carry, with `undefined`; a number is a natural number.
-- An object is its own properties, in the order of their insertion.
pub mod Filter
pub mod Envelope
pub mod Paging
pub mod Pages
pub mod Hidden
pub mod Envelopes
use learn_nestjs.Common.{ℕ, ◌-◌, Bool, true, false, not, ◌||◌, if◌then◌else◌, ◌==◌}
use learn_nestjs.Common.Text.{Text, text_eq, is_empty}

mutual
  pub data Value : Type 0 where
    undefined null : Value
    boolean : Bool → Value
    number : ℕ → Value
    string : Text → Value
    array : Items → Value
    object : Fields → Value

  pub data Items : Type 0 where
    no_items : Items
    item : Value → Items → Items

  pub data Fields : Type 0 where
    no_fields : Fields
    field : Text → Value → Fields → Fields

-- `Boolean(value)`
abbrev pub is_truthy : Value → Bool
is_truthy undefined = false
is_truthy null = false
is_truthy (boolean b) = b
is_truthy (number n) = not (n == 0)
is_truthy (string s) = not (is_empty s)
is_truthy (array vs) = true
is_truthy (object fs) = true

-- `value ?? other`
abbrev pub or_value : Value → Value → Value
or_value undefined v = v
or_value null v = v
or_value (boolean b) v = boolean b
or_value (number n) v = number n
or_value (string s) v = string s
or_value (array vs) v = array vs
or_value (object fs) v = object fs

-- `key in object`
unfoldable pub has_field : Text → Fields → Bool
has_field k no_fields = false
has_field k (field j v fs) = text_eq j k || has_field k fs

-- `object[key]`
unfoldable pub get_field : Text → Fields → Value
get_field k no_fields = undefined
get_field k (field j v fs) = if text_eq j k then v else get_field k fs
