-- ===== src/Json.antt =====
-- `serde_json::Value`, and what the program calls on it. A map holds each name once.
use qrmi.Prelude.{ℕ, Bool, true, false, Option, none, some, List, [], ◌∷◌, if◌then◌else◌}
use qrmi.Text.{Text, eq_text}

-- `neg_int n` is -(n + 1); a float is the text that prints it.
pub data Number : Type 0 where
  pos_int : ℕ → Number
  neg_int : ℕ → Number
  float : Text → Number

mutual
  pub data Value : Type 0 where
    null : Value
    bool : Bool → Value
    number : Number → Value
    string : Text → Value
    array : Items → Value
    object : Fields → Value

  pub data Items : Type 0 where
    nil : Items
    cons : Value → Items → Items

  pub data Fields : Type 0 where
    end : Fields
    field : Text → Value → Fields → Fields

-- A map's `get`.
unfoldable pub lookup : Text → Fields → Option Value
unfolding eq_text
lookup name end = none
lookup name (field k v fields) = if eq_text k name then some v else lookup name fields

-- A map's `keys`.
unfoldable pub keys : Fields → List Text
keys end = []
keys (field k v fields) = k ∷ keys fields

-- `Value::get` by a name.
abbrev pub get : Value → Text → Option Value
get (object fields) name = lookup name fields
get _ name = none

abbrev pub or_null : Option Value → Value
or_null none = null
or_null (some v) = v

-- The index by a name, null where there is none.
abbrev pub member : Value → Text → Value
member v name = or_null (get v name)

abbrev pub as_object : Value → Option Fields
as_object (object fields) = some fields
as_object _ = none

abbrev pub is_object : Value → Bool
is_object (object _) = true
is_object _ = false

abbrev pub as_str : Value → Option Text
as_str (string s) = some s
as_str _ = none

abbrev pub is_string : Value → Bool
is_string (string _) = true
is_string _ = false

abbrev pub is_null : Value → Bool
is_null null = true
is_null _ = false

abbrev pub as_u64 : Value → Option ℕ
as_u64 (number (pos_int n)) = some n
as_u64 _ = none

-- `as_array` and `last`.
unfoldable pub last_item : Items → Option Value
last_item nil = none
last_item (cons v nil) = some v
last_item (cons v (cons w items)) = last_item (cons w items)

abbrev pub last : Value → Option Value
last (array items) = last_item items
last _ = none

-- The library's parser and printer.
pub record Codec : Type 0 where
  pub from_str : Text → Option Value
  -- the error of a text that is no JSON
  pub parse_error : Text → Text
  pub to_string : Value → Text
