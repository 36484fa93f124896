-- ===== src/Chat/Json.antt =====
-- JsonCpp as the handlers use it: a parameter. A partial accessor gives `none` where JsonCpp throws.
pub mod Laws
use minichat.Base.{Bool, Option, none, some, List, [], ◌∷◌, Bytes}
use minichat.Base.Int.{ℤ}

pub record Json : Type 1 where
  pub Value : Type 0
  -- what `Json::Value root; reader.parse(text, root)` leaves in root, and whether it succeeded
  pub parse : Bytes → Value
  pub parses : Bytes → Bool
  -- root["name"], and root.isMember("name")
  pub member : Value → Bytes → Option Value
  pub is_member : Value → Bytes → Bool
  -- root.get("name", "")
  pub get_or_empty : Value → Bytes → Option Value
  pub as_int : Value → Option ℤ
  pub as_int64 : Value → Option ℤ
  pub as_string : Value → Option Bytes
  pub is_array : Value → Bool
  pub is_string : Value → Bool
  -- the elements that `for (item : value)` visits
  pub items : Value → List Value
  -- building: the null value, value["name"] = x, an array, and the two kinds of leaf
  pub null : Value
  pub set : Value → Bytes → Value → Value
  pub array : List Value → Value
  pub int : ℤ → Value
  pub string : Bytes → Value
  pub styled : Value → Bytes

module _ (j : Json) where
  open j use {Value, null, set, member, as_int, as_int64, as_string}

  -- An object built by successive assignments to the members of `v`.
  abbrev pub assigned : Value → List (Bytes × Value) → Value
  assigned v [] = v
  assigned v ((k, x) ∷ fields) = assigned (set v k x) fields

  -- root["name"].asInt() and root["name"].asString()
  abbrev pub int_field : Value → Bytes → Option ℤ
  int_field v name = elim (member v name) [ none ↦ none | some x ↦ as_int x ]

  abbrev pub int64_field : Value → Bytes → Option ℤ
  int64_field v name = elim (member v name) [ none ↦ none | some x ↦ as_int64 x ]

  abbrev pub string_field : Value → Bytes → Option Bytes
  string_field v name = elim (member v name) [ none ↦ none | some x ↦ as_string x ]
