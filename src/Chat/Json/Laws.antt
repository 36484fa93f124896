-- ===== src/Chat/Json/Laws.antt =====
-- What the handlers rely on of JsonCpp's documented behaviour: a member reads back what was assigned
-- to it, a string what it was made of, an array its elements.
use minichat.Base.{◌≡◌, true, some, List, Bytes, if◌then◌else◌, ◌==◌, bytes_eq}
use minichat.Chat.Json.{Json}

-- A value that was built from null by assigning members.
pub data IsObject (j : Json) : j.Value → Type 0 where
  empty : IsObject j j.null
  put : (v x : j.Value) (name : Bytes) → IsObject j v → IsObject j (j.set v name x)

pub record Laws (j : Json) : Type 0 where
  pub member-set :
      (v x : j.Value) (name other : Bytes)
      → IsObject j v
      → j.member (j.set v name x) other ≡ (if name == other then some x else j.member v other)
  pub get_or_empty-set :
      (v x : j.Value) (name other : Bytes)
      → IsObject j v
      → j.get_or_empty (j.set v name x) other
        ≡ (if name == other then some x else j.get_or_empty v other)
  pub as_string-string : (s : Bytes) → j.as_string (j.string s) ≡ some s
  pub items-array : (vs : List j.Value) → j.items (j.array vs) ≡ vs
  pub is_array-array : (vs : List j.Value) → j.is_array (j.array vs) ≡ true
