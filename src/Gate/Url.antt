-- ===== src/Gate/Url.antt =====
-- GateServer/HttpConnection.cpp: ToHex, FromHex, UrlEncode, UrlDecode and PreParseGetParam.
-- An `unsigned char` is a number below 256. A failed `assert` is `none`.
pub mod RoundTrip
pub mod Query
use minichat.Base.{
  ℕ, suc, ◌+◌, ◌-◌, ◌*◌, ◌/◌, ◌%◌, Bool, true, false, Option, none, some, List, [], ◌∷◌, ◌++◌,
  Bytes, ltb, leb, ◌==◌, nat_eq, bytes_eq, ◌&&◌, ◌||◌, if◌then◌else◌, is_empty,
}
use minichat.Base.Assoc.{Assoc, insert}

unfoldable pub to_hex : ℕ → ℕ
to_hex x = (if ltb 9 x then x + 55 else x + 48) % 256

-- The second test of the source is never reached: its range lies inside the first.
unfoldable pub from_hex : ℕ → ℕ
from_hex x =
    if leb b'A' x && leb x b'z'
    then (x - b'A' + 10) % 256
    else if leb b'a' x && leb x b'z'
    then (x - b'a' + 10) % 256
    else (x + 256 - b'0') % 256

-- isalnum in the "C" locale.
unfoldable pub is_alnum : ℕ → Bool
is_alnum c =
    (leb b'0' c && leb c b'9') || ((leb b'A' c && leb c b'Z') || (leb b'a' c && leb c b'z'))

unfoldable pub is_plain : ℕ → Bool
unfolding is_alnum
is_plain c = is_alnum c || (c == b'-' || (c == b'_' || (c == b'.' || c == b'~')))

-- What UrlEncode appends for one character.
unfoldable pub encode_char : ℕ → Bytes
unfolding is_plain to_hex
encode_char c =
    if is_plain c
    then c ∷ []
    else if c == b' '
    then b'+' ∷ []
    else b'%' ∷ to_hex (c / 16) ∷ to_hex (c % 16) ∷ []

unfoldable pub url_encode : Bytes → Bytes
unfolding encode_char
url_encode [] = []
url_encode (c ∷ s) = encode_char c ++ url_encode s

abbrev pub prepend : ℕ → Option Bytes → Option Bytes
prepend c none = none
prepend c (some s) = some (c ∷ s)

abbrev pub unplus : ℕ → ℕ
unplus c = if c == b'+' then b' ' else c

-- The character that two hexadecimal digits stand for: (high << 4) + low, narrowed to a char.
unfoldable pub unescape : ℕ → ℕ → ℕ
unfolding from_hex
unescape high low = (from_hex high * 16 + from_hex low) % 256

-- `assert(i + 2 < length)` asks for two characters behind the percent sign.
unfoldable pub url_decode : Bytes → Option Bytes
unfolding unescape
url_decode [] = some []
url_decode (c ∷ []) = if c == b'%' then none else some (unplus c ∷ [])
url_decode (c ∷ h ∷ []) = elim (c == b'%') [
  | true ↦ none
  | false ↦ prepend (unplus c) (url_decode (h ∷ []))
]
url_decode (c ∷ h ∷ l ∷ s) = elim (c == b'%') [
  | true ↦ prepend (unescape h l) (url_decode s)
  | false ↦ prepend (unplus c) (url_decode (h ∷ l ∷ s))
]

-- find(c) with the two substr calls around it: what stands before the first c, and behind it.
abbrev pub widen : ℕ → Option (Bytes × Bytes) → Option (Bytes × Bytes)
widen x none = none
widen x (some (before, behind)) = some (x ∷ before, behind)

unfoldable pub split_at : ℕ → Bytes → Option (Bytes × Bytes)
split_at c [] = none
split_at c (x ∷ s) = let rest = widen x (split_at c s) in if x == c then some ([], s) else rest

-- What repeated std::getline(ss, pair, '&') yields.
abbrev pub grow : ℕ → List Bytes → List Bytes
grow c [] = (c ∷ []) ∷ []
grow c (t ∷ ts) = (c ∷ t) ∷ ts

unfoldable pub getlines : ℕ → Bytes → List Bytes
getlines c [] = []
getlines c (x ∷ s) = let rest = getlines c s in if x == c then [] ∷ rest else grow x rest

abbrev pub Params : Type 0
Params = Assoc Bytes Bytes

abbrev pub assign : Option Bytes → Option Bytes → Params → Option Params
assign none value params = none
assign (some key) none params = none
assign (some key) (some value) params = some (insert key value params)

-- The body of the loop over the pairs.
unfoldable pub add_param : Params → Bytes → Option Params
unfolding split_at url_decode
add_param params pair = elim (split_at b'=' pair) [
  | none ↦ if is_empty pair then some params else assign (url_decode pair) (some []) params
  | some (key, value) ↦ assign (url_decode key) (url_decode value) params
]

abbrev pub then_add : Option Params → (Params → Option Params) → Option Params
then_add none f = none
then_add (some params) f = f params

unfoldable pub add_params : Params → List Bytes → Option Params
unfolding add_param
add_params params [] = some params
add_params params (pair ∷ pairs) = then_add (add_param params pair) (λ p. add_params p pairs)

abbrev pub located : Bytes → Option Params → Option (Bytes × Params)
located url none = none
located url (some params) = some (url, params)

-- PreParseGetParam: `get_url_` and `get_pragma_` from the request's target.
unfoldable pub pre_parse_get_param : Bytes → Option (Bytes × Params)
unfolding split_at getlines add_params
pre_parse_get_param url = elim (split_at b'?' url) [
  | none ↦ some (url, [])
  | some (path, query) ↦ located path (add_params [] (getlines b'&' query))
]
