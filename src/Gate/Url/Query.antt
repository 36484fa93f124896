-- ===== src/Gate/Url/Query.antt =====
-- PreParseGetParam against the query string that a client builds with UrlEncode.
use minichat.Base.{
  map, ℕ, ◌/◌, ◌%◌, ◌<◌, ◌≤◌, ◌≡◌, ◌≢◌, refl, ap, ◌∙◌, true, some, List, [], ◌∷◌, ◌++◌, Bytes, ◌==◌,
  nat_eq, bytes_eq, All, arith, Bool-cases, inl, inr,
}
use minichat.Base.Assoc.{insert}
use minichat.Base.Decimal.{IsFree}
use minichat.Gate.Url.{
  Params, to_hex, is_plain, encode_char, url_encode, split_at, getlines, add_param, add_params,
  then_add, pre_parse_get_param,
}
use minichat.Gate.Url.RoundTrip.{IsByte, url_decode-url_encode}

-- key=value, both encoded.
abbrev pub pair_text : Bytes × Bytes → Bytes
pair_text (k, v) = url_encode k ++ (b'=' ∷ url_encode v)

-- The pairs joined by '&'.
abbrev pub query_text : List (Bytes × Bytes) → Bytes
query_text [] = []
query_text (p ∷ []) = pair_text p
query_text (p ∷ q ∷ ps) = pair_text p ++ (b'&' ∷ query_text (q ∷ ps))

abbrev pub AreBytes : Bytes × Bytes → Type 0
AreBytes (k, v) = All IsByte k × All IsByte v

-- The parameters, entered from left to right.
abbrev pub enter : Params → List (Bytes × Bytes) → Params
enter params [] = params
enter params ((k, v) ∷ ps) = enter (insert k v params) ps

split_at_free : (c : ℕ) (t r : Bytes) → IsFree c t → split_at c (t ++ (c ∷ r)) ≡ some (t, r)
unfolding split_at
split_at_free c [] r f = ground arith
split_at_free c (x ∷ t) r f = ground (arith, split_at_free c t r f.1, f.0)

getlines_free : (c : ℕ) (t r : Bytes) → IsFree c t → getlines c (t ++ (c ∷ r)) ≡ t ∷ getlines c r
unfolding getlines
getlines_free c [] r f = ground arith
getlines_free c (x ∷ t) r f = ground (arith, getlines_free c t r f.1, f.0)

getlines_last : (c x : ℕ) (t : Bytes) → IsFree c (x ∷ t) → getlines c (x ∷ t) ≡ (x ∷ t) ∷ []
unfolding getlines
getlines_last c x [] f = ground (arith, f.0)
getlines_last c x (y ∷ t) f = ground (arith, getlines_last c y t f.1, f.0)

IsFree-append : (c : ℕ) (s t : Bytes) → IsFree c s → IsFree c t → IsFree c (s ++ t)
IsFree-append c [] t f g = g
IsFree-append c (x ∷ s) t f g = (f.0, IsFree-append c s t f.1 g)

to_hex_range : (d : ℕ) → d < 16 → (48 ≤ to_hex d) × (to_hex d ≤ 70) × (to_hex d ≢ b'=')
unfolding to_hex
to_hex_range d h = ground arith

plain_ne : (c : ℕ) → is_plain c ≡ true → (c ≢ b'&') × (c ≢ b'=')
unfolding is_plain
plain_ne c h = ground arith

encode_char-IsFree : (c : ℕ) → c < 256 → IsFree b'&' (encode_char c) × IsFree b'=' (encode_char c)
unfolding encode_char
encode_char-IsFree c h = elim (Bool-cases (is_plain c)) [
  | inl e ↦ rw (e, encode_char) (((plain_ne c e).0, tt), ((plain_ne c e).1, tt))
  | inr e ↦ elim (Bool-cases (c == b' ')) [
    | inl b ↦ rw (e, b, encode_char) (omega arith)
    | inr b ↦
        rw (e, b, encode_char)
          (omega (arith, to_hex_range (c / 16) (omega arith), to_hex_range (c % 16) (omega arith)))
  ]
]

url_encode-IsFree :
    (s : Bytes) → All IsByte s → IsFree b'&' (url_encode s) × IsFree b'=' (url_encode s)
unfolding url_encode
url_encode-IsFree [] h = (tt, tt)
url_encode-IsFree (c ∷ s) h =
    let (a, e) = encode_char-IsFree c h.0 in
    let (b, f) = url_encode-IsFree s h.1 in
    (
      IsFree-append b'&' (encode_char c) (url_encode s) a b,
      IsFree-append b'=' (encode_char c) (url_encode s) e f,
    )

pair_text-IsFree : (p : Bytes × Bytes) → AreBytes p → IsFree b'&' (pair_text p)
pair_text-IsFree (k, v) h =
    IsFree-append b'&' (url_encode k) (b'=' ∷ url_encode v) (url_encode-IsFree k h.0).0
      (omega arith, (url_encode-IsFree v h.1).0)

add_param-pair_text :
    (params : Params) (k v : Bytes)
    → AreBytes (k, v)
    → add_param params (pair_text (k, v)) ≡ some (insert k v params)
unfolding add_param
add_param-pair_text params k v h =
    rw (split_at_free b'=' (url_encode k) (url_encode v) (url_encode-IsFree k h.0).1, add_param)
      (rw (url_decode-url_encode k h.0, url_decode-url_encode v h.1))

-- A text with the separator in it is not empty.
getlines_pair :
    (s v : Bytes)
    → IsFree b'&' (s ++ (b'=' ∷ v))
    → getlines b'&' (s ++ (b'=' ∷ v)) ≡ (s ++ (b'=' ∷ v)) ∷ []
getlines_pair [] v f = getlines_last b'&' b'=' v f
getlines_pair (x ∷ s) v f = getlines_last b'&' x (s ++ (b'=' ∷ v)) f

getlines-query_text :
    (ps : List (Bytes × Bytes)) → All AreBytes ps → getlines b'&' (query_text ps) ≡ map pair_text ps
getlines-query_text [] h = unfold getlines in refl
getlines-query_text ((k, v) ∷ []) h =
    getlines_pair (url_encode k) (url_encode v) (pair_text-IsFree (k, v) h.0)
getlines-query_text (p ∷ q ∷ ps) h =
    getlines_free b'&' (pair_text p) (query_text (q ∷ ps)) (pair_text-IsFree p h.0)
    ∙ ap (◌∷◌ (pair_text p)) (getlines-query_text (q ∷ ps) h.1)

add_params-pair_texts :
    (params : Params) (ps : List (Bytes × Bytes))
    → All AreBytes ps
    → add_params params (map pair_text ps) ≡ some (enter params ps)
unfolding add_params
add_params-pair_texts params [] h = refl
add_params-pair_texts params ((k, v) ∷ ps) h =
    ap (λ t. then_add t (λ p. add_params p (map pair_text ps))) (add_param-pair_text params k v h.0)
    ∙ add_params-pair_texts (insert k v params) ps h.1

-- The target path?k1=v1&…&kn=vn, with keys and values encoded by UrlEncode, is parsed into the path
-- and the parameters, entered from left to right, for any path without a question mark and any keys
-- and values of bytes. No assertion fails.
pub pre_parse_get_param-query_text :
    (path : Bytes) (ps : List (Bytes × Bytes))
    → IsFree b'?' path
    → All AreBytes ps
    → pre_parse_get_param (path ++ (b'?' ∷ query_text ps)) ≡ some (path, enter [] ps)
unfolding pre_parse_get_param
pre_parse_get_param-query_text path ps f h =
    rw (split_at_free b'?' path (query_text ps) f, pre_parse_get_param)
      (rw (getlines-query_text ps h, add_params-pair_texts [] ps h))
