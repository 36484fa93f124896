-- ===== src/Examples/Gate.antt =====
-- URLs with blanks, separators and bytes above 127.
use minichat.Base.{◌≡◌, some, List, [], ◌∷◌, ◌++◌, Bytes, codes, All, arith}
use minichat.Gate.Url.{url_encode, url_decode, pre_parse_get_param}
use minichat.Gate.Url.RoundTrip.{IsByte, url_decode-url_encode}
use minichat.Gate.Url.Query.{query_text, enter, pre_parse_get_param-query_text}

abbrev odd_text : Bytes
odd_text = b'a' ∷ b' ' ∷ b'%' ∷ b'=' ∷ 228 ∷ []

odd_text_bytes : All IsByte odd_text
odd_text_bytes = (omega arith, (omega arith, (omega arith, (omega arith, (omega arith, tt)))))

url_decode-url_encode_example : url_decode (url_encode odd_text) ≡ some odd_text
url_decode-url_encode_example = url_decode-url_encode odd_text odd_text_bytes

abbrev pairs : List (Bytes × Bytes)
pairs = (codes "k", odd_text) ∷ (codes "l", []) ∷ []

pre_parse_get_param-query_text_example :
    pre_parse_get_param (codes "/g" ++ (b'?' ∷ query_text pairs))
    ≡ some (codes "/g", enter [] pairs)
pre_parse_get_param-query_text_example =
    pre_parse_get_param-query_text (codes "/g") pairs
      ((λ e. omega (arith, e)), ((λ e. omega (arith, e)), tt))
      (((omega arith, tt), odd_text_bytes), (((omega arith, tt), tt), tt))
