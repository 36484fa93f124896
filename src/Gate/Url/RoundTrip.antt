-- ===== src/Gate/Url/RoundTrip.antt =====
-- UrlDecode against UrlEncode.
use minichat.Base.{
  ℕ, ◌+◌, ◌-◌, ◌*◌, ◌/◌, ◌%◌, ◌<◌, ◌≤◌, ◌≡◌, ◌≢◌, refl, ap, ◌∙◌, true, some, [], ◌∷◌, ◌++◌, Bytes,
  ◌==◌, nat_eq, All, arith, Bool-cases, inl, inr,
}
use minichat.Gate.Url.{
  to_hex, from_hex, is_plain, encode_char, url_encode, prepend, unplus, unescape, url_decode,
}

abbrev pub IsByte : ℕ → Type 0
IsByte c = c < 256

decode_plain :
    (c : ℕ) (s : Bytes) → c ≢ b'%' → url_decode (c ∷ s) ≡ prepend (unplus c) (url_decode s)
unfolding url_decode
decode_plain c [] h = ground arith
decode_plain c (x ∷ []) h = ground arith
decode_plain c (x ∷ y ∷ s) h = ground arith

hex_digit : (d : ℕ) → d < 16 → from_hex (to_hex d) ≡ d
unfolding from_hex to_hex
hex_digit d h = ground arith

unescape-to_hex : (c : ℕ) → c < 256 → unescape (to_hex (c / 16)) (to_hex (c % 16)) ≡ c
unfolding unescape
unescape-to_hex c h =
    omega (arith, hex_digit (c / 16) (omega arith), hex_digit (c % 16) (omega arith))

decode_escape :
    (h l : ℕ) (s : Bytes) → url_decode (b'%' ∷ h ∷ l ∷ s) ≡ prepend (unescape h l) (url_decode s)
unfolding url_decode
decode_escape h l s = refl

plain_char : (c : ℕ) → is_plain c ≡ true → (c ≢ b'%') × (c ≢ b'+')
unfolding is_plain
plain_char c h = ground arith

unplus_ne : (c : ℕ) → c ≢ b'+' → unplus c ≡ c
unplus_ne c h = ground arith

decode-encode_char :
    (c : ℕ) (s : Bytes) → c < 256 → url_decode (encode_char c ++ s) ≡ prepend c (url_decode s)
unfolding encode_char
decode-encode_char c s h = elim (Bool-cases (is_plain c)) [
  | inl e ↦
      rw (e, encode_char)
        (decode_plain c s (plain_char c e).0
          ∙ ap (λ t. prepend t (url_decode s)) (unplus_ne c (plain_char c e).1))
  | inr e ↦ elim (Bool-cases (c == b' ')) [
    | inl b ↦
        rw (e, b, encode_char)
          (decode_plain b'+' s (omega arith)
            ∙ ap (λ t. prepend t (url_decode s)) (ground (arith, b)))
    | inr b ↦
        rw (e, b, encode_char)
          (decode_escape (to_hex (c / 16)) (to_hex (c % 16)) s
            ∙ ap (λ t. prepend t (url_decode s)) (unescape-to_hex c h))
  ]
]

-- UrlDecode gives back every string of bytes that UrlEncode was given.
pub url_decode-url_encode : (s : Bytes) → All IsByte s → url_decode (url_encode s) ≡ some s
unfolding url_encode
url_decode-url_encode [] h = unfold url_decode in refl
url_decode-url_encode (c ∷ s) h =
    decode-encode_char c (url_encode s) h.0 ∙ ap (prepend c) (url_decode-url_encode s h.1)

from_hex_lower : (l : ℕ) → b'a' ≤ l → l ≤ b'f' → from_hex l ≡ l - b'a' + 10 + 32
unfolding from_hex
from_hex_lower l a f = ground arith

misread :
    (d l : ℕ)
    → d < 16
    → b'a' ≤ l
    → l ≤ b'f'
    → unescape (to_hex d) l ≡ (d * 16 + (l - b'a' + 10) + 32) % 256
misread d l h a f = unfold unescape in omega (arith, hex_digit d h, from_hex_lower l a f)

-- A lower-case digit is read 32 too high: FromHex takes 'a' to 'f' for 42 to 47. So after any upper
-- digit d an escape that ends in a lower-case digit decodes to the wrong character, the right one
-- plus 32.
url_decode_lower_case :
    (d l : ℕ) (s : Bytes)
    → d < 16
    → b'a' ≤ l
    → l ≤ b'f'
    → url_decode (b'%' ∷ to_hex d ∷ l ∷ s)
      ≡ prepend ((d * 16 + (l - b'a' + 10) + 32) % 256) (url_decode s)
url_decode_lower_case d l s h a f =
    decode_escape (to_hex d) l s ∙ ap (λ t. prepend t (url_decode s)) (misread d l h a f)
