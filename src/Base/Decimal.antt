-- ===== src/Base/Decimal.antt =====
-- std::to_string on integers, and what the keys built from it need: it is injective, and its
-- characters are digits and the minus sign.
use minichat.Base.{
  ℕ, zero, suc, ◌+◌, ◌-◌, ◌*◌, ◌/◌, ◌%◌, ◌<◌, ◌≤◌, ◌≡◌, ◌≢◌, sym, ap, ◌∙◌, [], ◌∷◌, ◌++◌, Bytes,
  arith, ltb, if◌then◌else◌, All, Bool-cases, ◌⊎◌, inl, inr,
}
use minichat.Base.Int.{ℤ, pos, negsuc}

-- The digits of n in front of `acc`, on fuel.
digits : ℕ → ℕ → Bytes → Bytes
digits zero n acc = acc
digits (suc f) n acc =
    let rest = digits f (n / 10) ((48 + n % 10) ∷ acc) in if ltb n 10 then (48 + n) ∷ acc else rest

unfoldable pub decimal : ℕ → Bytes
unfolding digits
decimal n = digits (suc n) n []

unfoldable pub to_string : ℤ → Bytes
to_string (pos n) = decimal n
to_string (negsuc n) = b'-' ∷ decimal (n + 1)

-- The number that a string of digits denotes, read on from `acc`.
value : ℕ → Bytes → ℕ
value acc [] = acc
value acc (c ∷ cs) = value (acc * 10 + (c - 48)) cs

value-digits : (f n : ℕ) (acc : Bytes) → n < f → value 0 (digits f n acc) ≡ value n acc
unfolding digits value
value-digits zero n acc h = absurd (omega arith)
value-digits (suc f) n acc h = elim (Bool-cases (ltb n 10)) [
  | inl e ↦ rw e (ap (λ t. value t acc) (omega arith))
  | inr e ↦ rw e (
      value-digits f (n / 10) ((48 + n % 10) ∷ acc) (ground (arith, e))
      ∙ ap (λ t. value t acc) (omega arith))
]

IsDigit : ℕ → Type 0
IsDigit c = (48 ≤ c) × (c < 58)

digits-IsDigit : (f n : ℕ) (acc : Bytes) → All IsDigit acc → All IsDigit (digits f n acc)
unfolding digits IsDigit
digits-IsDigit zero n acc h = h
digits-IsDigit (suc f) n acc h = elim (Bool-cases (ltb n 10)) [
  | inl e ↦ rw e ((omega arith, ground (arith, e)), h)
  | inr e ↦ rw e (digits-IsDigit f (n / 10) _ ((omega arith, omega arith), h))
]

value-decimal : (n : ℕ) → value 0 (decimal n) ≡ n
unfolding decimal value
value-decimal n = value-digits (suc n) n [] (omega arith)

decimal-injective : (m n : ℕ) → decimal m ≡ decimal n → m ≡ n
decimal-injective m n e = sym (value-decimal m) ∙ (ap (value 0) e ∙ value-decimal n)

decimal-IsDigit : (n : ℕ) → All IsDigit (decimal n)
unfolding decimal
decimal-IsDigit n = digits-IsDigit (suc n) n [] tt

-- A character that a number's text never holds.
abbrev pub IsFree : ℕ → Bytes → Type 0
IsFree c = All (λ x. x ≢ c)

All-IsFree : (c : ℕ) (xs : Bytes) → (c < 48) ⊎ (58 ≤ c) → All IsDigit xs → IsFree c xs
unfolding IsDigit
All-IsFree c [] h a = tt
All-IsFree c (x ∷ xs) h a = (omega (arith, a.0, h), All-IsFree c xs h a.1)

pub to_string-IsFree : (c : ℕ) (n : ℤ) → 58 ≤ c → IsFree c (to_string n)
unfolding to_string
to_string-IsFree c (pos n) h = All-IsFree c (decimal n) (inr h) (decimal-IsDigit n)
to_string-IsFree c (negsuc n) h =
    (omega (arith, h), All-IsFree c (decimal (n + 1)) (inr h) (decimal-IsDigit (n + 1)))

minus_sign : (xs ys : Bytes) → All IsDigit ys → b'-' ∷ xs ≢ ys
unfolding IsDigit
minus_sign xs [] a e = cc
minus_sign xs (y ∷ ys) a e = ground (arith, a.0)

pub to_string-injective : (a b : ℤ) → to_string a ≡ to_string b → a ≡ b
unfolding to_string
to_string-injective (pos m) (pos n) e = ap pos (decimal-injective m n e)
to_string-injective (pos m) (negsuc n) e = absurd (minus_sign _ _ (decimal-IsDigit m) (sym e))
to_string-injective (negsuc m) (pos n) e = absurd (minus_sign _ _ (decimal-IsDigit n) e)
to_string-injective (negsuc m) (negsuc n) e = ground (arith, decimal-injective (m + 1) (n + 1))

-- A text splits in one way at the first occurrence of a character.
pub split_unique :
    (c : ℕ) (xs us ys vs : Bytes)
    → IsFree c xs
    → IsFree c us
    → xs ++ c ∷ ys ≡ us ++ c ∷ vs
    → (xs ≡ us) × (ys ≡ vs)
split_unique c [] [] ys vs f g e = ground arith
split_unique c [] (u ∷ us) ys vs f g e = ground (arith, g.0)
split_unique c (x ∷ xs) [] ys vs f g e = ground (arith, f.0)
split_unique c (x ∷ xs) (u ∷ us) ys vs f g e = ground (arith, split_unique c xs us ys vs f.1 g.1)
