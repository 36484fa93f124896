-- ===== src/Persist/Keys.antt =====
-- The session keys under which messages are stored.
use minichat.Base.{◌≡◌, ◌≢◌, [], ◌∷◌, ◌++◌, Bytes, arith, Bool-cases, ◌⊎◌, inl, inr}
use minichat.Base.Int.{ℤ, min_ℤ, max_ℤ, leb_ℤ, leb_ℤ-antisymm, leb_ℤ-total}
use minichat.Base.Decimal.{to_string, to_string-injective, to_string-IsFree, split_unique, IsFree}
use minichat.Persist.{make_session_id, group_session_id}

-- The key of a pair does not depend on who sends.
pub make_session_id_comm : (a b : ℤ) → make_session_id a b ≡ make_session_id b a
unfolding make_session_id
make_session_id_comm a b = ground (arith, leb_ℤ-antisymm a b, leb_ℤ-total a b, leb_ℤ-total b a)

min_max_cases :
    (a b : ℤ) → ((min_ℤ a b ≡ a) × (max_ℤ a b ≡ b)) ⊎ ((min_ℤ a b ≡ b) × (max_ℤ a b ≡ a))
min_max_cases a b = elim (Bool-cases (leb_ℤ b a)) [
  | inl e ↦ inr (rw e, rw e)
  | inr e ↦ inl (rw e, rw e)
]

same_ends :
    (a b c d : ℤ)
    → min_ℤ a b ≡ min_ℤ c d
    → max_ℤ a b ≡ max_ℤ c d
    → ((a ≡ c) × (b ≡ d)) ⊎ ((a ≡ d) × (b ≡ c))
same_ends a b c d p q = elim (min_max_cases a b) [
  | inl (m, n) ↦ elim (min_max_cases c d) [ inl (u, v) ↦ inl (cc, cc) | inr (u, v) ↦ inr (cc, cc) ]
  | inr (m, n) ↦ elim (min_max_cases c d) [ inl (u, v) ↦ inr (cc, cc) | inr (u, v) ↦ inl (cc, cc) ]
]

other_head : (xs t ys : Bytes) → IsFree b'g' xs → b'g' ∷ t ≢ xs ++ b'_' ∷ ys
other_head [] t ys f e = ground arith
other_head (x ∷ xs) t ys f e = ground (arith, f.0)

-- Two pairs of users have one key only if they are the same pair.
pub make_session_id_injective :
    (a b c d : ℤ)
    → make_session_id a b ≡ make_session_id c d
    → ((a ≡ c) × (b ≡ d)) ⊎ ((a ≡ d) × (b ≡ c))
unfolding make_session_id
make_session_id_injective a b c d e =
    let parts =
      split_unique b'_' (to_string (min_ℤ a b)) (to_string (min_ℤ c d)) _ _
        (to_string-IsFree b'_' (min_ℤ a b) (omega arith))
        (to_string-IsFree b'_' (min_ℤ c d) (omega arith)) e in
    same_ends a b c d (to_string-injective _ _ parts.0) (to_string-injective _ _ parts.1)

-- A group's key is never that of a pair.
pub group_session_id-ne-make_session_id : (g a b : ℤ) → group_session_id g ≢ make_session_id a b
unfolding group_session_id make_session_id
group_session_id-ne-make_session_id g a b =
    other_head (to_string (min_ℤ a b)) _ _ (to_string-IsFree b'g' (min_ℤ a b) (omega arith))
