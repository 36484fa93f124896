-- ===== src/Settings/Bounds.antt =====
-- The sizes stay within their limits.
use minichat.Base.{
  ◌==◌, nat_eq, if◌then◌else◌, ℕ, ◌≤◌, ◌≡◌, refl, true, Option, none, some, Bytes, arith, min, max,
  length, ltb, ◌&&◌, Bool-cases, inl, inr,
}
use minichat.Base.Int.{ℤ}
use minichat.Settings.{
  read_size_env, or_default, to_size, atoi, in_int_range, leading_number, logic_worker_count,
}

-- The variable is unset, or the number at its start is an int.
abbrev pub IsInt : Option Bytes → Type 0
IsInt none = Unit
IsInt (some value) = in_int_range (leading_number value) ≡ true

-- A size is read, and it is within the limits.
abbrev pub Sized : ℕ → ℕ → Option ℕ → Type 0
Sized low high o = (n : ℕ) × (o ≡ some n) × (low ≤ n) × (n ≤ high)

or_default-Sized : (d m : ℕ) (parsed : ℤ) → 1 ≤ d → d ≤ m → Sized 1 m (or_default d m (some parsed))
unfolding or_default
or_default-Sized d m parsed h k = elim (Bool-cases (ltb 0 (to_size parsed))) [
  | inl e ↦ rw e (min (to_size parsed) m, refl, ground (arith, e), omega arith)
  | inr e ↦ rw e (d, refl, h, k)
]

-- ReadSizeEnv gives a size between 1 and the limit when the default is one, if the variable is unset
-- or the number at its start is in the range of int; beyond it the behaviour of atoi is undefined.
pub read_size_env_bounds :
    (env : Option Bytes) (default_value max_value : ℕ)
    → IsInt env
    → 1 ≤ default_value
    → default_value ≤ max_value
    → Sized 1 max_value (read_size_env env default_value max_value)
unfolding read_size_env atoi
read_size_env_bounds none d m i h k = (d, refl, h, k)
read_size_env_bounds (some v) d m i h k =
    elim (Bool-cases (ltb (length v) 32 && ltb 0 (length v))) [
      | inl e ↦ simp (e, i) (or_default-Sized d m (leading_number v) h k)
      | inr e ↦ simp (e) (d, refl, h, k)
    ]

-- There are between 1 and 32 workers.
workers_bounds :
    (cores : ℕ) (env : Option Bytes) → IsInt env → Sized 1 32 (logic_worker_count cores env)
unfolding logic_worker_count
workers_bounds cores env i =
    read_size_env_bounds env (max 2 (min (if cores == 0 then 4 else cores) 8)) 32 i (omega arith)
      (omega arith)
