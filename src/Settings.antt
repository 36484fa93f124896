-- ===== src/Settings.antt =====
-- ReadSizeEnv (one copy in each of ChatSever/LogicSystem.cpp, MsgPersistMgr.cpp, RedisMgr.cpp,
-- ChatGrpcClient.cpp and AsioIOServicePool.cpp) and the sizes that are read by it.
pub mod Bounds
use minichat.Base.{
  ℕ, zero, suc, ◌+◌, ◌-◌, ◌*◌, ◌%◌, ◌^◌, Bool, true, false, Option, none, some, List, [], ◌∷◌,
  Bytes, ltb, leb, ◌==◌, nat_eq, ◌&&◌, ◌||◌, if◌then◌else◌, length, min, max,
}
use minichat.Base.Int.{ℤ, pos, negsuc}

-- The number at the start of a text: blanks, a sign, then digits up to the first other character.
abbrev pub is_blank : ℕ → Bool
is_blank c = c == 32 || (leb 9 c && leb c 13)

unfoldable pub leading_digits : ℕ → Bytes → ℕ
leading_digits acc [] = acc
leading_digits acc (c ∷ s) =
    let rest = leading_digits (acc * 10 + (c - b'0')) s in
    if leb b'0' c && leb c b'9' then rest else acc

abbrev pub starts_digit : Bytes → Bool
starts_digit [] = false
starts_digit (c ∷ s) = leb b'0' c && leb c b'9'

abbrev pub negated : ℕ → ℤ
negated zero = pos 0
negated (suc n) = negsuc n

unfoldable pub leading_number : Bytes → ℤ
unfolding leading_digits
leading_number [] = pos 0
leading_number (c ∷ s) =
    let rest = leading_number s in
    if is_blank c
    then rest
    else if c == b'-'
    then negated (leading_digits 0 s)
    else if c == b'+'
    then pos (leading_digits 0 s)
    else pos (leading_digits 0 (c ∷ s))

-- std::stoi: `none` where it throws, without a digit in the right place or out of the range of int.
unfoldable pub starts_number : Bytes → Bool
starts_number [] = false
starts_number (c ∷ s) =
    let rest = starts_number s in
    if is_blank c
    then rest
    else if c == b'-' || c == b'+'
    then starts_digit s
    else starts_digit (c ∷ s)

abbrev pub in_int_range : ℤ → Bool
in_int_range (pos n) = ltb n (2 ^ 31)
in_int_range (negsuc n) = ltb n (2 ^ 31)

-- std::atoi: `none` is a number out of the range of int, which is undefined behaviour.
unfoldable pub atoi : Bytes → Option ℤ
unfolding leading_number
atoi s = if in_int_range (leading_number s) then some (leading_number s) else none

unfoldable pub stoi : Bytes → Option ℤ
unfolding starts_number leading_number
stoi s =
    if starts_number s && in_int_range (leading_number s) then some (leading_number s) else none

-- static_cast<size_t> of an int, with 64 bits: a negative int is at least -(2 ^ 31), and wraps round.
unfoldable pub to_size : ℤ → ℕ
to_size (pos n) = n
to_size (negsuc n) = (2 ^ 64 - suc n % 2 ^ 64) % 2 ^ 64

-- A size that was read counts only if it is not 0.
unfoldable pub or_default : ℕ → ℕ → Option ℤ → Option ℕ
or_default default_value max_value none = none
or_default default_value max_value (some parsed) =
    some (if ltb 0 (to_size parsed) then min (to_size parsed) max_value else default_value)

-- The environment holds no value, or one; the buffer of 32 chars refuses a longer value, and an empty
-- value is not read. `none` is the undefined behaviour of atoi.
unfoldable pub read_size_env : Option Bytes → ℕ → ℕ → Option ℕ
read_size_env none default_value max_value = some default_value
read_size_env (some value) default_value max_value =
    if ltb (length value) 32 && ltb 0 (length value)
    then or_default default_value max_value (atoi value)
    else some default_value

-- LogicWorkerCount.
unfoldable pub logic_worker_count : ℕ → Option Bytes → Option ℕ
logic_worker_count hardware_count env =
    let cores = if hardware_count == 0 then 4 else hardware_count in
    read_size_env env (max 2 (min cores 8)) 32

-- ResolveIOThreadCount.
unfoldable pub resolve_io_thread_count : ℕ → Option Bytes → Option ℕ
resolve_io_thread_count requested env =
    if ltb 0 requested then some requested else read_size_env env 2 32

-- The constructors of MsgPersistMgr, RedisMgr and ChatGrpcClient.
unfoldable pub persist_batch_size : Option Bytes → Option ℕ
persist_batch_size env = read_size_env env 128 1000

unfoldable pub redis_pool_size : Option Bytes → Option ℕ
redis_pool_size env = read_size_env env 16 64

unfoldable pub chat_grpc_pool_size : Option Bytes → Option ℕ
chat_grpc_pool_size env = read_size_env env 32 128
