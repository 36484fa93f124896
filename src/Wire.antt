-- ===== src/Wire.antt =====
-- ChatSever/MsgNode.h and MsgNode.cpp: the message nodes and the frame that a SendNode holds.
-- A `short` is its residue below 2 ^ 16; the sign is its top bit. The host stores a short with its
-- low byte first, and the byte-order functions of Boost.Asio are a parameter.
pub mod Frame
use minichat.Base.{
  ℕ, zero, suc, ◌+◌, ◌*◌, ◌/◌, ◌%◌, ◌<◌, ◌≡◌, Bool, Option, none, some, List, [], ◌∷◌, ◌++◌, Bytes,
  ltb, leb, if◌then◌else◌, take, length,
}
use minichat.Const.{head_total_len}

-- host_to_network_short and network_to_host_short, as documented for such a host.
pub record ByteOrder : Type 0 where
  pub hton : ℕ → ℕ
  pub ntoh : ℕ → ℕ
  pub hton_swaps : (x : ℕ) → x < 65536 → hton x ≡ x % 256 * 256 + x / 256
  pub ntoh_swaps : (x : ℕ) → x < 65536 → ntoh x ≡ x % 256 * 256 + x / 256

-- The conversion of an integer to `short`.
abbrev pub to_short : ℕ → ℕ
to_short n = n % 65536

-- s < 0
abbrev pub is_negative : ℕ → Bool
is_negative s = leb 32768 s

-- memcpy of a short into a buffer, and out of one.
unfoldable pub store_short : ℕ → Bytes
store_short s = s % 256 ∷ s / 256 ∷ []

unfoldable pub load_short : Bytes → ℕ
load_short [] = 0
load_short (a ∷ []) = a
load_short (a ∷ b ∷ rest) = a + 256 * b

pub record RecvNode : Type 0 where
  pub msg_id : ℕ
  pub total_len : ℕ
  pub cur_len : ℕ
  pub payload : Bytes

pub record SendNode : Type 0 where
  pub msg_id : ℕ
  pub total_len : ℕ
  pub buffer : Bytes

-- MsgNode(short maxlen) allocates `maxlen + 1` chars; a negative `maxlen` throws, or writes in front
-- of the block when it is -1.
unfoldable pub new_recv_node : ℕ → ℕ → Option RecvNode
new_recv_node max_len msg_id =
    if is_negative max_len
    then none
    else some (record { msg_id = msg_id; total_len = max_len; cur_len = 0; payload = [] })

module _ (o : ByteOrder) where
  -- The sum `max_len + HEAD_TOTAL_LEN` is narrowed to `short` again: past 32767 it is negative, and
  -- so is a `max_len` whose top bit is set, which `memcpy` takes for a huge size. Both are `none`.
  unfoldable pub new_send_node : Bytes → ℕ → ℕ → Option SendNode
  unfolding store_short
  new_send_node msg max_len msg_id =
      if ltb (max_len + head_total_len) 32768
      then some (record {
        msg_id = msg_id;
        total_len = max_len + head_total_len;
        buffer = store_short (o.hton msg_id) ++ (store_short (o.hton max_len) ++ take max_len msg);
      })
      else none
