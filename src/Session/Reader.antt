-- ===== src/Session/Reader.antt =====
-- ChatSever/CSession.cpp: the read side. AsyncReadHead and AsyncReadBody read a fixed number of
-- bytes by asyncReadFull and asyncReadLen, and their callbacks decide what comes next.
-- The socket is a stream of bytes; a completion of `async_read_some` brings at most the bytes that
-- the buffer has room for, as documented.
use minichat.Base.{
  ℕ, ◌+◌, ◌-◌, Bool, true, false, none, some, List, [], ◌∷◌, ◌++◌, Bytes, ltb, leb, ◌&&◌, not,
  if◌then◌else◌, length, take, drop, min, is_empty,
}
use minichat.Const.{max_length, head_total_len}
use minichat.Wire.{ByteOrder, RecvNode, new_recv_node, is_negative}
use minichat.Wire.Frame.{read_short}

-- What the callback of a full read does next.
pub data Next : Type 0 where
  -- Close() and ClearSession
  close_and_clear : Next
  -- ClearSession alone, on an invalid id or length
  clear_only : Next
  -- the allocation threw; the handler swallows the exception and reads no more
  swallowed : Next
  -- `_data[-1] = '\0'`, then a read of size_t(-1) bytes into the fixed buffer
  overrun : Next
  -- AsyncReadBody
  read_body : RecvNode → Next
  -- PostMsgToQue and AsyncReadHead
  post : RecvNode → Next

-- A `short` compared with the int MAX_LENGTH.
abbrev pub exceeds_max : ℕ → Bool
exceeds_max s = not (is_negative s) && ltb max_length s

-- The callback of AsyncReadHead.
unfoldable pub handle_head : ByteOrder → Bool → Bytes → Next
unfolding new_recv_node
handle_head o true bytes = close_and_clear
handle_head o false bytes =
    if ltb (length bytes) head_total_len
    then close_and_clear
    else let msg_id = read_short o bytes in
      if exceeds_max msg_id
      then clear_only
      else let msg_len = read_short o (drop 2 bytes) in
        if exceeds_max msg_len then clear_only else elim (new_recv_node msg_len msg_id) [
          | none ↦ if leb 65535 msg_len then overrun else swallowed
          | some node ↦ read_body node
        ]

-- The callback of AsyncReadBody.
unfoldable pub handle_body : RecvNode → Bool → Bytes → Next
handle_body node true bytes = close_and_clear
handle_body node false bytes =
    if ltb (length bytes) node.total_len
    then close_and_clear
    else post (record node { payload = bytes; cur_len = node.cur_len + length bytes })

pub data Phase : Type 0 where
  head : Phase
  body : RecvNode → Phase
  stopped : Next → Phase

-- `got` is what asyncReadLen has read of the current part, `stream` what the peer has sent and the
-- socket has not delivered, `posted` the nodes given to the LogicSystem, oldest first.
pub record Reader : Type 0 where
  pub phase : Phase
  pub got : Bytes
  pub stream : Bytes
  pub posted : List RecvNode

-- The `total_len` of the read in progress.
unfoldable pub total : Phase → ℕ
total head = head_total_len
total (body node) = node.total_len
total (stopped next) = 0

unfoldable pub continue : Reader → Next → Reader
continue r (read_body node) = record r { phase = body node; got = [] }
continue r (post node) = record r { phase = head; got = []; posted = r.posted ++ node ∷ [] }
continue r next = record r { phase = stopped next; got = [] }

unfoldable pub handler : ByteOrder → Phase → Bool → Bytes → Next
unfolding handle_head handle_body
handler o head ec bytes = handle_head o ec bytes
handler o (body node) ec bytes = handle_body node ec bytes
handler o (stopped next) ec bytes = next

-- The callback in asyncReadLen, at a completion with `read_len` bytes read before.
unfoldable pub async_read_len : ByteOrder → Reader → Bool → Bytes → Reader
async_read_len o r ec chunk =
    let bytes : Bytes = r.got ++ chunk in
    if ec
    then continue r (handler o r.phase true bytes)
    else if leb (total r.phase) (length bytes)
    then continue r (handler o r.phase false bytes)
    else record r { got = bytes }

-- One completion that finds `n` more bytes in the socket. With room in the buffer and nothing to
-- read the call does not complete.
unfoldable pub complete : ByteOrder → Reader → Bool → ℕ → Reader
complete o r ec n =
    let room : ℕ = total r.phase - length r.got in
    if ltb 0 room && is_empty r.stream && not ec
    then r
    else async_read_len o (record r { stream = drop (min n room) r.stream }) ec
        (take (min n room) r.stream)

unfoldable pub complete_all : ByteOrder → Reader → List ℕ → Reader
complete_all o r [] = r
complete_all o r (n ∷ ns) = complete_all o (complete o r false n) ns

-- Start(): AsyncReadHead(HEAD_TOTAL_LEN).
abbrev pub start : Bytes → Reader
start stream = record { phase = head; got = []; stream = stream; posted = [] }
