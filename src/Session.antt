-- ===== src/Session.antt =====
-- ChatSever/CSession.cpp: the send queue of a connection (both `Send` overloads and `HandleWrite`).
-- The read side is in Session/Reader.antt.
pub mod Outbox
pub mod Reader
pub mod Stream
pub mod Transfer
use minichat.Base.{
  ℕ, suc, ◌+◌, ◌-◌, Bool, true, false, Option, none, some, List, [], ◌∷◌, ◌++◌, Bytes, ltb,
  if◌then◌else◌, length, is_empty,
}
use minichat.Base.Int.{ℤ}
use minichat.Const.{max_sendque}
use minichat.Wire.{ByteOrder, SendNode, new_send_node, to_short}

-- `started` lists the nodes handed to `async_write`, oldest first, and `in_flight` counts the
-- writes that have not completed.
pub record Session : Type 0 where
  pub uuid : Bytes
  pub user_uid : ℤ
  pub closed : Bool
  pub send_que : List SendNode
  pub started : List SendNode
  pub in_flight : ℕ

unfoldable pub set_user_id : Session → ℤ → Session
set_user_id s uid = record s { user_uid = uid }

unfoldable pub close : Session → Session
close s = record s { closed = true }

-- async_write on the front of the queue.
unfoldable pub start_write : Session → Session
start_write s = elim s.send_que [
  | [] ↦ s
  | node ∷ rest ↦ record s { started = s.started ++ node ∷ []; in_flight = suc s.in_flight }
]

-- What `Send` does with the node that it has built.
unfoldable pub push_node : Session → SendNode → Session
unfolding start_write
push_node s node =
    let queued : Session = record s { send_que = s.send_que ++ node ∷ [] } in
    if ltb 0 (length s.send_que) then queued else start_write queued

module _ (o : ByteOrder) where
  -- Send(char* msg, short max_length, short msgid). `none` is the fault of the node's constructor.
  unfoldable pub send_raw : Session → Bytes → ℕ → ℕ → Option Session
  send_raw s msg max_len msg_id =
      if ltb max_sendque (length s.send_que)
      then some s
      else elim (new_send_node o msg max_len msg_id) [
        | none ↦ none
        | some node ↦ some (push_node s node)
      ]

  -- Send(std::string msg, short msgid): `msg.length()` is narrowed to the constructor's `short`.
  unfoldable pub send : Session → Bytes → ℕ → Option Session
  send s msg msg_id =
      if ltb max_sendque (length s.send_que)
      then some s
      else elim (new_send_node o msg (to_short (length msg)) msg_id) [
        | none ↦ none
        | some node ↦ some (push_node s node)
      ]

-- HandleWrite: the completion of one write. The flag says whether it failed; then the session is
-- closed and the server clears it.
unfoldable pub handle_write : Session → Bool → Session × Bool
unfolding close start_write
handle_write s true = (close (record s { in_flight = s.in_flight - 1 }), true)
handle_write s false =
    let done : Session = record s { in_flight = s.in_flight - 1 } in
    elim s.send_que [
      | [] ↦ (done, false)
      | front ∷ rest ↦ (start_write (record done { send_que = rest }), false)
    ]
