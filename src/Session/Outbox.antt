-- ===== src/Session/Outbox.antt =====
-- The send queue: order, bound, and one write at a time.
use minichat.Base.{
  ℕ, ◌+◌, ◌≤◌, ◌<◌, ◌≡◌, refl, false, some, List, [], ◌∷◌, ◌++◌, Bytes, ltb, length, Bool-cases,
  Option-cases, ◌⊎◌, ◌-◌, true, inl, inr, arith, length-append, append_assoc, append-nil,
}
use minichat.Const.{max_sendque}
use minichat.Wire.{ByteOrder, SendNode, new_send_node, to_short}
use minichat.Session.{Session, push_node, send, close, handle_write}

abbrev tail : List SendNode → List SendNode
tail [] = []
tail (x ∷ xs) = xs

-- Whatever has been accepted, in order: what was handed to the socket, then what waits behind the front.
abbrev pub accepted : Session → List SendNode
accepted s = s.started ++ tail s.send_que

abbrev pub busy : List SendNode → ℕ
busy [] = 0
busy (x ∷ xs) = 1

-- One write is in flight exactly while the queue holds a node, and the queue has at most
-- MAX_SENDQUE + 1 nodes.
pub record IsValid (s : Session) : Type 0 where
  pub one_write : s.in_flight ≡ busy s.send_que
  pub bounded : length s.send_que ≤ max_sendque + 1

push_node-accepted :
    (s : Session) (n : SendNode) (q : List SendNode)
    → s.send_que ≡ q
    → accepted (push_node s n) ≡ accepted s ++ n ∷ []
unfolding push_node
push_node-accepted s n [] e = ground (arith, append-nil s.started, append-nil (s.started ++ n ∷ []))
push_node-accepted s n (x ∷ q) e = ground (arith, append_assoc s.started q (n ∷ []))

push_node-IsValid :
    (s : Session) (n : SendNode) (q : List SendNode)
    → s.send_que ≡ q
    → length s.send_que ≤ max_sendque
    → IsValid s
    → IsValid (push_node s n)
unfolding push_node
push_node-IsValid s n [] e h v = ground arith
push_node-IsValid s n (x ∷ q) e h v = ground (arith, length-append q (n ∷ []))

-- What a call of `send` did: it dropped the message on a full queue, or it accepted one node.
pub data Sent (o : ByteOrder) (s : Session) (msg : Bytes) (msg_id : ℕ) (t : Session) : Type 0 where
  dropped : max_sendque < length s.send_que → t ≡ s → Sent o s msg msg_id t
  queued :
      (n : SendNode)
      → length s.send_que ≤ max_sendque
      → new_send_node o msg (to_short (length msg)) msg_id ≡ some n
      → accepted t ≡ accepted s ++ n ∷ []
      → Sent o s msg msg_id t

module _ (o : ByteOrder) (s : Session) (msg : Bytes) (msg_id : ℕ) {t : Session}
    (sent : send o s msg msg_id ≡ some t) where
  send_cases :
      ((max_sendque < length s.send_que) × (t ≡ s))
      ⊎ ((n : SendNode) × (length s.send_que ≤ max_sendque)
          × (new_send_node o msg (to_short (length msg)) msg_id ≡ some n)
          × (t ≡ push_node s n))
  unfolding send
  send_cases = elim (Option-cases (new_send_node o msg (to_short (length msg)) msg_id)) [
    | inl e ↦ inl (ground arith, ground arith)
    | inr (n, e) ↦ elim (Bool-cases (ltb max_sendque (length s.send_que))) [
      | inl full ↦ inl (ground arith, ground arith)
      | inr room ↦ inr (n, ground arith, e, ground arith)
    ]
  ]

  -- When `send` returns, it has dropped the message because the queue held more than MAX_SENDQUE
  -- nodes, changing nothing, or it has accepted the node of the message behind all earlier ones.
  pub send-Sent : Sent o s msg msg_id t
  send-Sent = elim send_cases [
    | inl (full, e) ↦ dropped full e
    | inr (n, room, made, e) ↦ queued n room made (rw e (push_node-accepted s n s.send_que refl))
  ]

  -- `send` keeps one write in flight at most and the queue within MAX_SENDQUE + 1 nodes.
  pub send-IsValid : IsValid s → IsValid t
  send-IsValid v = elim send_cases [
    | inl (full, e) ↦ rw e v
    | inr (n, room, made, e) ↦ rw e (push_node-IsValid s n s.send_que refl room v)
  ]

asks_nothing : (s : Session) (q : List SendNode) → s.send_que ≡ q → (handle_write s false).1 ≡ false
unfolding handle_write
asks_nothing s [] e = rw e refl
asks_nothing s (x ∷ q) e = rw e refl

-- Behind the completed write none is left.
at_most_one : (s : Session) (q : List SendNode) → s.send_que ≡ q → IsValid s → s.in_flight - 1 ≡ 0
at_most_one s [] e v = ground arith
at_most_one s (x ∷ q) e v = ground arith

handle_write_cases :
    (s : Session) (q : List SendNode)
    → s.send_que ≡ q
    → IsValid s
    → 0 < s.in_flight
    → IsValid (handle_write s false).0 × (accepted (handle_write s false).0 ≡ accepted s)
unfolding handle_write
handle_write_cases s [] e v busy = ground arith
handle_write_cases s (x ∷ []) e v busy = ground (arith, append-nil s.started)
handle_write_cases s (x ∷ y ∷ q) e v busy = ground (arith, append_assoc s.started (y ∷ []) q)

-- The completion of the write in flight of a valid session. A success keeps the session valid, loses
-- and reorders nothing and asks for no cleanup. A failure closes the session and asks the server to
-- clear it: no further write is started and none is in flight, and nothing that was accepted is lost.
pub handle_write_keeps :
    (s : Session)
    → IsValid s
    → 0 < s.in_flight
    → (IsValid (handle_write s false).0
        × (accepted (handle_write s false).0 ≡ accepted s)
        × ((handle_write s false).1 ≡ false))
      × (((handle_write s true).0.closed ≡ true)
          × ((handle_write s true).0.in_flight ≡ 0)
          × (accepted (handle_write s true).0 ≡ accepted s)
          × ((handle_write s true).1 ≡ true))
unfolding handle_write close
handle_write_keeps s v busy =
    let (valid, kept) = handle_write_cases s s.send_que refl v busy in
    (
      (valid, kept, asks_nothing s s.send_que refl),
      (refl, at_most_one s s.send_que refl v, refl, refl),
    )
