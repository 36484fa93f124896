-- ===== src/LogicQueue.antt =====
-- ChatSever/LogicSystem.cpp: the sharded queues between the network and the handlers, from
-- PostMsgToQue over SelectQueue to the loop of DealMsg.
-- A node is known by its session's id and its message id; `std::hash` is a parameter.
pub mod Shards
pub mod Order
use minichat.Base.{
  ℕ, zero, suc, ◌+◌, ◌%◌, Bool, true, false, Option, none, some, List, [], ◌∷◌, ◌++◌, Bytes, ◌==◌,
  nat_eq, ◌&&◌, if◌then◌else◌, length, is_empty, contains, get_elem?,
}
use minichat.Const.MsgIds

-- LogicNode
pub record LogicNode : Type 0 where
  pub session_id : Bytes
  pub msg_id : ℕ
  pub payload : Bytes

-- `handled` lists the nodes whose callback was called, oldest first.
pub record LogicSystem : Type 0 where
  pub queues : List (List LogicNode)
  pub handled : List LogicNode

-- The ids that RegisterCallBacks enters.
abbrev pub callbacks : List ℕ
callbacks =
    MsgIds.chat_login ∷ MsgIds.search_user_req ∷ MsgIds.add_friend_req ∷ MsgIds.auth_friend_req
    ∷ MsgIds.text_chat_msg_req ∷ MsgIds.get_chat_history_req ∷ MsgIds.create_group_req
    ∷ MsgIds.get_group_list_req ∷ MsgIds.get_group_members_req ∷ MsgIds.group_text_msg_req
    ∷ MsgIds.heart_beat_req ∷ []

-- msg_que.push on the queue at an index.
unfoldable pub push_at : ℕ → LogicNode → List (List LogicNode) → List (List LogicNode)
push_at i node [] = []
push_at zero node (q ∷ qs) = (q ++ node ∷ []) ∷ qs
push_at (suc i) node (q ∷ qs) = q ∷ push_at i node qs

-- front and pop on the queue at an index.
abbrev pub under :
    List LogicNode
    → Option (LogicNode × List (List LogicNode))
    → Option (LogicNode × List (List LogicNode))
under q none = none
under q (some (node, qs)) = some (node, q ∷ qs)

unfoldable pub pop_at : ℕ → List (List LogicNode) → Option (LogicNode × List (List LogicNode))
pop_at i [] = none
pop_at zero ([] ∷ qs) = none
pop_at zero ((node ∷ q) ∷ qs) = some (node, q ∷ qs)
pop_at (suc i) (q ∷ qs) = under q (pop_at i qs)

module _ (hash : Bytes → ℕ) where
  unfoldable pub select_queue : LogicSystem → LogicNode → ℕ
  select_queue s node = if is_empty s.queues then 0 else hash node.session_id % length s.queues

  unfoldable pub post_msg_to_que : LogicSystem → LogicNode → LogicSystem
  post_msg_to_que s node =
      if is_empty s.queues
      then s
      else record s { queues = push_at (select_queue s node) node s.queues }

-- The callback of a node that DealMsg has taken from its queue; an id without one is skipped.
unfoldable pub dispatch : LogicSystem → LogicNode → LogicSystem
dispatch s node =
    if contains node.msg_id callbacks then record s { handled = s.handled ++ node ∷ [] } else s

-- One round of DealMsg by the worker of one queue. With nothing in the queue it waits, or has ended.
unfoldable pub deal_msg : LogicSystem → ℕ → LogicSystem
deal_msg s i = elim (pop_at i s.queues) [
  | none ↦ s
  | some (node, queues) ↦ dispatch (record s { queues = queues }) node
]

pub data Event : Type 0 where
  post : LogicNode → Event
  deal : ℕ → Event

module _ (hash : Bytes → ℕ) where
  unfoldable pub step : LogicSystem → Event → LogicSystem
  step s (post node) = post_msg_to_que hash s node
  step s (deal i) = deal_msg s i

  unfoldable pub run : LogicSystem → List Event → LogicSystem
  run s [] = s
  run s (e ∷ es) = run (step s e) es
