-- ===== src/Persist.antt =====
-- ChatSever/MsgPersistMgr.cpp: the queue of messages to be written, its worker and its keys.
-- The worker's thread and the callers of PushMessages meet at the mutex, so a run is a sequence of
-- whole critical sections.
pub mod Keys
pub mod Draining
use minichat.Base.{
  ℕ, zero, suc, ◌+◌, Bool, true, false, Option, none, some, List, [], ◌∷◌, ◌++◌, Bytes,
  if◌then◌else◌, is_empty, length, take, drop, not, ◌||◌, ◌&&◌, map,
}
use minichat.Base.Int.{ℤ, pos, min_ℤ, max_ℤ}
use minichat.Base.Decimal.{to_string}
use minichat.Const.Prefix

-- UserData.h: a record as PushMessages fills it.
pub record ChatMsgInfo : Type 0 where
  pub session_id : Bytes
  pub from_uid : ℤ
  pub to_uid : ℤ
  pub unique_id : Bytes
  pub content : Bytes

unfoldable pub make_session_id : ℤ → ℤ → Bytes
make_session_id uid_a uid_b =
    let low = min_ℤ uid_a uid_b in
    let high = max_ℤ uid_a uid_b in to_string low ++ (b'_' ∷ to_string high)

unfoldable pub group_session_id : ℤ → Bytes
group_session_id group_id = Prefix.group_session ++ to_string group_id

-- One item of a text_array, by its "msgid" and its "content".
pub record TextItem : Type 0 where
  pub msgid : Bytes
  pub content : Bytes

unfoldable pub make_record : Bytes → ℤ → ℤ → TextItem → ChatMsgInfo
make_record session_id from_uid to_uid item = record {
  session_id = session_id;
  from_uid = from_uid;
  to_uid = to_uid;
  unique_id = item.msgid;
  content = item.content;
}

-- `flushed` lists the batches given to FlushBatch, oldest first.
pub record Persist : Type 0 where
  pub queue : List ChatMsgInfo
  pub stop : Bool
  pub batch_size : ℕ
  pub flushed : List (List ChatMsgInfo)
  pub running : Bool

unfoldable pub push_messages : Persist → Bytes → ℤ → ℤ → List TextItem → Persist
push_messages p session_id from_uid to_uid items =
    if p.stop
    then p
    else record p { queue = p.queue ++ map (make_record session_id from_uid to_uid) items }

unfoldable pub push_text_msgs : Persist → ℤ → ℤ → List TextItem → Persist
push_text_msgs p from_uid to_uid items =
    push_messages p (make_session_id from_uid to_uid) from_uid to_uid items

-- The loop that fills a batch: while the queue is not empty and the batch below its size.
unfoldable pub fill_batch : ℕ → List ChatMsgInfo → List ChatMsgInfo × List ChatMsgInfo
fill_batch room [] = ([], [])
fill_batch zero (m ∷ queue) = ([], m ∷ queue)
fill_batch (suc room) (m ∷ queue) = let (batch, left) = fill_batch room queue in (m ∷ batch, left)

unfoldable pub flush_batch : Persist → List ChatMsgInfo → Persist
flush_batch p [] = p
flush_batch p (m ∷ batch) = record p { flushed = p.flushed ++ (m ∷ batch) ∷ [] }

-- One round of WorkerLoop. It waits while the queue is empty and `_stop` unset, and returns once
-- `_stop` is set and the queue empty.
unfoldable pub worker_round : Persist → Persist
worker_round p =
    if not p.running || (not p.stop && is_empty p.queue)
    then p
    else if p.stop && is_empty p.queue
    then record p { running = false }
    else let (batch, left) = fill_batch p.batch_size p.queue in
      flush_batch (record p { queue = left }) batch

-- Close sets `_stop`; the join that follows is the worker's remaining rounds.
unfoldable pub close : Persist → Persist
close p = record p { stop = true }

pub data Event : Type 0 where
  push : Bytes → ℤ → ℤ → List TextItem → Event
  round : Event
  closing : Event

unfoldable pub step : Persist → Event → Persist
step p (push id from to items) = push_messages p id from to items
step p round = worker_round p
step p closing = close p

unfoldable pub run : Persist → List Event → Persist
run p [] = p
run p (e ∷ es) = run (step p e) es
