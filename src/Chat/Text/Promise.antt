-- ===== src/Chat/Text/Promise.antt =====
-- What DealChatTextMsg and DeliverWrappedToMember promise.
use minichat.Base.{Bool, Bytes, All, bytes_eq, nat_eq, if◌then◌else◌}
use minichat.Base.Int.{ℤ}
use minichat.Const.MsgIds
use minichat.Persist.{make_session_id}
use minichat.UserMgr.{SessionPtr}
use minichat.Chat.Json.{Json}
use minichat.Chat.World.{Env, TextChatMsgReq, World, send}
use minichat.Chat.Redis.Answers.{after}
use minichat.Chat.Trace.{Since, Framed}
use minichat.Chat.Online.{offline_text_msg}
use minichat.Chat.Text.{text_value, wrapped_value}
use minichat.Chat.Text.Delivery.{Futile, Effort, Live, Settled}
use minichat.Chat.Text.Texts.{IsText, texts_of, items_of, stored}

module _ (j : Json) (uid touid : ℤ) (arrays : j.Value)
    (texts : All (IsText j) (j.items arrays)) where
  open j use {items, styled}

  -- The request that a peer gets.
  abbrev pub chat_req : TextChatMsgReq
  chat_req = record { fromuid = uid; touid = touid; textmsgs = texts_of j (items arrays) texts }

  abbrev pub offline_text : Bytes
  offline_text = styled (offline_text_msg j uid touid arrays)

  -- The world in which the message is to be delivered: it has been handed to the store, unless it
  -- has no texts.
  abbrev pub chat_stored : World → World
  chat_stored = stored uid (items_of j (items arrays) texts) (make_session_id uid touid) touid

  abbrev pub wrapped_text : Bytes
  wrapped_text = styled (wrapped_value j uid touid arrays)

  module _ (env : Env) where
    -- What becomes of a notification that is not queued: it reached a device, or nothing happened but
    -- failed attempts.
    pub data Dropped (w w' : World) : Type 0 where
      brought :
          Framed (Effort env w.users touid wrapped_text chat_req) w w'
          → Since (Live env w.users touid wrapped_text chat_req) w.calls w'.calls
          → Dropped w w'
      lost : Framed (Futile env w.users touid wrapped_text chat_req) w w' → Dropped w w'

    abbrev pub WrappedTo : Bool → World → World → Type 0
    WrappedTo allow_offline w w' =
        if allow_offline
        then Settled env w.users touid wrapped_text chat_req wrapped_text w w'
        else Dropped w w'

    -- The ACK goes out first, then the texts are stored, and from there on the message is settled.
    abbrev pub Answered : SessionPtr → World → World → Type 0
    Answered session w w' =
        let ack = styled (text_value j uid touid arrays) in
        let v = chat_stored (after w (send session ack MsgIds.text_chat_msg_rsp)) in
        Settled env v.users touid ack chat_req offline_text v w'
