-- ===== src/Chat/Service/Reached.antt =====
-- Whom a peer's text message reaches, in terms of who is registered with the user manager.
use minichat.Base.{◌≡◌, true, ℕ, List, Bytes, nat_eq, contains}
use minichat.Const.ErrorCodes
use minichat.Const.MsgIds
use minichat.UserMgr.{SessionPtr}
use minichat.Chat.Json.{Json}
use minichat.Chat.World.{TextChatMsgReq, Env, Call, World, send}
use minichat.Chat.Service.{build_text_notify_value}

module _ (text : Bytes) (msg_id : ℕ) (S : List SessionPtr) where
  -- A push of the text to one of the sessions.
  abbrev pub Push : Call → List Call → Type 0
  Push c cs = (p : SessionPtr) × (contains p S ≡ true) × (c ≡ send p text msg_id)

module _ (j : Json) (env : Env) where
  abbrev pub pushed_text : TextChatMsgReq → Bytes
  pushed_text request = j.styled (build_text_notify_value j request)
