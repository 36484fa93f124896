-- ===== src/Chat/Text/Handler.antt =====
-- DealChatTextMsg and DeliverWrappedToMember as wholes.
use minichat.Base.{
  ◌≡◌, refl, ◌∙◌, Bool, true, false, some, List, [], ◌∷◌, Bytes, codes, is_empty, All, bytes_eq,
  nat_eq, if◌then◌else◌,
}
use minichat.Base.Int.{ℤ}
use minichat.Const.MsgIds
use minichat.Persist.{make_session_id}
use minichat.UserMgr.{SessionPtr}
use minichat.Chat.Json.{Json, int_field}
use minichat.Chat.World.{Env, TextChatMsgReq, World, send, M, ◌>>=◌, pure, ignore}
use minichat.Chat.Redis
use minichat.Chat.Redis.Answers.{IsUp, after, rpush-Returns}
use minichat.Chat.Trace.{
  Returns, followed_lem, bind, branch, Since, Adds-Since, Framed, Framed-trans, Framed-map, ignored,
}
use minichat.Chat.Online.{user_ip_key, offline_msg_key, save_offline_text_msg, get_online_servers}
use minichat.Chat.Online.Registry.{OnKey, get_online_servers-Framed}
use minichat.Chat.Text.{
  text_req, text_value, chat_at, chat_text, deal_chat_text_msg, deliver_all, save_wrapped,
  wrapped_at, deliver_wrapped_to_member,
}
use minichat.Chat.Text.Delivery.{
  Futile, registry, Effort, Live, Settled, live, queued, Futile-Framed,
}
use minichat.Chat.Text.Outcome.{deliver_all-cases}
use minichat.Chat.Text.Texts.{IsText, text_msgs_lem, push_text_array_lem}
use minichat.Chat.Text.Promise.{
  chat_req, offline_text, chat_stored, wrapped_text, brought, lost, WrappedTo, Answered,
}

module _ (j : Json) (env : Env) (up : IsUp env) (uid touid : ℤ) (arrays : j.Value)
    (is_array : j.is_array arrays ≡ true) (texts : All (IsText j) (j.items arrays)) where
  open j use {Value, items, styled}

  abbrev req : TextChatMsgReq
  req = chat_req j uid touid arrays texts

  abbrev offline_copy : Bytes
  offline_copy = offline_text j uid touid arrays texts

  abbrev wrapped_copy : Bytes
  wrapped_copy = wrapped_text j uid touid arrays texts

  pub text_req_lem : (w : World) → text_req j uid touid arrays w ≡ some (req, w)
  text_req_lem w = rw (text_msgs_lem j (items arrays) texts w) refl

  -- The tail of both functions: the servers are known to be none, or the loop runs over them.
  module _ (notify offline : Bytes) (w : World) where
    abbrev Done : World → Type 0
    Done = Settled env w.users touid notify req offline w

    abbrev Way : World → Type 0
    Way v = Framed (OnKey (user_ip_key touid)) w v

    Futile-Way : (v : World) → Way v → Framed (Futile env w.users touid notify req) w v
    Futile-Way v f =
        Framed-map (OnKey (user_ip_key touid)) (Futile env w.users touid notify req)
          (λ c cs h. registry h) w v f

    -- The loop from a world behind the registry's commands, with what follows it.
    loop-Returns :
        (make_req : M TextChatMsgReq) (save : M (Unit {0})) (Q : World → Type 0)
        → ((u : World) → make_req u ≡ some (req, u))
        → ((u : World) → Framed (Futile env w.users touid notify req) w u → Returns save u (λ _. Q))
        → ((u : World)
            → Framed (Effort env w.users touid notify req) w u
            → Since (Live env w.users touid notify req) w.calls u.calls
            → Q u)
        → (servers : List Bytes) (v : World) → Way v
        → Returns
            (if is_empty servers
              then save
              else deliver_all j env touid notify make_req save servers)
            v
            (λ _. Q)
    loop-Returns make_req save Q makes missed hit servers v way =
        let far = Futile-Way v way in
        branch (is_empty servers) save (deliver_all j env touid notify make_req save servers) v
          (λ _. Q) (λ _. missed v far)
          (λ _.
            deliver_all-cases j env up w.users touid notify req v way.users_kept make_req save
              servers Q makes (λ u f. missed u (Framed-trans w v u far f))
              (λ u f l.
                hit u (Framed-trans w v u (Futile-Framed env w.users touid notify req w w v far) f)
                  (Adds-Since far.adds l)))

    save-Returns :
        (v : World)
        → Framed (Futile env w.users touid notify req) w v
        → Returns (ignore (Redis.rpush env (offline_msg_key touid) offline)) v (λ _. Done)
    save-Returns v f =
        ignored (Redis.rpush env (offline_msg_key touid) offline) v Done (
          rpush-Returns env v up (offline_msg_key touid) offline (λ _. Done) (λ _. queued v f refl))

  chat_at-Settled :
      (ack : Bytes) (w v : World)
      → Framed (OnKey (user_ip_key touid)) w v
      → (servers : List Bytes)
      → Returns
          (chat_at j env uid touid arrays ack servers)
          v
          (λ _. Settled env w.users touid ack req offline_copy w)
  unfolding save_offline_text_msg
  chat_at-Settled ack w v way [] =
      save-Returns ack offline_copy w v (Futile-Way ack offline_copy w v way)
  chat_at-Settled ack w v way (s ∷ ss) =
      let (a, w', e, q) =
        loop-Returns ack offline_copy w (pure req) (save_offline_text_msg j env uid touid arrays)
          (Settled env w.users touid ack req offline_copy w) (λ u. refl)
          (save-Returns ack offline_copy w) (λ u f l. live f l) (s ∷ ss) v way in
      (
        a,
        w',
        followed_lem
              (λ made.
                deliver_all j env touid ack (pure made)
                  (save_offline_text_msg j env uid touid arrays) (s ∷ ss))
              (text_req_lem v)
            ∙ e,
        q,
      )

  -- What DealChatTextMsg does behind the ACK: the texts are stored, and then the message has either
  -- reached a device of the recipient, or is in the recipient's queue; never both, never neither.
  pub chat_text-Settled :
      (ack : Bytes) (w : World)
      → Returns (chat_text j env uid touid arrays ack) w (λ _.
        Settled env
          (chat_stored j uid touid arrays texts w).users
          touid
          ack
          req
          offline_copy
          (chat_stored j uid touid arrays texts w))
  unfolding chat_text
  chat_text-Settled ack w =
      let v = chat_stored j uid touid arrays texts w in
      let (a, w', e, q) =
        bind (get_online_servers j env touid) (chat_at j env uid touid arrays ack) v
          (λ _ u. Framed (OnKey (user_ip_key touid)) v u)
          (λ _. Settled env v.users touid ack req offline_copy v)
          (get_online_servers-Framed j env up touid v)
          (λ servers u f. chat_at-Settled ack v u f servers) in
      (
        a,
        w',
        followed_lem (λ _. get_online_servers j env touid >>= chat_at j env uid touid arrays ack)
              (push_text_array_lem j arrays is_array texts (make_session_id uid touid) uid touid w)
            ∙ e,
        q,
      )

  save_wrapped-Returns :
      (allow_offline : Bool) (w v : World)
      → Framed (Futile env w.users touid wrapped_copy req) w v
      → Returns
          (save_wrapped j env touid wrapped_copy allow_offline)
          v
          (λ _. WrappedTo j uid touid arrays texts env allow_offline w)
  save_wrapped-Returns true w v f = save-Returns wrapped_copy wrapped_copy w v f
  save_wrapped-Returns false w v f = (tt, v, refl, lost f)

  wrapped_hit :
      (allow_offline : Bool) (w v : World)
      → Framed (Effort env w.users touid wrapped_copy req) w v
      → Since (Live env w.users touid wrapped_copy req) w.calls v.calls
      → WrappedTo j uid touid arrays texts env allow_offline w v
  wrapped_hit true w v f l = live f l
  wrapped_hit false w v f l = brought f l

  -- DeliverWrappedToMember, for an array of well-formed texts, while Redis answers. With
  -- allow_offline the message has either reached a device of the member and is not queued, or no
  -- attempt succeeded and it is queued exactly once. Without it the message has reached a device, or
  -- no attempt succeeded and it is dropped, and it is never queued.
  pub deliver_wrapped_to_member-WrappedTo :
      (allow_offline : Bool) (w : World)
      → Returns
          (deliver_wrapped_to_member j env uid touid arrays allow_offline)
          w
          (λ _. WrappedTo j uid touid arrays texts env allow_offline w)
  unfolding deliver_wrapped_to_member
  deliver_wrapped_to_member-WrappedTo allow_offline w =
      bind (get_online_servers j env touid)
        (wrapped_at j env uid touid arrays wrapped_copy allow_offline) w
        (λ _ u. Framed (OnKey (user_ip_key touid)) w u)
        (λ _. WrappedTo j uid touid arrays texts env allow_offline w)
        (get_online_servers-Framed j env up touid w)
        (λ servers u f.
          loop-Returns wrapped_copy wrapped_copy w (text_req j uid touid arrays)
            (save_wrapped j env touid wrapped_copy allow_offline)
            (WrappedTo j uid touid arrays texts env allow_offline w) text_req_lem
            (save_wrapped-Returns allow_offline w) (wrapped_hit allow_offline w) servers u f)

module _ (j : Json) (env : Env) where
  open j use {Value, parse, member, items, styled}

  -- DealChatTextMsg, for a message with well-formed members, while Redis answers. The sender gets the
  -- ACK first, and the texts are stored, unless there are none. After that the message has either
  -- reached a device of the recipient (a push to a session on this server, or a request that a peer
  -- answered with success) and is not queued, or no attempt succeeded and it is queued for the
  -- recipient exactly once. No user, session or id changes.
  pub deal_chat_text_msg-Settled :
      (up : IsUp env) (session : SessionPtr) (msg_data : Bytes) (uid touid : ℤ) (arrays : Value)
      (w : World)
      → int_field j (parse msg_data) (codes "fromuid") ≡ some uid
      → int_field j (parse msg_data) (codes "touid") ≡ some touid
      → member (parse msg_data) (codes "text_array") ≡ some arrays
      → (is_array : j.is_array arrays ≡ true) → (texts : All (IsText j) (items arrays))
      → Returns
          (deal_chat_text_msg j env session msg_data)
          w
          (λ _. Answered j uid touid arrays texts env session w)
  unfolding deal_chat_text_msg
  deal_chat_text_msg-Settled up session msg_data uid touid arrays w e1 e2 e3 is_array texts =
      rw (e1, e2, e3)
        (chat_text-Settled j env up uid touid arrays is_array texts
          (styled (text_value j uid touid arrays))
          (after w
            (send session (styled (text_value j uid touid arrays)) MsgIds.text_chat_msg_rsp)))
