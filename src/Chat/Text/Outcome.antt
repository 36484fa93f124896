-- ===== src/Chat/Text/Outcome.antt =====
-- What becomes of a text message: delivered, or queued for the recipient, and never both.
use minichat.Base.{
  ◌≡◌, ◌≢◌, refl, sym, ap, ◌∙◌, subst, ℕ, Bool, true, false, ◌||◌, Option, none, some, List, [],
  ◌∷◌, Bytes, is_empty, contains, All, ◌==◌, bytes_eq, nat_eq, if◌then◌else◌, arith, Bool-cases,
  inl, inr,
}
use minichat.Base.Int.{ℤ}
use minichat.Const.ErrorCodes
use minichat.Const.MsgIds
use minichat.UserMgr.{SessionPtr, UserMgr, get_sessions}
use minichat.Chat.Json.{Json}
use minichat.Chat.World.{Env, TextChatMsgReq, World, grpc_text_msg, M, pure, each_flag}
use minichat.Chat.Redis.Answers.{IsUp, after}
use minichat.Chat.Trace.{
  Returns, bind, weaken, branch, each_flag-keeps, Since, Adds-any, Adds-Since, Since-map, now,
  Framed, Framed-refl, Framed-trans, Framed-call, Framed-map, called,
}
use minichat.Chat.Online.{user_ip_key, remove_online_server}
use minichat.Chat.Online.Registry.{OnKey, remove_online_server-Framed}
use minichat.Chat.Text.{
  reply_error, notify_text_chat_msg, send_each, withdraw, to_sessions, deliver_here, deliver_there,
  deliver_at, deliver_all,
}
use minichat.Chat.Text.Delivery.{
  Live, pushed, forwarded, Futile, registry, refused, Effort, useful, Tried, unreached, reached,
  Effort-of, more-Futile, PushTo, pushes, contains-All,
}

module _ (j : Json) (env : Env) (up : IsUp env) (users : UserMgr) (touid : ℤ) (notify : Bytes)
    (req : TextChatMsgReq) (w : World) (same_users : w.users ≡ users) where
  abbrev Loop : Bool → World → Type 0
  Loop = Tried env users touid notify req w

  abbrev E : World → World → Type 0
  E = Framed (Effort env users touid notify req)

  abbrev L : World → World → Type 0
  L u v = Since (Live env users touid notify req) u.calls v.calls

  head_live :
      (p : SessionPtr) (ps : List SessionPtr) (v v' : World)
      → contains p (get_sessions users touid) ≡ true
      → All (λ q. Since (PushTo env users touid notify req q) v.calls v'.calls) (p ∷ ps)
      → L v v'
  head_live p ps v v' c h =
      Since-map (PushTo env users touid notify req p) (Live env users touid notify req)
        (λ d cs e. pushed p c e) v.calls v'.calls h.0

  to_sessions-Tried :
      (p : SessionPtr) (ps : List SessionPtr) (flag : Bool) (v : World)
      → get_sessions users touid ≡ p ∷ ps
      → Loop flag v
      → Returns (to_sessions j env notify (p ∷ ps)) v Loop
  to_sessions-Tried p ps flag v s t =
      let inside =
        subst (λ S. All (λ q. contains q S ≡ true) (p ∷ ps)) (sym s)
          (contains-All (p ∷ ps) (p ∷ ps) (λ q e. e)) in
      let (u, v', e, (f, h)) = pushes env users touid notify req j (p ∷ ps) v inside in
      let before = Effort-of env users touid notify req w flag v t in
      bind (send_each j env notify MsgIds.notify_text_chat_msg_req (p ∷ ps)) (λ _. pure true) v
        (λ _. Loop true) Loop
        (
          u,
          v',
          e,
          reached refl (Framed-trans w v v' before f)
              (Adds-Since before.adds (head_live p ps v v' inside.0 h)),
        )
        (λ _ v'' t'. (true, v'', refl, t'))

  deliver_here-Tried :
      (flag : Bool) (v : World) (sessions : List SessionPtr)
      → get_sessions users touid ≡ sessions
      → Loop flag v
      → Returns
          (if is_empty sessions
            then withdraw j env touid flag
            else to_sessions j env notify sessions)
          v
          Loop
  deliver_here-Tried flag v [] s t =
      bind (remove_online_server j env touid) (λ _. pure flag) v (λ _. Loop flag) Loop
        (weaken (remove_online_server j env touid) v (λ _. Framed (OnKey (user_ip_key touid)) v)
          (λ _. Loop flag) (remove_online_server-Framed j env up touid v)
          (λ _ v' f. more-Futile env users touid notify req w flag v v' t (
            Framed-map (OnKey (user_ip_key touid)) (Futile env users touid notify req)
              (λ c cs h. registry h) v v' f)))
        (λ _ v' t'. (flag, v', refl, t'))
  deliver_here-Tried flag v (p ∷ ps) s t = to_sessions-Tried p ps flag v s t

  users_of : (flag : Bool) (v : World) → Loop flag v → v.users ≡ users
  users_of flag v t = (Effort-of env users touid notify req w flag v t).users_kept ∙ same_users

  answered :
      (server : Bytes) (flag : Bool) (v : World)
      → contains server env.peers ≡ true
      → Loop flag v
      → Loop
          (flag || reply_error j env (env.text_msg v.calls server req) == ErrorCodes.success)
          (after v (grpc_text_msg server req))
  answered server flag v known t =
      let good = reply_error j env (env.text_msg v.calls server req) == ErrorCodes.success in
      let c = grpc_text_msg server req in
      elim (Bool-cases good) [
        | inl e ↦
            let l : Live env users touid notify req c v.calls =
              forwarded server known refl (ok_of (env.text_msg v.calls server req) e) in
            let before = Effort-of env users touid notify req w flag v t in
            reached (or_true flag good e) (Framed-call w v c (useful l) before)
              (now c l (Adds-any before.adds))
        | inr e ↦
            subst (λ b. Loop b (after v c)) (sym (or_false flag good e))
              (more-Futile env users touid notify req w flag v (after v c) t
                (called v c (refused server refl (not_ok (env.text_msg v.calls server req) e))))
      ]
    where
      ok_of :
          (r : Option ℕ)
          → (reply_error j env r == ErrorCodes.success) ≡ true
          → r ≡ some ErrorCodes.success
      ok_of none e = ground arith
      ok_of (some x) e = ground arith

      not_ok :
          (r : Option ℕ)
          → (reply_error j env r == ErrorCodes.success) ≡ false
          → r ≢ some ErrorCodes.success
      not_ok none e h = cc
      not_ok (some x) e h = ground arith

      or_true : (a b : Bool) → b ≡ true → (a || b) ≡ true
      or_true a b e = ground arith

      or_false : (a b : Bool) → b ≡ false → (a || b) ≡ a
      or_false a b e = ground arith

  deliver_there-Tried :
      (server : Bytes) (make_req : M TextChatMsgReq) (flag : Bool) (v : World)
      → make_req v ≡ some (req, v)
      → Loop flag v
      → Returns (deliver_there j env server make_req flag) v Loop
  unfolding notify_text_chat_msg
  deliver_there-Tried server make_req flag v made t =
      elim (Bool-cases (contains server env.peers)) [
        | inl known ↦
            rw (made, known, notify_text_chat_msg)
              (_, after v (grpc_text_msg server req), refl, answered server flag v known t)
        | inr unknown ↦
            rw (made, unknown, notify_text_chat_msg)
              (_, v, refl, subst (λ b. Loop b v) (same_flag flag) t)
      ]
    where
      same_flag : (b : Bool) → b ≡ (b || ErrorCodes.rpc_failed == ErrorCodes.success)
      same_flag b = ground arith

  -- One server: the flag keeps its meaning.
  deliver_at-Tried :
      (make_req : M TextChatMsgReq)
      → ((v : World) → make_req v ≡ some (req, v))
      → (flag : Bool) (server : Bytes) (v : World) → Loop flag v
      → Returns (deliver_at j env touid notify make_req flag server) v Loop
  unfolding deliver_at
  deliver_at-Tried make_req makes flag server v t =
      branch (server == env.self_name) (deliver_here j env touid notify flag)
        (deliver_there j env server make_req flag) v Loop
        (λ _.
          deliver_here-Tried flag v (get_sessions v.users touid)
            (ap (λ us. get_sessions us touid) (sym (users_of flag v t))) t)
        (λ _. deliver_there-Tried server make_req flag v (makes v) t)

  -- The whole loop with what follows it.
  pub deliver_all-cases :
      (make_req : M TextChatMsgReq) (save : M (Unit {0})) (servers : List Bytes)
      (Q : World → Type 0)
      → ((v : World) → make_req v ≡ some (req, v))
      → ((v : World) → Framed (Futile env users touid notify req) w v → Returns save v (λ _. Q))
      → ((v : World) → E w v → L w v → Q v)
      → Returns (deliver_all j env touid notify make_req save servers) w (λ _. Q)
  deliver_all-cases make_req save servers Q makes missed hit =
      bind (each_flag false servers (deliver_at j env touid notify make_req))
        (λ delivered. if delivered then pure tt else save) w Loop (λ _. Q)
        (each_flag-keeps Loop (deliver_at j env touid notify make_req)
          (λ flag server v t. deliver_at-Tried make_req makes flag server v t) false servers w
          (unreached refl (Framed-refl w)))
        (λ delivered v t. ending delivered v t)
    where
      ending :
          (delivered : Bool) (v : World)
          → Loop delivered v
          → Returns (if delivered then pure tt else save) v (λ _. Q)
      ending true v (unreached e f) = cc
      ending true v (reached e f s) = (tt, v, refl, hit v f s)
      ending false v (unreached e f) = missed v f
      ending false v (reached e f s) = cc
