-- ===== src/Chat/Text/Delivery.antt =====
-- The loop over the servers of a recipient: what it calls, and what its flag means.
use minichat.Base.{
  ◌≡◌, ◌≢◌, refl, Bool, true, false, some, List, [], ◌∷◌, Bytes, contains, All, bytes_eq, nat_eq,
  beq_refl, arith,
}
use minichat.Base.Int.{ℤ}
use minichat.Const.ErrorCodes
use minichat.Const.MsgIds
use minichat.UserMgr.{SessionPtr, UserMgr, get_sessions}
use minichat.Chat.Json.{Json}
use minichat.Chat.World.{Env, Call, TextChatMsgReq, World, grpc_text_msg, redis_rpush, send, each}
use minichat.Chat.Redis.Answers.{after}
use minichat.Chat.Trace.{
  Returns, Adds, same, more, Since, now, Adds-Since, Since-Adds, called, Framed, Framed-refl,
  Framed-trans, Framed-map,
}
use minichat.Chat.Online.{user_ip_key, offline_msg_key}
use minichat.Chat.Online.Registry.{OnKey}
use minichat.Chat.Text.{send_each}

module _ (env : Env) (users : UserMgr) (touid : ℤ) (notify : Bytes) (req : TextChatMsgReq) where
  -- A call that brings the message to a device: a push to a session of the recipient on this server,
  -- or a request that a peer has answered with success.
  pub data Live (c : Call) (cs : List Call) : Type 0 where
    pushed :
        (p : SessionPtr)
        → contains p (get_sessions users touid) ≡ true
        → c ≡ send p notify MsgIds.notify_text_chat_msg_req
        → Live c cs
    forwarded :
        (server : Bytes)
        → contains server env.peers ≡ true
        → c ≡ grpc_text_msg server req
        → env.text_msg cs server req ≡ some ErrorCodes.success
        → Live c cs

  -- A call that does not: a command on the recipient's registry key, or a request that failed.
  pub data Futile (c : Call) (cs : List Call) : Type 0 where
    registry : OnKey (user_ip_key touid) c cs → Futile c cs
    refused :
        (server : Bytes)
        → c ≡ grpc_text_msg server req
        → env.text_msg cs server req ≢ some ErrorCodes.success
        → Futile c cs

  pub data Effort (c : Call) (cs : List Call) : Type 0 where
    useful : Live c cs → Effort c cs
    useless : Futile c cs → Effort c cs

  -- How far the loop has come from the world w, with the value of `delivered`.
  pub data Tried (w : World) (delivered : Bool) (v : World) : Type 0 where
    unreached : delivered ≡ false → Framed Futile w v → Tried w delivered v
    reached :
        delivered ≡ true → Framed Effort w v → Since Live w.calls v.calls → Tried w delivered v

  -- What has become of the message: it was brought to some device and is not queued, or no call
  -- brought it anywhere and it was queued, once, at the end.
  pub data Settled (offline : Bytes) (w w' : World) : Type 0 where
    live : Framed Effort w w' → Since Live w.calls w'.calls → Settled offline w w'
    queued :
        (v : World)
        → Framed Futile w v
        → w' ≡ after v (redis_rpush (offline_msg_key touid) offline)
        → Settled offline w w'

  module _ (w : World) where
    pub Futile-Framed : (u v : World) → Framed Futile u v → Framed Effort u v
    Futile-Framed u v f = Framed-map Futile Effort (λ c cs h. useless h) u v f

    pub Effort-of : (flag : Bool) (v : World) → Tried w flag v → Framed Effort w v
    Effort-of flag v (unreached e f) = Futile-Framed w v f
    Effort-of flag v (reached e f s) = f

    pub more-Futile :
        (flag : Bool) (v v' : World) → Tried w flag v → Framed Futile v v' → Tried w flag v'
    more-Futile flag v v' (unreached e f) g = unreached e (Framed-trans w v v' f g)
    more-Futile flag v v' (reached e f s) g =
        reached e (Framed-trans w v v' f (Futile-Framed v v' g)) (Since-Adds s g.adds)

  -- A push to one session.
  abbrev pub PushTo : SessionPtr → Call → List Call → Type 0
  PushTo p c cs = c ≡ send p notify MsgIds.notify_text_chat_msg_req

  lift-All :
      (a b c : List Call)
      → Adds (λ _ _. Unit {0}) a b
      → (ps : List SessionPtr) → All (λ p. Since (PushTo p) b c) ps
      → All (λ p. Since (PushTo p) a c) ps
  lift-All a b c r [] h = tt
  lift-All a b c r (p ∷ ps) h = (Adds-Since r h.0, lift-All a b c r ps h.1)

  -- The loop over the sessions pushes to each of them.
  pub pushes :
      (j : Json) (sessions : List SessionPtr) (v : World)
      → All (λ p. contains p (get_sessions users touid) ≡ true) sessions
      → Returns
          (send_each j env notify MsgIds.notify_text_chat_msg_req sessions)
          v
          (λ _ v'. Framed Effort v v' × All (λ p. Since (PushTo p) v.calls v'.calls) sessions)
  unfolding each
  pushes j [] v a = (tt, v, refl, (Framed-refl v, tt))
  pushes j (p ∷ ps) v a =
      let c = send p notify MsgIds.notify_text_chat_msg_req in
      let (u, v', e, (g, rest)) = pushes j ps (after v c) a.1 in
      (
        u,
        v',
        e,
        (
          Framed-trans v (after v c) v' (called v c (useful (pushed p a.0 refl))) g,
          (
            Since-Adds (now c refl same) g.adds,
            lift-All v.calls (c ∷ v.calls) v'.calls (more c tt same) ps rest,
          ),
        ),
      )

pub contains-All :
    (S ps : List SessionPtr)
    → ((p : SessionPtr) → contains p ps ≡ true → contains p S ≡ true)
    → All (λ p. contains p S ≡ true) ps
unfolding contains
contains-All S [] h = tt
contains-All S (p ∷ ps) h =
    (h p (ground (arith, beq_refl p)), contains-All S ps (λ q e. h q (ground (arith, e))))
