-- ===== src/Chat/Friends/Telling.antt =====
-- The loop that tells the recipient, on the devices of this server and by the peers.
use minichat.Base.{
  ◌≡◌, refl, ap, ◌∙◌, subst, true, ℕ, nat_eq, List, [], ◌∷◌, Bytes, ◌==◌, bytes_eq, contains,
  is_empty, All,
}
use minichat.Base.Int.{ℤ}
use minichat.UserMgr.{SessionPtr, UserMgr, get_sessions}
use minichat.Chat.Json.{Json}
use minichat.Chat.World.{Env, Call, World, send, pure, call, each}
use minichat.Chat.Redis.Answers.{IsUp, after}
use minichat.Chat.Trace.{
  Returns, weaken, branch, each-keeps, Framed, Framed-trans, Framed-call, Framed-map,
}
use minichat.Chat.Online.{user_ip_key, remove_online_server}
use minichat.Chat.Online.Registry.{OnKey, remove_online_server-Framed}
use minichat.Chat.Text.{send_each}
use minichat.Chat.Text.Delivery.{contains-All}
use minichat.Chat.Friends.{notify_here, notify_all}

-- `Notice` holds of the calls on the recipient's servers, of what is sent to the recipient's devices,
-- and of the request to a known peer.
module _ (j : Json) (env : Env) (up : IsUp env) (users : UserMgr) (touid : ℤ) (msg_id : ℕ)
    (text : Bytes) (Notice : Call → List Call → Type 0)
    (on_registry : (c : Call) (cs : List Call) → OnKey (user_ip_key touid) c cs → Notice c cs)
    (to_device : (p : SessionPtr) (cs : List Call)
      → contains p (get_sessions users touid) ≡ true
      → Notice (send p text msg_id) cs)
    (w : World) (same_users : w.users ≡ users) where
  abbrev pub Told : World → Type 0
  Told = Framed Notice w

  pushes-Told :
      (sessions : List SessionPtr)
      → All (λ p. contains p (get_sessions users touid) ≡ true) sessions
      → (v : World) → Told v
      → Returns (send_each j env text msg_id sessions) v (λ _. Told)
  unfolding each
  pushes-Told [] a v t = (tt, v, refl, t)
  pushes-Told (p ∷ ps) a v t =
      pushes-Told ps a.1 (after v (send p text msg_id)) (Framed-call w v _ (to_device p _ a.0) t)

  notify_here-Told :
      (v : World) → Told v → Returns (notify_here j env touid text msg_id) v (λ _. Told)
  notify_here-Told v t =
      let same : get_sessions v.users touid ≡ get_sessions users touid =
        ap (λ us. get_sessions us touid) (t.users_kept ∙ same_users) in
      let S = get_sessions v.users touid in
      branch (is_empty S) (remove_online_server j env touid) (send_each j env text msg_id S) v
        (λ _. Told)
        (λ _.
          weaken (remove_online_server j env touid) v (λ _. Framed (OnKey (user_ip_key touid)) v)
            (λ _. Told) (remove_online_server-Framed j env up touid v)
            (λ _ v' f.
              Framed-trans w v v' t
                (Framed-map (OnKey (user_ip_key touid)) Notice on_registry v v' f)))
        (λ _.
          pushes-Told S
            (subst (λ X. All (λ p. contains p X ≡ true) S) same (contains-All S S (λ q e. e))) v t)

  pub notify_all-Told :
      (remote : Bytes → Call) (servers : List Bytes)
      → ((server : Bytes) (cs : List Call)
          → contains server env.peers ≡ true
          → Notice (remote server) cs)
      → (v : World) → Told v
      → Returns (notify_all j env touid text msg_id remote servers) v (λ _. Told)
  unfolding notify_all
  notify_all-Told remote servers to_peer v t =
      each-keeps Told _
        (λ server u k.
          branch (server == env.self_name) (notify_here j env touid text msg_id) _ u (λ _. Told)
            (λ _. notify_here-Told u k)
            (λ _.
              branch (contains server env.peers) (call (remote server)) (pure tt) u (λ _. Told)
                (λ known. (tt, _, refl, Framed-call w u _ (to_peer server _ known) k))
                (λ _. (tt, u, refl, k))))
        servers v t
