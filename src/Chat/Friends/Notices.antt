-- ===== src/Chat/Friends/Notices.antt =====
-- AddFriendApply: what is recorded, who is notified, and what the applicant hears.
use minichat.Base.{
  ◌≡◌, refl, ap, true, Option, none, some, List, Bytes, codes, bytes_eq, nat_eq, contains, is_empty,
}
use minichat.Base.Int.{ℤ}
use minichat.Const.ErrorCodes
use minichat.Const.MsgIds
use minichat.UserMgr.{SessionPtr, UserMgr, get_sessions}
use minichat.Chat.Json.{Json, int_field, string_field}
use minichat.Chat.World.{
  UserInfo, AddFriendReq, Env, Call, World, redis_get, redis_set, mysql_get_user,
  mysql_add_friend_apply, grpc_add_friend, send, ◌>>◌, pure, call,
}
use minichat.Chat.Redis.Answers.{IsUp, after}
use minichat.Chat.Trace.{Returns, bind, followed_lem, weaken, branch, Framed, Framed-map}
use minichat.Chat.Online.{user_ip_key, get_online_servers}
use minichat.Chat.Online.Registry.{OnKey, get_online_servers-Framed}
use minichat.Chat.Users.{user_base_key, error_of, get_base_info}
use minichat.Chat.Users.Cache.{Readable, Fetched, get_base_info-Framed}
use minichat.Chat.Friends.Telling.{notify_all-Told}
use minichat.Chat.Friends.{add_req, notify_apply, apply_at, add_friend_apply}

module _ (env : Env) (users : UserMgr) (uid touid : ℤ) where
  -- A call of the notification: the applicant's data are read or cached, the recipient's servers are
  -- read or corrected, and a device of the recipient or a peer is told.
  pub data Notice (c : Call) (cs : List Call) : Type 0 where
    on_registry : OnKey (user_ip_key touid) c cs → Notice c cs
    cache_read : c ≡ redis_get (user_base_key uid) → Notice c cs
    cache_filled : (text : Bytes) → c ≡ redis_set (user_base_key uid) text → Notice c cs
    row_read : c ≡ mysql_get_user uid → Notice c cs
    to_device :
        (p : SessionPtr) (text : Bytes)
        → contains p (get_sessions users touid) ≡ true
        → c ≡ send p text MsgIds.notify_add_friend_req
        → Notice c cs
    to_peer :
        (server : Bytes) (req : AddFriendReq)
        → contains server env.peers ≡ true
        → req.applyuid ≡ uid
        → req.touid ≡ touid
        → c ≡ grpc_add_friend server req
        → Notice c cs

  module _ (j : Json) (up : IsUp env) (w : World) (same_users : w.users ≡ users) where
    abbrev Told : World → Type 0
    Told = Framed Notice w

    applyuid_of : (n : Bytes) (i : Option UserInfo) → (add_req j env uid touid n i).applyuid ≡ uid
    applyuid_of n none = refl
    applyuid_of n (some u) = refl

    touid_of : (n : Bytes) (i : Option UserInfo) → (add_req j env uid touid n i).touid ≡ touid
    touid_of n none = refl
    touid_of n (some u) = refl

    apply_at-Told :
        (applyname : Bytes) (servers : List Bytes)
        → Readable j env uid
        → (v : World) → Told v
        → Returns (apply_at j env uid touid applyname servers) v (λ _. Told)
    apply_at-Told applyname servers readable v t =
        branch (is_empty servers) (pure tt) (notify_apply j env uid touid applyname servers) v
          (λ _. Told) (λ _. (tt, v, refl, t))
          (λ _.
            bind (get_base_info j env (user_base_key uid) uid) _ v
              (λ user v'. Told v' × Fetched j env uid v user v') (λ _. Told)
              (get_base_info-Framed j env up uid readable Notice (λ cs. cache_read refl)
                (λ text cs. cache_filled text refl) (λ cs. row_read refl) w v t)
              (λ info v' p.
                notify_all-Told j env up users touid MsgIds.notify_add_friend_req _ Notice
                  (λ c cs h. on_registry h) (λ p cs known. to_device p _ known refl) w same_users
                  (λ server. grpc_add_friend server (add_req j env uid touid applyname info))
                  servers
                  (λ server cs known.
                    to_peer server _ known (applyuid_of applyname info) (touid_of applyname info)
                      refl)
                  v' p.0))

module _ (j : Json) (env : Env) (up : IsUp env) where
  -- AddFriendApply, for a request with its members, while Redis answers and what it caches of the
  -- applicant can be read. The application is recorded in MySQL before anything else. Then only the
  -- recipient is notified, on devices of the recipient or by peers; no user, session or id changes.
  -- Last, and whatever came of the notification, the applicant hears of success.
  pub add_friend_apply-Notice :
      (session : SessionPtr) (msg_data : Bytes) (uid touid : ℤ) (applyname bakname : Bytes)
      (w : World)
      → int_field j (j.parse msg_data) (codes "uid") ≡ some uid
      → string_field j (j.parse msg_data) (codes "applyname") ≡ some applyname
      → string_field j (j.parse msg_data) (codes "bakname") ≡ some bakname
      → int_field j (j.parse msg_data) (codes "touid") ≡ some touid
      → Readable j env uid
      → Returns (add_friend_apply j env session msg_data) w (λ _ w'.
        (v : World) × Framed
          (Notice env w.users uid touid)
          (after w (mysql_add_friend_apply uid touid))
          v
        × (w'
            ≡ after v (
                send session
                  (j.styled (j.set j.null (codes "error") (error_of j ErrorCodes.success)))
                  MsgIds.add_friend_rsp)))
  unfolding add_friend_apply
  add_friend_apply-Notice session msg_data uid touid applyname bakname w e1 e2 e3 e4 readable =
      let u = after w (mysql_add_friend_apply uid touid) in
      let V = j.set j.null (codes "error") (error_of j ErrorCodes.success) in
      let (x, v, e, (q, t)) =
        bind (get_online_servers j env touid)
          (λ servers. apply_at j env uid touid applyname servers >> pure V) u
          (λ _. Framed (Notice env w.users uid touid) u)
          (λ x v'. (x ≡ V) × Framed (Notice env w.users uid touid) u v')
          (weaken (get_online_servers j env touid) u (λ _. Framed (OnKey (user_ip_key touid)) u)
            (λ _. Framed (Notice env w.users uid touid) u)
            (get_online_servers-Framed j env up touid u)
            (λ _ v f.
              Framed-map (OnKey (user_ip_key touid)) (Notice env w.users uid touid)
                (λ c cs h. on_registry h) u v f))
          (λ servers v t.
            bind (apply_at j env uid touid applyname servers) (λ _. pure V) v
              (λ _. Framed (Notice env w.users uid touid) u)
              (λ x v'. (x ≡ V) × Framed (Notice env w.users uid touid) u v')
              (apply_at-Told env w.users uid touid j up u refl applyname servers readable v t)
              (λ _ v' t'. (V, v', refl, (refl, t')))) in
      (
        tt,
        after v (send session (j.styled x) MsgIds.add_friend_rsp),
        rw (e1, e2, e3, e4)
            (followed_lem (λ rtvalue. call (send session (j.styled rtvalue) MsgIds.add_friend_rsp))
              e),
        (v, t, ap (λ y. after v (send session (j.styled y) MsgIds.add_friend_rsp)) q),
      )
