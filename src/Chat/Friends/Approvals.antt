-- ===== src/Chat/Friends/Approvals.antt =====
-- AuthFriendApply: what is recorded, who is notified, and what the user hears.
use minichat.Base.{
  ◌≡◌, refl, ap, ◌∙◌, true, Option, some, List, Bytes, codes, bytes_eq, nat_eq, contains, is_empty,
}
use minichat.Base.Int.{ℤ, int_eq}
use minichat.Const.MsgIds
use minichat.UserMgr.{SessionPtr, UserMgr, get_sessions}
use minichat.Chat.Json.{Json, int_field, string_field}
use minichat.Chat.World.{
  UserInfo, Env, Call, World, redis_get, redis_set, mysql_get_user, mysql_auth_friend_apply,
  mysql_add_friend, grpc_auth_friend, send, ◌>>◌, pure, call,
}
use minichat.Chat.Redis.Answers.{IsUp, after}
use minichat.Chat.Trace.{Returns, bind, followed_lem, weaken, branch, Framed, Framed-map}
use minichat.Chat.Online.{user_ip_key, get_online_servers}
use minichat.Chat.Online.Registry.{OnKey, get_online_servers-Framed}
use minichat.Chat.Users.{answering, user_base_key, get_base_info}
use minichat.Chat.Users.Cache.{
  Readable, Fetched, Fetched-users, get_base_info-Fetched, get_base_info-Framed,
}
use minichat.Chat.Friends.Telling.{notify_all-Told}
use minichat.Chat.Friends.{
  notify_auth, auth_value, auth_at, auth_body, auth_reply, auth_friend_apply,
}

module _ (j : Json) (env : Env) (users : UserMgr) (uid touid : ℤ) where
  -- A call of the notification: the user's data are loaded, the applicant's servers are read or
  -- corrected, and a device of the applicant, with these data, or a peer is told.
  pub data Approval (c : Call) (cs : List Call) : Type 0 where
    cache_read : c ≡ redis_get (user_base_key uid) → Approval c cs
    cache_filled : (text : Bytes) → c ≡ redis_set (user_base_key uid) text → Approval c cs
    row_read : c ≡ mysql_get_user uid → Approval c cs
    on_registry : OnKey (user_ip_key touid) c cs → Approval c cs
    to_device :
        (p : SessionPtr) (info : Option UserInfo) (x y : World)
        → contains p (get_sessions users touid) ≡ true
        → Fetched j env uid x info y
        → c ≡ send p (j.styled (auth_value j env uid touid info)) MsgIds.notify_auth_friend_req
        → Approval c cs
    to_peer :
        (server : Bytes)
        → contains server env.peers ≡ true
        → c ≡ grpc_auth_friend server uid touid
        → Approval c cs

  module _ (up : IsUp env) (w : World) (same_users : w.users ≡ users) where
    auth_at-Told :
        (servers : List Bytes)
        → Readable j env uid
        → (v : World) → Framed Approval w v
        → Returns (auth_at j env uid touid servers) v (λ _. Framed Approval w)
    auth_at-Told servers readable v t =
        branch (is_empty servers) (pure tt) (notify_auth j env uid touid servers) v
          (λ _. Framed Approval w) (λ _. (tt, v, refl, t))
          (λ _.
            bind (get_base_info j env (user_base_key uid) uid) _ v
              (λ user v'. Framed Approval w v' × Fetched j env uid v user v')
              (λ _. Framed Approval w)
              (get_base_info-Framed j env up uid readable Approval (λ cs. cache_read refl)
                (λ text cs. cache_filled text refl) (λ cs. row_read refl) w v t)
              (λ info v' p.
                notify_all-Told j env up users touid MsgIds.notify_auth_friend_req
                  (j.styled (auth_value j env uid touid info)) Approval (λ c cs h. on_registry h)
                  (λ q cs known. to_device q info v v' known p.1 refl) w same_users
                  (λ server. grpc_auth_friend server uid touid) servers
                  (λ server cs known. to_peer server known refl) v' p.0))

-- The two records of an approval.
abbrev pub recorded : World → ℤ → ℤ → Bytes → World
recorded u uid touid back_name =
    after (after u (mysql_auth_friend_apply uid touid)) (mysql_add_friend uid touid back_name)

module _ (j : Json) (env : Env) (up : IsUp env) where
  -- The body of the answer, from the loaded data on.
  body-Told :
      (u : World) (users : UserMgr) (uid touid : ℤ) (back_name : Bytes) (info : Option UserInfo)
      → u.users ≡ users
      → Readable j env uid
      → Returns (auth_body j env uid touid back_name info) u (λ x v.
        (x ≡ auth_reply j env touid info)
        × Framed (Approval j env users uid touid) (recorded u uid touid back_name) v)
  body-Told u users uid touid back_name info same readable =
      let w = recorded u uid touid back_name in
      bind (get_online_servers j env touid)
        (λ servers. auth_at j env uid touid servers >> pure (auth_reply j env touid info)) w
        (λ _. Framed (Approval j env users uid touid) w)
        (λ x v. (x ≡ auth_reply j env touid info) × Framed (Approval j env users uid touid) w v)
        (weaken (get_online_servers j env touid) w (λ _. Framed (OnKey (user_ip_key touid)) w)
          (λ _. Framed (Approval j env users uid touid) w)
          (get_online_servers-Framed j env up touid w)
          (λ _ v f.
            Framed-map (OnKey (user_ip_key touid)) (Approval j env users uid touid)
              (λ c cs h. on_registry h) w v f))
        (λ servers v t.
          bind (auth_at j env uid touid servers) (λ _. pure (auth_reply j env touid info)) v
            (λ _. Framed (Approval j env users uid touid) w)
            (λ x v'.
              (x ≡ auth_reply j env touid info) × Framed (Approval j env users uid touid) w v')
            (auth_at-Told j env users uid touid up w same servers readable v t)
            (λ _ v' t'. (auth_reply j env touid info, v', refl, (refl, t'))))

  -- AuthFriendApply, for a request with its members, while Redis answers and what it caches of both
  -- users can be read. The data of the applicant (`touid`) are loaded first: those in the cache, or else
  -- those of the row in MySQL, which are cached then. Next the application is marked as accepted and
  -- the friendship is recorded in MySQL, in this order and before anyone is told. Whom the handler
  -- tells then is the applicant only, on devices of the applicant with the loaded data of the user, or
  -- by peers; no user, session or id changes. Last, and whatever came of the notification, the user who
  -- accepted hears of success with the data of the applicant that were loaded, or of an unknown user
  -- where there are none.
  pub auth_friend_apply-Approval :
      (session : SessionPtr) (msg_data : Bytes) (uid touid : ℤ) (back_name : Bytes) (w : World)
      → int_field j (j.parse msg_data) (codes "fromuid") ≡ some uid
      → int_field j (j.parse msg_data) (codes "touid") ≡ some touid
      → string_field j (j.parse msg_data) (codes "back") ≡ some back_name
      → Readable j env uid
      → Readable j env touid
      → Returns (auth_friend_apply j env session msg_data) w (λ _ w'.
        (info : Option UserInfo) × (u : World) × (v : World) × Fetched j env touid w info u
        × Framed (Approval j env w.users uid touid) (recorded u uid touid back_name) v
        × (w'
            ≡ after v
                (send session (j.styled (auth_reply j env touid info)) MsgIds.auth_friend_rsp)))
  unfolding auth_friend_apply
  auth_friend_apply-Approval session msg_data uid touid back_name w e1 e2 e3 r1 r2 =
      let (info, u, e, f) = get_base_info-Fetched j env up touid r2 w in
      let (x, v, e', (q, t)) =
        body-Told u w.users uid touid back_name info (Fetched-users j env up touid r2 f) r1 in
      (
        tt,
        after v (send session (j.styled x) MsgIds.auth_friend_rsp),
        rw (e1, e2, e3)
            (followed_lem
                (λ i.
                  answering j session MsgIds.auth_friend_rsp
                    (auth_body j env uid touid back_name i))
                e
              ∙ followed_lem
                  (λ rtvalue. call (send session (j.styled rtvalue) MsgIds.auth_friend_rsp)) e'),
        (info, u, v, f, t, ap (λ y. after v (send session (j.styled y) MsgIds.auth_friend_rsp)) q),
      )
