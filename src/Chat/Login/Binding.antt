-- ===== src/Chat/Login/Binding.antt =====
-- LoginHandler: who is bound to a session, and when.
use minichat.Base.{
  ◌≡◌, sym, subst, ◌∷◌, refl, ap, ◌∙◌, Option, none, some, List, ◌++◌, Bytes, codes, ◌==◌, bytes_eq,
}
use minichat.Base.Int.{ℤ}
use minichat.Base.Decimal.{to_string}
use minichat.Const.Prefix
use minichat.Const.MsgIds
use minichat.UserMgr.{SessionPtr, set_user_session}
use minichat.Chat.Json.{Json, assigned, int_field, string_field}
use minichat.Chat.Redis
use minichat.Chat.Redis.{caught, text_or_empty}
use minichat.Chat.World.{
  UserInfo, Env, World, answer, redis_get, mysql_get_apply_list, mysql_get_friend_list, send,
}
use minichat.Chat.Redis.Answers.{IsUp, after}
use minichat.Chat.Trace.{Returns, bind, weaken, branch, followed_lem, called}
use minichat.Chat.Online.{offline_msg_key}
use minichat.Chat.Online.Registry.{add_online_server-Framed}
use minichat.Chat.Users.{user_base_key, get_base_info}
use minichat.Chat.Login.{
  login_fields, list_fields, bind_user, label_session, assign_user_id, pop_offline, count_login,
  logged_in, with_user, with_base_info, with_token, login_handler,
}
use minichat.Chat.Users.Cache.{Readable, Fetched, get_base_info-Framed}
use minichat.Chat.Login.Ending.{
  Kept, Bound, LoginEnd, no_token, wrong_token, no_user, logged, Counts, Kept-call,
  pop_offline-Kept, count_login-Kept,
}

module _ (j : Json) (env : Env) (up : IsUp env) where
  -- The session is bound, and the value has the data of the user.
  abbrev Entered : SessionPtr → ℤ → UserInfo → World → j.Value → World → Type 0
  Entered session uid user w value w' =
      (rest : List (Bytes × j.Value)) × (value
        ≡ assigned j j.null (login_fields j uid user ++ rest))
      × Bound session uid w w'

  -- The body of the handler once the user is known.
  logged_in-Entered :
      (session : SessionPtr) (uid : ℤ) (user : UserInfo)
      → Counts j env up
      → (w v : World) → Kept w v
      → Returns (logged_in j env session uid user) v (Entered session uid user w)
  unfolding label_session bind_user
  logged_in-Entered session uid user counts w v k =
      let v2 = after (after v (mysql_get_apply_list uid)) (mysql_get_friend_list uid) in
      bind (pop_offline j env 200 (offline_msg_key uid)) _ v2 (λ _. Kept w)
        (Entered session uid user w)
        (pop_offline-Kept j env up 200 (offline_msg_key uid) w v2
          (Kept-call j env up w _ _ (Kept-call j env up w v _ k)))
        (λ offline v3 k3.
          bind (count_login j env) _ v3 (λ _. Kept w) (Entered session uid user w)
            (count_login-Kept j env up counts w v3 k3)
            (λ _ v4 k4.
              let v5 : World = record v4 { user_ids = assign_user_id session uid v4.user_ids } in
              let (a, v6, e, f) = add_online_server-Framed j env up uid v5 in
              (
                _,
                record v6 { users = set_user_session v6.users uid (v6.uuids session) session },
                followed_lem _ e,
                (
                  list_fields j (env.get_apply_list v.calls uid)
                      (env.get_friend_list (mysql_get_apply_list uid ∷ v.calls) uid) offline,
                  refl,
                  record {
                    entered =
                        ap (λ us. set_user_session us uid (v6.uuids session) session)
                          (f.users_kept ∙ k4.users_kept)
                        ∙ ap (λ ids. set_user_session w.users uid (ids session) session)
                            (f.uuids_kept ∙ k4.uuids_kept);
                    labelled = f.ids_kept ∙ ap (assign_user_id session uid) k4.ids_kept;
                    sessions_kept = f.sessions_kept ∙ k4.sessions_kept;
                    uuids_kept = f.uuids_kept ∙ k4.uuids_kept;
                  },
                ),
              )))

  -- LoginHandler, for a request with its two members, while Redis answers and what it holds can be
  -- read. The session is bound to the user only if the token is the one that Redis holds and the user
  -- is known, to Redis or else to MySQL; then the reply has the data of this user. Otherwise no user,
  -- session or id changes and the reply has the code of what is missing. Every ending is followed by
  -- the reply.
  pub login_handler-LoginEnd :
      (session : SessionPtr) (msg_data : Bytes) (uid : ℤ) (token : Bytes) (stored : Option Bytes)
      (w : World)
      → int_field j (j.parse msg_data) (codes "uid") ≡ some uid
      → string_field j (j.parse msg_data) (codes "token") ≡ some token
      → env.get w.calls (Prefix.user_token ++ to_string uid) ≡ answer stored
      → Counts j env up
      → Readable j env uid
      → Returns (login_handler j env session msg_data) w (λ _ w'.
        (v : World) × (value : j.Value) × LoginEnd j env session uid token stored w value v
        × (w' ≡ after v (send session (j.styled value) MsgIds.chat_login_rsp)))
  unfolding login_handler minichat.Chat.Redis.get
  login_handler-LoginEnd session msg_data uid token stored w e1 e2 e3 counts readable =
      let (value, v, e, end) = body stored refl in
      (
        tt,
        after v (send session (j.styled value) MsgIds.chat_login_rsp),
        rw (e1, e2, e3) (followed_lem _ e),
        (v, value, end, refl),
      )
    where
      looked : World
      looked = after w (redis_get (Prefix.user_token ++ to_string uid))

      entered_end :
          stored ≡ some token
          → (user : UserInfo) (v : World) → Fetched j env uid looked (some user) v
          → (value : j.Value) (v' : World) → Entered session uid user w value v'
          → LoginEnd j env session uid token stored w value v'
      entered_end e user v f value v' (rest, q, b) =
          subst (λ x. LoginEnd j env session uid token stored w x v') (sym q)
            (logged user rest v v' e f b)

      known :
          stored ≡ some token
          → (user : Option UserInfo) (v : World) → Kept w v × Fetched j env uid looked user v
          → Returns (with_user j env session uid user) v (LoginEnd j env session uid token stored w)
      known e none v p = (_, v, refl, no_user v e p.1 p.0)
      known e (some user) v p =
          weaken (logged_in j env session uid user) v (Entered session uid user w)
            (LoginEnd j env session uid token stored w)
            (logged_in-Entered session uid user counts w v p.0)
            (λ value v' b. entered_end e user v p.1 value v' b)

      matched :
          stored ≡ some token
          → Returns
              (with_base_info j env session uid)
              looked
              (LoginEnd j env session uid token stored w)
      matched e =
          bind (get_base_info j env (user_base_key uid) uid) (with_user j env session uid) looked
            (λ user v. Kept w v × Fetched j env uid looked user v)
            (LoginEnd j env session uid token stored w)
            (get_base_info-Framed j env up uid readable (λ _ _. Unit {0}) (λ _. tt) (λ _ _. tt)
              (λ _. tt) w looked (called w _ tt))
            (known e)

      body :
          (stored' : Option Bytes)
          → stored ≡ stored'
          → Returns
              (with_token j env session uid token stored')
              looked
              (LoginEnd j env session uid token stored w)
      body none e = (_, _, refl, no_token looked e (called w _ tt))
      body (some other) e =
          branch (other == token) (with_base_info j env session uid) _ _
            (LoginEnd j env session uid token stored w)
            (λ yes. matched (e ∙ ap some ((bytes_eq.beq_iff other token).0 yes)))
            (λ no. (
              _,
              _,
              refl,
              wrong_token other looked e (λ q. cc (no, (bytes_eq.beq_iff other token).1 q))
                  (called w _ tt),
            ))
