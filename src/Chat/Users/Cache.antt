-- ===== src/Chat/Users/Cache.antt =====
-- GetBaseInfo: what it finds, and the calls that it makes.
use minichat.Base.{◌≡◌, refl, sym, subst, Option, none, some, List, ◌∷◌, Bytes, bytes_eq}
use minichat.Base.Int.{ℤ}
use minichat.Chat.Json.{Json}
use minichat.Chat.Redis
use minichat.Chat.Redis.{caught, text_or_empty}
use minichat.Chat.World.{
  UserInfo, Env, Call, World, answer, redis_get, redis_set, mysql_get_user, pure, ignore,
}
use minichat.Chat.Redis.Answers.{IsUp, after, get-Returns, set-Returns}
use minichat.Chat.Trace.{Returns, bind, weaken, ignored, Framed, Framed-call}
use minichat.Chat.Users.{
  user_base_key, cached_text, read_user, load_user, base_info_of, get_base_info,
}

module _ (j : Json) (env : Env) where
  -- A text that is cached for the user has the members that GetBaseInfo reads.
  abbrev pub Readable : ℤ → Type 0
  Readable uid =
      (cs : List Call) (text : Bytes)
      → env.get cs (user_base_key uid) ≡ answer (some text)
      → (user : UserInfo) × ((v : World) → read_user j text v ≡ some (user, v))

  -- What GetBaseInfo finds in the world v, and the world that it leaves: a user that is cached, a user
  -- of whom MySQL has a row, which is cached then, or none when MySQL has none either.
  pub data Fetched (uid : ℤ) (v : World) : Option UserInfo → World → Type 0 where
    from_cache :
        (text : Bytes) (user : UserInfo)
        → env.get v.calls (user_base_key uid) ≡ answer (some text)
        → ((u : World) → read_user j text u ≡ some (user, u))
        → Fetched uid v (some user) (after v (redis_get (user_base_key uid)))
    from_row :
        (user : UserInfo)
        → env.get v.calls (user_base_key uid) ≡ answer none
        → env.get_user (redis_get (user_base_key uid) ∷ v.calls) uid ≡ some user
        → Fetched uid v (some user) (
            after
              (after (after v (redis_get (user_base_key uid))) (mysql_get_user uid))
              (redis_set (user_base_key uid) (cached_text j uid user)))
    unknown :
        env.get v.calls (user_base_key uid) ≡ answer none
        → env.get_user (redis_get (user_base_key uid) ∷ v.calls) uid ≡ none
        → Fetched uid v none (after (after v (redis_get (user_base_key uid))) (mysql_get_user uid))

module _ (j : Json) (env : Env) (up : IsUp env) (uid : ℤ) (readable : Readable j env uid) where
  loaded :
      (v : World) (row : Option UserInfo)
      → env.get v.calls (user_base_key uid) ≡ answer none
      → env.get_user (redis_get (user_base_key uid) ∷ v.calls) uid ≡ row
      → Returns
          (load_user j env (user_base_key uid) uid row)
          (after (after v (redis_get (user_base_key uid))) (mysql_get_user uid))
          (Fetched j env uid v)
  loaded v none e h = (_, _, refl, unknown e h)
  loaded v (some user) e h =
      let u = after (after v (redis_get (user_base_key uid))) (mysql_get_user uid) in
      let u' = after u (redis_set (user_base_key uid) (cached_text j uid user)) in
      bind (ignore (Redis.set env _ _)) (λ _. pure (some user)) u (λ _ x. x ≡ u')
        (Fetched j env uid v)
        (ignored (Redis.set env _ _) u (λ x. x ≡ u')
          (set-Returns env u up (user_base_key uid) (cached_text j uid user) (λ _ x. x ≡ u')
            (λ _. refl)))
        (λ _ v' q. (
          some user,
          v',
          refl,
          subst (Fetched j env uid v (some user)) (sym q) (from_row user e h),
        ))

  found :
      (v : World) (cached : Option Bytes)
      → env.get v.calls (user_base_key uid) ≡ answer cached
      → Returns
          (base_info_of j env (user_base_key uid) uid cached)
          (after v (redis_get (user_base_key uid)))
          (Fetched j env uid v)
  found v none e = loaded v (env.get_user (redis_get (user_base_key uid) ∷ v.calls) uid) e refl
  found v (some text) e =
      let (user, r) = readable v.calls text e in
      (
        some user,
        _,
        rw (r (after v (redis_get (user_base_key uid)))) refl,
        from_cache text user e r,
      )

  -- GetBaseInfo returns what is cached of the user or else in MySQL.
  pub get_base_info-Fetched :
      (v : World) → Returns (get_base_info j env (user_base_key uid) uid) v (Fetched j env uid v)
  unfolding get_base_info
  get_base_info-Fetched v =
      bind (Redis.get env (user_base_key uid)) (base_info_of j env (user_base_key uid) uid) v
        (λ cached v'.
          (env.get v.calls (user_base_key uid) ≡ answer cached)
          × (v' ≡ after v (redis_get (user_base_key uid))))
        (Fetched j env uid v) (get-Returns env v up (user_base_key uid) _ (λ cached e. (e, refl)))
        (λ cached v' p.
          subst
            (λ x.
              Returns (base_info_of j env (user_base_key uid) uid cached) x (Fetched j env uid v))
            (sym p.1) (found v cached p.0))

  pub Fetched-users :
      {v v' : World} {user : Option UserInfo} → Fetched j env uid v user v' → v'.users ≡ v.users
  Fetched-users (from_cache text user e r) = refl
  Fetched-users (from_row user e h) = refl
  Fetched-users (unknown e h) = refl

  module _ (P : Call → List Call → Type 0)
      (pget : (cs : List Call) → P (redis_get (user_base_key uid)) cs)
      (pset : (text : Bytes) (cs : List Call) → P (redis_set (user_base_key uid) text) cs)
      (pmysql : (cs : List Call) → P (mysql_get_user uid) cs) where
    Fetched-Framed :
        (w v : World) (user : Option UserInfo) (v' : World)
        → Framed P w v
        → Fetched j env uid v user v'
        → Framed P w v'
    Fetched-Framed w v _ _ k (from_cache text user e r) = Framed-call w v _ (pget v.calls) k
    Fetched-Framed w v _ _ k (from_row user e h) =
        Framed-call w _ _ (pset _ _)
          (Framed-call w _ _ (pmysql _) (Framed-call w v _ (pget v.calls) k))
    Fetched-Framed w v _ _ k (unknown e h) =
        Framed-call w _ _ (pmysql _) (Framed-call w v _ (pget v.calls) k)

    -- GetBaseInfo between other calls.
    pub get_base_info-Framed :
        (w v : World)
        → Framed P w v
        → Returns
            (get_base_info j env (user_base_key uid) uid)
            v
            (λ user v'. Framed P w v' × Fetched j env uid v user v')
    get_base_info-Framed w v k =
        weaken (get_base_info j env (user_base_key uid) uid) v (Fetched j env uid v)
          (λ user v'. Framed P w v' × Fetched j env uid v user v') (get_base_info-Fetched v)
          (λ user v' f. (Fetched-Framed w v user v' k f, f))
