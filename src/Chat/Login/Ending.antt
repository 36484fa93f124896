-- ===== src/Chat/Login/Ending.antt =====
-- LoginHandler: its possible endings, and the parts that bind nobody.
use minichat.Base.{
  ◌≡◌, ◌≢◌, ◌++◌, refl, ℕ, zero, suc, Option, none, some, List, [], Bytes, bytes_eq,
}
use minichat.Base.Int.{ℤ, increment}
use minichat.Base.Decimal.{to_string}
use minichat.Const.Prefix
use minichat.UserMgr.{SessionPtr, set_user_session}
use minichat.Const.ErrorCodes
use minichat.Chat.Json.{Json, assigned}
use minichat.Chat.Users.Cache.{Fetched}
use minichat.Chat.Redis
use minichat.Chat.Redis.{caught, text_or_empty}
use minichat.Chat.World.{UserInfo, Env, Call, World, redis_get, redis_hget, ◌>>=◌, pure}
use minichat.Chat.Redis.Answers.{IsUp, after, lpop-Returns, hset-Returns}
use minichat.Chat.Trace.{Returns, bind, ignored, Framed, Framed-call}
use minichat.Chat.Login.{
  login_failed, unknown_user, login_fields, offline_item, assign_user_id, or_stop, pop_offline,
  login_count, count_login,
}

-- Calls have been added, and nothing else has changed.
abbrev pub Kept : World → World → Type 0
Kept = Framed (λ _ _. Unit {0})

-- The session is entered for the user and carries the user's id, and nothing else has changed.
pub record Bound (session : SessionPtr) (uid : ℤ) (w w' : World) : Type 0 where
  pub entered : w'.users ≡ set_user_session w.users uid (w.uuids session) session
  pub labelled : w'.user_ids ≡ assign_user_id session uid w.user_ids
  pub sessions_kept : w'.sessions ≡ w.sessions
  pub uuids_kept : w'.uuids ≡ w.uuids

-- What LoginHandler leaves and the value that it replies, where the user's token in Redis is
-- `stored`. A user is known who is in the cache or else in MySQL, looked up behind the token.
pub data LoginEnd (j : Json) (env : Env) (session : SessionPtr) (uid : ℤ) (token : Bytes)
    (stored : Option Bytes) (w : World) : j.Value → World → Type 0 where
  no_token :
      (w' : World)
      → stored ≡ none
      → Kept w w'
      → LoginEnd j env session uid token stored w (login_failed j ErrorCodes.uid_invalid) w'
  wrong_token :
      (other : Bytes) (w' : World)
      → stored ≡ some other
      → other ≢ token
      → Kept w w'
      → LoginEnd j env session uid token stored w (login_failed j ErrorCodes.token_invalid) w'
  no_user :
      (w' : World)
      → stored ≡ some token
      → Fetched j env uid (after w (redis_get (Prefix.user_token ++ to_string uid))) none w'
      → Kept w w'
      → LoginEnd j env session uid token stored w (unknown_user j) w'
  logged :
      (user : UserInfo) (rest : List (Bytes × j.Value)) (u w' : World)
      → stored ≡ some token
      → Fetched j env uid (after w (redis_get (Prefix.user_token ++ to_string uid))) (some user) u
      → Bound session uid w w'
      → LoginEnd j env session uid token stored w
          (assigned j j.null (login_fields j uid user ++ rest))
          w'

module _ (j : Json) (env : Env) (up : IsUp env) where
  pub Kept-call : (w v : World) (c : Call) → Kept w v → Kept w (after v c)
  Kept-call w v c k = Framed-call w v c tt k

  -- At most n messages are taken from the queue, and nothing else changes.
  pub pop_offline-Kept :
      (n : ℕ) (key : Bytes) (w v : World)
      → Kept w v
      → Returns (pop_offline j env n key) v (λ _. Kept w)
  unfolding pop_offline
  pop_offline-Kept zero key w v k = ([], v, refl, k)
  pop_offline-Kept (suc n) key w v k =
      bind (Redis.lpop env key) _ v (λ _. Kept w) (λ _. Kept w)
        (lpop-Returns env v up key (λ _. Kept w) (λ _ _. Framed-call w v _ tt k))
        (λ popped u k'. rest (λ u' k''. pop_offline-Kept n key w u' k'') popped u k')
    where
      rest :
          ((u : World) → Kept w u → Returns (pop_offline j env n key) u (λ _. Kept w))
          → (popped : Option Bytes) (u : World) → Kept w u
          → Returns
              (or_stop j env
                (λ text. pop_offline j env n key >>= (λ items. pure (offline_item j text items)))
                popped)
              u
              (λ _. Kept w)
      rest go none u k' = ([], u, refl, k')
      rest go (some text) u k' =
          bind (pop_offline j env n key) (λ items. pure (offline_item j text items)) u (λ _. Kept w)
            (λ _. Kept w) (go u k') (λ items u' k''. (_, u', refl, k''))

  -- The counter in Redis is absent or a number that can be incremented.
  abbrev pub Counts : Type 0
  Counts =
      (cs : List Call)
      → (n : ℤ) × (m : ℤ) × (login_count j env
            (caught text_or_empty [] (env.hget cs Prefix.login_count env.self_name))
          ≡ some n)
        × (increment n ≡ some m)

  pub count_login-Kept :
      Counts → (w v : World) → Kept w v → Returns (count_login j env) v (λ _. Kept w)
  unfolding count_login minichat.Chat.Redis.hget
  count_login-Kept counts w v k =
      let (n, m, e, e') = counts v.calls in
      let u = after v (redis_hget Prefix.login_count env.self_name) in
      let (a, u', e'', k') =
        ignored (Redis.hset env Prefix.login_count env.self_name (to_string m)) u (Kept w) (
          hset-Returns env u up Prefix.login_count env.self_name (to_string m) (λ _. Kept w)
            (λ _. Kept-call w u _ (Kept-call w v _ k))) in
      (a, u', rw (e, e') e'', k')
