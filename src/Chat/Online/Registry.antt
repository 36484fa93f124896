-- ===== src/Chat/Online/Registry.antt =====
-- The registry of a user's servers: its operations touch nothing but the user's key.
use minichat.Base.{◌≡◌, refl, List, Bytes, is_empty, bytes_eq, if◌then◌else◌}
use minichat.Base.Int.{ℤ}
use minichat.Chat.Json.{Json}
use minichat.Chat.World.{
  Env, Call, World, redis_get, redis_smembers, redis_sadd, redis_srem, redis_del, pure, ignore,
}
use minichat.Chat.Redis
use minichat.Chat.Redis.Answers.{
  IsUp, get-Returns, sadd-Returns, srem-Returns, smembers-Returns, del-Returns,
}
use minichat.Chat.Trace.{
  Returns, bind, branch, ignored, each-keeps, Framed, Framed-trans, Framed-call, called,
}
use minichat.Chat.Online.{
  user_ip_key, push_missing, without, get_online_servers, add_online_server, remove_online_server,
  sadd_each, rewrite_servers, from_string, parsed_servers,
}

-- A Redis command on the key.
abbrev pub OnKey : Bytes → Call → List Call → Type 0
OnKey key (redis_get k) cs = k ≡ key
OnKey key (redis_smembers k) cs = k ≡ key
OnKey key (redis_sadd k m) cs = k ≡ key
OnKey key (redis_srem k m) cs = k ≡ key
OnKey key (redis_del k) cs = k ≡ key
OnKey key _ cs = ⊥

module _ (j : Json) (env : Env) (up : IsUp env) (uid : ℤ) (w : World) where
  abbrev key : Bytes
  key = user_ip_key uid

  abbrev Kept : {A : Type 0} → A → World → Type 0
  Kept a w' = Framed (OnKey key) w w'

  from_string-Framed : (v : World) → Framed (OnKey key) w v → Returns (from_string j env uid) v Kept
  from_string-Framed v f =
      bind (Redis.get env key) (λ value. pure (parsed_servers j env value)) v Kept Kept
        (get-Returns env v up key Kept (λ _ _. Framed-call w v (redis_get key) refl f))
        (λ value v' f'. (_, v', refl, f'))

  -- GetOnlineServers asks Redis for the user's key and changes nothing.
  pub get_online_servers-Framed : Returns (get_online_servers j env uid) w Kept
  unfolding get_online_servers
  get_online_servers-Framed =
      bind (Redis.smembers env key)
        (λ servers. if is_empty servers then from_string j env uid else pure servers) w Kept Kept
        (smembers-Returns env w key Kept (λ _. called w (redis_smembers key) refl))
        (λ servers v f.
          branch (is_empty servers) (from_string j env uid) (pure servers) v Kept
            (λ _. from_string-Framed v f) (λ _. (servers, v, refl, f)))

module _ (j : Json) (env : Env) (up : IsUp env) (uid : ℤ) where
  abbrev K : Bytes
  K = user_ip_key uid

  rewrite_servers-Framed :
      (change : List Bytes → List Bytes) (w : World)
      → Returns (rewrite_servers j env uid change) w (λ _. Framed (OnKey K) w)
  rewrite_servers-Framed change w =
      bind (get_online_servers j env uid) _ w (λ _. Framed (OnKey K) w) (λ _. Framed (OnKey K) w)
        (get_online_servers-Framed j env up uid w)
        (λ servers v f.
          bind (ignore (Redis.del env K)) (λ _. sadd_each j env K (change servers)) v
            (λ _. Framed (OnKey K) w) (λ _. Framed (OnKey K) w)
            (ignored (Redis.del env K) v (Framed (OnKey K) w) (
              del-Returns env v K (λ _. Framed (OnKey K) w)
                (λ _. Framed-call w v (redis_del K) refl f)))
            (λ _ v' f'.
              each-keeps (Framed (OnKey K) w) (λ server. ignore (Redis.sadd env K server))
                (λ server u g. ignored (Redis.sadd env K server) u (Framed (OnKey K) w) (
                  sadd-Returns env u K server (λ _. Framed (OnKey K) w)
                    (λ _. Framed-call w u (redis_sadd K server) refl g)))
                (change servers) v' f'))

  -- RemoveOnlineServer issues commands on the user's key and nothing else.
  pub remove_online_server-Framed :
      (w : World) → Returns (remove_online_server j env uid) w (λ _. Framed (OnKey K) w)
  unfolding remove_online_server
  remove_online_server-Framed w =
      bind (Redis.srem env K env.self_name)
        (λ removed. if removed then pure tt else rewrite_servers j env uid (without env.self_name))
        w (λ _. Framed (OnKey K) w) (λ _. Framed (OnKey K) w)
        (srem-Returns env w K env.self_name (λ _. Framed (OnKey K) w)
          (λ _. called w (redis_srem K env.self_name) refl))
        (λ removed v f.
          branch removed (pure tt) (rewrite_servers j env uid (without env.self_name)) v
            (λ _. Framed (OnKey K) w) (λ _. (tt, v, refl, f))
            (λ _.
              let (a, v', e, g) = rewrite_servers-Framed (without env.self_name) v in
              (a, v', e, Framed-trans w v v' f g)))

  -- AddOnlineServer too.
  pub add_online_server-Framed :
      (w : World) → Returns (add_online_server j env uid) w (λ _. Framed (OnKey K) w)
  unfolding add_online_server
  add_online_server-Framed w =
      bind (Redis.sadd env K env.self_name)
        (λ added. if added then pure tt else rewrite_servers j env uid (push_missing env.self_name))
        w (λ _. Framed (OnKey K) w) (λ _. Framed (OnKey K) w)
        (sadd-Returns env w K env.self_name (λ _. Framed (OnKey K) w)
          (λ _. called w (redis_sadd K env.self_name) refl))
        (λ added v f.
          branch added (pure tt) (rewrite_servers j env uid (push_missing env.self_name)) v
            (λ _. Framed (OnKey K) w) (λ _. (tt, v, refl, f))
            (λ _.
              let (a, v', e, g) = rewrite_servers-Framed (push_missing env.self_name) v in
              (a, v', e, Framed-trans w v v' f g)))
