-- ===== src/Chat/Redis/Answers.antt =====
-- What the Redis operations return: those that catch the client's exceptions always return, and the
-- others do while Redis answers.
use minichat.Base.{◌≡◌, refl, Bool, Option, List, ◌∷◌, Bytes, ltb}
use minichat.Chat.World.{
  Env, Call, World, Reply, answer, failure, redis_get, redis_set, redis_lpop, redis_rpush,
  redis_sadd, redis_srem, redis_smembers, redis_hset, redis_hget, redis_del,
}
use minichat.Chat.Redis.{or_raise, get, set, lpop, rpush, sadd, srem, smembers, hset, hget, del}
use minichat.Chat.Trace.{Returns}

abbrev pub Answers : {A : Type 0} → Reply A → Type 0
Answers {A} r = (a : A) × (r ≡ answer a)

-- Redis answers every command that RedisMgr does not guard by a catch.
pub record IsUp (env : Env) : Type 0 where
  pub gets : (cs : List Call) (key : Bytes) → Answers (env.get cs key)
  pub sets : (cs : List Call) (key value : Bytes) → Answers (env.set cs key value)
  pub lpops : (cs : List Call) (key : Bytes) → Answers (env.lpop cs key)
  pub rpushes : (cs : List Call) (key value : Bytes) → Answers (env.rpush cs key value)
  pub hsets : (cs : List Call) (key hkey value : Bytes) → Answers (env.hset cs key hkey value)

-- The world after one more call.
abbrev pub after : World → Call → World
after w c = record w { calls = c ∷ w.calls }

raised :
    {A : Type 0} (r : Reply A) (w : World) (Q : A → World → Type 0)
    → Answers r
    → ((a : A) → r ≡ answer a → Q a w)
    → Returns (or_raise r) w Q
raised (answer a) w Q h k = (a, w, refl, k a refl)
raised failure w Q (a, e) k = absurd (cc)

module _ (env : Env) (w : World) where
  module _ (up : IsUp env) where
    pub get-Returns :
        (key : Bytes) (Q : Option Bytes → World → Type 0)
        → ((v : Option Bytes) → env.get w.calls key ≡ answer v → Q v (after w (redis_get key)))
        → Returns (get env key) w Q
    unfolding get
    get-Returns key Q k =
        raised (env.get w.calls key) (after w (redis_get key)) Q (up.gets w.calls key) k

    pub lpop-Returns :
        (key : Bytes) (Q : Option Bytes → World → Type 0)
        → ((v : Option Bytes) → env.lpop w.calls key ≡ answer v → Q v (after w (redis_lpop key)))
        → Returns (lpop env key) w Q
    unfolding lpop
    lpop-Returns key Q k =
        raised (env.lpop w.calls key) (after w (redis_lpop key)) Q (up.lpops w.calls key) k

    pub set-Returns :
        (key value : Bytes) (Q : Bool → World → Type 0)
        → ((b : Bool) → Q b (after w (redis_set key value)))
        → Returns (set env key value) w Q
    unfolding set
    set-Returns key value Q k =
        raised (env.set w.calls key value) (after w (redis_set key value)) Q
          (up.sets w.calls key value) (λ b _. k b)

    pub rpush-Returns :
        (key value : Bytes) (Q : Bool → World → Type 0)
        → ((b : Bool) → Q b (after w (redis_rpush key value)))
        → Returns (rpush env key value) w Q
    unfolding rpush
    rpush-Returns key value Q k =
        let (n, e) = up.rpushes w.calls key value in
        (ltb 0 n, after w (redis_rpush key value), rw e refl, k _)

    pub hset-Returns :
        (key hkey value : Bytes) (Q : Bool → World → Type 0)
        → ((b : Bool) → Q b (after w (redis_hset key hkey value)))
        → Returns (hset env key hkey value) w Q
    unfolding hset
    hset-Returns key hkey value Q k =
        let (n, e) = up.hsets w.calls key hkey value in
        (ltb 0 n, after w (redis_hset key hkey value), rw e refl, k _)

  pub sadd-Returns :
      (key member : Bytes) (Q : Bool → World → Type 0)
      → ((b : Bool) → Q b (after w (redis_sadd key member)))
      → Returns (sadd env key member) w Q
  unfolding sadd
  sadd-Returns key member Q k = (_, _, refl, k _)

  pub srem-Returns :
      (key member : Bytes) (Q : Bool → World → Type 0)
      → ((b : Bool) → Q b (after w (redis_srem key member)))
      → Returns (srem env key member) w Q
  unfolding srem
  srem-Returns key member Q k = (_, _, refl, k _)

  pub smembers-Returns :
      (key : Bytes) (Q : List Bytes → World → Type 0)
      → ((ms : List Bytes) → Q ms (after w (redis_smembers key)))
      → Returns (smembers env key) w Q
  unfolding smembers
  smembers-Returns key Q k = (_, _, refl, k _)

  pub hget-Returns :
      (key hkey : Bytes) (Q : Bytes → World → Type 0)
      → ((v : Bytes) → Q v (after w (redis_hget key hkey)))
      → Returns (hget env key hkey) w Q
  unfolding hget
  hget-Returns key hkey Q k = (_, _, refl, k _)

  pub del-Returns :
      (key : Bytes) (Q : Bool → World → Type 0)
      → ((b : Bool) → Q b (after w (redis_del key)))
      → Returns (del env key) w Q
  unfolding del
  del-Returns key Q k = (_, _, refl, k _)
