-- ===== src/Chat/Redis.antt =====
-- ChatSever/RedisMgr.cpp: what each operation makes of the answer of the Redis client. Some catch the
-- client's exceptions, and some let them through, which ends the process.
pub mod Answers
use minichat.Base.{ℕ, Bool, true, false, Option, none, some, List, [], Bytes, ltb}
use minichat.Chat.World.{
  Env, Call, Reply, answer, failure, redis_get, redis_set, redis_auth, redis_lpush, redis_lpop,
  redis_rpush, redis_rpop, redis_sadd, redis_srem, redis_smembers, redis_hset, redis_hget,
  redis_hdel, redis_del, redis_exists, M, ◌>>=◌, ◌>>◌, pure, or_throw, ask,
}

-- An exception of the client that passes through.
abbrev pub or_raise : {A : Type 0} → Reply A → M A
or_raise (answer a) = pure a
or_raise failure = or_throw none

-- An exception that is caught, with the value that the handler returns.
abbrev pub caught : {A B : Type 0} → (A → B) → B → Reply A → B
caught f b (answer a) = f a
caught f b failure = b

abbrev pub text_or_empty : Option Bytes → Bytes
text_or_empty none = []
text_or_empty (some value) = value

module _ (env : Env) where
  unfoldable pub get : Bytes → M (Option Bytes)
  get key = do reply ← ask (redis_get key) (λ cs. env.get cs key); or_raise reply

  unfoldable pub set : Bytes → Bytes → M Bool
  set key value = do reply ← ask (redis_set key value) (λ cs. env.set cs key value); or_raise reply

  unfoldable pub auth : Bytes → M Bool
  auth password = do
    reply ← ask (redis_auth password) (λ cs. env.auth cs password)
    done ← or_raise reply
    pure true

  unfoldable pub lpush : Bytes → Bytes → M Bool
  lpush key value = do
    reply ← ask (redis_lpush key value) (λ cs. env.lpush cs key value)
    i ← or_raise reply
    pure (ltb 0 i)

  unfoldable pub lpop : Bytes → M (Option Bytes)
  lpop key = do reply ← ask (redis_lpop key) (λ cs. env.lpop cs key); or_raise reply

  unfoldable pub rpush : Bytes → Bytes → M Bool
  rpush key value = do
    reply ← ask (redis_rpush key value) (λ cs. env.rpush cs key value)
    i ← or_raise reply
    pure (ltb 0 i)

  unfoldable pub rpop : Bytes → M (Option Bytes)
  rpop key = do reply ← ask (redis_rpop key) (λ cs. env.rpop cs key); or_raise reply

  unfoldable pub sadd : Bytes → Bytes → M Bool
  sadd key member = do
    reply ← ask (redis_sadd key member) (λ cs. env.sadd cs key member)
    pure (caught (λ _. true) false reply)

  unfoldable pub srem : Bytes → Bytes → M Bool
  srem key member = do
    reply ← ask (redis_srem key member) (λ cs. env.srem cs key member)
    pure (caught (λ _. true) false reply)

  unfoldable pub smembers : Bytes → M (List Bytes)
  smembers key = do
    reply ← ask (redis_smembers key) (λ cs. env.smembers cs key)
    pure (caught (λ members. members) [] reply)

  -- HSet of three strings; the answer is the number of fields that are new.
  unfoldable pub hset : Bytes → Bytes → Bytes → M Bool
  hset key hkey value = do
    reply ← ask (redis_hset key hkey value) (λ cs. env.hset cs key hkey value)
    i ← or_raise reply
    pure (ltb 0 i)

  -- HSet of a buffer with its length.
  unfoldable pub hset_binary : Bytes → Bytes → Bytes → M Bool
  hset_binary key hkey hvalue = do
    reply ← ask (redis_hset key hkey hvalue) (λ cs. env.hset cs key hkey hvalue)
    pure (caught (λ _. true) false reply)

  unfoldable pub hget : Bytes → Bytes → M Bytes
  hget key hkey = do
    reply ← ask (redis_hget key hkey) (λ cs. env.hget cs key hkey)
    pure (caught text_or_empty [] reply)

  unfoldable pub hdel : Bytes → Bytes → M Bool
  hdel key hkey = do
    reply ← ask (redis_hdel key hkey) (λ cs. env.hdel cs key hkey)
    pure (caught (ltb 0) false reply)

  unfoldable pub del : Bytes → M Bool
  del key = do reply ← ask (redis_del key) (λ cs. env.del cs key); pure (caught (ltb 0) false reply)

  unfoldable pub exists_key : Bytes → M Bool
  exists_key key = do
    reply ← ask (redis_exists key) (λ cs. env.exists cs key)
    pure (caught (ltb 0) false reply)
