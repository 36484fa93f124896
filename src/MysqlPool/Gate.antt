-- ===== src/MysqlPool/Gate.antt =====
-- The pool of the gate, where it differs: getConnection of GateServer/MysqlDao.cpp gives up waiting
-- after three seconds and opens a connection of its own.
use minichat.Base.{
  ℕ, ◌≡◌, refl, Bool, true, false, Option, none, some, List, [], ◌∷◌, ◌++◌, is_empty, ◌||◌, not,
  if◌then◌else◌,
}
use minichat.MysqlPool.{SqlConnection, MysqlPool}

-- `reconnect`: a new connection, unless the driver throws.
unfoldable pub reconnect : ℕ → Option ℕ → MysqlPool → MysqlPool
reconnect timestamp none p = p
reconnect timestamp (some con) p = record p {
  pool = p.pool ++ record { con = con; last_oper_time = timestamp } ∷ [];
}

-- What follows the wait, with the mutex held.
unfoldable pub take_front : MysqlPool → List SqlConnection → MysqlPool × Option SqlConnection
take_front p [] = (p, none)
take_front p (c ∷ rest) = (record p { pool = rest }, some c)

unfoldable pub take_or_null : MysqlPool → MysqlPool × Option SqlConnection
take_or_null p = if p.stop then (p, none) else take_front p p.pool

-- `getConnection` from the end of its wait, where `p` is the pool: `others` is what the other threads
-- do before the mutex is held again.
unfoldable pub get_connection :
    ℕ → Option ℕ → (MysqlPool → MysqlPool) → MysqlPool → MysqlPool × Option SqlConnection
get_connection timestamp answer others p =
    if p.stop || not (is_empty p.pool)
    then take_or_null p
    else take_or_null (others (reconnect timestamp answer p))

-- What a call comes to, where `answer` is what the driver gives to a reconnect: the oldest idle
-- connection, the one that the driver has opened where none is idle, or null.
pub data Got (timestamp : ℕ) (answer : Option ℕ) (p : MysqlPool)
    : MysqlPool × Option SqlConnection → Type 0 where
  idle :
      (c : SqlConnection) (q : MysqlPool)
      → p.stop ≡ false
      → p.pool ≡ c ∷ q.pool
      → q.stop ≡ false
      → Got timestamp answer p (q, some c)
  made :
      (con : ℕ) (q : MysqlPool)
      → p.stop ≡ false
      → p.pool ≡ []
      → answer ≡ some con
      → q.pool ≡ []
      → q.stop ≡ false
      → Got timestamp answer p (q, some (record { con = con; last_oper_time = timestamp }))
  refused : p.stop ≡ false → p.pool ≡ [] → answer ≡ none → Got timestamp answer p (p, none)
  closed : p.stop ≡ true → Got timestamp answer p (p, none)

-- By the two tests of the wait, and by what the driver gives.
got :
    (timestamp : ℕ) (answer : Option ℕ) (p : MysqlPool) (b : Bool) (q : List SqlConnection)
    → p.stop ≡ b
    → p.pool ≡ q
    → Got timestamp answer p (get_connection timestamp answer (λ q. q) p)
unfolding get_connection take_or_null take_front reconnect
got timestamp answer p true q s e = simp (s) (closed s)
got timestamp none p false [] s e = simp (s, e) (refused s e refl)
got timestamp (some con) p false [] s e = simp (s, e) (made con _ s e refl refl refl)
got timestamp answer p false (c ∷ q) s e = simp (s, e) (idle c _ s e refl)

-- While no other thread comes between, a call on a pool that is not closed is answered by the oldest
-- idle connection; where none is idle, by the one connection that the driver opens for it, with the
-- time of the reconnect, and by null if the driver throws. A closed pool answers null. The connection
-- given is not in the pool any more, and null leaves the pool as it was.
pub get_connection-Got :
    (timestamp : ℕ) (answer : Option ℕ) (p : MysqlPool)
    → Got timestamp answer p (get_connection timestamp answer (λ q. q) p)
get_connection-Got timestamp answer p = got timestamp answer p p.stop p.pool refl refl
