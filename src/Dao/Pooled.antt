-- ===== src/Dao/Pooled.antt =====
-- The events of an operation on the chat server's pool, which serves it.
use minichat.Base.{
  ℕ, suc, ◌+◌, true, false, Option, List, [], ◌∷◌, ◌≡◌, ◌∙◌, ap, sym, arith, length, length-append,
}
use minichat.MysqlPool.{
  SqlConnection, MysqlPool, taken, take_front, get_connection, return_connection,
}
use minichat.Dao.{Query, Control, Event, took, sent, controlled, gave, Database}
use minichat.Dao.Operations.{Operation, of_chat_server, run}
use minichat.Dao.Leases.{Balanced, nothing, uses, controls, lease}
use minichat.Dao.Returned.{may_keep, run-Balanced}

-- What the events make of a pool while no other thread takes or returns a connection: each
-- connection that was taken is the one that getConnection took out.
pub data Replay (p : MysqlPool) : List Event → MysqlPool → Type 0 where
  start : Replay p [] p
  take :
      {log : List Event} {q q' : MysqlPool} (c : SqlConnection)
      → Replay p log q
      → get_connection q ≡ taken c q'
      → Replay p (took c.con ∷ log) q'
  send :
      {log : List Event} {q : MysqlPool} (con : ℕ) (s : Query)
      → Replay p log q
      → Replay p (sent con s ∷ log) q
  control :
      {log : List Event} {q : MysqlPool} (con : ℕ) (c : Control)
      → Replay p log q
      → Replay p (controlled con c ∷ log) q
  give :
      {log : List Event} {q : MysqlPool} (c : SqlConnection)
      → Replay p log q
      → Replay p (gave c.con ∷ log) (return_connection q c)

takes : List Event → ℕ
takes [] = 0
takes (took c ∷ log) = suc (takes log)
takes (sent c q ∷ log) = takes log
takes (controlled c x ∷ log) = takes log
takes (gave c ∷ log) = takes log

gives : List Event → ℕ
gives [] = 0
gives (took c ∷ log) = gives log
gives (sent c q ∷ log) = gives log
gives (controlled c x ∷ log) = gives log
gives (gave c ∷ log) = suc (gives log)

Balanced-count :
    {user : Option ℕ} {base log : List Event}
    → Balanced user base log
    → takes log + gives base ≡ gives log + takes base
unfolding takes gives
Balanced-count (nothing e) = rw e (omega arith)
Balanced-count (uses con q b) = Balanced-count b
Balanced-count (controls con c b) = Balanced-count b
Balanced-count (lease con b t) = omega (arith, Balanced-count b, Balanced-count t)

take_front-length :
    (q : MysqlPool) (cs : List SqlConnection) (c : SqlConnection) (q' : MysqlPool)
    → take_front q cs ≡ taken c q'
    → (suc (length q'.pool) ≡ length cs) × (q'.stop ≡ q.stop)
unfolding take_front
take_front-length q [] c q' h = cc
take_front-length q (x ∷ cs) c q' h =
    let e : record q { pool = cs } ≡ q' = cc in
    (ap (λ p. suc (length p.pool)) (sym e), ap (λ p. p.stop) (sym e))

get_connection-length :
    (q : MysqlPool) (c : SqlConnection) (q' : MysqlPool)
    → q.stop ≡ false
    → get_connection q ≡ taken c q'
    → (suc (length q'.pool) ≡ length q.pool) × (q'.stop ≡ false)
unfolding get_connection
get_connection-length q c q' s h =
    let front : take_front q q.pool ≡ taken c q' = ground (arith, s, h) in
    let (l, t) = take_front-length q q.pool c q' front in (l, t ∙ s)

return_connection-length :
    (q : MysqlPool) (c : SqlConnection)
    → q.stop ≡ false
    → (length (return_connection q c).pool ≡ suc (length q.pool))
      × ((return_connection q c).stop ≡ false)
unfolding return_connection
return_connection-length q c s = ground (arith, length-append q.pool (c ∷ []))

Replay-length :
    {p q : MysqlPool} {log : List Event}
    → p.stop ≡ false
    → Replay p log q
    → (length q.pool + takes log ≡ length p.pool + gives log) × (q.stop ≡ false)
unfolding takes gives
Replay-length s start = (omega arith, s)
Replay-length s (take {log} {q} {q'} c r e) =
    let (l, t) = Replay-length s r in
    let (m, u) = get_connection-length q c q' t e in (omega arith, u)
Replay-length s (send con q r) = Replay-length s r
Replay-length s (control con c r) = Replay-length s r
Replay-length s (give {log} {q} c r) =
    let (l, t) = Replay-length s r in
    let (m, u) = return_connection-length q c t in (omega arith, u)

-- After an operation of the chat server's MysqlDao that opens no transaction and is not CheckEmail,
-- run alone on a pool that is not closed, the pool has as many idle connections as before.
pub run-idle :
    (db : Database) (op : Operation) (p q : MysqlPool)
    → of_chat_server op ≡ true
    → may_keep op ≡ false
    → p.stop ≡ false
    → Replay p (run db op []).1 q
    → length q.pool ≡ length p.pool
unfolding takes gives
run-idle db op p q o k s r =
    omega (arith, (Replay-length s r).0, Balanced-count (run-Balanced db op [] k).0)
