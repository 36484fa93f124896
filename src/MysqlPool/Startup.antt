-- ===== src/MysqlPool/Startup.antt =====
-- The constructor of the chat server's pool (MySqlPool of ChatSever/MysqlDao.h) and its check thread.
use minichat.Base.{
  ℕ, zero, suc, ◌+◌, ◌≤◌, ◌≡◌, Bool, true, false, Option, none, some, List, [], ◌∷◌, ◌++◌, length,
  length-append, arith, leb, if◌then◌else◌,
}
use minichat.MysqlPool.{SqlConnection, MysqlPool}

abbrev pub no_connections : MysqlPool
no_connections = record { pool = []; fail_count = 0; stop = false }

-- The connections that the constructor opens, `n` of them unless one throws; the Boolean is whether
-- none does, and so whether the check thread is started. An answer is a
-- connection with the time of its opening.
unfoldable pub open_connections : ℕ → List (Option SqlConnection) → MysqlPool → MysqlPool × Bool
open_connections zero answers p = (p, true)
open_connections (suc n) [] p = (p, false)
open_connections (suc n) (none ∷ answers) p = (p, false)
open_connections (suc n) (some c ∷ answers) p =
    open_connections n answers (record p { pool = p.pool ++ c ∷ [] })

unfoldable pub mysql_pool : ℕ → List (Option SqlConnection) → MysqlPool × Bool
mysql_pool pool_size answers = open_connections pool_size answers no_connections

-- A turn of the check thread, a second long: it leaves the loop, or it runs checkConnectionPro when
-- the count has come to 60, or it does not; then it sleeps with the next count.
pub data Turn : Type 0 where
  stopped : Turn
  checks : ℕ → Turn
  sleeps : ℕ → Turn

unfoldable pub check_turn : MysqlPool → ℕ → Turn
check_turn p count =
    if p.stop then stopped else if leb 60 count then checks 1 else sleeps (suc count)

-- What the constructor leaves: the connections asked for, or fewer and no check thread.
pub data Opened (n : ℕ) (p : MysqlPool) : MysqlPool × Bool → Type 0 where
  opened : (q : MysqlPool) → length q.pool ≡ length p.pool + n → Opened n p (q, true)
  gave_up : (q : MysqlPool) → suc (length q.pool) ≤ length p.pool + n → Opened n p (q, false)

Opened-shift :
    (n : ℕ) (p : MysqlPool) (c : SqlConnection) (r : MysqlPool × Bool)
    → Opened n (record p { pool = p.pool ++ c ∷ [] }) r
    → Opened (suc n) p r
Opened-shift n p c _ (opened q e) = opened q (omega (arith, e, length-append p.pool (c ∷ [])))
Opened-shift n p c _ (gave_up q e) = gave_up q (omega (arith, e, length-append p.pool (c ∷ [])))

open_connections-Opened :
    (n : ℕ) (answers : List (Option SqlConnection)) (p : MysqlPool)
    → Opened n p (open_connections n answers p)
unfolding open_connections
open_connections-Opened zero answers p = opened p (omega arith)
open_connections-Opened (suc n) [] p = gave_up p (omega arith)
open_connections-Opened (suc n) (none ∷ answers) p = gave_up p (omega arith)
open_connections-Opened (suc n) (some c ∷ answers) p =
    Opened-shift n p c _ (open_connections-Opened n answers (record p { pool = p.pool ++ c ∷ [] }))

-- The constructor opens as many connections as it is asked for and starts the check thread, or it
-- opens fewer and starts none.
pub mysql_pool-Opened :
    (pool_size : ℕ) (answers : List (Option SqlConnection))
    → Opened pool_size no_connections (mysql_pool pool_size answers)
unfolding mysql_pool
mysql_pool-Opened pool_size answers = open_connections-Opened pool_size answers no_connections
