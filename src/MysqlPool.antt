-- ===== src/MysqlPool.antt =====
-- ChatSever/MysqlDao.h: the pool of database connections and its health check.
-- (GateServer/MysqlDao.cpp and StatusServer/MysqlDao.cpp have the same check in CheckConnectionPro.)
-- Each function below holds the mutex where it touches the pool; what other threads do between two
-- such sections, and the answers of the database, are arguments.
pub mod Conservation
pub mod Refresh
pub mod Startup
pub mod Gate
use minichat.Base.{
  ℕ, zero, suc, ◌+◌, ◌-◌, Bool, true, false, Option, none, some, List, [], ◌∷◌, ◌++◌, ltb, leb,
  ◌&&◌, if◌then◌else◌, length, is_empty,
}

-- SqlConnection: the handle, and `_last_oper_time`.
pub record SqlConnection : Type 0 where
  pub con : ℕ
  pub last_oper_time : ℕ

pub record MysqlPool : Type 0 where
  pub pool : List SqlConnection
  pub fail_count : ℕ
  pub stop : Bool

-- `getConnection`: `waits` while the pool is empty and not stopped.
pub data Taken : Type 0 where
  waits : Taken
  null : Taken
  taken : SqlConnection → MysqlPool → Taken

unfoldable pub take_front : MysqlPool → List SqlConnection → Taken
take_front p [] = waits
take_front p (c ∷ rest) = taken c (record p { pool = rest })

unfoldable pub get_connection : MysqlPool → Taken
unfolding take_front
get_connection p = if p.stop then null else take_front p p.pool

-- returnConnection; the rollback of an open transaction is the connection's own affair.
unfoldable pub return_connection : MysqlPool → SqlConnection → MysqlPool
return_connection p c = if p.stop then p else record p { pool = p.pool ++ c ∷ [] }

unfoldable pub close : MysqlPool → MysqlPool
close p = record p { stop = true }

-- Whether the probe is due: the last use is five seconds old.
abbrev pub is_due : ℕ → SqlConnection → Bool
is_due timestamp c = leb (c.last_oper_time + 5) timestamp

-- One connection in checkConnectionPro: it goes back to the pool, or is counted as failed.
unfoldable pub probe : ℕ → (ℕ → Bool) → MysqlPool → SqlConnection → MysqlPool
probe timestamp fails p c =
    if is_due timestamp c
    then if fails c.con
      then record p { fail_count = suc p.fail_count }
      else record p { pool = p.pool ++ record c { last_oper_time = timestamp } ∷ [] }
    else record p { pool = p.pool ++ c ∷ [] }

-- The pool with the connections that other threads have taken from it.
pub record Shared : Type 0 where
  pub idle : MysqlPool
  pub in_use : List SqlConnection

-- What another thread does while the check does not hold the mutex: it takes a connection, or it
-- gives back one of those in use, by its place.
pub data Other : Type 0 where
  take : Other
  give : ℕ → Other

abbrev pub took : Shared → Taken → Shared
took s waits = s
took s null = s
took s (taken c p) = record { idle = p; in_use = c ∷ s.in_use }

abbrev pub behind :
    SqlConnection
    → Option (SqlConnection × List SqlConnection)
    → Option (SqlConnection × List SqlConnection)
behind c none = none
behind c (some (d, rest)) = some (d, c ∷ rest)

-- The connection at a place, and the others.
unfoldable pub pick : ℕ → List SqlConnection → Option (SqlConnection × List SqlConnection)
pick n [] = none
pick zero (c ∷ cs) = some (c, cs)
pick (suc n) (c ∷ cs) = behind c (pick n cs)

abbrev pub gave : Shared → Option (SqlConnection × List SqlConnection) → Shared
gave s none = s
gave s (some (c, rest)) = record { idle = return_connection s.idle c; in_use = rest }

abbrev pub other_step : Shared → Other → Shared
other_step s take = took s (get_connection s.idle)
other_step s (give n) = gave s (pick n s.in_use)

unfoldable pub interfere : List Other → Shared → Shared
interfere [] s = s
interfere (o ∷ os) s = interfere os (other_step s o)

-- The loop of checkConnectionPro over `target_count` connections, which holds the mutex where it takes
-- a connection out and where it puts it back. The probe of a handle fails or not. In the iteration
-- with n to follow, `held n` is what other threads do during the probe, and `freed n` behind it.
unfoldable pub check_loop :
    ℕ → ℕ → (ℕ → Bool) → (ℕ → List Other) → (ℕ → List Other) → Shared → Shared
check_loop zero timestamp fails held freed s = s
check_loop (suc n) timestamp fails held freed s = elim s.idle.pool [
  | [] ↦ s
  | c ∷ rest ↦
      let probing = interfere (held n) (record s { idle = record s.idle { pool = rest } }) in
      check_loop n timestamp fails held freed
        (interfere (freed n) (record probing { idle = probe timestamp fails probing.idle c }))
]

-- The loop over `_fail_count`: one answer of `reconnect` for each attempt, until one fails, with what
-- other threads do behind it.
unfoldable pub reconnect_loop : ℕ → List (Option ℕ × List Other) → Shared → Shared
reconnect_loop timestamp [] s = s
reconnect_loop timestamp ((none, os) ∷ answers) s = s
reconnect_loop timestamp ((some con, os) ∷ answers) s =
    if ltb 0 s.idle.fail_count
    then reconnect_loop timestamp answers (
        interfere os (record s {
          idle = record s.idle {
            pool = s.idle.pool ++ record { con = con; last_oper_time = timestamp } ∷ [];
            fail_count = s.idle.fail_count - 1;
          };
        }))
    else s

-- `counted` is what other threads do between the reading of the size and the loop.
unfoldable pub check_connection_pro :
    ℕ
    → (ℕ → Bool)
    → List Other
    → (ℕ → List Other)
    → (ℕ → List Other)
    → List (Option ℕ × List Other)
    → Shared
    → Shared
check_connection_pro timestamp fails counted held freed answers s =
    reconnect_loop timestamp answers
      (check_loop (length s.idle.pool) timestamp fails held freed (interfere counted s))
