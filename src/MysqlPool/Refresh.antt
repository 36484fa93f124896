-- ===== src/MysqlPool/Refresh.antt =====
-- The older check of the chat server's pool: checkConnection of ChatSever/MysqlDao.h, which replaces
-- a lost connection at once and holds the mutex all the time.
use minichat.Base.{
  ◌+◌, ◌<◌, ℕ, zero, suc, ◌≡◌, refl, ap, Bool, true, false, Option, none, some, List, [], ◌∷◌, ◌++◌,
  length, length-append, arith, if◌then◌else◌, Bool-cases, Option-cases, inl, inr, ◌∙◌, sym, subst,
  All, append-nil, append_assoc,
}
use minichat.MysqlPool.{SqlConnection, MysqlPool, is_due}

-- One iteration, and whether the loop goes on. An exception of the reconnect leaves the function after
-- the Defer has put the old connection back; `connect` gives the handle of a new connection.
unfoldable pub refresh :
    ℕ → (ℕ → Bool) → (ℕ → Option ℕ) → MysqlPool → SqlConnection → MysqlPool × Bool
refresh timestamp fails connect p c =
    if is_due timestamp c
    then if fails c.con
      then elim (connect c.con) [
        | none ↦ (record p { pool = p.pool ++ c ∷ [] }, false)
        | some con ↦ (
          record p { pool = p.pool ++ record { con = con; last_oper_time = timestamp } ∷ [] },
          true,
        )
      ]
      else (record p { pool = p.pool ++ record c { last_oper_time = timestamp } ∷ [] }, true)
    else (record p { pool = p.pool ++ c ∷ [] }, true)

-- What follows an iteration: the rest of the loop, or the exception.
unfoldable pub refreshed :
    (MysqlPool → Option (MysqlPool × Bool)) → MysqlPool × Bool → Option (MysqlPool × Bool)
refreshed rest (p, true) = rest p
refreshed rest (p, false) = some (p, false)

-- The loop over `poolsize` connections. `none` is `front()` of an empty queue, which is undefined;
-- the Boolean is false after an exception.
unfoldable pub refresh_loop :
    ℕ → ℕ → (ℕ → Bool) → (ℕ → Option ℕ) → MysqlPool → Option (MysqlPool × Bool)
refresh_loop zero timestamp fails connect p = some (p, true)
refresh_loop (suc n) timestamp fails connect p = elim p.pool [
  | [] ↦ none
  | c ∷ rest ↦
      refreshed (refresh_loop n timestamp fails connect)
        (refresh timestamp fails connect (record p { pool = rest }) c)
]

unfoldable pub check_connection :
    ℕ → (ℕ → Bool) → (ℕ → Option ℕ) → MysqlPool → Option (MysqlPool × Bool)
check_connection timestamp fails connect p = refresh_loop (length p.pool) timestamp fails connect p

-- The connections that are idle or wait for a reconnect.
abbrev pub size : MysqlPool → ℕ
size p = length p.pool + p.fail_count

-- A connection that the check of this moment need not probe.
abbrev pub IsFresh : ℕ → SqlConnection → Type 0
IsFresh timestamp c = timestamp < c.last_oper_time + 5

IsFresh-append :
    (timestamp : ℕ) (xs : List SqlConnection) (c : SqlConnection)
    → All (IsFresh timestamp) xs
    → IsFresh timestamp c
    → All (IsFresh timestamp) (xs ++ c ∷ [])
IsFresh-append timestamp [] c a f = (f, tt)
IsFresh-append timestamp (x ∷ xs) c a f = (a.0, IsFresh-append timestamp xs c a.1 f)

-- An iteration puts one connection back on every path, a fresh one unless an exception ends the loop.
data Put (timestamp : ℕ) (p : MysqlPool) : MysqlPool × Bool → Type 0 where
  put :
      (c : SqlConnection)
      → IsFresh timestamp c
      → Put timestamp p (record p { pool = p.pool ++ c ∷ [] }, true)
  put_old : (c : SqlConnection) → Put timestamp p (record p { pool = p.pool ++ c ∷ [] }, false)

refresh-Put :
    (timestamp : ℕ) (fails : ℕ → Bool) (connect : ℕ → Option ℕ) (p : MysqlPool) (c : SqlConnection)
    → Put timestamp p (refresh timestamp fails connect p c)
unfolding refresh
refresh-Put timestamp fails connect p c = elim (Bool-cases (is_due timestamp c)) [
  | inr early ↦ rw (early, refresh) (put c (ground (arith, early)))
  | inl due ↦ elim (Bool-cases (fails c.con)) [
    | inr good ↦
        rw (due, good, refresh) (put (record c { last_oper_time = timestamp }) (omega arith))
    | inl bad ↦ elim (Option-cases (connect c.con)) [
      | inl e ↦ rw (due, bad, e, refresh) (put_old c)
      | inr (con, e) ↦
          rw (due, bad, e, refresh)
            (put (record { con = con; last_oper_time = timestamp }) (omega arith))
    ]
  ]
]

-- What the check leaves: as many connections as before, none of them due unless a reconnect threw.
pub data Refreshed (timestamp : ℕ) (p : MysqlPool) : Option (MysqlPool × Bool) → Type 0 where
  refreshed_all :
      (q : MysqlPool)
      → size q ≡ size p
      → All (IsFresh timestamp) q.pool
      → Refreshed timestamp p (some (q, true))
  threw : (q : MysqlPool) → size q ≡ size p → Refreshed timestamp p (some (q, false))

-- A result about a pool of the same size is one about this pool.
Refreshed-resize :
    (timestamp : ℕ) (p p' : MysqlPool) (o : Option (MysqlPool × Bool))
    → size p' ≡ size p
    → Refreshed timestamp p' o
    → Refreshed timestamp p o
Refreshed-resize timestamp p p' _ e (refreshed_all q s a) = refreshed_all q (s ∙ e) a
Refreshed-resize timestamp p p' _ e (threw q s) = threw q (s ∙ e)

size-rotate :
    (p : MysqlPool) (c d : SqlConnection) (q : List SqlConnection)
    → p.pool ≡ c ∷ q
    → size (record p { pool = q ++ d ∷ [] }) ≡ size p
size-rotate p c d q e = omega (arith, ap length e, length-append q (d ∷ []))

-- The rest of the loop settles the pool whichever fresh connection the iteration puts back.
after-Refreshed :
    (timestamp : ℕ) (rest : MysqlPool → Option (MysqlPool × Bool)) (p : MysqlPool)
    (x : SqlConnection) (q : List SqlConnection) (r : MysqlPool × Bool)
    → p.pool ≡ x ∷ q
    → ((c : SqlConnection)
        → IsFresh timestamp c
        → Refreshed timestamp
            (record p { pool = q ++ c ∷ [] })
            (rest (record p { pool = q ++ c ∷ [] })))
    → Put timestamp (record p { pool = q }) r
    → Refreshed timestamp p (refreshed rest r)
unfolding refreshed
after-Refreshed timestamp rest p x q _ e h (put_old c) = threw _ (size-rotate p x c q e)
after-Refreshed timestamp rest p x q _ e h (put c f) =
    Refreshed-resize timestamp p _ _ (size-rotate p x c q e) (h c f)

refresh_loop-next :
    (n timestamp : ℕ) (fails : ℕ → Bool) (connect : ℕ → Option ℕ) (p : MysqlPool)
    (c : SqlConnection) (q : List SqlConnection)
    → p.pool ≡ c ∷ q
    → refresh_loop (suc n) timestamp fails connect p
      ≡ refreshed
          (refresh_loop n timestamp fails connect)
          (refresh timestamp fails connect (record p { pool = q }) c)
unfolding refresh_loop
refresh_loop-next n timestamp fails connect p c q e = rw (e, refresh_loop) refl

-- The loop over `xs`, with the fresh connections `ys` already put back behind them.
refresh_loop-Refreshed :
    (timestamp : ℕ) (fails : ℕ → Bool) (connect : ℕ → Option ℕ) (p : MysqlPool)
    (xs ys : List SqlConnection)
    → p.pool ≡ xs ++ ys
    → All (IsFresh timestamp) ys
    → Refreshed timestamp p (refresh_loop (length xs) timestamp fails connect p)
unfolding refresh_loop
refresh_loop-Refreshed timestamp fails connect p [] ys e a =
    refreshed_all p refl (subst (All (IsFresh timestamp)) (sym e) a)
refresh_loop-Refreshed timestamp fails connect p (x ∷ xs) ys e a =
    subst (Refreshed timestamp p)
      (sym (refresh_loop-next (length xs) timestamp fails connect p x (xs ++ ys) e))
      (after-Refreshed timestamp _ p x (xs ++ ys) _ e
        (λ c f.
          refresh_loop-Refreshed timestamp fails connect (record p { pool = (xs ++ ys) ++ c ∷ [] })
            xs (ys ++ c ∷ []) (append_assoc xs ys (c ∷ [])) (IsFresh-append timestamp ys c a f))
        (refresh-Put timestamp fails connect (record p { pool = xs ++ ys }) x))

-- Whatever probes fail and reconnects succeed, checkConnection never takes from an empty queue. It
-- keeps the number of connections, and leaves none that is due for a probe unless a reconnect threw.
pub check_connection-Refreshed :
    (timestamp : ℕ) (fails : ℕ → Bool) (connect : ℕ → Option ℕ) (p : MysqlPool)
    → Refreshed timestamp p (check_connection timestamp fails connect p)
unfolding check_connection
check_connection-Refreshed timestamp fails connect p =
    refresh_loop-Refreshed timestamp fails connect p p.pool [] (sym (append-nil p.pool)) tt
