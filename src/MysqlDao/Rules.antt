-- ===== src/MysqlDao/Rules.antt =====
-- A try block with a commit at its end and a rollback in its catch block: the rules of proof for the
-- transactions of ChatSever/MysqlDao.cpp.
use minichat.Base.{
  ◌≡◌, refl, Bool, true, false, Option, none, some, List, ◌∷◌, ◌⊎◌, inl, inr, Option-cases,
}
use minichat.Base.Int.{ℤ, int_eq}
use minichat.MysqlDao.{
  Stmt, commit, rollback, Connection, Run, execute, next, done, caught, transaction,
  return_connection,
}

abbrev pub is_commit : Stmt → Bool
is_commit commit = true
is_commit _ = false

module _ (con : Connection) (base : List Stmt) where
  -- No commit has succeeded since `base`.
  pub data Uncommitted : List Stmt → Type 0 where
    nothing : Uncommitted base
    more :
        (s : Stmt) {log : List Stmt}
        → (is_commit s ≡ false) ⊎ (con.result log s ≡ none)
        → Uncommitted log
        → Uncommitted (s ∷ log)

  module _ {A : Type 0} (otherwise : A) (Complete : A → List Stmt → Type 0) where
    -- The end of a try block: it is complete, or it was rolled back, or it threw.
    pub data Body : Option A × List Stmt → Type 0 where
      complete : (a : A) (log : List Stmt) → Complete a log → Body (some a, log)
      given_up : (log : List Stmt) → Uncommitted log → Body (some otherwise, rollback ∷ log)
      threw : (log : List Stmt) → Uncommitted log → Body (none, log)

    -- The end of the function, in front of the return of the connection.
    pub data Atomic : Option A × List Stmt → Type 0 where
      committed : (a : A) (log : List Stmt) → Complete a log → Atomic (some a, log)
      undone : (log : List Stmt) → Uncommitted log → Atomic (some otherwise, rollback ∷ log)
      escaped :
          (log : List Stmt)
          → Uncommitted log
          → con.result log rollback ≡ none
          → Atomic (none, rollback ∷ log)

    caught-Atomic : (r : Option A × List Stmt) → Body r → Atomic (caught con otherwise r)
    caught-Atomic r (complete a log c) = committed a log c
    caught-Atomic r (given_up log u) = undone log u
    caught-Atomic r (threw log u) = elim (Option-cases (con.result log rollback)) [
      | inl e ↦ rw e (escaped log u e)
      | inr (n, e) ↦ rw e (undone log u)
    ]

    -- One more statement that is no commit.
    pub step_with :
        (s : Stmt) (k : ℤ → Run A) (log : List Stmt)
        → is_commit s ≡ false
        → Uncommitted log
        → ((n : ℤ) → con.result log s ≡ some n → Uncommitted (s ∷ log) → Body (k n (s ∷ log)))
        → Body (next con k (execute con s log))
    step_with s k log e u h = elim (Option-cases (con.result log s)) [
      | inl r ↦ rw r (threw (s ∷ log) (more s (inl e) u))
      | inr (n, r) ↦ rw r (h n r (more s (inl e) u))
    ]

    pub step :
        (s : Stmt) (k : ℤ → Run A) (log : List Stmt)
        → is_commit s ≡ false
        → Uncommitted log
        → ((n : ℤ) → Uncommitted (s ∷ log) → Body (k n (s ∷ log)))
        → Body (next con k (execute con s log))
    step s k log e u h = step_with s k log e u (λ n _ u'. h n u')

    pub finish :
        (a : A) (log : List Stmt)
        → Uncommitted log
        → ((n : ℤ) → con.result log commit ≡ some n → Complete a (commit ∷ log))
        → Body (next con (λ _. done con a) (execute con commit log))
    finish a log u c = elim (Option-cases (con.result log commit)) [
      | inl r ↦ rw r (threw (commit ∷ log) (more commit (inr r) u))
      | inr (n, r) ↦ rw r (complete a (commit ∷ log) (c n r))
    ]

    -- rollback() in the try block.
    pub roll :
        (log : List Stmt)
        → Uncommitted log
        → Body (next con (λ _. done con otherwise) (execute con rollback log))
    roll log u = elim (Option-cases (con.result log rollback)) [
      | inl r ↦ rw r (threw (rollback ∷ log) (more rollback (inl refl) u))
      | inr (n, r) ↦ rw r (given_up log u)
    ]

    -- Without a connection the function gives up at once; with one it is atomic, and the connection
    -- goes back whatever happened.
    abbrev pub Transaction : (Bool → Run A) → Type 0
    Transaction op =
        (op false base ≡ (some otherwise, base))
        × ((r : Option A × List Stmt) × Atomic r
            × (op true base ≡ (r.0, return_connection con r.1)))

    pub transaction-Transaction :
        (body : Run A)
        → Body (body base)
        → Transaction (λ connected. transaction con connected otherwise body)
    transaction-Transaction body b = (refl, (_, caught-Atomic (body base) b, refl))

module _ (con : Connection) (base : List Stmt) where
  -- The log is these statements and a commit that succeeded.
  abbrev pub CommittedOn : List Stmt → List Stmt → Type 0
  CommittedOn inserts log =
      (log ≡ commit ∷ inserts) × ((n : ℤ) × (con.result inserts commit ≡ some n))
