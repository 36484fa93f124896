-- ===== src/Dao.antt =====
-- ChatSever/MysqlDao.cpp and GateServer/MysqlDao.cpp: how an operation uses its connection.
-- An operation takes a connection from the pool, prepares statements, reads the rows of a result
-- set and gives the connection back, by a Defer or by hand. `sql::SQLException` is the `none` of a
-- result. What MySQL answers is a parameter, and it may depend on all that happened before, newest
-- first; so is what getConnection returns, once it returns. minichat.MysqlPool is the pool itself.
-- Users has the operations on one user, Reports those that fill a vector, and Gate those of the
-- GateServer. A vector that the caller passes is taken to be empty at the call.
pub mod Users
pub mod Reports
pub mod Gate
pub mod Operations
pub mod Leases
pub mod Bodies
pub mod Returned
pub mod Pooled
pub mod Failures
pub mod Emails
pub mod Accounts
pub mod Registration
pub mod Paging
use Prim.Native.String.{String}
use minichat.Base.{ℕ, Bool, true, false, Option, none, some, List, [], ◌∷◌, ◌++◌, Bytes}
use minichat.Base.Int.{ℤ}

-- The value of a `?`: setInt, setInt64 or setString.
pub data Param : Type 0 where
  int : ℤ → Param
  text : Bytes → Param

-- A statement with its values, in the order of the `?`.
pub record Query : Type 0 where
  pub sql : String
  pub params : List Param

-- getString, getInt and getInt64 of one row, by the column; `none` is an exception.
pub record Row : Type 0 where
  pub get_string : String → Option Bytes
  pub get_int : String → Option ℤ
  pub get_int64 : String → Option ℤ

-- What `next()` finds: a row, the end, or an exception. `finished` has what the getters do at the end.
pub data ResultSet : Type 0 where
  finished : Row → ResultSet
  broken : ResultSet
  row : Row → ResultSet → ResultSet

-- What a connection does besides statements.
pub data Control : Type 0 where
  set_auto_commit : Bool → Control
  commit : Control
  rollback : Control

-- getConnection, a statement on a connection, a control of its transaction, returnConnection.
pub data Event : Type 0 where
  took : ℕ → Event
  sent : ℕ → Query → Event
  controlled : ℕ → Control → Event
  gave : ℕ → Event

-- `connection` is getConnection, where `none` is nullptr; `update` is execute and executeUpdate, with
-- the rows affected; `select` is executeQuery; `control` succeeds or throws.
pub record Database : Type 0 where
  pub connection : List Event → Option ℕ
  pub update : List Event → ℕ → Query → Option ℤ
  pub select : List Event → ℕ → Query → Option ResultSet
  pub control : List Event → ℕ → Control → Option (Unit {0})

-- A piece of an operation: its value, unless it threw, and what happened so far.
abbrev pub Dao : Type 0 → Type 0
Dao A = List Event → Option A × List Event

abbrev pub followed : {A B : Type 0} → (A → Dao B) → Option A × List Event → Option B × List Event
followed f (none, log) = (none, log)
followed f (some a, log) = f a log

infixl 5 ◌>>=◌ ◌>>◌
abbrev pub ◌>>=◌ : {A B : Type 0} → Dao A → (A → Dao B) → Dao B
◌>>=◌ m f log = followed f (m log)

abbrev pub ◌>>◌ : {A B : Type 0} → Dao A → Dao B → Dao B
m >> k = m >>= λ _. k

abbrev pub done : {A : Type 0} → A → Dao A
done a log = (some a, log)

-- The value of a getter.
abbrev pub or_throw : {A : Type 0} → Option A → Dao A
or_throw value log = (value, log)

-- `if (res->next())`: the row and the rest of the result set, or the getters at the end.
abbrev pub next : ResultSet → Dao (Option (Row × ResultSet))
next (finished at_end) log = (some none, log)
next broken log = (none, log)
next (row r rest) log = (some (some (r, rest)), log)

abbrev pub give_back : ℕ → Dao (Unit {0})
give_back con log = (some tt, gave con ∷ log)

-- A catch block that gives `otherwise`.
abbrev pub caught : {A : Type 0} → A → Option A × List Event → Option A × List Event
caught otherwise (none, log) = (some otherwise, log)
caught otherwise (some a, log) = (some a, log)

abbrev pub try_catch : {A : Type 0} → A → Dao A → Dao A
try_catch otherwise body log = caught otherwise (body log)

-- A catch block that gives the connection back before it gives `otherwise`.
abbrev pub caught_giving : {A : Type 0} → ℕ → A → Option A × List Event → Option A × List Event
caught_giving con otherwise (none, log) = (some otherwise, gave con ∷ log)
caught_giving con otherwise (some a, log) = (some a, log)

abbrev pub try_giving : {A : Type 0} → ℕ → A → Dao A → Dao A
try_giving con otherwise body log = caught_giving con otherwise (body log)

-- The Defer, which returns the connection on every way out.
abbrev pub given : {A : Type 0} → ℕ → Option A × List Event → Option A × List Event
given con (r, log) = (r, gave con ∷ log)

abbrev pub deferred : {A : Type 0} → ℕ → Dao A → Dao A
deferred con body log = given con (body log)

module _ (db : Database) where
  abbrev pub update : ℕ → Query → Dao ℤ
  update con q log = (db.update log con q, sent con q ∷ log)

  abbrev pub select : ℕ → Query → Dao ResultSet
  select con q log = (db.select log con q, sent con q ∷ log)

  abbrev pub control : ℕ → Control → Dao (Unit {0})
  control con c log = (db.control log con c, controlled con c ∷ log)

  abbrev pub on_connection :
      {A : Type 0} → A → (ℕ → Dao A) → List Event → Option ℕ → Option A × List Event
  on_connection otherwise body log none = (some otherwise, log)
  on_connection otherwise body log (some con) = body con (took con ∷ log)

  -- getConnection, with the early return for nullptr.
  abbrev pub with_connection : {A : Type 0} → A → (ℕ → Dao A) → Dao A
  with_connection otherwise body log = on_connection otherwise body log (db.connection log)

  -- getConnection, the Defer, and the try block with its catch block.
  abbrev pub leased : {A : Type 0} → A → (ℕ → Dao A) → Dao A
  leased otherwise body =
      with_connection otherwise (λ con. deferred con (try_catch otherwise (body con)))
