-- ===== src/MysqlDao.antt =====
-- ChatSever/MysqlDao.cpp: the operations that write several rows in one transaction (AddFriend,
-- SaveChatMsgs, CreateGroup), with the return of their connection (returnConnection of MysqlDao.h),
-- and the limit of GetChatMsgList. Preparing a statement and binding its values count as part of it.
-- The connection is a parameter: a statement throws or answers, and that may depend on all earlier
-- statements, newest first. What a statement does to the tables is MySQL's affair.
pub mod Rules
pub mod Atomic
use minichat.Base.{
  ℕ, Bool, true, false, Option, none, some, List, [], ◌∷◌, ◌++◌, Bytes, is_empty, ◌==◌, nat_eq, not,
  ◌||◌, if◌then◌else◌,
}
use minichat.Base.Int.{ℤ, pos, negsuc, int_eq, is_positive, leb_ℤ}
use minichat.Const.{chat_history_page_size, chat_history_max_limit}
use minichat.Persist.{ChatMsgInfo}

pub data Stmt : Type 0 where
  set_auto_commit : Bool → Stmt
  insert_friend : ℤ → ℤ → Bytes → Stmt
  insert_messages : List ChatMsgInfo → Stmt
  insert_group : Bytes → ℤ → Stmt
  last_insert_id : Stmt
  insert_member : ℤ → ℤ → Stmt
  commit : Stmt
  rollback : Stmt

-- What a statement gives: the exception, or its number (the affected rows, or the id).
pub record Connection : Type 0 where
  pub result : List Stmt → Stmt → Option ℤ
  -- getAutoCommit, by the statements so far
  pub auto_commit : List Stmt → Option Bool

-- The body of a try block: the statements so far, and its value unless it threw.
abbrev pub Run : Type 0 → Type 0
Run A = List Stmt → Option A × List Stmt

module _ (con : Connection) where
  abbrev pub execute : Stmt → Run ℤ
  execute s log = (con.result log s, s ∷ log)

  abbrev pub next : {A B : Type 0} → (A → Run B) → Option A × List Stmt → Option B × List Stmt
  next f (none, log) = (none, log)
  next f (some a, log) = f a log

  infixl 5 ◌>>=◌ ◌>>◌
  abbrev pub ◌>>=◌ : {A B : Type 0} → Run A → (A → Run B) → Run B
  ◌>>=◌ m f log = next f (m log)

  abbrev pub ◌>>◌ : {A B : Type 0} → Run A → Run B → Run B
  m >> k = m >>= λ _. k

  abbrev pub done : {A : Type 0} → A → Run A
  done a log = (some a, log)

  -- The catch block rolls back, then gives `otherwise`. An exception of the rollback leaves the
  -- function.
  abbrev pub caught : {A : Type 0} → A → Option A × List Stmt → Option A × List Stmt
  caught otherwise (some a, log) = (some a, log)
  caught otherwise (none, log) = next (λ _. done otherwise) (execute rollback log)

  -- returnConnection: an open transaction is rolled back, and exceptions are swallowed.
  abbrev pub restore : Option Bool → List Stmt → List Stmt
  restore none log = log
  restore (some true) log = log
  restore (some false) log = ((execute rollback >> execute (set_auto_commit true)) log).1

  unfoldable pub return_connection : List Stmt → List Stmt
  return_connection log = restore (con.auto_commit log) log

  -- A function with a Defer that returns its connection.
  abbrev pub returning : {A : Type 0} → Option A × List Stmt → Option A × List Stmt
  returning (a, log) = (a, return_connection log)

  -- A try block with its catch block, and the Defer; or the early return without a connection.
  abbrev pub transaction : {A : Type 0} → Bool → A → Run A → Run A
  transaction connected otherwise body log =
      if connected then returning (caught otherwise (body log)) else (some otherwise, log)

  -- rollback() and return in the try block, where no row was affected.
  abbrev pub unless_negative : ℤ → Run Bool → Run Bool
  unless_negative affected rest =
      if leb_ℤ (pos 0) affected then rest else (execute rollback >> done false)

  unfoldable pub add_friend_body : ℤ → ℤ → Bytes → Run Bool
  add_friend_body from to back_name = do
    execute (set_auto_commit false)
    affected ← execute (insert_friend from to back_name)
    unless_negative affected (do
      affected2 ← execute (insert_friend to from [])
      unless_negative affected2 (execute commit >> done true))

  unfoldable pub add_friend : Bool → ℤ → ℤ → Bytes → Run Bool
  add_friend connected from to back_name =
      transaction connected false (add_friend_body from to back_name)

  unfoldable pub save_chat_msgs_body : List ChatMsgInfo → Run Bool
  save_chat_msgs_body msgs = do
    execute (set_auto_commit false)
    execute (insert_messages msgs)
    execute commit
    done true

  unfoldable pub save_chat_msgs : Bool → List ChatMsgInfo → Run Bool
  save_chat_msgs connected msgs =
      if is_empty msgs then done true else transaction connected false (save_chat_msgs_body msgs)

  -- The loop over the members, without the owner.
  unfoldable pub insert_members : ℤ → ℤ → List ℤ → Run (Unit {0})
  insert_members group_id owner_uid [] = done tt
  insert_members group_id owner_uid (uid ∷ uids) =
      if uid == owner_uid
      then insert_members group_id owner_uid uids
      else (execute (insert_member group_id uid) >> insert_members group_id owner_uid uids)

  unfoldable pub create_group_body : Bytes → ℤ → List ℤ → Run ℤ
  create_group_body name owner_uid members = do
    execute (set_auto_commit false)
    execute (insert_group name owner_uid)
    group_id ← execute last_insert_id
    execute (insert_member group_id owner_uid)
    insert_members group_id owner_uid members
    execute commit
    done group_id

  unfoldable pub create_group : Bool → Bytes → ℤ → List ℤ → Run ℤ
  create_group connected name owner_uid members =
      transaction connected (negsuc 0) (create_group_body name owner_uid members)

-- The limit of GetChatMsgList.
unfoldable pub page_limit : ℤ → ℤ
page_limit limit =
    if not (is_positive limit) || not (leb_ℤ limit (pos chat_history_max_limit))
    then pos chat_history_page_size
    else limit
