-- ===== src/Dao/Failures.antt =====
-- What the operations answer without a connection, and when the database is away.
use minichat.Base.{ℕ, none, some, List, ◌∷◌, ◌≡◌, ◌⊎◌, inl, inr, Option-cases}
use minichat.Dao.{Query, Event, took, Database}
use minichat.Dao.Users
use minichat.Dao.Reports
use minichat.Dao.Gate
use minichat.Dao.Operations.{
  Operation, reg_user, check_email, update_pwd, check_pwd, add_friend_apply, auth_friend_apply,
  get_user, get_user_named, get_apply_list, get_friend_list, get_chat_msg_list, get_user_groups,
  get_group_members, is_group_member, gate_check_email, gate_check_pwd, test_procedure, run,
  unavailable, failed,
}

module _ (db : Database) (log : List Event) where
  run-unavailable :
      (op : Operation) → db.connection log ≡ none → run db op log ≡ (some (unavailable op), log)
  unfolding Users.reg_user Users.check_email Users.update_pwd Users.check_pwd Users.add_friend_apply
      Users.auth_friend_apply Users.get_user Users.get_user_named Reports.get_apply_list
      Reports.get_friend_list Reports.get_chat_msg_list Reports.get_user_groups
      Reports.get_group_members Reports.is_group_member Gate.check_email Gate.check_pwd
      Gate.test_procedure
  run-unavailable (reg_user name email pwd) e = rw e
  run-unavailable (check_email name email) e = rw e
  run-unavailable (update_pwd name newpwd) e = rw e
  run-unavailable (check_pwd name pwd) e = rw e
  run-unavailable (add_friend_apply from to) e = rw e
  run-unavailable (auth_friend_apply from to) e = rw e
  run-unavailable (get_user uid) e = rw e
  run-unavailable (get_user_named name) e = rw e
  run-unavailable (get_apply_list touid begin limit) e = rw e
  run-unavailable (get_friend_list self_id) e = rw e
  run-unavailable (get_chat_msg_list session_id last_id limit) e = rw e
  run-unavailable (get_user_groups uid) e = rw e
  run-unavailable (get_group_members group_id) e = rw e
  run-unavailable (is_group_member group_id uid) e = rw e
  run-unavailable (gate_check_email name email) e = rw e
  run-unavailable (gate_check_pwd email pwd) e = rw e
  run-unavailable (test_procedure email) e = rw e

  module _ (con : ℕ) (update : (q : Query) → db.update (took con ∷ log) con q ≡ none)
      (select : (q : Query) → db.select (took con ∷ log) con q ≡ none) where
    run-failed :
        (op : Operation) → db.connection log ≡ some con → (run db op log).0 ≡ some (failed op)
    unfolding Users.reg_user Users.reg_user_body Users.check_email Users.check_email_body
        Users.update_pwd Users.update_pwd_body Users.check_pwd Users.check_pwd_body
        Users.add_friend_apply Users.add_friend_apply_body Users.auth_friend_apply
        Users.auth_friend_apply_body Users.get_user Users.get_user_named Users.get_user_body
        Reports.get_apply_list Reports.get_friend_list Reports.get_chat_msg_list
        Reports.history_body Reports.get_user_groups Reports.get_group_members
        Reports.is_group_member Reports.is_group_member_body Reports.fill Gate.check_email
        Gate.check_pwd Gate.check_pwd_body Gate.test_procedure Gate.test_procedure_body
    run-failed (reg_user name email pwd) e = rw (e, update)
    run-failed (check_email name email) e = rw (e, select)
    run-failed (update_pwd name newpwd) e = rw (e, update)
    run-failed (check_pwd name pwd) e = rw (e, select)
    run-failed (add_friend_apply from to) e = rw (e, update)
    run-failed (auth_friend_apply from to) e = rw (e, update)
    run-failed (get_user uid) e = rw (e, select)
    run-failed (get_user_named name) e = rw (e, select)
    run-failed (get_apply_list touid begin limit) e = rw (e, select)
    run-failed (get_friend_list self_id) e = rw (e, select)
    run-failed (get_chat_msg_list session_id last_id limit) e = rw (e, select)
    run-failed (get_user_groups uid) e = rw (e, select)
    run-failed (get_group_members group_id) e = rw (e, select)
    run-failed (is_group_member group_id uid) e = rw (e, select)
    run-failed (gate_check_email name email) e = rw (e, select)
    run-failed (gate_check_pwd email pwd) e = rw (e, select)
    run-failed (test_procedure email) e = rw (e, update)

-- While every statement on a fresh connection throws, an operation that opens no transaction, so none
-- of AddFriend, SaveChatMsgs, CreateGroup and RegUserTransaction, has one of two ends:
-- there is no connection, it touches nothing, and it answers 0, false, null, or an empty vector with
-- false; or it took a connection, and answers the same, but RegUser -1 instead of 0.
pub run-away :
    (db : Database) (log : List Event) (op : Operation)
    → ((con : ℕ) (q : Query) → db.update (took con ∷ log) con q ≡ none)
    → ((con : ℕ) (q : Query) → db.select (took con ∷ log) con q ≡ none)
    → ((db.connection log ≡ none) × (run db op log ≡ (some (unavailable op), log)))
      ⊎ ((con : ℕ) × (db.connection log ≡ some con) × ((run db op log).0 ≡ some (failed op)))
run-away db log op update select = elim (Option-cases (db.connection log)) [
  | inl e ↦ inl (e, run-unavailable db log op e)
  | inr (con, e) ↦ inr (con, e, run-failed db log con (update con) (select con) op e)
]
