-- ===== src/Dao/Returned.antt =====
-- Every operation without a transaction answers, and gives its connection back.
use minichat.Base.{
  ℕ, Bool, true, false, Option, none, some, List, [], ◌≡◌, refl, sym, ap, fun_ext, subst, inl, inr,
  Option-cases,
}
use minichat.Base.Int.{pos, negsuc}
use minichat.Dao.{
  Event, Database, Dao, caught, caught_giving, given, deferred, try_catch, with_connection, leased,
  try_giving,
}
use minichat.Dao.Users
use minichat.Dao.Reports
use minichat.Dao.Gate
use minichat.Dao.Operations.{
  Operation, reg_user, check_email, update_pwd, check_pwd, add_friend_apply, auth_friend_apply,
  get_user, get_user_named, get_apply_list, get_friend_list, get_chat_msg_list, get_user_groups,
  get_group_members, is_group_member, gate_check_email, gate_check_pwd, test_procedure, Answer, run,
}
use minichat.Dao.Leases.{Balanced, nothing, Uses, Gives, Uses-leased, Uses-giving}
use minichat.Dao.Bodies.{
  uses_rules, user_by_uid-Uses, user_by_name-Uses, reg_user_body-Gives, update_pwd_body-Gives,
  get_user_body-Uses, check_pwd_body-Uses, gate_check_pwd_body-Uses, test_procedure_body-Uses,
  fill-Uses, history_body-Uses, friend_row-Uses, add_friend_apply_body-Uses,
  auth_friend_apply_body-Uses, is_group_member_body-Uses,
}

-- The operation returns a value, wherever it is called.
pub record Answers {A : Type 0} (m : Dao A) : Type 0 where
  pub at : (log : List Event) → (a : A) × ((m log).0 ≡ some a)

module _ {A : Type 0} (otherwise : A) where
  given-some :
      (con : ℕ) (r : Option A × List Event)
      → (a : A) × ((given con (caught otherwise r)).0 ≡ some a)
  given-some con (none, log) = (otherwise, refl)
  given-some con (some a, log) = (a, refl)

  caught_giving-some :
      (con : ℕ) (r : Option A × List Event) → (a : A) × ((caught_giving con otherwise r).0 ≡ some a)
  caught_giving-some con (none, log) = (otherwise, refl)
  caught_giving-some con (some a, log) = (a, refl)

  -- The Defer in the try block, or the try block under the Defer.
  caught-given :
      (con : ℕ) (r : Option A × List Event)
      → caught otherwise (given con r) ≡ given con (caught otherwise r)
  caught-given con (none, log) = refl
  caught-given con (some a, log) = refl

-- The discipline, and an answer.
record Safe {A : Type 0} (user : Option ℕ) (m : Dao A) : Type 0 where
  uses : Uses user m
  answers : Answers m

module _ (db : Database) {A : Type 0} where
  with_connection-Answers :
      (otherwise : A) (body : ℕ → Dao A)
      → ((con : ℕ) → Answers (body con))
      → Answers (with_connection db otherwise body)
  with_connection-Answers otherwise body h = record {
    at = λ log. elim (Option-cases (db.connection log)) [
      | inl e ↦ rw e (otherwise, refl)
      | inr (con, e) ↦ rw e ((h con).at _)
    ];
  }

  leased-Answers : (otherwise : A) (body : ℕ → Dao A) → Answers (leased db otherwise body)
  leased-Answers otherwise body =
      with_connection-Answers otherwise (λ con. deferred con (try_catch otherwise (body con)))
        (λ con. record { at = λ log. given-some otherwise con (body con log) })

  giving-Answers :
      (otherwise on_throw : A) (body : ℕ → Dao A)
      → Answers (with_connection db otherwise (λ con. try_giving con on_throw (body con)))
  giving-Answers otherwise on_throw body =
      with_connection-Answers otherwise (λ con. try_giving con on_throw (body con))
        (λ con. record { at = λ log. caught_giving-some on_throw con (body con log) })

  Safe-leased :
      {user : Option ℕ} (otherwise : A) (body : ℕ → Dao A)
      → ((con : ℕ) → Uses (some con) (body con))
      → Safe user (leased db otherwise body)
  Safe-leased otherwise body h = record {
    uses = Uses-leased db otherwise body h;
    answers = leased-Answers otherwise body;
  }

  Safe-giving :
      {user : Option ℕ} (otherwise on_throw : A) (body : ℕ → Dao A)
      → ((con : ℕ) → Gives con (body con))
      → Safe user (with_connection db otherwise (λ con. try_giving con on_throw (body con)))
  Safe-giving otherwise on_throw body h = record {
    uses = Uses-giving db otherwise on_throw body h;
    answers = giving-Answers otherwise on_throw body;
  }

-- The operations that may keep the connection.
abbrev pub may_keep : Operation → Bool
may_keep (check_email name email) = true
may_keep (gate_check_email name email) = true
may_keep op = false

-- In whatever code it is called, and whatever the database answers, the operation follows the
-- discipline.
run-Safe :
    (db : Database) (op : Operation) {user : Option ℕ} → may_keep op ≡ false → Safe user (run db op)
unfolding Users.reg_user Users.update_pwd Users.check_pwd Users.add_friend_apply
    Users.auth_friend_apply Users.get_user Users.get_user_named Reports.get_apply_list
    Reports.get_friend_list Reports.get_chat_msg_list Reports.get_user_groups
    Reports.get_group_members Reports.is_group_member Gate.check_pwd Gate.test_procedure
run-Safe db (reg_user name email pwd) k =
    Safe-giving db (pos 0) (negsuc 0) _ (reg_user_body-Gives db name email pwd)
run-Safe db (check_email name email) k = absurd (cc)
run-Safe db (update_pwd name newpwd) k =
    Safe-giving db false false _ (update_pwd_body-Gives db name newpwd)
run-Safe db (check_pwd name pwd) k = Safe-leased db none _ (check_pwd_body-Uses db name pwd)
run-Safe db (add_friend_apply from to) k =
    Safe-leased db false _ (add_friend_apply_body-Uses db from to)
run-Safe db (auth_friend_apply from to) k =
    Safe-leased db false _ (auth_friend_apply_body-Uses db from to)
run-Safe db (get_user uid) k =
    Safe-leased db none _ (λ con. get_user_body-Uses db _ _ con (user_by_uid-Uses uid))
run-Safe db (get_user_named name) k =
    Safe-leased db none _ (λ con. get_user_body-Uses db _ _ con user_by_name-Uses)
run-Safe db (get_apply_list touid begin limit) k =
    Safe-leased db (false, []) _
      (λ con. fill-Uses db _ Reports.apply_row con (λ r. search uses_rules depth 20))
run-Safe db (get_friend_list self_id) k =
    Safe-leased db (false, []) _ (λ con. fill-Uses db _ _ con (friend_row-Uses db))
run-Safe db (get_chat_msg_list session_id last_id limit) k =
    Safe-leased db (false, []) _ (history_body-Uses db session_id last_id _)
run-Safe db (get_user_groups uid) k =
    Safe-leased db (false, []) _
      (λ con. fill-Uses db _ Reports.group_row con (λ r. search uses_rules depth 20))
run-Safe db (get_group_members group_id) k =
    Safe-leased db (false, []) _
      (λ con. fill-Uses db _ Reports.member_row con (λ r. search uses_rules depth 20))
run-Safe db (is_group_member group_id uid) k =
    Safe-leased db false _ (is_group_member_body-Uses db group_id uid)
run-Safe db (gate_check_email name email) k = absurd (cc)
run-Safe db (gate_check_pwd email pwd) k =
    Safe-leased db none _ (gate_check_pwd_body-Uses db email pwd)
run-Safe db (test_procedure email) k =
    subst (Safe _)
      (ap (with_connection db none) (
        fun_ext λ con.
          fun_ext λ log. sym (caught-given none con (Gate.test_procedure_body db email con log))))
      (Safe-leased db none _ (test_procedure_body-Uses db email))

pub run-Balanced :
    (db : Database) (op : Operation) (log : List Event)
    → may_keep op ≡ false
    → Balanced none log (run db op log).1 × ((a : Answer op) × ((run db op log).0 ≡ some a))
run-Balanced db op log k = let s = run-Safe db op k in (s.uses.at (nothing refl), s.answers.at log)
