-- ===== src/MysqlDao/Atomic.antt =====
-- The transactions of ChatSever/MysqlDao.cpp are atomic: a success has committed all rows, and a
-- failure has committed none.
use minichat.Base.{
  sym, ◌∙◌, ◌≡◌, refl, ap, Bool, true, false, some, List, [], ◌∷◌, Bytes, inl, inr, Bool-cases,
  Option-cases, if◌then◌else◌, ◌==◌,
}
use minichat.Base.Int.{ℤ, pos, negsuc, int_eq, leb_ℤ}
use minichat.Persist.{ChatMsgInfo}
use minichat.MysqlDao.{
  Stmt, set_auto_commit, insert_friend, insert_messages, insert_group, last_insert_id,
  insert_member, commit, Connection, Run, next, unless_negative, add_friend_body, add_friend,
  save_chat_msgs_body, save_chat_msgs, insert_members, create_group_body, create_group,
}
use minichat.MysqlDao.Rules.{
  Uncommitted, nothing, more, Body, threw, Transaction, CommittedOn, step, step_with, finish, roll,
  transaction-Transaction,
}

module _ (con : Connection) (base : List Stmt) where
  -- The statements of a friendship that was entered, newest first.
  abbrev pub Befriended : ℤ → ℤ → Bytes → Bool → List Stmt → Type 0
  Befriended from to back_name a log =
      (a ≡ true)
      × CommittedOn con base
          (insert_friend to from []
            ∷ insert_friend from to back_name
            ∷ set_auto_commit false
            ∷ base)
          log

  checked :
      (Complete : Bool → List Stmt → Type 0) (n : ℤ) (rest : Run Bool) (log : List Stmt)
      → Uncommitted con base log
      → Body con base false Complete (rest log)
      → Body con base false Complete (unless_negative con n rest log)
  checked Complete n rest log u b = elim (Bool-cases (leb_ℤ (pos 0) n)) [
    | inl e ↦ rw e b
    | inr e ↦ rw e (roll con base false Complete log u)
  ]

  -- AddFriend enters both directions of the friendship in one transaction: it returns true only
  -- after both inserts and a commit that succeeded, and it returns false, or lets the exception of a
  -- rollback out, only when no commit has succeeded and a rollback was the last statement. Without a
  -- connection it returns false at once, and otherwise the connection goes back in every case.
  pub add_friend-Transaction :
      (from to : ℤ) (back_name : Bytes)
      → Transaction con base false
          (Befriended from to back_name)
          (λ connected. add_friend con connected from to back_name)
  unfolding add_friend add_friend_body
  add_friend-Transaction from to back_name =
      let C = Befriended from to back_name in
      transaction-Transaction con base false C (add_friend_body con from to back_name) (
        step con base false C (set_auto_commit false) _ base refl nothing (λ _ u1.
          step con base false C (insert_friend from to back_name) _ _ refl u1 (λ n u2.
            checked C n _ _ u2 (
              step con base false C (insert_friend to from []) _ _ refl u2 (λ m u3.
                checked C m _ _ u3
                  (finish con base false C true _ u3 (λ n r. (refl, (refl, (n, r))))))))))

  abbrev pub Saved : List ChatMsgInfo → Bool → List Stmt → Type 0
  Saved msgs a log =
      (a ≡ true) × CommittedOn con base (insert_messages msgs ∷ set_auto_commit false ∷ base) log

  -- SaveChatMsgs writes a batch that is not empty in one transaction: it returns true only after the
  -- insert of the whole batch and a commit that succeeded, and otherwise, unless it has no
  -- connection, no commit has succeeded and a rollback was the last statement. The connection goes
  -- back in every case.
  pub save_chat_msgs-Transaction :
      (m : ChatMsgInfo) (msgs : List ChatMsgInfo)
      → Transaction con base false
          (Saved (m ∷ msgs))
          (λ connected. save_chat_msgs con connected (m ∷ msgs))
  unfolding save_chat_msgs save_chat_msgs_body
  save_chat_msgs-Transaction m msgs =
      let C = Saved (m ∷ msgs) in
      transaction-Transaction con base false C (save_chat_msgs_body con (m ∷ msgs)) (
        step con base false C (set_auto_commit false) _ base refl nothing (λ _ u1.
          step con base false C (insert_messages (m ∷ msgs)) _ _ refl u1
            (λ _ u2. finish con base false C true _ u2 (λ n r. (refl, (refl, (n, r)))))))

  -- The inserts of the members behind the owner's, newest first.
  abbrev pub member_inserts : ℤ → ℤ → List ℤ → List Stmt → List Stmt
  member_inserts group_id owner_uid [] log = log
  member_inserts group_id owner_uid (uid ∷ uids) log =
      member_inserts group_id owner_uid uids
        (if uid == owner_uid then log else insert_member group_id uid ∷ log)

  abbrev pub opened : Bytes → ℤ → List Stmt
  opened name owner_uid = insert_group name owner_uid ∷ set_auto_commit false ∷ base

  abbrev pub Founded : Bytes → ℤ → List ℤ → ℤ → List Stmt → Type 0
  Founded name owner_uid members group_id log =
      (con.result (opened name owner_uid) last_insert_id ≡ some group_id)
      × CommittedOn con base
          (member_inserts group_id owner_uid members
            (insert_member group_id owner_uid ∷ last_insert_id ∷ opened name owner_uid))
          log

  insert_members-Body :
      (C : ℤ → List Stmt → Type 0) (group_id owner_uid : ℤ) (uids : List ℤ) (k : Unit {0} → Run ℤ)
      (log : List Stmt)
      → Uncommitted con base log
      → ((log' : List Stmt)
          → Uncommitted con base log'
          → log' ≡ member_inserts group_id owner_uid uids log
          → Body con base (negsuc 0) C (k tt log'))
      → Body con base (negsuc 0) C (next con k (insert_members con group_id owner_uid uids log))
  unfolding insert_members
  insert_members-Body C group_id owner_uid [] k log u h = h log u refl
  insert_members-Body C group_id owner_uid (uid ∷ uids) k log u h =
      elim (Bool-cases (uid == owner_uid)) [
        | inl e ↦
            rw e (insert_members-Body C group_id owner_uid uids k log u (λ l v q. h l v (rw e q)))
        | inr e ↦ rw e (elim (Option-cases (con.result log (insert_member group_id uid))) [
          | inl r ↦ rw r (
              threw (insert_member group_id uid ∷ log)
                (more (insert_member group_id uid) (inl refl) u))
          | inr (n, r) ↦ rw r (
              insert_members-Body C group_id owner_uid uids k (insert_member group_id uid ∷ log)
                (more (insert_member group_id uid) (inl refl) u) (λ l v q. h l v (rw e q)))
        ])
      ]

  -- CreateGroup enters the group, its owner and every other selected member in one transaction: it
  -- returns the id that MySQL has given to the group only after all inserts and a commit that
  -- succeeded, and otherwise, unless it has no connection, no commit has succeeded and a rollback was
  -- the last statement. The connection goes back in every case.
  pub create_group-Transaction :
      (name : Bytes) (owner_uid : ℤ) (members : List ℤ)
      → Transaction con base
          (negsuc 0)
          (Founded name owner_uid members)
          (λ connected. create_group con connected name owner_uid members)
  unfolding create_group create_group_body
  create_group-Transaction name owner_uid members =
      let C = Founded name owner_uid members in
      transaction-Transaction con base (negsuc 0) C (create_group_body con name owner_uid members) (
        step con base (negsuc 0) C (set_auto_commit false) _ base refl nothing (λ _ u1.
          step con base (negsuc 0) C (insert_group name owner_uid) _ _ refl u1 (λ _ u2.
            step_with con base (negsuc 0) C last_insert_id _ _ refl u2 (λ group_id given u3.
              step con base (negsuc 0) C (insert_member group_id owner_uid) _ _ refl u3 (λ _ u4.
                insert_members-Body C group_id owner_uid members _ _ u4 (λ log u5 q.
                  finish con base (negsuc 0) C group_id log u5 (λ n r. (
                    given,
                    (ap (◌∷◌ commit) q, (n, ap (λ l. con.result l commit) (sym q) ∙ r)),
                  ))))))))
