-- ===== src/Dao/Registration/Outcome.antt =====
-- RegUserTransaction commits a whole new user, or nothing.
use minichat.Base.{
  ℕ, false, Option, none, some, List, ◌∷◌, ◌≡◌, refl, Bytes, Option-cases, ◌⊎◌, inl, inr,
}
use minichat.Base.Int.{ℤ, pos, negsuc}
use minichat.Dao.{
  Row, ResultSet, finished, broken, row, set_auto_commit, commit, rollback, Event, took, sent,
  controlled, gave, Database, Dao, followed, next, given,
}
use minichat.Dao.Registration.{
  email_query, name_query, next_id, id_query, insert_user, give_up, unless_taken, insert_with,
  make_user, check_name, reg_user_transaction_body, caught_rolling, reg_user_transaction,
}

module _ (db : Database) (con : ℕ) where
  -- A commit did not succeed.
  abbrev pub Harmless : List Event → Event → Type 0
  Harmless log (controlled c commit) = db.control log c commit ≡ none
  Harmless log e = Unit

  -- No commit has succeeded since the connection was taken.
  pub data Uncommitted (base : List Event) : List Event → Type 0 where
    fresh : Uncommitted base (took con ∷ base)
    more :
        (e : Event) {log : List Event}
        → Harmless log e
        → Uncommitted base log
        → Uncommitted base (e ∷ log)

  module _ (base : List Event) (name email pwd icon : Bytes) where
    abbrev pub asked_email : List Event
    asked_email =
        sent con (email_query email) ∷ controlled con (set_auto_commit false) ∷ took con ∷ base

    abbrev pub asked_name : List Event
    asked_name = sent con (name_query name) ∷ asked_email

    abbrev pub asked_id : List Event
    asked_id = sent con id_query ∷ sent con next_id ∷ asked_name

    abbrev pub inserted : ℤ → List Event
    inserted new_id = sent con (insert_user new_id name email pwd icon) ∷ asked_id

    -- No row had the address and none the name, the counter gave the id, the user was inserted with
    -- it, and the commit succeeded.
    pub record Registered (new_id : ℤ) (log : List Event) : Type 0 where
      pub end_email : Row
      pub free_email :
          db.select
            (controlled con (set_auto_commit false) ∷ took con ∷ base)
            con
            (email_query email)
          ≡ some (finished end_email)
      pub end_name : Row
      pub free_name : db.select asked_email con (name_query name) ≡ some (finished end_name)
      pub counter : Row
      pub others : ResultSet
      pub counted :
          db.select (sent con next_id ∷ asked_name) con id_query ≡ some (row counter others)
      pub drawn : counter.get_int "id" ≡ some new_id
      pub inserts : log ≡ controlled con commit ∷ inserted new_id
      pub commits : db.control (inserted new_id) con commit ≡ some tt

    -- 0 for a name or an address that is taken, -1 for an error.
    abbrev pub Refusal : ℤ → Type 0
    Refusal otherwise = (otherwise ≡ pos 0) ⊎ (otherwise ≡ negsuc 0)

    -- The end of the try block.
    data Body : Option ℤ × List Event → Type 0 where
      registered : (new_id : ℤ) (log : List Event) → Registered new_id log → Body (some new_id, log)
      gave_up :
          (otherwise : ℤ) (log : List Event)
          → Refusal otherwise
          → Uncommitted base log
          → Body (some otherwise, controlled con rollback ∷ log)
      threw : (log : List Event) → Uncommitted base log → Body (none, log)

    -- The end of the function.
    pub data Outcome : Option ℤ × List Event → Type 0 where
      created :
          (new_id : ℤ) (log : List Event)
          → Registered new_id log
          → Outcome (some new_id, gave con ∷ log)
      undone :
          (otherwise : ℤ) (log : List Event)
          → Refusal otherwise
          → Uncommitted base log
          → Outcome (some otherwise, gave con ∷ controlled con rollback ∷ log)
      escaped :
          (log : List Event)
          → Uncommitted base log
          → db.control log con rollback ≡ none
          → Outcome (none, gave con ∷ controlled con rollback ∷ log)

    -- One more statement, and one more getter.
    step :
        {X : Type 0} (value : Option X) (e : Event) (k : X → Dao ℤ) (log : List Event)
        → Harmless log e
        → Uncommitted base log
        → ((x : X) → value ≡ some x → Uncommitted base (e ∷ log) → Body (k x (e ∷ log)))
        → Body (followed k (value, e ∷ log))
    step none e k log s u h = threw (e ∷ log) (more e s u)
    step (some x) e k log s u h = h x refl (more e s u)

    give_up-Body :
        (otherwise : ℤ) (log : List Event)
        → Refusal otherwise
        → Uncommitted base log
        → Body (give_up db con otherwise log)
    give_up-Body otherwise log o u = elim (Option-cases (db.control log con rollback)) [
      | inl e ↦ rw e (threw _ (more (controlled con rollback) tt u))
      | inr (x, e) ↦ rw e (gave_up otherwise log o u)
    ]

    -- After a check for a row that is taken.
    checked :
        (res : ResultSet) (rest : Dao ℤ) (log : List Event)
        → Uncommitted base log
        → ((at_end : Row) → res ≡ finished at_end → Body (rest log))
        → Body (followed (unless_taken db con rest) (next res log))
    checked (finished at_end) rest log u h = h at_end refl
    checked broken rest log u h = threw log u
    checked (row r others) rest log u h = give_up-Body (pos 0) log (inl refl) u

    -- From the row of the counter: the insertion and the commit.
    module _ (end_email end_name : Row)
        (free_email : db.select
            (controlled con (set_auto_commit false) ∷ took con ∷ base)
            con
            (email_query email)
          ≡ some (finished end_email))
        (free_name : db.select asked_email con (name_query name) ≡ some (finished end_name)) where
      inserting :
          (res : ResultSet)
          → db.select (sent con next_id ∷ asked_name) con id_query ≡ some res
          → Uncommitted base asked_id
          → Body (followed (insert_with db con name email pwd icon) (next res asked_id))
      inserting (finished at_end) e u = give_up-Body (negsuc 0) asked_id (inr refl) u
      inserting broken e u = threw asked_id u
      inserting (row r others) e u = elim (Option-cases (r.get_int "id")) [
        | inl n ↦ rw n (threw asked_id u)
        | inr (new_id, n) ↦ rw n (
            step (db.update asked_id con (insert_user new_id name email pwd icon)) _ _ asked_id tt u
              (λ affected _ u'. elim (Option-cases (db.control (inserted new_id) con commit)) [
                | inl c ↦ rw c (threw _ (more (controlled con commit) c u'))
                | inr (t, c) ↦ rw c (
                    registered new_id _ (record {
                      end_email = end_email;
                      free_email = free_email;
                      end_name = end_name;
                      free_name = free_name;
                      counter = r;
                      others = others;
                      counted = e;
                      drawn = n;
                      inserts = refl;
                      commits = c;
                    }))
              ]))
      ]

      making : Uncommitted base asked_name → Body (make_user db con name email pwd icon asked_name)
      making u = step (db.update asked_name con next_id) _ _ asked_name tt u (λ affected _ u'.
          step (db.select (sent con next_id ∷ asked_name) con id_query) _ _ _ tt u'
            (λ res e u''. inserting res e u''))

    body-Body : Body (reg_user_transaction_body db name email pwd icon con (took con ∷ base))
    unfolding reg_user_transaction_body
    body-Body =
        step (db.control (took con ∷ base) con (set_auto_commit false)) _ _ (took con ∷ base) tt
          fresh
          (λ _ _ u. step (db.select _ con (email_query email)) _ _ _ tt u (λ res e u'.
            checked res (check_name db con name email pwd icon) asked_email u' (λ end_email free.
              step (db.select asked_email con (name_query name)) _ _ asked_email tt u'
                (λ res' e' u''.
                  checked res' (make_user db con name email pwd icon) asked_name u''
                    (λ end_name free'.
                      making end_email end_name (rw free at e) (rw free' at e') u'')))))

    caught-Outcome :
        (r : Option ℤ × List Event) → Body r → Outcome (given con (caught_rolling db con r))
    caught-Outcome r (registered new_id log g) = created new_id log g
    caught-Outcome r (gave_up otherwise log o u) = undone otherwise log o u
    caught-Outcome r (threw log u) = elim (Option-cases (db.control log con rollback)) [
      | inl e ↦ rw e (escaped log u e)
      | inr (x, e) ↦ rw e (undone (negsuc 0) log (inr refl) u)
    ]

-- RegUserTransaction without a connection answers 0 and touches nothing. With one it has three ends,
-- and gives the connection back in each. It returns a new id: then no row had the address and none
-- the name, the counter gave this id, the user was inserted with it, and the commit succeeded. It
-- returns 0 or -1: then it rolled back last, and no commit succeeded. Or an exception leaves it: then
-- no commit succeeded, and the rollback failed.
pub reg_user_transaction-Outcome :
    (db : Database) (name email pwd icon : Bytes) (log : List Event)
    → ((db.connection log ≡ none)
        × (reg_user_transaction db name email pwd icon log ≡ (some (pos 0), log)))
      ⊎ ((con : ℕ) × (db.connection log ≡ some con)
          × Outcome db con log name email pwd icon
              (reg_user_transaction db name email pwd icon log))
unfolding reg_user_transaction
reg_user_transaction-Outcome db name email pwd icon log = elim (Option-cases (db.connection log)) [
  | inl e ↦ inl (e, rw e refl)
  | inr (con, e) ↦ inr (
    con,
    e,
    rw e (
        caught-Outcome db con log name email pwd icon _ (body-Body db con log name email pwd icon)),
  )
]
