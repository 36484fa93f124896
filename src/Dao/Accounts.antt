-- ===== src/Dao/Accounts.antt =====
-- GateServer/MysqlDao.cpp: CheckPwd lets in a stored user with the stored password only.
use minichat.Base.{
  ℕ, Option, none, some, List, [], ◌∷◌, ◌≡◌, refl, Bytes, ◌==◌, bytes_eq, bytes_beq_iff, Bool-cases,
  Option-cases, inl, inr, ap, sym, ◌∙◌, ◌↔◌, beq_refl, if◌then◌else◌,
}
use minichat.Base.Int.{ℤ}
use minichat.Dao.{
  text, Query, Row, ResultSet, finished, broken, row, Event, took, sent, Database, caught, given,
  followed, or_throw, ◌>>=◌, done,
}
use minichat.Dao.Users.{Account, origin_pwd, first_row}
use minichat.Dao.Gate.{account_of, check_pwd, check_pwd_body}

abbrev pub pwd_query : Bytes → Query
pwd_query email = record { sql = "SELECT * FROM user WHERE email = ?"; params = text email ∷ [] }

-- The row holds this account, with its password.
pub record Stored (r : Row) (account : Account) : Type 0 where
  pub name : r.get_string "name" ≡ some account.name
  pub email : r.get_string "email" ≡ some account.email
  pub uid : r.get_int "uid" ≡ some account.uid
  pub pwd : r.get_string "pwd" ≡ some account.pwd

-- What reading the three columns gives.
filled :
    (name email : Option Bytes) (uid : Option ℤ) (pwd : Bytes) (log : List Event)
    (account : Account)
    → ((do
      n ← or_throw name
      e ← or_throw email
      u ← or_throw uid
      done (some (record { name = n; email = e; uid = u; pwd = pwd })))
        log).0
      ≡ some (some account)
    → (name ≡ some account.name)
      × (email ≡ some account.email)
      × (uid ≡ some account.uid)
      × (account.pwd ≡ pwd)
filled none email uid pwd log account h = cc
filled (some n) none uid pwd log account h = cc
filled (some n) (some e) none pwd log account h = cc
filled (some n) (some e) (some u) pwd log account h =
    let e1 : record { name = n; email = e; uid = u; pwd = pwd } ≡ account = cc in
    (
      ap (λ a. some a.name) e1,
      ap (λ a. some a.email) e1,
      ap (λ a. some a.uid) e1,
      sym (ap (λ a. a.pwd) e1),
    )

-- The row that let the user in.
pub record LetIn (answer : Option ResultSet) (pwd : Bytes) (account : Account) : Type 0 where
  pub entry : Row
  pub rest : ResultSet
  pub found : answer ≡ some (row entry rest)
  pub stored : Stored entry account
  pub given_pwd : account.pwd ≡ pwd

module _ (pwd : Bytes) (log : List Event) (account : Account) where
  matched :
      (r : Row) (rest : ResultSet) (origin : Option Bytes)
      → r.get_string "pwd" ≡ origin
      → ((or_throw origin >>= λ o. if pwd == o then account_of o r else done none) log).0
        ≡ some (some account)
      → LetIn (some (row r rest)) pwd account
  matched r rest none p h = cc
  matched r rest (some o) p h = elim (Bool-cases (pwd == o)) [
    | inl e ↦
        let f =
          filled (r.get_string "name") (r.get_string "email") (r.get_int "uid") o log account
            (rw e at h) in
        record {
          entry = r;
          rest = rest;
          found = refl;
          stored = record { name = f.0; email = f.1; uid = f.2; pwd = p ∙ ap some (sym f.3) };
          given_pwd = f.3 ∙ sym ((bytes_beq_iff pwd o).0 e);
        }
    | inr e ↦
        let refused : ◌≡◌ {A = Option (Option Account)} (some none) (some (some account)) =
          rw e at h in
        cc
  ]

  -- The try block from the answer of the query.
  abbrev continued : Option ResultSet → Option (Option Account) × List Event
  continued answer =
      followed
        (λ res. do
          origin ← or_throw (origin_pwd res)
          at ← or_throw (first_row res)
          if pwd == origin then account_of origin at else done none)
        (answer, log)

  let_in :
      (answer : Option ResultSet)
      → ((at_end : Row) → answer ≡ some (finished at_end) → at_end.get_string "name" ≡ none)
      → (continued answer).0 ≡ some (some account)
      → LetIn answer pwd account
  let_in none off h = cc
  let_in (some broken) off h = cc
  let_in (some (row r rest)) off h = matched r rest (r.get_string "pwd") refl h
  let_in (some (finished at_end)) off h = elim (Bool-cases (pwd == [])) [
    | inl e ↦
        let f =
          filled (at_end.get_string "name") (at_end.get_string "email") (at_end.get_int "uid") []
            log account (rw e at h) in
        let gone = off at_end refl in cc
    | inr e ↦
        let refused : ◌≡◌ {A = Option (Option Account)} (some none) (some (some account)) =
          rw e at h in
        cc
  ]

  LetIn-back :
      (answer : Option ResultSet)
      → LetIn answer pwd account
      → (continued answer).0 ≡ some (some account)
  LetIn-back answer l = rw (
    l.found,
    l.stored.pwd,
    l.given_pwd,
    beq_refl pwd,
    l.stored.name,
    l.stored.email,
    l.stored.uid,
  )

given-some :
    {A : Type 0} (con : ℕ) (a : A) (r : Option (Option A) × List Event)
    → ((given con (caught none r)).0 ≡ some (some a)) ↔ (r.0 ≡ some (some a))
given-some con a (none, log) = (λ h. cc, λ h. cc)
given-some con a (some b, log) = (λ h. h, λ h. h)

-- GateServer's CheckPwd succeeds, and fills in this account, exactly when it had a connection and the
-- first row that the query by the e-mail address gave holds the account's name, address, id and
-- password, and that password is the given one. It is assumed that past the last row getString
-- throws, as MySQL Connector/C++ says; so the empty password does not let an unknown user in.
pub check_pwd-LetIn :
    (db : Database) (email pwd : Bytes) (log : List Event) (account : Account)
    → ((con : ℕ) (at_end : Row)
        → db.select (took con ∷ log) con (pwd_query email) ≡ some (finished at_end)
        → at_end.get_string "name" ≡ none)
    → ((check_pwd db email pwd log).0 ≡ some (some account)) ↔ (
        (con : ℕ) × (db.connection log ≡ some con)
        × LetIn (db.select (took con ∷ log) con (pwd_query email)) pwd account)
unfolding check_pwd check_pwd_body
check_pwd-LetIn db email pwd log account off = (
  λ h. elim (Option-cases (db.connection log)) [
    | inl e ↦
        let refused : ◌≡◌ {A = Option (Option Account)} (some none) (some (some account)) =
          rw e at h in
        cc
    | inr (con, e) ↦ (
      con,
      e,
      let_in pwd (sent con (pwd_query email) ∷ took con ∷ log) account _ (off con)
          ((given-some con account _).0 (rw e at h)),
    )
  ],
  λ (con, e, l). rw e (
      (given-some con account _).1
        (LetIn-back pwd (sent con (pwd_query email) ∷ took con ∷ log) account _ l)),
)
