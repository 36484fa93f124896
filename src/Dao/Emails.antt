-- ===== src/Dao/Emails.antt =====
-- CheckEmail of both servers: every way it can end.
use minichat.Base.{
  ℕ, Bool, true, false, Option, none, some, List, ◌∷◌, ◌≡◌, refl, Bytes, ◌==◌, bytes_eq,
  Option-cases, inl, inr,
}
use minichat.Dao.{
  Row, ResultSet, finished, broken, row, Event, took, sent, gave, Database, next, caught_giving,
  followed, with_connection, try_giving,
}
use minichat.Dao.Users.{email_query, check_email, check_email_body, check_email_result}
use minichat.Dao.Gate

-- The query threw, or reading its first row.
abbrev pub Unreadable : Option ResultSet → Type 0
Unreadable none = Unit
Unreadable (some broken) = Unit
Unreadable (some (finished at_end)) = ⊥
Unreadable (some (row r rest)) = r.get_string "email" ≡ none

module _ (db : Database) (no_row : Bool) (name email : Bytes) (log : List Event) where
  -- The ends of a call, with all that happened.
  pub data Checked : Option Bool × List Event → Type 0 where
    no_connection : db.connection log ≡ none → Checked (some false, log)
    unreadable :
        (con : ℕ)
        → db.connection log ≡ some con
        → Unreadable (db.select (took con ∷ log) con (email_query name))
        → Checked (some false, gave con ∷ sent con (email_query name) ∷ took con ∷ log)
    compared :
        (con : ℕ) (r : Row) (rest : ResultSet) (stored : Bytes)
        → db.connection log ≡ some con
        → db.select (took con ∷ log) con (email_query name) ≡ some (row r rest)
        → r.get_string "email" ≡ some stored
        → Checked (some (email == stored), gave con ∷ sent con (email_query name) ∷ took con ∷ log)
    kept :
        (con : ℕ) (at_end : Row)
        → db.connection log ≡ some con
        → db.select (took con ∷ log) con (email_query name) ≡ some (finished at_end)
        → Checked (some no_row, sent con (email_query name) ∷ took con ∷ log)

  body-Checked :
      (con : ℕ) (answer : Option ResultSet)
      → db.connection log ≡ some con
      → db.select (took con ∷ log) con (email_query name) ≡ answer
      → Checked (
          caught_giving con false (
            followed
              (λ res. λ log'. followed (check_email_result no_row con email) (next res log'))
              (answer, sent con (email_query name) ∷ took con ∷ log)))
  body-Checked con none e s = unreadable con e (rw s tt)
  body-Checked con (some broken) e s = unreadable con e (rw s tt)
  body-Checked con (some (finished at_end)) e s = kept con at_end e s
  body-Checked con (some (row r rest)) e s = elim (Option-cases (r.get_string "email")) [
    | inl n ↦ rw n (unreadable con e (rw s n))
    | inr (stored, n) ↦ rw (n, n) (compared con r rest stored e s n)
  ]

  with-Checked : Checked (
      with_connection db false
        (λ con. try_giving con false (check_email_body db no_row name email con))
        log)
  unfolding check_email_body
  with-Checked = elim (Option-cases (db.connection log)) [
    | inl e ↦ rw e (no_connection e)
    | inr (con, e) ↦ rw e (body-Checked con _ e refl)
  ]

-- CheckEmail, in ChatServer and in GateServer, without a connection answers false. A query or a row
-- that cannot be read gives false, and the first row of the name gives the comparison with the
-- stored address; both give the connection back. Without a row of the name the connection is never
-- given back, and ChatServer's answer is true while GateServer's is false.
pub check_email-Checked :
    (db : Database) (name email : Bytes) (log : List Event)
    → Checked db true name email log (check_email db name email log)
      × Checked db false name email log (Gate.check_email db name email log)
unfolding check_email Gate.check_email
check_email-Checked db name email log =
    (with-Checked db true name email log, with-Checked db false name email log)
