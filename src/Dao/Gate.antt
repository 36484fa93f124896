-- ===== src/Dao/Gate.antt =====
-- GateServer/MysqlDao.cpp: the operations that differ from those of ChatSever/MysqlDao.cpp.
-- (RegUser and UpdatePwd are the same code, so minichat.Dao.Users has them.)
use minichat.Base.{
  ℕ, Bool, false, Option, none, some, [], ◌∷◌, Bytes, ◌==◌, bytes_eq, if◌then◌else◌,
}
use minichat.Base.Int.{ℤ}
use minichat.Dao.{
  text, Row, ResultSet, Database, Dao, ◌>>=◌, ◌>>◌, done, or_throw, next, deferred, try_catch,
  try_giving, update, select, with_connection, leased,
}
use minichat.Dao.Users.{Account, check_email_body, origin_pwd, first_row}

abbrev pub account_of : Bytes → Row → Dao (Option Account)
account_of pwd r = do
  name ← or_throw (r.get_string "name")
  email ← or_throw (r.get_string "email")
  uid ← or_throw (r.get_int "uid")
  done (some (record { name = name; email = email; uid = uid; pwd = pwd }))

abbrev pub read_name : ℤ → Option (Row × ResultSet) → Dao (Option (ℤ × Bytes))
read_name uid none = done none
read_name uid (some (r, rest)) = do name ← or_throw (r.get_string "name"); done (some (uid, name))

module _ (db : Database) where
  -- Without a row the result is false.
  unfoldable pub check_email : Bytes → Bytes → Dao Bool
  check_email name email =
      with_connection db false
        (λ con. try_giving con false (check_email_body db false name email con))

  -- The user is found by the e-mail address here.
  unfoldable pub check_pwd_body : Bytes → Bytes → ℕ → Dao (Option Account)
  check_pwd_body email pwd con = do
    res ←
        select db con
          (record { sql = "SELECT * FROM user WHERE email = ?"; params = text email ∷ [] })
    origin ← or_throw (origin_pwd res)
    at ← or_throw (first_row res)
    if pwd == origin then account_of origin at else done none

  unfoldable pub check_pwd : Bytes → Bytes → Dao (Option Account)
  check_pwd email pwd = leased db none (check_pwd_body email pwd)

  abbrev pub read_uid : ℕ → Option (Row × ResultSet) → Dao (Option (ℤ × Bytes))
  read_uid con none = done none
  read_uid con (some (r, rest)) = do
    uid ← or_throw (r.get_int "uid")
    res ← select db con (record { sql = "SELECT @userName AS name"; params = [] })
    found ← next res
    read_name uid found

  -- `uid` and `name` with true; `none` is false.
  unfoldable pub test_procedure_body : Bytes → ℕ → Dao (Option (ℤ × Bytes))
  test_procedure_body email con = do
    update db con
        (record { sql = "CALL test_procedure(?,@userId,@userName)"; params = text email ∷ [] })
    res ← select db con (record { sql = "SELECT @userId AS uid"; params = [] })
    found ← next res
    read_uid con found

  -- The Defer stands in the try block here, with the same effect.
  unfoldable pub test_procedure : Bytes → Dao (Option (ℤ × Bytes))
  test_procedure email =
      with_connection db none (λ con. try_catch none (deferred con (test_procedure_body email con)))
