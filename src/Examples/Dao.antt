-- ===== src/Examples/Dao.antt =====
-- Databases with one answer to every query.
use package.text.Mathlib.Text.{◌==◌ as str_eq}
use mathlib.Core.List.{reverse}
use minichat.Base.{
  ℕ, true, false, Option, none, some, List, [], ◌∷◌, ◌≡◌, refl, ◌⊎◌, ◌↔◌, codes, take as take_list,
  length, arith, Bool-cases, inl, inr, if◌then◌else◌,
}
use minichat.Base.Int.{ℤ, pos, negsuc, is_positive}
use minichat.Chat.World.{StoredMsg}
use minichat.Dao.{Param, int, text, Row, ResultSet, finished, row, took, Database}
use minichat.MysqlPool.{MysqlPool, get_connection, take_front, return_connection}
use minichat.Dao.Users
use minichat.Dao.Users.{Account, check_email}
use minichat.Dao.Gate
use minichat.Dao.Operations.{get_user, reg_user, run, unavailable, failed}
use minichat.Dao.Pooled.{Replay, start, take, send, give, run-idle}
use minichat.Dao.Failures.{run-away}
use minichat.Dao.Emails.{Checked, check_email-Checked}
use minichat.Dao.Accounts.{LetIn, pwd_query, check_pwd-LetIn}
use minichat.Dao.Registration.{reg_user_transaction}
use minichat.Dao.Registration.Outcome.{Outcome, reg_user_transaction-Outcome}
use minichat.Dao.Reports.{history_query}
use minichat.Dao.Paging.{Holds, read_all, below, older, rows_of}
use minichat.Dao.Paging.Complete.{read_all_complete}

-- A row with one text and one number in every column, and the getters past the end.
abbrev plain : Row
plain = record {
  get_string = λ column. some (codes "pw");
  get_int = λ column. some (pos 7);
  get_int64 = λ column. some (pos 7);
}

abbrev off_row : Row
off_row = record {
  get_string = λ column. none;
  get_int = λ column. none;
  get_int64 = λ column. none;
}

-- Connection 1, and this answer.
abbrev giving : Option ResultSet → Database
giving answer = record {
  connection = λ log. some 1;
  update = λ log con q. some (pos 1);
  select = λ log con q. answer;
  control = λ log con c. some tt;
}

abbrev one_row : Database
one_row = giving (some (row plain (finished off_row)))

abbrev no_rows : Database
no_rows = giving (some (finished off_row))

abbrev away : Database
away = record {
  connection = λ log. some 1;
  update = λ log con q. none;
  select = λ log con q. none;
  control = λ log con c. none;
}

run-away_example :
    ((away.connection [] ≡ none)
      × (run away (reg_user (codes "n") (codes "e") (codes "p")) []
          ≡ (some (unavailable (reg_user (codes "n") (codes "e") (codes "p"))), [])))
    ⊎ ((con : ℕ) × (away.connection [] ≡ some con)
        × ((run away (reg_user (codes "n") (codes "e") (codes "p")) []).0
            ≡ some (failed (reg_user (codes "n") (codes "e") (codes "p")))))
run-away_example =
    run-away away [] (reg_user (codes "n") (codes "e") (codes "p")) (λ con q. refl) (λ con q. refl)

check_email-Checked_example :
    Checked no_rows true (codes "n") (codes "e") [] (check_email no_rows (codes "n") (codes "e") [])
    × Checked no_rows false
        (codes "n")
        (codes "e")
        []
        (Gate.check_email no_rows (codes "n") (codes "e") [])
check_email-Checked_example = check_email-Checked no_rows (codes "n") (codes "e") []

abbrev account : Account
account = record { name = codes "pw"; email = codes "pw"; uid = pos 7; pwd = codes "pw" }

check_pwd-LetIn_example :
    ((Gate.check_pwd one_row (codes "e") (codes "pw") []).0 ≡ some (some account)) ↔ (
      (con : ℕ) × (one_row.connection [] ≡ some con)
      × LetIn (one_row.select (took con ∷ []) con (pwd_query (codes "e"))) (codes "pw") account)
check_pwd-LetIn_example =
    check_pwd-LetIn one_row (codes "e") (codes "pw") [] account (λ con at_end h. cc)

reg_user_transaction-Outcome_example :
    ((no_rows.connection [] ≡ none)
      × (reg_user_transaction no_rows (codes "n") (codes "e") (codes "p") (codes "i") []
          ≡ (some (pos 0), [])))
    ⊎ ((con : ℕ) × (no_rows.connection [] ≡ some con)
        × Outcome no_rows con []
            (codes "n")
            (codes "e")
            (codes "p")
            (codes "i")
            (reg_user_transaction no_rows (codes "n") (codes "e") (codes "p") (codes "i") []))
reg_user_transaction-Outcome_example =
    reg_user_transaction-Outcome no_rows (codes "n") (codes "e") (codes "p") (codes "i") []

abbrev message : ℕ → StoredMsg
message n = record {
  msg_id = pos n;
  from_uid = pos 7;
  to_uid = pos 8;
  unique_id = codes "m";
  content = codes "hi";
  status = pos 0;
  create_time = codes "t";
}

abbrev conversation : List StoredMsg
conversation = message 5 ∷ message 4 ∷ message 2 ∷ []

abbrev row_of : StoredMsg → Row
row_of m = record {
  get_string = λ column.
      if str_eq column "unique_id"
      then some m.unique_id
      else if str_eq column "content"
      then some m.content
      else some m.create_time;
  get_int = λ column.
      if str_eq column "from_uid"
      then some m.from_uid
      else if str_eq column "to_uid"
      then some m.to_uid
      else some m.status;
  get_int64 = λ column. some m.msg_id;
}

abbrev size_of : ℤ → ℕ
size_of (pos n) = n
size_of (negsuc n) = 0

abbrev page_of : List Param → Option ResultSet
page_of (text s ∷ int limit ∷ []) =
    some (rows_of row_of off_row (take_list (size_of limit) conversation))
page_of (text s ∷ int last_id ∷ int limit ∷ []) =
    some (rows_of row_of off_row (take_list (size_of limit) (below last_id conversation)))
page_of _ = none

abbrev holding : Database
holding = record {
  connection = λ log. some 1;
  update = λ log con q. none;
  select = λ log con q. page_of q.params;
  control = λ log con c. none;
}

page_of-history :
    (last_id : ℤ) (limit : ℕ)
    → page_of (history_query (codes "7_8") last_id (pos limit)).params
      ≡ some (rows_of row_of off_row (take_list limit (older last_id conversation)))
page_of-history last_id limit = elim (Bool-cases (is_positive last_id)) [
  | inl e ↦ rw e refl
  | inr e ↦ rw e refl
]

holding-Holds : Holds holding (codes "7_8") conversation row_of off_row
holding-Holds = record {
  connected = λ log. (1, refl);
  reads = record {
    msg_id = λ m. refl;
    session_id = λ m. (m.create_time, refl);
    from_uid = λ m. refl;
    to_uid = λ m. refl;
    unique_id = λ m. refl;
    content = λ m. refl;
    status = λ m. refl;
    create_time = λ m. refl;
  };
  answers = λ log con last_id limit. page_of-history last_id limit;
}

read_all_complete_example :
    (read_all holding (codes "7_8") (pos 2) 4 (pos 0) []).0 ≡ some (some (reverse conversation))
read_all_complete_example =
    read_all_complete holding (codes "7_8") conversation row_of off_row (pos 2) 4 [] holding-Holds
      (refl, (refl, (refl, tt)), (refl, (refl, tt), (refl, tt, tt))) (omega arith)

abbrev idle_pool : MysqlPool
idle_pool = record {
  pool = record { con = 1; last_oper_time = 0 } ∷ record { con = 2; last_oper_time = 0 } ∷ [];
  fail_count = 0;
  stop = false;
}

abbrev later_pool : MysqlPool
later_pool = record idle_pool {
  pool = record { con = 2; last_oper_time = 0 } ∷ record { con = 1; last_oper_time = 0 } ∷ [];
}

get_user-Replay : Replay idle_pool (run one_row (get_user (pos 7)) []).1 later_pool
unfolding Users.get_user Users.get_user_body get_connection take_front return_connection
get_user-Replay =
    give (record { con = 1; last_oper_time = 0 })
      (send 1 _ (take (record { con = 1; last_oper_time = 0 }) start refl))

run-idle_example : length later_pool.pool ≡ length idle_pool.pool
run-idle_example =
    run-idle one_row (get_user (pos 7)) idle_pool later_pool refl refl refl get_user-Replay
