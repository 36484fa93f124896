-- ===== src/Dao/Paging.antt =====
-- ChatSever/MysqlDao.cpp: the pages of GetChatMsgList, read one after the other.
pub mod Complete
use mathlib.Core.List.{reverse}
use minichat.Base.{
  ℕ, zero, suc, ◌<◌, ◌≤◌, Bool, true, false, Option, none, some, List, [], ◌∷◌, ◌++◌, Bytes, ◌≡◌,
  refl, take, ◌&&◌, if◌then◌else◌, map, is_empty, arith, append_assoc, append-nil, ◌∙◌, sym, ap,
  All, not, ◌||◌, Bool-cases, inl, inr,
}
use minichat.Base.Int.{ℤ, pos, negsuc, is_positive, leb_ℤ}
use minichat.Const.{chat_history_page_size, chat_history_max_limit}
use minichat.Chat.World.{StoredMsg}
use minichat.Chat.History.{next_cursor}
use minichat.MysqlDao.{page_limit}
use minichat.Dao.{
  Row, ResultSet, finished, row, Event, took, sent, gave, Database, Dao, followed, ◌>>=◌, done,
}
use minichat.Dao.Reports.{
  push_row, read_rows, message_row, history_query, fill, history_body, get_chat_msg_list,
}

-- What `WHERE msg_id < ?` leaves of the messages of a conversation.
abbrev pub below : ℤ → List StoredMsg → List StoredMsg
below last_id [] = []
below last_id (m ∷ ms) = if leb_ℤ last_id m.msg_id then below last_id ms else m ∷ below last_id ms

-- Without a cursor there is no such condition.
abbrev pub older : ℤ → List StoredMsg → List StoredMsg
older last_id ms = if is_positive last_id then below last_id ms else ms

-- The getters give the columns of the message.
pub record Reads (row_of : StoredMsg → Row) : Type 0 where
  pub msg_id : (m : StoredMsg) → (row_of m).get_int64 "msg_id" ≡ some m.msg_id
  pub session_id : (m : StoredMsg) → (s : Bytes) × ((row_of m).get_string "session_id" ≡ some s)
  pub from_uid : (m : StoredMsg) → (row_of m).get_int "from_uid" ≡ some m.from_uid
  pub to_uid : (m : StoredMsg) → (row_of m).get_int "to_uid" ≡ some m.to_uid
  pub unique_id : (m : StoredMsg) → (row_of m).get_string "unique_id" ≡ some m.unique_id
  pub content : (m : StoredMsg) → (row_of m).get_string "content" ≡ some m.content
  pub status : (m : StoredMsg) → (row_of m).get_int "status" ≡ some m.status
  pub create_time : (m : StoredMsg) → (row_of m).get_string "create_time" ≡ some m.create_time

abbrev pub rows_of : (StoredMsg → Row) → Row → List StoredMsg → ResultSet
rows_of row_of at_end [] = finished at_end
rows_of row_of at_end (m ∷ ms) = row (row_of m) (rows_of row_of at_end ms)

-- The database holds these messages of the conversation, newest first, and answers: there is always
-- a connection, and the query of a page gives what its conditions, its order and its limit say.
pub record Holds (db : Database) (session_id : Bytes) (messages : List StoredMsg)
    (row_of : StoredMsg → Row) (at_end : Row) : Type 0 where
  pub connected : (log : List Event) → (con : ℕ) × (db.connection log ≡ some con)
  pub reads : Reads row_of
  pub answers :
      (log : List Event) (con : ℕ) (last_id : ℤ) (limit : ℕ)
      → db.select log con (history_query session_id last_id (pos limit))
        ≡ some (rows_of row_of at_end (take limit (older last_id messages)))

-- Ids are positive, and fall.
abbrev pub Descending : List StoredMsg → Type 0
Descending [] = Unit
Descending (m ∷ ms) =
    (is_positive m.msg_id ≡ true) × All (λ m'. leb_ℤ m.msg_id m'.msg_id ≡ false) ms × Descending ms

-- A page, and the pages before it, by the cursor of the answer, until a page is empty.
module _ (db : Database) (session_id : Bytes) (limit : ℤ) where
  abbrev pub in_front : Bool × List StoredMsg → Option (List StoredMsg) → Option (List StoredMsg)
  in_front page none = none
  in_front page (some before) = some (before ++ page.1)

  abbrev pub turn :
      (ℤ → Dao (Option (List StoredMsg))) → Bool × List StoredMsg → Dao (Option (List StoredMsg))
  turn rest page =
      if is_empty page.1
      then done (some [])
      else (rest (next_cursor page.1) >>= λ before. done (in_front page before))

  -- With this many pages at most; `none` when they are not enough.
  unfoldable pub read_all : ℕ → ℤ → Dao (Option (List StoredMsg))
  read_all zero cursor = done none
  read_all (suc pages) cursor =
      get_chat_msg_list db session_id cursor limit >>= turn (read_all pages)

-- The limit that the query gets, whatever the client asks for.
pub page_limit_bounds :
    (limit : ℤ) → (n : ℕ) × (page_limit limit ≡ pos n) × (0 < n) × (n ≤ chat_history_max_limit)
unfolding page_limit
page_limit_bounds (negsuc k) = (30, refl, omega arith, omega arith)
page_limit_bounds (pos k) =
    elim (Bool-cases
      (not (is_positive (pos k)) || not (leb_ℤ (pos k) (pos chat_history_max_limit)))) [
        | inl e ↦ (30, rw e, omega arith, omega arith)
        | inr e ↦ (k, rw e, ground (arith, e), ground (arith, e))
      ]

module _ (row_of : StoredMsg → Row) (at_end : Row) (reads : Reads row_of) where
  message_row-reads :
      (m : StoredMsg) (log : List Event) → message_row (row_of m) log ≡ (some (m ∷ []), log)
  message_row-reads m log = rw (
    reads.msg_id m,
    (reads.session_id m).1,
    reads.from_uid m,
    reads.to_uid m,
    reads.unique_id m,
    reads.content m,
    reads.status m,
    reads.create_time m,
  )

  read_rows-rows_of :
      (ms pushed : List StoredMsg) (log : List Event)
      → read_rows message_row (rows_of row_of at_end ms) pushed log
        ≡ (some (true, pushed ++ ms), log)
  unfolding read_rows
  read_rows-rows_of [] pushed log = rw append-nil
  read_rows-rows_of (m ∷ ms) pushed log = rw (message_row-reads m log) (
      read_rows-rows_of ms (pushed ++ m ∷ []) log
      ∙ ap (λ xs. (some (true, xs), log)) (append_assoc pushed (m ∷ []) ms))

-- One page: the newest messages before the cursor, as many as the limit allows, oldest first.
pub get_chat_msg_list-page :
    (db : Database) (session_id : Bytes) (messages : List StoredMsg) (row_of : StoredMsg → Row)
    (at_end : Row) (last_id limit : ℤ) (n : ℕ) (log : List Event)
    → Holds db session_id messages row_of at_end
    → page_limit limit ≡ pos n
    → (log' : List Event) × (get_chat_msg_list db session_id last_id limit log
        ≡ (some (true, reverse (take n (older last_id messages))), log'))
unfolding get_chat_msg_list history_body fill
get_chat_msg_list-page db session_id messages row_of at_end last_id limit n log holds e =
    let (con, c) = holds.connected log in
    (
      gave con ∷ sent con (history_query session_id last_id (pos n)) ∷ took con ∷ log,
      rw (
        c,
        e,
        holds.answers (took con ∷ log) con last_id n,
        read_rows-rows_of row_of at_end holds.reads (take n (older last_id messages)) [] _,
      ),
    )
