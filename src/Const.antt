-- ===== src/Const.antt =====
-- ChatSever/const.h: the limits; the children have the error codes, message ids and key prefixes.
-- (ChatServer2/const.h is the same file.)
pub mod ErrorCodes
pub mod MsgIds
pub mod Prefix
use minichat.Base.{ℕ, ◌*◌}

abbrev pub max_length : ℕ
max_length = 1024 * 2

abbrev pub head_total_len : ℕ
head_total_len = 4

abbrev pub max_sendque : ℕ
max_sendque = 1000

abbrev pub chat_history_page_size : ℕ
chat_history_page_size = 30

abbrev pub chat_history_max_limit : ℕ
chat_history_max_limit = 100
