-- ===== src/Const/ErrorCodes.antt =====
-- enum ErrorCodes of ChatSever/const.h (GateServer and StatusServer number theirs alike).
use minichat.Base.{ℕ}

abbrev pub success : ℕ
success = 0

abbrev pub error_json : ℕ
error_json = 1001

abbrev pub rpc_failed : ℕ
rpc_failed = 1002

abbrev pub varify_expired : ℕ
varify_expired = 1003

abbrev pub varify_code_err : ℕ
varify_code_err = 1004

abbrev pub user_exist : ℕ
user_exist = 1005

abbrev pub passwd_err : ℕ
passwd_err = 1006

abbrev pub email_not_match : ℕ
email_not_match = 1007

abbrev pub passwd_up_failed : ℕ
passwd_up_failed = 1008

abbrev pub passwd_invalid : ℕ
passwd_invalid = 1009

abbrev pub token_invalid : ℕ
token_invalid = 1010

abbrev pub uid_invalid : ℕ
uid_invalid = 1011
