-- ===== src/Const/Prefix.antt =====
-- The #define key prefixes of ChatSever/const.h.
use minichat.Base.{Bytes, codes}

abbrev pub user_ip : Bytes
user_ip = codes "uip_"

abbrev pub user_token : Bytes
user_token = codes "utoken_"

abbrev pub user_base_info : Bytes
user_base_info = codes "ubaseinfo_"

abbrev pub login_count : Bytes
login_count = codes "logincount"

abbrev pub name_info : Bytes
name_info = codes "nameinfo_"

abbrev pub offline_msg : Bytes
offline_msg = codes "offline_msg_"

abbrev pub group_session : Bytes
group_session = codes "group_"

abbrev pub code : Bytes
code = codes "code_"
