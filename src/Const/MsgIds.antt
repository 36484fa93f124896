-- ===== src/Const/MsgIds.antt =====
-- enum MSG_IDS of ChatSever/const.h: the requests with a handler, and what is sent back or pushed.
use minichat.Base.{ℕ}

abbrev pub chat_login : ℕ
chat_login = 1005

abbrev pub chat_login_rsp : ℕ
chat_login_rsp = 1006

abbrev pub search_user_req : ℕ
search_user_req = 1007

abbrev pub search_user_rsp : ℕ
search_user_rsp = 1008

abbrev pub add_friend_req : ℕ
add_friend_req = 1009

abbrev pub add_friend_rsp : ℕ
add_friend_rsp = 1010

abbrev pub notify_add_friend_req : ℕ
notify_add_friend_req = 1011

abbrev pub auth_friend_req : ℕ
auth_friend_req = 1013

abbrev pub auth_friend_rsp : ℕ
auth_friend_rsp = 1014

abbrev pub notify_auth_friend_req : ℕ
notify_auth_friend_req = 1015

abbrev pub text_chat_msg_req : ℕ
text_chat_msg_req = 1017

abbrev pub text_chat_msg_rsp : ℕ
text_chat_msg_rsp = 1018

abbrev pub notify_text_chat_msg_req : ℕ
notify_text_chat_msg_req = 1019

abbrev pub heart_beat_req : ℕ
heart_beat_req = 1023

abbrev pub heartbeat_rsp : ℕ
heartbeat_rsp = 1024

abbrev pub get_chat_history_req : ℕ
get_chat_history_req = 1025

abbrev pub get_chat_history_rsp : ℕ
get_chat_history_rsp = 1026

abbrev pub create_group_req : ℕ
create_group_req = 1027

abbrev pub create_group_rsp : ℕ
create_group_rsp = 1028

abbrev pub get_group_list_req : ℕ
get_group_list_req = 1029

abbrev pub get_group_list_rsp : ℕ
get_group_list_rsp = 1030

abbrev pub get_group_members_req : ℕ
get_group_members_req = 1031

abbrev pub get_group_members_rsp : ℕ
get_group_members_rsp = 1032

abbrev pub group_text_msg_req : ℕ
group_text_msg_req = 1033

abbrev pub group_text_msg_rsp : ℕ
group_text_msg_rsp = 1034
