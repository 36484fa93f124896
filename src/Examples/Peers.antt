-- ===== src/Examples/Peers.antt =====
-- One peer with two stubs, whose calls fail.
use minichat.Base.{false, true, [], ◌∷◌, codes}
use minichat.Base.Int.{pos}
use minichat.Chat.World.{AddFriendReq, TextChatMsgReq}
use minichat.Peers.{
  Pools, AddFriendRsp, AuthFriendRsp, AuthFriendReq, TextChatMsgRsp, Rpc, notify_add_friend,
  notify_auth_friend, notify_text_chat_msg,
}
use minichat.Peers.Calls.{Called, TextReply, AuthReply, AddReply, notifications-Called}

abbrev two_stubs : Pools
two_stubs = (codes "peer", record { connections = 1 ∷ 2 ∷ []; stop = false }) ∷ []

abbrev text_req : TextChatMsgReq
text_req = record { fromuid = pos 7; touid = pos 8; textmsgs = [] }

abbrev auth_req : AuthFriendReq
auth_req = record { fromuid = pos 7; touid = pos 8 }

abbrev add_req : AddFriendReq
add_req = record {
  applyuid = pos 7;
  touid = pos 8;
  name = [];
  desc = [];
  icon = [];
  nick = [];
  sex = pos 0;
}

abbrev refusing_text : Rpc TextChatMsgReq TextChatMsgRsp
refusing_text stub req rsp = (false, rsp)

abbrev refusing_auth : Rpc AuthFriendReq AuthFriendRsp
refusing_auth stub req rsp = (false, rsp)

abbrev refusing_add : Rpc AddFriendReq AddFriendRsp
refusing_add stub req rsp = (false, rsp)

notifications-Called_example :
    Called two_stubs
      (codes "peer")
      (TextReply refusing_text text_req)
      (notify_text_chat_msg true refusing_text two_stubs (codes "peer") text_req)
    × Called two_stubs
        (codes "peer")
        (AuthReply refusing_auth auth_req)
        (notify_auth_friend true refusing_auth two_stubs (codes "peer") auth_req)
    × Called two_stubs
        (codes "peer")
        (AddReply true refusing_add add_req)
        (notify_add_friend true refusing_add two_stubs (codes "peer") add_req)
notifications-Called_example =
    notifications-Called true two_stubs (codes "peer") refusing_text text_req refusing_auth auth_req
      refusing_add add_req
