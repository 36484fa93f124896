-- ===== src/Chat/Groups.antt =====
-- ChatSever/LogicSystem.cpp: the groups (CreateGroupHandler, GetGroupListHandler,
-- GetGroupMembersHandler, DealGroupTextMsg).
pub mod Fanout
use minichat.Base.{
  ℕ, suc, Bool, true, false, Option, none, some, List, [], ◌∷◌, ◌++◌, Bytes, codes, ◌==◌, is_empty,
  if◌then◌else◌, length, map,
}
use minichat.Base.Int.{ℤ, pos, int_eq, is_positive}
use minichat.Base.Decimal.{to_string}
use minichat.Const.{chat_history_page_size}
use minichat.Const.ErrorCodes
use minichat.Const.MsgIds
use minichat.Persist.{make_session_id, group_session_id}
use minichat.UserMgr.{SessionPtr}
use minichat.Chat.Json.{Json, assigned, int_field, int64_field, string_field}
use minichat.Chat.Redis
use minichat.Chat.World.{
  UserInfo, GroupInfo, StoredMsg, Env, mysql_get_user, mysql_create_group, mysql_get_user_groups,
  mysql_get_group_members, mysql_is_group_member, mysql_get_chat_msg_list, send, M, ◌>>=◌, ◌>>◌,
  pure, or_throw, call, ask, each,
}
use minichat.Chat.Users.{success_fields, error_of, answering, user_base_key, load_user}
use minichat.Chat.Text.{push_text_array, deliver_wrapped_to_member}

module _ (j : Json) where
  open j use {
    Value, parse, member, is_member, as_int, is_array, items, array, string, int, null, set, styled,
  }

  -- BuildGroupWrapped, with GROUP_MSG_MARKER.
  unfoldable pub build_group_wrapped : ℤ → ℤ → Bytes → Bytes
  build_group_wrapped group_id from_uid inner =
      codes "minichat-gmsg"
      ++ styled (
          assigned j null (
            (codes "group_id", int group_id)
            ∷ (codes "from_uid", int from_uid)
            ∷ (codes "content", string inner)
            ∷ []))

  -- BuildGroupEvent, with GROUP_EVENT_MARKER.
  unfoldable pub build_group_event : Bytes → ℤ → Bytes → Bytes
  build_group_event type group_id name =
      codes "minichat-gevt"
      ++ styled (
          assigned j null (
            (codes "type", string type)
            ∷ (codes "group_id", int group_id)
            ∷ (codes "name", string name)
            ∷ []))

  abbrev uids_of : List Value → Option (List ℤ)
  uids_of [] = some []
  uids_of (v ∷ vs) = elim (as_int v) [
    | none ↦ none
    | some uid ↦ elim (uids_of vs) [ none ↦ none | some uids ↦ some (uid ∷ uids) ]
  ]

  abbrev members_in : Value → Option (List ℤ)
  members_in v = if is_array v then uids_of (items v) else some []

  -- The vector that CreateGroupHandler reads from root["members"].
  abbrev members_of : Value → Option (List ℤ)
  members_of root =
      if is_member root (codes "members")
      then elim (member root (codes "members")) [ none ↦ none | some v ↦ members_in v ]
      else some []

  abbrev failed : ℕ → Value
  failed e = set null (codes "error") (error_of j e)

  abbrev pub event_array : ℤ → Bytes → Value
  event_array group_id name = array (
      assigned j null (
        (codes "msgid", string (codes "gevt-" ++ to_string group_id))
        ∷ (codes "content", string (build_group_event (codes "added") group_id name))
        ∷ [])
      ∷ [])

  abbrev group_item : GroupInfo → Value
  group_item g = assigned j null (
      (codes "group_id", int g.group_id)
      ∷ (codes "name", string g.name)
      ∷ (codes "owner_uid", int g.owner_uid)
      ∷ (codes "member_count", int g.member_count)
      ∷ [])

  abbrev member_item : UserInfo → Value
  member_item u = assigned j null (
      (codes "uid", int u.uid)
      ∷ (codes "name", string u.name)
      ∷ (codes "nick", string u.nick)
      ∷ (codes "icon", string u.icon)
      ∷ [])

  -- The wrapped array of DealGroupTextMsg.
  unfoldable pub wrap_all : ℤ → ℤ → List Value → M (List Value)
  wrap_all group_id from_uid [] = pure []
  wrap_all group_id from_uid (v ∷ vs) = do
    msgid ← or_throw (string_field j v (codes "msgid"))
    content ← or_throw (string_field j v (codes "content"))
    rest ← wrap_all group_id from_uid vs
    pure (
        assigned j null (
          (codes "msgid", string msgid)
          ∷ (codes "content", string (build_group_wrapped group_id from_uid content))
          ∷ [])
        ∷ rest)

  module _ (env : Env) where
    -- Everyone but the one who acts.
    abbrev pub deliver_to_others : ℤ → Value → Bool → List ℤ → M (Unit {0})
    deliver_to_others from_uid wrapped allow_offline members = each members (λ uid.
        if uid == from_uid
        then pure tt
        else deliver_wrapped_to_member j env from_uid uid wrapped allow_offline)

    abbrev created : ℤ → Bytes → List ℤ → ℤ → M Value
    created owner_uid name members group_id = do
      deliver_to_others owner_uid (event_array group_id name) false members
      pure (
          success_fields j (
            (codes "group_id", int group_id)
            ∷ (codes "name", string name)
            ∷ (codes "owner_uid", int owner_uid)
            ∷ (codes "member_count", int (pos (suc (length members))))
            ∷ []))

    abbrev create_group : ℤ → Bytes → List ℤ → M Value
    create_group owner_uid name members = do
      group_id ←
          ask (mysql_create_group name owner_uid members)
            (λ cs. env.create_group cs name owner_uid members)
      if is_positive group_id
          then created owner_uid name members group_id
          else pure (failed ErrorCodes.error_json)

    abbrev create_body : ℤ → Bytes → List ℤ → M Value
    create_body owner_uid name members =
        if is_empty name
        then pure (failed ErrorCodes.error_json)
        else create_group owner_uid name members

    unfoldable pub create_group_handler : SessionPtr → Bytes → M (Unit {0})
    create_group_handler session msg_data = do
      owner_uid ← or_throw (int_field j (parse msg_data) (codes "fromuid"))
      name ← or_throw (string_field j (parse msg_data) (codes "name"))
      members ← or_throw (members_of (parse msg_data))
      answering j session MsgIds.create_group_rsp (create_body owner_uid name members)

    abbrev group_list_value : Option (List GroupInfo) → Value
    group_list_value none = failed ErrorCodes.error_json
    group_list_value (some groups) =
        success_fields j ((codes "group_list", array (map group_item groups)) ∷ [])

    abbrev group_list_body : ℤ → M Value
    group_list_body uid = do
      groups ← ask (mysql_get_user_groups uid) (λ cs. env.get_user_groups cs uid)
      pure (group_list_value groups)

    unfoldable pub get_group_list_handler : SessionPtr → Bytes → M (Unit {0})
    get_group_list_handler session msg_data = do
      uid ← or_throw (int_field j (parse msg_data) (codes "fromuid"))
      answering j session MsgIds.get_group_list_rsp (group_list_body uid)

    -- GetBaseInfo with a null pointer: a hit in Redis writes through it.
    abbrev member_row : ℤ → Option Bytes → M (Option UserInfo)
    member_row uid (some text) = or_throw none
    member_row uid none = do
      row ← ask (mysql_get_user uid) (λ cs. env.get_user cs uid)
      load_user j env (user_base_key uid) uid row

    abbrev member_info : ℤ → M (Option UserInfo)
    member_info uid = do cached ← Redis.get env (user_base_key uid); member_row uid cached

    abbrev item_before : Option UserInfo → List Value → List Value
    item_before none rest = rest
    item_before (some u) rest = member_item u ∷ rest

    unfoldable pub member_items : List ℤ → M (List Value)
    member_items [] = pure []
    member_items (uid ∷ uids) = do
      info ← member_info uid
      rest ← member_items uids
      pure (item_before info rest)

    abbrev members_listed : ℤ → List ℤ → M Value
    members_listed group_id uids = do
      found ← member_items uids
      pure (
          success_fields j ((codes "group_id", int group_id) ∷ (codes "members", array found) ∷ []))

    abbrev members_body : ℤ → M Value
    members_body group_id = do
      uids ← ask (mysql_get_group_members group_id) (λ cs. env.get_group_members cs group_id)
      if uids.0 then members_listed group_id uids.1 else pure (failed ErrorCodes.error_json)

    unfoldable pub get_group_members_handler : SessionPtr → Bytes → M (Unit {0})
    get_group_members_handler session msg_data = do
      group_id ← or_throw (int64_field j (parse msg_data) (codes "group_id"))
      answering j session MsgIds.get_group_members_rsp (members_body group_id)

    abbrev pub group_value : ℤ → ℤ → Value → Value
    group_value group_id from_uid arrays = success_fields j (
        (codes "group_id", int group_id)
        ∷ (codes "fromuid", int from_uid)
        ∷ (codes "text_array", arrays)
        ∷ [])

    -- What DealGroupTextMsg does for a member of the group.
    unfoldable pub group_text : ℤ → ℤ → Value → M (Unit {0})
    group_text group_id from_uid arrays = do
      push_text_array j (group_session_id group_id) from_uid (pos 0) arrays
      wrapped ← wrap_all group_id from_uid (items arrays)
      members ← ask (mysql_get_group_members group_id) (λ cs. env.get_group_members cs group_id)
      deliver_to_others from_uid (array wrapped) true members.1

    unfoldable pub deal_group_text_msg : SessionPtr → Bytes → M (Unit {0})
    deal_group_text_msg session msg_data = do
      from_uid ← or_throw (int_field j (parse msg_data) (codes "fromuid"))
      group_id ← or_throw (int64_field j (parse msg_data) (codes "group_id"))
      arrays ← or_throw (member (parse msg_data) (codes "text_array"))
      call (send session (styled (group_value group_id from_uid arrays)) MsgIds.group_text_msg_rsp)
      is_member ←
          ask (mysql_is_group_member group_id from_uid)
            (λ cs. env.is_group_member cs group_id from_uid)
      if is_member then group_text group_id from_uid arrays else pure tt
