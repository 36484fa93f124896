-- ===== src/Examples/Chat.antt =====
-- A message from user 7 to user 8, who has one device.
use minichat.Base.{false, if◌then◌else◌, bytes_beq, ◌≡◌, refl, some, List, [], ◌∷◌, Bytes, codes}
use minichat.Base.Int.{pos}
use minichat.Chat.Json.{Json}
use minichat.Chat.World.{mysql_add_friend_apply, World, send}
use minichat.Chat.Redis.Answers.{after}
use minichat.Chat.Trace.{Framed, Returns}
use minichat.Const.MsgIds
use minichat.Chat.Text.{deliver_wrapped_to_member, deal_chat_text_msg}
use minichat.Chat.Text.Texts.{IsText}
use minichat.Chat.Text.Handler.{deliver_wrapped_to_member-WrappedTo, deal_chat_text_msg-Settled}
use minichat.Chat.Text.Promise.{Answered, WrappedTo}
use minichat.Chat.Json.Laws.{Laws}
use minichat.Chat.Groups.{deal_group_text_msg}
use minichat.Chat.Groups.Fanout.{says_member, asked, Fanned, deal_group_text_msg-Fanned}
use minichat.Chat.Login.{login_handler}
use minichat.Chat.Login.Binding.{login_handler-LoginEnd}
use minichat.Chat.Users.Cache.{Readable}
use minichat.Chat.Login.Ending.{Counts, LoginEnd}
use minichat.Chat.Users.{error_of}
use minichat.Chat.Friends.{add_friend_apply}
use minichat.Chat.Friends.Notices.{Notice, add_friend_apply-Notice}
use minichat.Const.ErrorCodes
use minichat.Chat.Server.{clear_session}
use minichat.Chat.Server.Removal.{Cleared, clear_session-Cleared}
use minichat.Examples.Documents.{
  documents-Laws, one_user, one_user-IsUp, Doc, item, no_items, number, text, documents, quiet,
  quiet-IsUp, fresh_world, object,
}

abbrev hello_texts : Doc
hello_texts =
    item (object ((codes "msgid", text (codes "m1")) ∷ (codes "content", text (codes "hi")) ∷ []))
      no_items

abbrev chat_doc : Doc
chat_doc = object (
    (codes "fromuid", number (pos 7))
    ∷ (codes "touid", number (pos 8))
    ∷ (codes "text_array", hello_texts)
    ∷ [])

abbrev pub chat_json : Json
chat_json = documents (codes "chat") chat_doc

abbrev pub one_device : World
one_device = fresh_world ((pos 8, (codes "b", 2) ∷ []) ∷ [])

abbrev hello-IsText :
    IsText chat_json
      (object ((codes "msgid", text (codes "m1")) ∷ (codes "content", text (codes "hi")) ∷ []))
unfolding bytes_beq
hello-IsText = record {
  content = codes "hi";
  msgid = codes "m1";
  has_content = refl;
  has_msgid = refl;
  stored_content = refl;
  stored_msgid = refl;
}

deal_chat_text_msg-Settled_example :
    Returns
      (deal_chat_text_msg chat_json quiet 1 (codes "chat"))
      one_device
      (λ _. Answered chat_json (pos 7) (pos 8) hello_texts (hello-IsText, tt) quiet 1 one_device)
unfolding bytes_beq
deal_chat_text_msg-Settled_example =
    deal_chat_text_msg-Settled chat_json quiet quiet-IsUp 1 (codes "chat") (pos 7) (pos 8)
      hello_texts one_device refl refl refl refl (hello-IsText, tt)

deliver_wrapped_to_member-WrappedTo_example :
    Returns
      (deliver_wrapped_to_member chat_json quiet (pos 7) (pos 8) hello_texts false)
      one_device
      (λ _.
        WrappedTo chat_json (pos 7) (pos 8) hello_texts (hello-IsText, tt) quiet false one_device)
deliver_wrapped_to_member-WrappedTo_example =
    deliver_wrapped_to_member-WrappedTo chat_json quiet quiet-IsUp (pos 7) (pos 8) hello_texts refl
      (hello-IsText, tt) false one_device

abbrev group_doc : Doc
group_doc = object (
    (codes "fromuid", number (pos 7))
    ∷ (codes "group_id", number (pos 3))
    ∷ (codes "text_array", hello_texts)
    ∷ [])

abbrev group_json : Json
group_json = documents (codes "group") group_doc

abbrev group_laws : Laws group_json
group_laws = documents-Laws (codes "group") group_doc

abbrev group_hello-IsText :
    IsText group_json
      (object ((codes "msgid", text (codes "m1")) ∷ (codes "content", text (codes "hi")) ∷ []))
unfolding bytes_beq
group_hello-IsText = record {
  content = codes "hi";
  msgid = codes "m1";
  has_content = refl;
  has_msgid = refl;
  stored_content = refl;
  stored_msgid = refl;
}

deal_group_text_msg-Fanned_example :
    Returns (deal_group_text_msg group_json quiet 1 (codes "group")) one_device (λ _ w'.
      if says_member group_json group_laws quiet 1
        (codes "group")
        (pos 7)
        (pos 3)
        hello_texts
        one_device
      then Fanned group_json group_laws quiet 1
          (codes "group")
          (pos 7)
          (pos 3)
          hello_texts
          one_device
          (group_hello-IsText, tt)
          w'
      else w'
        ≡ asked group_json group_laws quiet 1
            (codes "group")
            (pos 7)
            (pos 3)
            hello_texts
            one_device)
unfolding bytes_beq
deal_group_text_msg-Fanned_example =
    deal_group_text_msg-Fanned group_json group_laws quiet 1 (codes "group") (pos 7) (pos 3)
      hello_texts one_device refl refl refl quiet-IsUp refl (group_hello-IsText, tt)

abbrev login_json : Json
login_json =
    documents (codes "login")
      (object ((codes "uid", number (pos 7)) ∷ (codes "token", text (codes "t")) ∷ []))

login_counts : Counts login_json one_user one_user-IsUp
login_counts cs = (pos 0, pos 1, refl, refl)

login-Readable : Readable login_json one_user (pos 7)
unfolding bytes_beq
login-Readable cs t e = absurd cc

login_handler-LoginEnd_example :
    Returns (login_handler login_json one_user 1 (codes "login")) one_device (λ _ w'.
      (v : World) × (value : login_json.Value) × LoginEnd login_json one_user 1
        (pos 7)
        (codes "t")
        (some (codes "t"))
        one_device
        value
        v
      × (w' ≡ after v (send 1 (login_json.styled value) MsgIds.chat_login_rsp)))
unfolding bytes_beq minichat.Base.Decimal.to_string minichat.Base.Decimal.decimal
login_handler-LoginEnd_example =
    login_handler-LoginEnd login_json one_user one_user-IsUp 1 (codes "login") (pos 7) (codes "t")
      (some (codes "t")) one_device refl refl refl login_counts login-Readable

clear_session-Cleared_example :
    Returns
      (clear_session chat_json quiet (codes "b"))
      one_device
      (λ _. Cleared (codes "b") one_device)
clear_session-Cleared_example =
    clear_session-Cleared chat_json quiet quiet-IsUp (codes "b") one_device

abbrev apply_json : Json
apply_json = documents (codes "apply") (
    object (
      (codes "uid", number (pos 7))
      ∷ (codes "applyname", text (codes "n"))
      ∷ (codes "bakname", text (codes "b"))
      ∷ (codes "touid", number (pos 8))
      ∷ []))

apply-Readable : Readable apply_json one_user (pos 7)
unfolding bytes_beq
apply-Readable cs t e = absurd cc

add_friend_apply-Notice_example :
    Returns (add_friend_apply apply_json one_user 1 (codes "apply")) one_device (λ _ w'.
      (v : World) × Framed
        (Notice one_user one_device.users (pos 7) (pos 8))
        (after one_device (mysql_add_friend_apply (pos 7) (pos 8)))
        v
      × (w'
          ≡ after v (
              send 1
                (apply_json.styled (
                  apply_json.set apply_json.null
                    (codes "error")
                    (error_of apply_json ErrorCodes.success)))
                MsgIds.add_friend_rsp)))
unfolding bytes_beq
add_friend_apply-Notice_example =
    add_friend_apply-Notice apply_json one_user one_user-IsUp 1 (codes "apply") (pos 7) (pos 8)
      (codes "n") (codes "b") one_device refl refl refl refl apply-Readable
