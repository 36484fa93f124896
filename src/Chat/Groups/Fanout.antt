-- ===== src/Chat/Groups/Fanout.antt =====
-- DealGroupTextMsg and the notifications of CreateGroupHandler: what each member gets.
use minichat.Base.{
  bytes_beq, ◌≡◌, refl, sym, ◌∙◌, subst, Bool, true, false, Option, none, some, List, [], ◌∷◌,
  Bytes, codes, All, ◌==◌, bytes_eq, if◌then◌else◌, Bool-cases, inl, inr,
}
use minichat.Base.Int.{ℤ, pos, int_eq}
use minichat.Const.MsgIds
use minichat.Persist.{group_session_id}
use minichat.UserMgr.{SessionPtr}
use minichat.Chat.Json.{Json, assigned, int_field, int64_field}
use minichat.Chat.Json.Laws.{Laws, IsObject, empty, put}
use minichat.Chat.World.{Env, World, mysql_is_group_member, mysql_get_group_members, send, each}
use minichat.Chat.Redis.Answers.{IsUp, after}
use minichat.Chat.Trace.{Returns, followed_lem}
use minichat.Chat.Text.Texts.{IsText, items_of, stored, push_text_array_lem}
use minichat.Chat.Text.Handler.{deliver_wrapped_to_member-WrappedTo}
use minichat.Chat.Text.Promise.{WrappedTo}
use minichat.Chat.Groups.{
  build_group_wrapped, wrap_all, deliver_to_others, group_value, group_text, deal_group_text_msg,
}

module _ (j : Json) (laws : Laws j) where
  open j use {Value, items, array, string, null, styled, parse, member}

  -- A message of the array that is delivered.
  abbrev pub message : Bytes → Bytes → Value
  message msgid content =
      assigned j null ((codes "msgid", string msgid) ∷ (codes "content", string content) ∷ [])

  read_text :
      (m : Option Value) (s : Bytes)
      → m ≡ some (string s)
      → elim m [ none ↦ none | some x ↦ j.as_string x ] ≡ some s
  read_text m s e = rw e (laws.as_string-string s)

  pub message-IsText : (msgid content : Bytes) → IsText j (message msgid content)
  unfolding bytes_beq
  message-IsText msgid content =
      let v = j.set null (codes "msgid") (string msgid) in
      let one : IsObject j v = put null (string msgid) (codes "msgid") empty in
      record {
        content = content;
        msgid = msgid;
        has_content =
            read_text _ content
              (laws.member-set v (string content) (codes "content") (codes "content") one);
        has_msgid = read_text _ msgid (
            laws.member-set v (string content) (codes "content") (codes "msgid") one
            ∙ laws.member-set null (string msgid) (codes "msgid") (codes "msgid") empty);
        stored_content =
            read_text _ content
              (laws.get_or_empty-set v (string content) (codes "content") (codes "content") one);
        stored_msgid = read_text _ msgid (
            laws.get_or_empty-set v (string content) (codes "content") (codes "msgid") one
            ∙ laws.get_or_empty-set null (string msgid) (codes "msgid") (codes "msgid") empty);
      }

  -- The wrapped messages of DealGroupTextMsg.
  abbrev pub wrapped : ℤ → ℤ → (vs : List Value) → All (IsText j) vs → List Value
  wrapped group_id from_uid [] a = []
  wrapped group_id from_uid (v ∷ vs) a =
      message (a.0).msgid (build_group_wrapped j group_id from_uid (a.0).content)
      ∷ wrapped group_id from_uid vs a.1

  pub wrapped-IsText :
      (group_id from_uid : ℤ) (vs : List Value) (a : All (IsText j) vs)
      → All (IsText j) (wrapped group_id from_uid vs a)
  wrapped-IsText group_id from_uid [] a = tt
  wrapped-IsText group_id from_uid (v ∷ vs) a =
      (message-IsText (a.0).msgid _, wrapped-IsText group_id from_uid vs a.1)

  wrap_all_lem :
      (group_id from_uid : ℤ) (vs : List Value) (a : All (IsText j) vs) (w : World)
      → wrap_all j group_id from_uid vs w ≡ some (wrapped group_id from_uid vs a, w)
  unfolding wrap_all
  wrap_all_lem group_id from_uid [] a w = refl
  wrap_all_lem group_id from_uid (v ∷ vs) a w =
      rw ((a.0).has_msgid, (a.0).has_content, wrap_all_lem group_id from_uid vs a.1 w) refl

  -- The elements of an array that is delivered are texts.
  pub of_array : (vs : List Value) → All (IsText j) vs → All (IsText j) (items (array vs))
  of_array vs a = subst (All (IsText j)) (sym (laws.items-array vs)) a

  module _ (env : Env) (from_uid : ℤ) (vs : List Value) (texts : All (IsText j) vs)
      (allow_offline : Bool) where
    -- Each member in turn: the acting user is left out, and what is sent to another one is brought to
    -- a device, or queued (allow_offline), or dropped.
    pub data Rounds : List ℤ → World → World → Type 0 where
      done : (w : World) → Rounds [] w w
      left_out :
          (uid : ℤ) {uids : List ℤ} {w w' : World}
          → (uid == from_uid) ≡ true
          → Rounds uids w w'
          → Rounds (uid ∷ uids) w w'
      served :
          (uid : ℤ) {uids : List ℤ} {w w' : World} (v : World)
          → (uid == from_uid) ≡ false
          → WrappedTo j from_uid uid (array vs) (of_array vs texts) env allow_offline w v
          → Rounds uids v w'
          → Rounds (uid ∷ uids) w w'

    -- The loop over the members reaches every one of them.
    pub deliver_to_others-Rounds :
        (up : IsUp env) (members : List ℤ) (w : World)
        → Returns
            (deliver_to_others j env from_uid (array vs) allow_offline members)
            w
            (λ _. Rounds members w)
    unfolding each
    deliver_to_others-Rounds up [] w = (tt, w, refl, done w)
    deliver_to_others-Rounds up (uid ∷ uids) w = elim (Bool-cases (uid == from_uid)) [
      | inl e ↦
          let (a, w', e', r) = deliver_to_others-Rounds up uids w in
          (a, w', rw e e', left_out uid e r)
      | inr e ↦
          let (a, v, e', s) =
            deliver_wrapped_to_member-WrappedTo j env up from_uid uid (array vs)
              (laws.is_array-array vs) (of_array vs texts) allow_offline w in
          let (b, w', e'', r) = deliver_to_others-Rounds up uids v in
          (
            b,
            w',
            rw e (
                followed_lem (λ _. deliver_to_others j env from_uid (array vs) allow_offline uids)
                  e'
                ∙ e''),
            served uid v e s r,
          )
    ]

module _ (j : Json) (laws : Laws j) (env : Env) (session : SessionPtr) (msg_data : Bytes)
    (from_uid group_id : ℤ) (arrays : j.Value) (w : World) where
  open j use {Value, items, array, styled, parse, member}

  -- The ACK, and the question whether the sender is a member.
  abbrev pub asked : World
  asked =
      after
        (after w (
          send session (styled (group_value j env group_id from_uid arrays))
            MsgIds.group_text_msg_rsp))
        (mysql_is_group_member group_id from_uid)

  abbrev pub says_member : Bool
  says_member =
      env.is_group_member
        (send session (styled (group_value j env group_id from_uid arrays))
            MsgIds.group_text_msg_rsp
          ∷ w.calls)
        group_id from_uid

  -- The world in which the members are served, for a message with these texts.
  abbrev pub recorded : All (IsText j) (items arrays) → World
  recorded texts =
      stored from_uid (items_of j (items arrays) texts) (group_session_id group_id) (pos 0) asked

  abbrev pub Fanned : All (IsText j) (items arrays) → World → Type 0
  Fanned texts w' =
      Rounds j laws env from_uid (wrapped j laws group_id from_uid (items arrays) texts)
        (wrapped-IsText j laws group_id from_uid (items arrays) texts) true
        (env.get_group_members (recorded texts).calls group_id).1
        (after (recorded texts) (mysql_get_group_members group_id)) w'

  module _ (e1 : int_field j (parse msg_data) (codes "fromuid") ≡ some from_uid)
      (e2 : int64_field j (parse msg_data) (codes "group_id") ≡ some group_id)
      (e3 : member (parse msg_data) (codes "text_array") ≡ some arrays) where
    outsider : says_member ≡ false → deal_group_text_msg j env session msg_data w ≡ some (tt, asked)
    unfolding deal_group_text_msg
    outsider e = rw (e1, e2, e3, e) refl

    insider :
        says_member ≡ true
        → IsUp env
        → j.is_array arrays ≡ true
        → (texts : All (IsText j) (items arrays))
        → Returns (deal_group_text_msg j env session msg_data) w (λ _. Fanned texts)
    unfolding deal_group_text_msg group_text
    insider e up is_array texts =
        let (a, w', e', r) =
          deliver_to_others-Rounds j laws env from_uid
            (wrapped j laws group_id from_uid (items arrays) texts)
            (wrapped-IsText j laws group_id from_uid (items arrays) texts) true up
            (env.get_group_members (recorded texts).calls group_id).1
            (after (recorded texts) (mysql_get_group_members group_id)) in
        (
          a,
          w',
          rw
              (
                e1,
                e2,
                e3,
                e,
                push_text_array_lem j arrays is_array texts (group_session_id group_id) from_uid
                    (pos 0) asked,
                wrap_all_lem j laws group_id from_uid (items arrays) texts (recorded texts),
              )
              e',
          r,
        )

    -- DealGroupTextMsg, for a message with well-formed members, while Redis answers. The ACK goes out
    -- first. For a sender who is not a member of the group nothing else happens; otherwise the texts
    -- are stored once under the group's key, and each other member in turn gets the message on a
    -- device or in the queue.
    pub deal_group_text_msg-Fanned :
        IsUp env
        → j.is_array arrays ≡ true
        → (texts : All (IsText j) (items arrays))
        → Returns
            (deal_group_text_msg j env session msg_data)
            w
            (λ _ w'. if says_member then Fanned texts w' else w' ≡ asked)
    deal_group_text_msg-Fanned up is_array texts = elim (Bool-cases says_member) [
      | inl e ↦ let (a, w', e', r) = insider e up is_array texts in (a, w', e', rw e r)
      | inr e ↦ (tt, asked, outsider e, rw e refl)
    ]
