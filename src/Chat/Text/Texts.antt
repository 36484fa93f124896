-- ===== src/Chat/Text/Texts.antt =====
-- The texts of a text_array, as they are stored and as they are forwarded.
use minichat.Base.{
  ◌≡◌, refl, true, some, List, [], ◌∷◌, Bytes, codes, is_empty, All, bytes_eq, nat_eq,
  if◌then◌else◌,
}
use minichat.Base.Int.{ℤ}
use minichat.Persist.{TextItem}
use minichat.Chat.Json.{Json, string_field}
use minichat.Chat.World.{persist, TextChatData, World, pure}
use minichat.Chat.Redis.Answers.{after}
use minichat.Chat.Text.{text_msgs, text_items, push_text_array, push_items, defaulted}

-- What JsonCpp must find in the elements of a text_array for the handler not to throw.
pub record IsText (j : Json) (v : j.Value) : Type 0 where
  pub content : Bytes
  pub msgid : Bytes
  pub has_content : string_field j v (codes "content") ≡ some content
  pub has_msgid : string_field j v (codes "msgid") ≡ some msgid
  pub stored_content : defaulted j v (codes "content") ≡ some content
  pub stored_msgid : defaulted j v (codes "msgid") ≡ some msgid

module _ (j : Json) where
  open j use {Value, items, is_array}

  -- The messages of the array, in order.
  abbrev pub texts_of : (vs : List Value) → All (IsText j) vs → List TextChatData
  texts_of [] a = []
  texts_of (v ∷ vs) a = record { msgid = (a.0).msgid; msgcontent = (a.0).content } ∷ texts_of vs a.1

  abbrev pub items_of : (vs : List Value) → All (IsText j) vs → List TextItem
  items_of [] a = []
  items_of (v ∷ vs) a = record { msgid = (a.0).msgid; content = (a.0).content } ∷ items_of vs a.1

  pub text_msgs_lem :
      (vs : List Value) (a : All (IsText j) vs) (w : World)
      → text_msgs j vs w ≡ some (texts_of vs a, w)
  unfolding text_msgs
  text_msgs_lem [] a w = refl
  text_msgs_lem (v ∷ vs) a w = rw ((a.0).has_content, (a.0).has_msgid, text_msgs_lem vs a.1 w) refl

  text_items_lem :
      (vs : List Value) (a : All (IsText j) vs) (w : World)
      → text_items j vs w ≡ some (items_of vs a, w)
  unfolding text_items
  text_items_lem [] a w = refl
  text_items_lem (v ∷ vs) a w =
      rw ((a.0).stored_msgid, (a.0).stored_content, text_items_lem vs a.1 w) refl

-- The world behind PushMessages: a message without texts is not stored.
abbrev pub stored : ℤ → List TextItem → Bytes → ℤ → World → World
stored from_uid [] session_id to_uid w = w
stored from_uid (t ∷ ts) session_id to_uid w = after w (persist session_id from_uid to_uid (t ∷ ts))

module _ (j : Json) (arrays : j.Value) (is_array : j.is_array arrays ≡ true)
    (texts : All (IsText j) (j.items arrays)) where
  pub push_text_array_lem :
      (session_id : Bytes) (from_uid to_uid : ℤ) (w : World)
      → push_text_array j session_id from_uid to_uid arrays w
        ≡ some (tt, stored from_uid (items_of j (j.items arrays) texts) session_id to_uid w)
  unfolding push_text_array
  push_text_array_lem session_id from_uid to_uid w = rw is_array (go (j.items arrays) texts)
    where
      go :
          (vs : List j.Value) (a : All (IsText j) vs)
          → (if is_empty vs then pure tt else push_items j session_id from_uid to_uid vs) w
            ≡ some (tt, stored from_uid (items_of j vs a) session_id to_uid w)
      go [] a = refl
      go (v ∷ vs) a = rw (text_items_lem j (v ∷ vs) a w) refl
