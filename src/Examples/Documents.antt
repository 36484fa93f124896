-- ===== src/Examples/Documents.antt =====
-- A small document type in the place of JsonCpp's values, and services that know nobody.
use minichat.Base.{
  ap, arith, ◌≡◌, refl, Bool, true, false, Option, none, some, List, [], ◌∷◌, ◌++◌, Bytes, codes,
  ◌==◌, bytes_eq, if◌then◌else◌, nat_eq,
}
use minichat.Base.Int.{ℤ, pos}
use minichat.Base.Decimal.{to_string}
use minichat.Chat.Json.{Json}
use minichat.Chat.Json.Laws.{Laws}
use minichat.Chat.World.{Env, World, answer}
use minichat.Chat.Redis.Answers.{IsUp}
use minichat.UserMgr.{UserMgr}

pub data Doc : Type 0 where
  nothing : Doc
  number : ℤ → Doc
  text : Bytes → Doc
  no_items : Doc
  item : Doc → Doc → Doc
  field : Bytes → Doc → Doc → Doc

abbrev member_of : Doc → Bytes → Option Doc
member_of nothing name = some nothing
member_of (field k v rest) name =
    let other = member_of rest name in if k == name then some v else other
member_of _ name = none

abbrev has_member : Doc → Bytes → Bool
has_member (field k v rest) name =
    let other = has_member rest name in if k == name then true else other
has_member _ name = false

abbrev items_of : Doc → List Doc
items_of (item d rest) = d ∷ items_of rest
items_of _ = []

abbrev array_of : List Doc → Doc
array_of [] = no_items
array_of (d ∷ ds) = item d (array_of ds)

abbrev number_in : Doc → Option ℤ
number_in nothing = some (pos 0)
number_in (number n) = some n
number_in _ = none

abbrev text_in : Doc → Option Bytes
text_in nothing = some []
text_in (text s) = some s
text_in _ = none

abbrev is_list : Doc → Bool
is_list no_items = true
is_list (item d rest) = true
is_list _ = false

abbrev is_text : Doc → Bool
is_text (text s) = true
is_text _ = false

abbrev written : Doc → Bytes
written nothing = codes "null"
written (number n) = to_string n
written (text s) = s
written no_items = codes "]"
written (item d rest) = b'[' ∷ (written d ++ written rest)
written (field k v rest) = k ++ (b':' ∷ (written v ++ (b',' ∷ written rest)))

-- One document can be parsed.
abbrev pub documents : Bytes → Doc → Json
documents name content = record {
  Value = Doc;
  parse = λ s. if s == name then content else nothing;
  parses = λ s. s == name;
  member = member_of;
  is_member = has_member;
  get_or_empty = λ d name. if has_member d name then member_of d name else some (text []);
  as_int = number_in;
  as_int64 = number_in;
  as_string = text_in;
  is_array = is_list;
  is_string = is_text;
  items = items_of;
  null = nothing;
  set = λ d k v. field k v d;
  array = array_of;
  int = number;
  string = text;
  styled = written;
}

-- Empty stores, in which every command succeeds.
abbrev pub quiet : Env
quiet = record {
  get = λ cs k. answer none;
  set = λ cs k v. answer true;
  auth = λ cs p. answer tt;
  lpush = λ cs k v. answer 1;
  lpop = λ cs k. answer none;
  rpush = λ cs k v. answer 1;
  rpop = λ cs k. answer none;
  sadd = λ cs k v. answer 1;
  srem = λ cs k v. answer 1;
  smembers = λ cs k. answer (codes "chatserver1" ∷ []);
  hset = λ cs k h v. answer 1;
  hget = λ cs k h. answer none;
  hdel = λ cs k h. answer 1;
  del = λ cs k. answer 1;
  exists = λ cs k. answer 0;
  get_user = λ cs uid. none;
  get_user_by_name = λ cs name. none;
  get_apply_list = λ cs uid. (true, []);
  get_friend_list = λ cs uid. (true, []);
  get_chat_msg_list = λ cs id last limit. some [];
  get_user_groups = λ cs uid. some [];
  create_group = λ cs name owner members. pos 1;
  get_group_members = λ cs group. (true, pos 7 ∷ pos 8 ∷ []);
  is_group_member = λ cs group uid. true;
  text_msg = λ cs server req. none;
  peers = [];
  self_name = codes "chatserver1";
}

pub quiet-IsUp : IsUp quiet
quiet-IsUp = record {
  gets = λ cs k. (_, refl);
  sets = λ cs k v. (_, refl);
  lpops = λ cs k. (_, refl);
  rpushes = λ cs k v. (_, refl);
  hsets = λ cs k h v. (_, refl);
}

-- Two sessions, 1 and 2, and no user logged in.
abbrev pub fresh_world : UserMgr → World
fresh_world users = record {
  calls = [];
  users = users;
  sessions = (codes "a", 1) ∷ (codes "b", 2) ∷ [];
  user_ids = λ p. pos 0;
  uuids = λ p. if p == 1 then codes "a" else codes "b";
}

abbrev pub object : List (Bytes × Doc) → Doc
object [] = nothing
object ((k, v) ∷ rest) = field k v (object rest)

pub documents-Laws : (name : Bytes) (content : Doc) → Laws (documents name content)
documents-Laws name content = record {
  member-set = λ v x k other o. refl;
  get_or_empty-set = λ v x k other o. ground arith;
  as_string-string = λ s. refl;
  items-array = items_of-array_of;
  is_array-array = is_list-array_of;
}
  where
    items_of-array_of : (ds : List Doc) → items_of (array_of ds) ≡ ds
    items_of-array_of [] = refl
    items_of-array_of (d ∷ ds) = ap (◌∷◌ d) (items_of-array_of ds)

    is_list-array_of : (ds : List Doc) → is_list (array_of ds) ≡ true
    is_list-array_of [] = refl
    is_list-array_of (d ∷ ds) = refl

-- A user whose token is "t", and who is not cached.
abbrev pub one_user : Env
one_user = record quiet {
  get = λ cs k. answer (if k == codes "utoken_7" then some (codes "t") else none);
  get_user = λ cs uid. some (record {
    name = codes "n";
    pwd = codes "p";
    uid = uid;
    email = [];
    nick = [];
    desc = [];
    sex = pos 0;
    icon = [];
  });
}

pub one_user-IsUp : IsUp one_user
one_user-IsUp = record {
  gets = λ cs k. (_, refl);
  sets = λ cs k v. (_, refl);
  lpops = λ cs k. (_, refl);
  rpushes = λ cs k v. (_, refl);
  hsets = λ cs k h v. (_, refl);
}
