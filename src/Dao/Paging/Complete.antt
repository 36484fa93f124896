-- ===== src/Dao/Paging/Complete.antt =====
-- Following the cursor of the answers reads the whole conversation.
use mathlib.Core.List.{reverse, reverse-append}
use minichat.Base.{
  ℕ, zero, suc, ◌-◌, ◌<◌, Bool, true, false, Option, none, some, List, [], ◌∷◌, ◌++◌, Bytes, ◌≡◌,
  refl, take, length, length-append, arith, append_assoc, ◌∙◌, sym, ap, subst, All,
}
use minichat.Base.Int.{ℤ, pos, is_positive, leb_ℤ}
use minichat.Chat.World.{StoredMsg}
use minichat.MysqlDao.{page_limit}
use minichat.Dao.{Row, Event, Database, followed, done}
use minichat.Dao.Reports.{get_chat_msg_list}
use minichat.Dao.Paging.{
  below, older, Holds, Descending, read_all, in_front, page_limit_bounds, get_chat_msg_list-page,
}

leb_ℤ-refl : (a : ℤ) → leb_ℤ a a ≡ true
leb_ℤ-refl a = ground arith

below_all : (c : ℤ) (ms : List StoredMsg) → All (λ m. leb_ℤ c m.msg_id ≡ false) ms → below c ms ≡ ms
below_all c [] h = refl
below_all c (m ∷ ms) h = rw h.0 (ap (◌∷◌ m) (below_all c ms h.1))

-- The cursor is in the list: what is older stands behind it.
All-middle :
    (P : StoredMsg → Type 0) (xs : List StoredMsg) (y : StoredMsg) (ys : List StoredMsg)
    → All P (xs ++ y ∷ ys)
    → P y
All-middle P [] y ys h = h.0
All-middle P (x ∷ xs) y ys h = All-middle P xs y ys h.1

newer : (a b : ℤ) → leb_ℤ a b ≡ false → leb_ℤ b a ≡ true
newer a b h = ground arith

below-middle :
    (xs : List StoredMsg) (y : StoredMsg) (ys : List StoredMsg)
    → Descending (xs ++ y ∷ ys)
    → (is_positive y.msg_id ≡ true) × (below y.msg_id (xs ++ y ∷ ys) ≡ ys)
below-middle [] y ys d = (d.0, rw (leb_ℤ-refl y.msg_id) (below_all y.msg_id ys d.1))
below-middle (x ∷ xs) y ys d =
    let (p, o) = below-middle xs y ys d.2 in
    (p, rw (newer x.msg_id y.msg_id (All-middle _ xs y ys d.1)) o)

-- A page that is not empty ends with the message of its cursor.
take_last :
    (n : ℕ) (z : StoredMsg) (zs : List StoredMsg)
    → (xs : List StoredMsg) × (y : StoredMsg) × (ys : List StoredMsg) × (take (suc n) (z ∷ zs)
        ≡ xs ++ y ∷ [])
      × (z ∷ zs ≡ xs ++ y ∷ ys)
take_last zero z zs = ([], z, zs, refl, refl)
take_last (suc n) z [] = ([], z, [], refl, refl)
take_last (suc n) z (w ∷ zs) =
    let (xs, y, ys, t, e) = take_last n w zs in (z ∷ xs, y, ys, ap (◌∷◌ z) t, ap (◌∷◌ z) e)

reverse-middle :
    (xs : List StoredMsg) (y : StoredMsg) (ys : List StoredMsg)
    → reverse ys ++ y ∷ reverse xs ≡ reverse (xs ++ y ∷ ys)
reverse-middle xs y ys = sym (
    reverse-append xs (y ∷ ys)
    ∙ ap (λ l. l ++ reverse xs) (reverse-append (y ∷ []) ys)
    ∙ append_assoc (reverse ys) (y ∷ []) (reverse xs))

-- The pages before, put in front of this one.
followed-in_front :
    (db : Database) (session_id : Bytes) (limit : ℤ) (page : Bool × List StoredMsg)
    (before : List StoredMsg) (r : Option (Option (List StoredMsg)) × List Event)
    → r.0 ≡ some (some before)
    → (followed (λ b. done (in_front db session_id limit page b)) r).0
      ≡ some (some (before ++ page.1))
followed-in_front db session_id limit page before (none, log) h = cc
followed-in_front db session_id limit page before (some b, log) h =
    let e : b ≡ some before = cc in rw e refl

module _ (db : Database) (session_id : Bytes) (messages : List StoredMsg) (row_of : StoredMsg → Row)
    (at_end : Row) (limit : ℤ) (n : ℕ) (holds : Holds db session_id messages row_of at_end)
    (lim : page_limit limit ≡ pos (suc n)) (desc : Descending messages) where
  -- From a cursor behind `before`, with more pages allowed than messages are left.
  read_rest :
      (pages : ℕ) (cursor : ℤ) (before rest : List StoredMsg) (log : List Event)
      → messages ≡ before ++ rest
      → older cursor messages ≡ rest
      → length rest < pages
      → (read_all db session_id limit pages cursor log).0 ≡ some (some (reverse rest))
  unfolding read_all
  read_rest zero cursor before rest log e o h = absurd (omega arith)
  read_rest (suc pages) cursor before [] log e o h =
      let (log', p) =
        get_chat_msg_list-page db session_id messages row_of at_end cursor limit (suc n) log holds
          lim in
      rw (p, o) refl
  read_rest (suc pages) cursor before (z ∷ zs) log e o h =
      let (log', p) =
        get_chat_msg_list-page db session_id messages row_of at_end cursor limit (suc n) log holds
          lim in
      let (xs, y, ys, t, s) = take_last n z zs in
      let whole : messages ≡ (before ++ xs) ++ y ∷ ys =
        e ∙ ap (◌++◌ before) s ∙ sym (append_assoc before xs (y ∷ ys)) in
      let m = below-middle (before ++ xs) y ys (subst Descending whole desc) in
      let page : get_chat_msg_list db session_id cursor limit log
          ≡ (some (true, y ∷ reverse xs), log') =
        p
        ∙ ap (λ l. (some (true, reverse l), log')) (ap (take (suc n)) o ∙ t)
        ∙ ap (λ l. (some (true, l), log')) (reverse-append xs (y ∷ [])) in
      let next_page =
        read_rest pages y.msg_id ((before ++ xs) ++ y ∷ []) ys log'
          (whole ∙ sym (append_assoc (before ++ xs) (y ∷ []) ys))
          (rw m.0 (ap (below y.msg_id) whole ∙ m.1))
          (omega (arith, ap length s, length-append xs (y ∷ ys))) in
      rw page (
        followed-in_front db session_id limit (true, y ∷ reverse xs) (reverse ys) _ next_page
        ∙ ap (λ l. some (some l)) (reverse-middle xs y ys ∙ ap reverse (sym s)))

-- A client that asks for the latest page and then for the page before each answer's cursor gets the
-- whole conversation, oldest message first, each message once, with whatever limit it asks: it meets
-- an empty page before it has asked more often than there are messages, plus one. The ids are
-- positive and differ, and the database answers the query of a page as SQL says.
pub read_all_complete :
    (db : Database) (session_id : Bytes) (messages : List StoredMsg) (row_of : StoredMsg → Row)
    (at_end : Row) (limit : ℤ) (pages : ℕ) (log : List Event)
    → Holds db session_id messages row_of at_end
    → Descending messages
    → length messages < pages
    → (read_all db session_id limit pages (pos 0) log).0 ≡ some (some (reverse messages))
read_all_complete db session_id messages row_of at_end limit pages log holds desc h =
    let (n, e, positive, most) = page_limit_bounds limit in
    read_rest db session_id messages row_of at_end limit (n - 1) holds (e ∙ ap pos (omega arith))
      desc pages (pos 0) [] messages log refl refl h
