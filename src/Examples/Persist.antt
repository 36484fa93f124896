-- ===== src/Examples/Persist.antt =====
-- A queue with a batch size of two, a history with a close in it, and keys.
use minichat.Base.{ℕ, ◌≡◌, refl, ◌⊎◌, true, false, List, [], ◌∷◌, ◌++◌, codes, arith}
use minichat.Base.Int.{pos}
use minichat.Persist.{ChatMsgInfo, Persist, close, Event, push, round, closing, run}
use minichat.Persist.Keys.{make_session_id_comm, make_session_id_injective}
use minichat.Persist.Draining.{contents, accepted, concat, rounds, run-contents, rounds-drain}

abbrev stored : ℕ → ChatMsgInfo
stored n = record {
  session_id = codes "3_7";
  from_uid = pos 3;
  to_uid = pos 7;
  unique_id = n ∷ [];
  content = codes "hello";
}

abbrev waiting : Persist
waiting = record {
  queue = stored 1 ∷ stored 2 ∷ stored 3 ∷ [];
  stop = false;
  batch_size = 2;
  flushed = [];
  running = true;
}

abbrev history : List Event
history =
    round
    ∷ push (codes "g_5") (pos 3) (pos 5) (record { msgid = codes "m"; content = codes "x" } ∷ [])
    ∷ closing
    ∷ push (codes "3_7") (pos 3) (pos 7) []
    ∷ round
    ∷ []

run-contents_example : contents (run waiting history) ≡ contents waiting ++ accepted false history
run-contents_example = run-contents waiting history

rounds-drain_example :
    ((rounds 4 (close waiting)).running ≡ false)
    × (concat (rounds 4 (close waiting)).flushed ≡ contents waiting)
rounds-drain_example = rounds-drain waiting refl (omega arith)

make_session_id_injective_example :
    ((pos 7 ≡ pos 3) × (pos 3 ≡ pos 7)) ⊎ ((pos 7 ≡ pos 7) × (pos 3 ≡ pos 3))
make_session_id_injective_example =
    make_session_id_injective (pos 7) (pos 3) (pos 3) (pos 7) (make_session_id_comm (pos 7) (pos 3))
