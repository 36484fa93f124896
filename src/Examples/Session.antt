-- ===== src/Examples/Session.antt =====
-- A stream of two frames in pieces of three bytes, and a session that sends.
use minichat.Base.{
  Bytes, true, ℕ, ◌*◌, ◌≤◌, ◌≡◌, refl, false, some, List, [], ◌∷◌, ◌++◌, codes, length, arith, map,
}
use minichat.Base.Int.{pos}
use minichat.Wire.{new_send_node, store_short}
use minichat.Wire.Frame.{Frame, encode_all}
use minichat.Session.{Session, send, push_node, start_write, handle_write}
use minichat.Session.Outbox.{IsValid, Sent, accepted, send-Sent, send-IsValid, handle_write_keeps}
use minichat.Session.Reader.{complete_all, start}
use minichat.Session.Stream.{posted-complete_all}
use minichat.Session.Transfer.{sent_bytes, posted-sent_bytes}
use minichat.Session.Stream.Filling.{received}
use minichat.Examples.Wire.{little_endian, hello, empty, hello-IsValid, empty-IsValid}

abbrev sent_frames : List Frame
sent_frames = hello ∷ empty ∷ []

abbrev pieces : List ℕ
pieces = 3 ∷ 3 ∷ 3 ∷ 3 ∷ 3 ∷ []

posted-complete_all_example :
    (done : List Frame) × (rest : List Frame) × (sent_frames ≡ done ++ rest)
    × ((complete_all little_endian (start (encode_all little_endian sent_frames)) pieces).posted
        ≡ map received done)
    × (2 * length (encode_all little_endian sent_frames) ≤ length pieces → rest ≡ [])
posted-complete_all_example =
    posted-complete_all little_endian sent_frames pieces (hello-IsValid, (empty-IsValid, tt))
      (omega arith, (omega arith, (omega arith, (omega arith, (omega arith, tt)))))

posted-sent_bytes_example :
    (bytes : Bytes) × (sent_bytes little_endian sent_frames ≡ some bytes)
    × (2 * length bytes ≤ length pieces
        → (complete_all little_endian (start bytes) pieces).posted ≡ map received sent_frames)
posted-sent_bytes_example =
    posted-sent_bytes little_endian sent_frames pieces (hello-IsValid, (empty-IsValid, tt))
      (omega arith, (omega arith, (omega arith, (omega arith, (omega arith, tt)))))

abbrev idle : Session
idle = record {
  uuid = codes "a";
  user_uid = pos 7;
  closed = false;
  send_que = [];
  started = [];
  in_flight = 0;
}

idle-IsValid : IsValid idle
idle-IsValid = record { one_write = refl; bounded = omega arith }

abbrev after : Session
after = record idle {
  send_que = record { msg_id = 5; total_len = 6; buffer = 0 ∷ 5 ∷ 0 ∷ 2 ∷ codes "hi" } ∷ [];
  started = record { msg_id = 5; total_len = 6; buffer = 0 ∷ 5 ∷ 0 ∷ 2 ∷ codes "hi" } ∷ [];
  in_flight = 1;
}

send_runs : send little_endian idle (codes "hi") 5 ≡ some after
unfolding send new_send_node store_short push_node start_write
send_runs = refl

after-IsValid : IsValid after
after-IsValid = record { one_write = refl; bounded = omega arith }

send-Sent_example : Sent little_endian idle (codes "hi") 5 after
send-Sent_example = send-Sent little_endian idle (codes "hi") 5 send_runs

send-IsValid_example : IsValid after
send-IsValid_example = send-IsValid little_endian idle (codes "hi") 5 send_runs idle-IsValid

handle_write_keeps_example :
    (IsValid (handle_write after false).0
      × (accepted (handle_write after false).0 ≡ accepted after)
      × ((handle_write after false).1 ≡ false))
    × (((handle_write after true).0.closed ≡ true)
        × ((handle_write after true).0.in_flight ≡ 0)
        × (accepted (handle_write after true).0 ≡ accepted after)
        × ((handle_write after true).1 ≡ true))
handle_write_keeps_example = handle_write_keeps after after-IsValid (omega arith)
