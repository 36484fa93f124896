-- ===== src/Wire/Frame.antt =====
-- A short survives the way through the wire, and a node's buffer has the length it announces.
use minichat.Base.{
  ℕ, ◌+◌, ◌*◌, ◌/◌, ◌%◌, ◌<◌, ◌≤◌, ◌≡◌, refl, some, List, [], ◌∷◌, ◌++◌, Bytes, length, arith, drop,
  take_all,
}
use minichat.Const.{max_length}
use minichat.Wire.{ByteOrder, store_short, load_short, new_send_node}

-- network_to_host_short of the two bytes at the start of a buffer.
unfoldable pub read_short : ByteOrder → Bytes → ℕ
unfolding load_short
read_short o b = o.ntoh (load_short b)

swap_swap :
    (x : ℕ)
    → x < 65536
    → (x % 256 * 256 + x / 256) % 256 * 256 + (x % 256 * 256 + x / 256) / 256 ≡ x
swap_swap x h = omega arith

pub ntoh-hton : (o : ByteOrder) (x : ℕ) → x < 65536 → o.ntoh (o.hton x) ≡ x
ntoh-hton o x h = omega (
  arith,
  o.hton_swaps x h,
  o.ntoh_swaps (o.hton x) (omega (arith, o.hton_swaps x h)),
  swap_swap x h,
)

load-store : (x : ℕ) (rest : Bytes) → load_short (store_short x ++ rest) ≡ x
unfolding load_short store_short
load-store x rest = omega arith

pub read_short-store_short :
    (o : ByteOrder) (x : ℕ) (rest : Bytes)
    → x < 65536
    → read_short o (store_short (o.hton x) ++ rest) ≡ x
unfolding read_short
read_short-store_short o x rest h = rw (load-store (o.hton x) rest, read_short) (ntoh-hton o x h)

pub length-store_short : (x : ℕ) → length (store_short x) ≡ 2
unfolding store_short
length-store_short x = refl

pub record Frame : Type 0 where
  pub msg_id : ℕ
  pub payload : Bytes

-- What the reader accepts: id and length at most MAX_LENGTH.
pub record IsValid (f : Frame) : Type 0 where
  pub id_fits : f.msg_id ≤ max_length
  pub payload_fits : length f.payload ≤ max_length

module _ (o : ByteOrder) where
  unfoldable pub header : Frame → Bytes
  header f = store_short (o.hton f.msg_id) ++ store_short (o.hton (length f.payload))

  unfoldable pub encode : Frame → Bytes
  encode f = header f ++ f.payload

  unfoldable pub encode_all : List Frame → Bytes
  encode_all [] = []
  encode_all (f ∷ fs) = header f ++ (f.payload ++ encode_all fs)

  pub length-header : (f : Frame) → length (header f) ≡ 4
  unfolding header store_short
  length-header f = refl

  pub read_id : (f : Frame) → IsValid f → read_short o (header f) ≡ f.msg_id
  unfolding header
  read_id f v = read_short-store_short o f.msg_id _ (omega (arith, v.id_fits))

  drop-header : (f : Frame) → drop 2 (header f) ≡ store_short (o.hton (length f.payload)) ++ []
  unfolding header store_short
  drop-header f = refl

  pub read_len : (f : Frame) → IsValid f → read_short o (drop 2 (header f)) ≡ length f.payload
  read_len f v =
      rw (drop-header f)
        (read_short-store_short o (length f.payload) [] (omega (arith, v.payload_fits)))

  -- The buffer of a SendNode is the frame, for every message that fits a short with its header.
  pub new_send_node-encode :
      (msg : Bytes) (msg_id : ℕ)
      → length msg + 4 < 32768
      → new_send_node o msg (length msg) msg_id
        ≡ some (record {
          msg_id = msg_id;
          total_len = length msg + 4;
          buffer = encode (record { msg_id = msg_id; payload = msg });
        })
  unfolding new_send_node encode header store_short
  new_send_node-encode msg msg_id h = ground (arith, take_all (length msg) msg (omega arith))
