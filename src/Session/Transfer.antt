-- ===== src/Session/Transfer.antt =====
-- From one connection to another: the bytes of the nodes that Send builds, and what a CSession that
-- reads them posts.
use minichat.Base.{
  ℕ, ◌*◌, ◌<◌, ◌≤◌, ◌≡◌, refl, sym, ap, ◌∙◌, Option, none, some, List, [], ◌∷◌, ◌++◌, Bytes, length,
  map, All, arith, append_assoc, append-nil,
}
use minichat.Wire.{ByteOrder, SendNode, new_send_node, to_short}
use minichat.Wire.Frame.{Frame, IsValid, encode, encode_all, header, new_send_node-encode}
use minichat.Session.Reader.{complete_all, start}
use minichat.Session.Stream.{posted-complete_all}
use minichat.Session.Stream.Filling.{received}

-- What the buffer of a node adds in front of other bytes.
abbrev pub in_front : Option SendNode → Option Bytes → Option Bytes
in_front none rest = none
in_front (some node) none = none
in_front (some node) (some rest) = some (node.buffer ++ rest)

module _ (o : ByteOrder) where
  -- The bytes that Send hands to the socket for some messages, in order. `none` is a fault of a node's
  -- constructor.
  unfoldable pub sent_bytes : List Frame → Option Bytes
  sent_bytes [] = some []
  sent_bytes (f ∷ fs) =
      in_front (new_send_node o f.payload (to_short (length f.payload)) f.msg_id) (sent_bytes fs)

  narrowed : (f : Frame) → IsValid f → to_short (length f.payload) ≡ length f.payload
  narrowed f v = omega (arith, v.payload_fits)

  built :
      (f : Frame) (rest : Bytes)
      → IsValid f
      → in_front (new_send_node o f.payload (to_short (length f.payload)) f.msg_id) (some rest)
        ≡ some (header o f ++ (f.payload ++ rest))
  unfolding encode
  built f rest v =
      rw (narrowed f v, new_send_node-encode o f.payload f.msg_id (omega (arith, v.payload_fits)))
        (ap some (append_assoc (header o f) f.payload rest))

  sent_bytes-encode_all :
      (fs : List Frame) → All IsValid fs → sent_bytes fs ≡ some (encode_all o fs)
  unfolding sent_bytes encode_all
  sent_bytes-encode_all [] v = refl
  sent_bytes-encode_all (f ∷ fs) v =
      rw (sent_bytes-encode_all fs v.1) (built f (encode_all o fs) v.0)

  -- Messages whose id and length are at most MAX_LENGTH can all be sent, and when the bytes arrive,
  -- however they are cut into pieces, the other side posts exactly these messages, in order, once twice
  -- as many reads have completed as there are bytes.
  pub posted-sent_bytes :
      (fs : List Frame) (ns : List ℕ)
      → All IsValid fs
      → All (λ n. 0 < n) ns
      → (bytes : Bytes) × (sent_bytes fs ≡ some bytes)
        × (2 * length bytes ≤ length ns
            → (complete_all o (start bytes) ns).posted ≡ map received fs)
  posted-sent_bytes fs ns v p =
      let (done, rest, split, posted, whole) = posted-complete_all o fs ns v p in
      (
        encode_all o fs,
        sent_bytes-encode_all fs v,
        λ enough.
            posted
            ∙ ap (map received)
                (sym (append-nil done) ∙ sym (split ∙ ap (λ r. done ++ r) (whole enough))),
      )
