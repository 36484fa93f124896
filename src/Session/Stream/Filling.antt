-- ===== src/Session/Stream/Filling.antt =====
-- One completion of `async_read_some`: what it does to the read in progress.
use minichat.Base.{
  Bool-cases, ℕ, ◌+◌, ◌-◌, ◌<◌, ◌≡◌, refl, ap, ◌∙◌, ◌⊎◌, inl, inr, true, false, [], ◌∷◌, ◌++◌,
  Bytes, ltb, leb, length, take, drop, min, is_empty, ltb→lt, leb→le, arith, length-append,
  length-take, take-append-drop, length-drop, append_injective, append_assoc,
}
use minichat.Wire.{ByteOrder, RecvNode}
use minichat.Wire.Frame.{Frame, IsValid, read_short}
use minichat.Session.Reader.{
  read_body, post, Reader, handle_head, handle_body, handler, continue, total, async_read_len,
  complete,
}

-- The empty node that AsyncReadHead makes for a frame, and the one that is posted.
abbrev pub fresh : Frame → RecvNode
fresh f = record { msg_id = f.msg_id; total_len = length f.payload; cur_len = 0; payload = [] }

abbrev pub received : Frame → RecvNode
received f = record {
  msg_id = f.msg_id;
  total_len = length f.payload;
  cur_len = length f.payload;
  payload = f.payload;
}

pub handle_head_lem :
    (o : ByteOrder) (bytes : Bytes) (f : Frame)
    → IsValid f
    → length bytes ≡ 4
    → read_short o bytes ≡ f.msg_id
    → read_short o (drop 2 bytes) ≡ length f.payload
    → handle_head o false bytes ≡ read_body (fresh f)
unfolding handle_head
handle_head_lem o bytes f v n p q = ground arith

pub handle_body_lem : (f : Frame) → handle_body (fresh f) false f.payload ≡ post (received f)
unfolding handle_body
handle_body_lem f = ground arith

-- One completion on a part W of the stream: it brings the read nearer to W, or completes it.
not_empty : (xs : Bytes) → 0 < length xs → is_empty xs ≡ false
not_empty [] h = absurd (omega arith)
not_empty (x ∷ xs) h = refl

pub data Filled (o : ByteOrder) (r : Reader) (W rest : Bytes) (r' : Reader) : Type 0 where
  partly :
      r'.phase ≡ r.phase
      → r'.posted ≡ r.posted
      → r'.got ++ r'.stream ≡ W ++ rest
      → length r'.got < length W
      → length r'.stream < length r.stream
      → Filled o r W rest r'
  wholly :
      r' ≡ continue (record r { stream = rest }) (handler o r.phase false W)
      → length r.stream + length r.got ≡ length rest + length W
      → Filled o r W rest r'

module _ (o : ByteOrder) (r : Reader) (n : ℕ) (W rest : Bytes) (positive : 0 < n)
    (needs : total r.phase ≡ length W) (same : r.got ++ r.stream ≡ W ++ rest)
    (open_read : (length r.got < length W) ⊎ ((length r.got ≡ 0) × (length W ≡ 0))) where
  lengths : length r.got + length r.stream ≡ length W + length rest
  lengths = omega (arith, ap length same, length-append r.got r.stream, length-append W rest)

  abbrev k : ℕ
  k = min n (total r.phase - length r.got)

  chunk_length : length (r.got ++ take k r.stream) ≡ length r.got + k
  chunk_length = omega (
    arith,
    length-append r.got (take k r.stream),
    length-take k r.stream,
    lengths,
    needs,
    open_read,
  )

  same_split : (r.got ++ take k r.stream) ++ drop k r.stream ≡ W ++ rest
  same_split =
      append_assoc r.got (take k r.stream) (drop k r.stream)
      ∙ (ap (λ t. r.got ++ t) (take-append-drop k r.stream) ∙ same)

  complete_reads :
      complete o r false n
      ≡ async_read_len o (record r { stream = drop k r.stream }) false (take k r.stream)
  unfolding complete
  complete_reads = elim (Bool-cases (ltb 0 (total r.phase - length r.got))) [
    | inl room ↦ rw (room, not_empty r.stream (omega (arith, lengths, needs, ltb→lt _ _ room))) refl
    | inr none_left ↦ rw none_left refl
  ]

  abbrev filled : Reader
  filled = record r { stream = drop k r.stream }

  fill_full :
      leb (total r.phase) (length (r.got ++ take k r.stream)) ≡ true
      → Filled o r W rest (async_read_len o filled false (take k r.stream))
  unfolding async_read_len
  fill_full e =
      let parts =
        append_injective (r.got ++ take k r.stream) W (drop k r.stream) rest
          (omega (arith, chunk_length, leb→le _ _ e, needs, open_read)) same_split in
      rw e (wholly (cc (parts.0, parts.1)) (omega (arith, lengths)))

  fill_part :
      leb (total r.phase) (length (r.got ++ take k r.stream)) ≡ false
      → Filled o r W rest (async_read_len o filled false (take k r.stream))
  unfolding async_read_len
  fill_part e = rw e (
      partly refl refl same_split (ground (arith, e, needs, chunk_length))
        (ground (arith, e, needs, chunk_length, length-drop k r.stream, lengths)))

  pub fill : Filled o r W rest (complete o r false n)
  fill =
      rw complete_reads
        (elim (Bool-cases (leb (total r.phase) (length (r.got ++ take k r.stream)))) [
          | inl e ↦ fill_full e
          | inr e ↦ fill_part e
        ])
