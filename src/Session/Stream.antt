-- ===== src/Session/Stream.antt =====
-- Frames in, frames out: whatever the sizes in which TCP delivers the bytes, the reader posts the
-- frames that the peer sent, in order, whole and one by one.
pub mod Filling
use Filling.{fresh, received, Filled, partly, wholly, fill, handle_head_lem, handle_body_lem}
use minichat.Base.{
  subst, Bool-cases, ℕ, zero, suc, ◌+◌, ◌-◌, ◌*◌, ◌≤◌, ◌<◌, ◌≡◌, refl, sym, ap, ◌∙◌, ◌⊎◌, inl, inr,
  Bool, true, false, Option, none, some, List, [], ◌∷◌, ◌++◌, Bytes, ltb, leb, if◌then◌else◌,
  length, take, drop, min, is_empty, ltb→lt, leb→le, le→leb, arith, map, length-append, length-take,
  take-append-drop, length-drop, append_injective, append_assoc, append-nil, All,
}
use minichat.Const.{max_length, head_total_len}
use minichat.Wire.{ByteOrder, RecvNode, new_recv_node, is_negative}
use minichat.Wire.Frame.{
  Frame, IsValid, header, encode_all, read_short, read_id, read_len, length-header,
}
use minichat.Session.Reader.{
  Next, close_and_clear, read_body, post, Phase, head, body, Reader, handle_head, handle_body,
  handler, continue, total, async_read_len, complete, complete_all, start,
}

-- Where the reader stands in the frames that are still to come.
data Follows (o : ByteOrder) (r : Reader) : List Frame → Type 0 where
  at_head :
      {fs : List Frame}
      → r.phase ≡ head
      → r.got ++ r.stream ≡ encode_all o fs
      → length r.got < 4
      → Follows o r fs
  at_body :
      {fs : List Frame} (f : Frame)
      → r.phase ≡ body (fresh f)
      → r.got ++ r.stream ≡ f.payload ++ encode_all o fs
      → (length r.got < length f.payload) ⊎ ((length r.got ≡ 0) × (length f.payload ≡ 0))
      → Follows o r (f ∷ fs)

abbrev phase_weight : Phase → ℕ
phase_weight head = 0
phase_weight _ = 1

-- Falls with every completion until all frames are posted.
abbrev weight : Reader → ℕ
weight r = 2 * length r.stream + phase_weight r.phase

data Progress (o : ByteOrder) (r r' : Reader) (fs : List Frame) : Type 0 where
  idle : fs ≡ [] → r' ≡ r → Progress o r r' fs
  moved : Follows o r' fs → r'.posted ≡ r.posted → weight r' < weight r → Progress o r r' fs
  delivered :
      (f : Frame) (rest : List Frame)
      → fs ≡ f ∷ rest
      → Follows o r' rest
      → r'.posted ≡ r.posted ++ received f ∷ []
      → weight r' < weight r
      → Progress o r r' fs

head_next :
    (o : ByteOrder) (f : Frame) (p : Phase)
    → p ≡ head
    → IsValid f
    → handler o p false (header o f) ≡ read_body (fresh f)
unfolding handler
head_next o f p e v =
    rw e (handle_head_lem o (header o f) f v (length-header o f) (read_id o f v) (read_len o f v))

body_next :
    (o : ByteOrder) (f : Frame) (p : Phase)
    → p ≡ body (fresh f)
    → handler o p false f.payload ≡ post (received f)
unfolding handler
body_next o f p e = rw e (handle_body_lem f)

nothing_yet :
    (xs : Bytes) → (length {A = ℕ} [] < length xs) ⊎ ((length {A = ℕ} [] ≡ 0) × (length xs ≡ 0))
nothing_yet [] = inr (refl, refl)
nothing_yet (x ∷ xs) = inl (omega arith)

module _ (o : ByteOrder) (r r' : Reader) (f : Frame) (fs : List Frame) where
  head_Progress :
      IsValid f
      → r.phase ≡ head
      → length r.got < 4
      → Filled o r (header o f) (f.payload ++ encode_all o fs) r'
      → Progress o r r' (f ∷ fs)
  unfolding encode_all continue
  head_Progress v phase short (partly p q e l m) =
      moved (at_head (p ∙ phase) e (omega (arith, l, length-header o f))) q
        (omega (arith, m, ap phase_weight p))
  head_Progress v phase short (wholly e l) =
      let result : r'
          ≡ continue (record r { stream = f.payload ++ encode_all o fs }) (read_body (fresh f)) =
        e
        ∙ ap (continue (record r { stream = f.payload ++ encode_all o fs }))
            (head_next o f r.phase phase v) in
      rw result (
        moved (at_body f refl refl (nothing_yet f.payload)) refl
          (omega (arith, l, length-header o f, short, ap phase_weight phase)))

  body_Progress :
      r.phase ≡ body (fresh f)
      → length r.got ≤ length f.payload
      → Filled o r f.payload (encode_all o fs) r'
      → Progress o r r' (f ∷ fs)
  unfolding continue
  body_Progress phase short (partly p q e l m) =
      moved (at_body f (p ∙ phase) e (inl l)) q (omega (arith, m, ap phase_weight p))
  body_Progress phase short (wholly e l) =
      let result : r' ≡ continue (record r { stream = encode_all o fs }) (post (received f)) =
        e ∙ ap (continue (record r { stream = encode_all o fs })) (body_next o f r.phase phase) in
      rw result (
        delivered f fs refl (at_head refl refl (omega arith)) refl
          (omega (arith, l, short, ap phase_weight phase)))

empty_of_append {ℓ} : {A : Type ℓ} (xs ys : List A) → xs ++ ys ≡ [] → (xs ≡ []) × (ys ≡ [])
empty_of_append [] ys e = (refl, e)
empty_of_append (x ∷ xs) ys e = cc

module _ (o : ByteOrder) (r : Reader) (n : ℕ) (positive : 0 < n) where
  idle_step : r.phase ≡ head → r.got ++ r.stream ≡ [] → complete o r false n ≡ r
  unfolding complete total
  idle_step p e =
      let empty = empty_of_append r.got r.stream e in ground (arith, empty.0, empty.1, p)

  step :
      (fs : List Frame) → All IsValid fs → Follows o r fs → Progress o r (complete o r false n) fs
  unfolding total encode_all
  step [] v (at_head p e l) = idle refl (idle_step p e)
  step (f ∷ fs) v (at_head p e l) = head_Progress o r _ f fs v.0 p l (
      fill o r n (header o f) (f.payload ++ encode_all o fs) positive
        (ap total p ∙ sym (length-header o f)) e (inl (omega (arith, l, length-header o f))))
  step (f ∷ fs) v (at_body g p e l) =
      body_Progress o r _ f fs p (omega (arith, l))
        (fill o r n f.payload (encode_all o fs) positive (ap total p) e l)

weight_zero :
    (o : ByteOrder) (r : Reader) (fs : List Frame) → Follows o r fs → weight r ≡ 0 → fs ≡ []
unfolding encode_all
weight_zero o r [] h w = refl
weight_zero o r (f ∷ fs) (at_head p e l) w = absurd (
    omega (
      arith,
      w,
      l,
      ap length e,
      length-append r.got r.stream,
      length-append (header o f) (f.payload ++ encode_all o fs),
      length-header o f,
    ))
weight_zero o r (f ∷ fs) (at_body g p e l) w = absurd (omega (arith, w, ap phase_weight p))

-- What a reader has posted is a prefix of the frames, and all of them if the budget covers `cost`.
abbrev Posts : List RecvNode → ℕ → List Frame → ℕ → List RecvNode → Type 0
Posts before cost fs budget after =
    (done : List Frame) × (rest : List Frame) × (fs ≡ done ++ rest)
    × (after ≡ before ++ map received done)
    × (cost ≤ budget → rest ≡ [])

conclude :
    (o : ByteOrder) (r r' : Reader) (fs : List Frame) (budget : ℕ) (after : List RecvNode)
    → All IsValid fs
    → Follows o r fs
    → Progress o r r' fs
    → ((gs : List Frame)
        → All IsValid gs
        → Follows o r' gs
        → Posts r'.posted (weight r') gs budget after)
    → Posts r.posted (weight r) fs (suc budget) after
conclude o r r' fs budget after v h (idle e same) ih =
    let (done, rest, split, posted, whole) = ih fs v (subst (λ t. Follows o t fs) (sym same) h) in
    (
      done,
      rest,
      split,
      posted ∙ ap (λ (t : Reader). t.posted ++ map received done) same,
      λ _. (empty_of_append done rest (sym split ∙ e)).1,
    )
conclude o r r' fs budget after v h (moved h' same less) ih =
    let (done, rest, split, posted, whole) = ih fs v h' in
    (
      done,
      rest,
      split,
      posted ∙ ap (λ t. t ++ map received done) same,
      λ w. whole (omega (arith, w, less)),
    )
conclude o r r' fs budget after v h (delivered f gs e h' more less) ih =
    let (done, rest, split, posted, whole) = ih gs (subst (All IsValid) e v).1 h' in
    (
      f ∷ done,
      rest,
      e ∙ ap (◌∷◌ f) split,
      posted
          ∙ (ap (λ t. t ++ map received done) more
              ∙ append_assoc r.posted (received f ∷ []) (map received done)),
      λ w. whole (omega (arith, w, less)),
    )

run_posted :
    (o : ByteOrder) (r : Reader) (fs : List Frame) (ns : List ℕ)
    → All IsValid fs
    → All (λ n. 0 < n) ns
    → Follows o r fs
    → Posts r.posted (weight r) fs (length ns) (complete_all o r ns).posted
unfolding complete_all
run_posted o r fs [] v p h =
    ([], fs, refl, sym (append-nil r.posted), λ w. weight_zero o r fs h (omega (arith, w)))
run_posted o r fs (n ∷ ns) v p h =
    conclude o r (complete o r false n) fs (length ns) _ v h (step o r n p.0 fs v h)
      (λ gs vs hs. run_posted o (complete o r false n) gs ns vs p.1 hs)

-- Framing survives TCP. The peer sends the frames fs, each with an id and a length of at most
-- MAX_LENGTH, and the socket delivers the bytes in pieces of any positive sizes ns. Then what the
-- session has posted to the LogicSystem is, in order, the nodes of a prefix of fs, and it is all of
-- fs once there were twice as many completions as bytes.
pub posted-complete_all :
    (o : ByteOrder) (fs : List Frame) (ns : List ℕ)
    → All IsValid fs
    → All (λ n. 0 < n) ns
    → (done : List Frame) × (rest : List Frame) × (fs ≡ done ++ rest)
      × ((complete_all o (start (encode_all o fs)) ns).posted ≡ map received done)
      × (2 * length (encode_all o fs) ≤ length ns → rest ≡ [])
posted-complete_all o fs ns v p =
    let (done, rest, split, posted, whole) =
      run_posted o (start (encode_all o fs)) fs ns v p (at_head refl refl (omega arith)) in
    (done, rest, split, posted, λ w. whole (omega (arith, w)))
