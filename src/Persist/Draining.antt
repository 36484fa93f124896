-- ===== src/Persist/Draining.antt =====
-- Nothing that was pushed is lost, duplicated or reordered on its way to the database.
use minichat.Base.{
  ℕ, zero, suc, ◌≤◌, ◌<◌, ◌≡◌, refl, sym, ap, ◌∙◌, Bool, true, false, List, [], ◌∷◌, ◌++◌, Bytes,
  length, map, arith, append_assoc, append-nil, length-append,
}
use minichat.Base.Int.{ℤ}
use minichat.Persist.{
  ChatMsgInfo, TextItem, make_record, Persist, push_messages, fill_batch, flush_batch, worker_round,
  close, Event, push, round, closing, step, run,
}

-- The messages of all batches, in order.
abbrev pub concat : List (List ChatMsgInfo) → List ChatMsgInfo
concat [] = []
concat (b ∷ bs) = b ++ concat bs

concat-append :
    (bs : List (List ChatMsgInfo)) (b : List ChatMsgInfo) → concat (bs ++ b ∷ []) ≡ concat bs ++ b
concat-append [] b = append-nil b
concat-append (c ∷ bs) b =
    ap (λ t. c ++ t) (concat-append bs b) ∙ sym (append_assoc c (concat bs) b)

-- Everything handed to the database so far, then everything that waits.
abbrev pub contents : Persist → List ChatMsgInfo
contents p = concat p.flushed ++ p.queue

-- What a history pushes before `_stop` is set.
abbrev pub accepted : Bool → List Event → List ChatMsgInfo
accepted stop [] = []
accepted true (e ∷ es) = []
accepted false (push id from to items ∷ es) =
    map (make_record id from to) items ++ accepted false es
accepted false (round ∷ es) = accepted false es
accepted false (closing ∷ es) = []

pub fill_batch-append :
    (n : ℕ) (q : List ChatMsgInfo) → (fill_batch n q).0 ++ (fill_batch n q).1 ≡ q
unfolding fill_batch
fill_batch-append n [] = refl
fill_batch-append zero (m ∷ q) = refl
fill_batch-append (suc n) (m ∷ q) = ap (◌∷◌ m) (fill_batch-append n q)

flush_batch-contents :
    (p : Persist) (b left : List ChatMsgInfo)
    → contents (flush_batch (record p { queue = left }) b) ≡ concat p.flushed ++ (b ++ left)
unfolding flush_batch
flush_batch-contents p [] left = refl
flush_batch-contents p (m ∷ b) left =
    ap (λ t. t ++ left) (concat-append p.flushed (m ∷ b))
    ∙ append_assoc (concat p.flushed) (m ∷ b) left

round-contents : (p : Persist) → contents (worker_round p) ≡ contents p
unfolding worker_round
round-contents p = ground (
  arith,
  flush_batch-contents p (fill_batch p.batch_size p.queue).0 (fill_batch p.batch_size p.queue).1,
  fill_batch-append p.batch_size p.queue,
)

flush_batch-fields :
    (p : Persist) (b : List ChatMsgInfo)
    → ((flush_batch p b).stop ≡ p.stop)
      × ((flush_batch p b).batch_size ≡ p.batch_size)
      × ((flush_batch p b).queue ≡ p.queue)
      × ((flush_batch p b).running ≡ p.running)
unfolding flush_batch
flush_batch-fields p [] = (refl, refl, refl, refl)
flush_batch-fields p (m ∷ b) = (refl, refl, refl, refl)

module _ (p : Persist) where
  abbrev batch : List ChatMsgInfo
  batch = (fill_batch p.batch_size p.queue).0

  abbrev left : List ChatMsgInfo
  left = (fill_batch p.batch_size p.queue).1

  round-stop : (worker_round p).stop ≡ p.stop
  unfolding worker_round
  round-stop = ground (arith, flush_batch-fields (record p { queue = left }) batch)

  round-batch_size : (worker_round p).batch_size ≡ p.batch_size
  unfolding worker_round
  round-batch_size = ground (arith, flush_batch-fields (record p { queue = left }) batch)

push_stopped :
    (p : Persist) (id : Bytes) (from to : ℤ) (items : List TextItem)
    → p.stop ≡ true
    → push_messages p id from to items ≡ p
unfolding push_messages
push_stopped p id from to items h = ground arith

push_open :
    (p : Persist) (id : Bytes) (from to : ℤ) (items : List TextItem)
    → p.stop ≡ false
    → (contents (push_messages p id from to items)
        ≡ contents p ++ map (make_record id from to) items)
      × ((push_messages p id from to items).stop ≡ false)
unfolding push_messages
push_open p id from to items h =
    ground (arith, append_assoc (concat p.flushed) p.queue (map (make_record id from to) items))

run-contents_stopped :
    (p : Persist) (es : List Event) → p.stop ≡ true → contents (run p es) ≡ contents p
unfolding run step close
run-contents_stopped p [] h = refl
run-contents_stopped p (push id from to items ∷ es) h =
    ap (λ t. contents (run t es)) (push_stopped p id from to items h) ∙ run-contents_stopped p es h
run-contents_stopped p (round ∷ es) h =
    run-contents_stopped (worker_round p) es (round-stop p ∙ h) ∙ round-contents p
run-contents_stopped p (closing ∷ es) h = run-contents_stopped (record p { stop = true }) es refl

run-contents_from :
    (b : Bool) (p : Persist) (es : List Event)
    → p.stop ≡ b
    → contents (run p es) ≡ contents p ++ accepted b es
unfolding run step close
run-contents_from b p [] h = sym (append-nil (contents p))
run-contents_from true p (e ∷ es) h =
    run-contents_stopped p (e ∷ es) h ∙ sym (append-nil (contents p))
run-contents_from false p (push id from to items ∷ es) h =
    let (more, open_still) = push_open p id from to items h in
    run-contents_from false (push_messages p id from to items) es open_still
    ∙ (ap (λ t. t ++ accepted false es) more
        ∙ append_assoc (contents p) (map (make_record id from to) items) (accepted false es))
run-contents_from false p (round ∷ es) h =
    run-contents_from false (worker_round p) es (round-stop p ∙ h)
    ∙ ap (λ t. t ++ accepted false es) (round-contents p)
run-contents_from false p (closing ∷ es) h =
    run-contents_stopped (record p { stop = true }) es refl ∙ sym (append-nil (contents p))

-- No history loses, duplicates or reorders a message: what has been flushed, followed by what waits,
-- is what it was before followed by the records that were pushed while `_stop` was unset, in order.
pub run-contents :
    (p : Persist) (es : List Event) → contents (run p es) ≡ contents p ++ accepted p.stop es
run-contents p es = run-contents_from p.stop p es refl

-- Rounds of the worker with nothing between them.
abbrev pub rounds : ℕ → Persist → Persist
rounds zero p = p
rounds (suc n) p = rounds n (worker_round p)

round_last :
    (p : Persist)
    → p.queue ≡ []
    → p.stop ≡ true
    → p.running ≡ true
    → worker_round p ≡ record p { running = false }
unfolding worker_round
round_last p e s r = ground arith

round_ended : (p : Persist) → p.running ≡ false → worker_round p ≡ p
unfolding worker_round
round_ended p r = ground arith

rounds_ended : (n : ℕ) (p : Persist) → p.running ≡ false → rounds n p ≡ p
rounds_ended zero p r = refl
rounds_ended (suc n) p r = ap (rounds n) (round_ended p r) ∙ rounds_ended n p r

fill_batch_shrinks :
    (n : ℕ) (m : ChatMsgInfo) (q : List ChatMsgInfo)
    → 0 < n
    → length (fill_batch n (m ∷ q)).1 ≤ length q
unfolding fill_batch
fill_batch_shrinks zero m q h = absurd (omega arith)
fill_batch_shrinks (suc n) m q h =
    omega (
      arith,
      ap length (fill_batch-append n q),
      length-append (fill_batch n q).0 (fill_batch n q).1,
    )

round_more :
    (p : Persist) (m : ChatMsgInfo) (q : List ChatMsgInfo)
    → p.queue ≡ m ∷ q
    → p.running ≡ true
    → 0 < p.batch_size
    → ((worker_round p).running ≡ true) × (length (worker_round p).queue ≤ length q)
unfolding worker_round
round_more p m q e r b = ground (
  arith,
  flush_batch-fields (record p { queue = left p }) (batch p),
  fill_batch_shrinks p.batch_size m q,
)

drained :
    (n : ℕ) (p : Persist) (q : List ChatMsgInfo)
    → p.queue ≡ q
    → p.stop ≡ true
    → p.running ≡ true
    → 0 < p.batch_size
    → length q ≤ n
    → ((rounds (suc n) p).running ≡ false) × (concat (rounds (suc n) p).flushed ≡ contents p)
drained n p [] e s r b h =
    let last : rounds (suc n) p ≡ record p { running = false } =
      ap (rounds n) (round_last p e s r) ∙ rounds_ended n (record p { running = false }) refl in
    (
      ap (λ (t : Persist). t.running) last,
      ap (λ (t : Persist). concat t.flushed) last
          ∙ (sym (append-nil (concat p.flushed)) ∙ ap (λ t. concat p.flushed ++ t) (sym e)),
    )
drained zero p (m ∷ q) e s r b h = absurd (omega arith)
drained (suc n) p (m ∷ q) e s r b h =
    let (still, fewer) = round_more p m q e r b in
    let (ended, all) =
      drained n (worker_round p) (worker_round p).queue refl (round-stop p ∙ s) still
        (omega (arith, b, round-batch_size p)) (omega (arith, fewer, h)) in
    (ended, all ∙ round-contents p)

-- After Close, one round more than there are waiting messages ends the worker, and by then every
-- message has been handed to the database, in order.
pub rounds-drain :
    (p : Persist)
    → p.running ≡ true
    → 0 < p.batch_size
    → ((rounds (suc (length p.queue)) (close p)).running ≡ false)
      × (concat (rounds (suc (length p.queue)) (close p)).flushed ≡ contents p)
unfolding close
rounds-drain p r b =
    drained (length p.queue) (record p { stop = true }) p.queue refl refl r b (omega arith)
