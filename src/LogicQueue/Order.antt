-- ===== src/LogicQueue/Order.antt =====
-- The messages of one session are handled in the order in which they were posted.
use native.Mathlib.Decide.{ℕ_discrete}
use minichat.Base.{
  ℕ, ◌%◌, ◌<◌, ◌≡◌, ◌≢◌, refl, sym, ap, ◌∙◌, subst, true, false, some, List, [], ◌∷◌, ◌++◌, Bytes,
  ◌==◌, nat_eq, bytes_eq, length, contains, All, arith, append_assoc, append-nil, Bool-cases,
  Option-cases, inl, inr, ◌⊎◌, bytes_beq_iff,
}
use minichat.LogicQueue.{
  LogicNode, LogicSystem, callbacks, push_at, pop_at, select_queue, post_msg_to_que, dispatch,
  deal_msg, Event, post, deal, step, run,
}
use minichat.LogicQueue.Shards.{
  queue_at, concerns, mine, posts, mine-append, queue_at-push_at, length-push_at, pop_at_self,
  pop_at-other,
}

module _ (hash : Bytes → ℕ) where
  -- Every waiting node stands in the queue that its session's hash selects.
  pub record IsPlaced (s : LogicSystem) : Type 0 where
    pub nonempty : 0 < length s.queues
    pub placed :
        (i : ℕ)
        → All (λ (n : LogicNode). hash n.session_id % length s.queues ≡ i) (queue_at i s.queues)

  -- What has been handled of a session, then what waits for it in its queue.
  abbrev pub pipeline : Bytes → LogicSystem → List LogicNode
  pipeline id s = mine id s.handled ++ mine id (queue_at (hash id % length s.queues) s.queues)

  same_hash : (id : Bytes) (n : LogicNode) → concerns id n ≡ true → hash n.session_id ≡ hash id
  same_hash id n h = ap hash ((bytes_beq_iff n.session_id id).0 (ground (arith, h)))

  abbrev after_post : LogicSystem → LogicNode → LogicSystem
  after_post s n = record s { queues = push_at (hash n.session_id % length s.queues) n s.queues }

  post_lem : (s : LogicSystem) (n : LogicNode) → IsPlaced s → step hash s (post n) ≡ after_post s n
  unfolding step post_msg_to_que select_queue
  post_lem s n v = ground (arith, v.nonempty)

  mine_other :
      (id : Bytes) (n : LogicNode) (L : ℕ)
      → hash n.session_id % L ≢ hash id % L
      → mine id (n ∷ []) ≡ []
  unfolding mine
  mine_other id n L h = elim (Bool-cases (concerns id n)) [
    | inl e ↦ absurd (h (ap (λ t. t % L) (same_hash id n e)))
    | inr e ↦ rw (e, mine) refl
  ]

  after_post-pipeline :
      (id : Bytes) (s : LogicSystem) (n : LogicNode)
      → IsPlaced s
      → pipeline id (after_post s n) ≡ pipeline id s ++ mine id (n ∷ [])
  after_post-pipeline id s n v =
      let k = hash n.session_id % length s.queues in
      let j = hash id % length s.queues in
      rw (length-push_at k n s.queues, queue_at-push_at k j n s.queues (omega (arith, v.nonempty)))
        (elim (Bool-cases (k == j)) [
          | inl e ↦
              rw (e, mine-append id (queue_at j s.queues) (n ∷ []))
                (sym (append_assoc (mine id s.handled) _ _))
          | inr e ↦
              rw (e, mine_other id n (length s.queues) (ground (arith, e))) (sym (append-nil _))
        ])

  post-pipeline :
      (id : Bytes) (s : LogicSystem) (n : LogicNode)
      → IsPlaced s
      → pipeline id (step hash s (post n)) ≡ pipeline id s ++ mine id (n ∷ [])
  post-pipeline id s n v = ap (pipeline id) (post_lem s n v) ∙ after_post-pipeline id s n v

  placed-append :
      (L i : ℕ) (q : List LogicNode) (n : LogicNode)
      → All (λ (m : LogicNode). hash m.session_id % L ≡ i) q
      → hash n.session_id % L ≡ i
      → All (λ (m : LogicNode). hash m.session_id % L ≡ i) (q ++ n ∷ [])
  placed-append L i [] n a h = (h, tt)
  placed-append L i (m ∷ q) n a h = (a.0, placed-append L i q n a.1 h)

  post-IsPlaced : (s : LogicSystem) (n : LogicNode) → IsPlaced s → IsPlaced (step hash s (post n))
  post-IsPlaced s n v =
      let k = hash n.session_id % length s.queues in
      rw (post_lem s n v) (record {
        nonempty = omega (arith, length-push_at k n s.queues, v.nonempty);
        placed = λ i.
            rw
              (
                length-push_at k n s.queues,
                queue_at-push_at k i n s.queues (omega (arith, v.nonempty)),
              )
              (elim (Bool-cases (k == i)) [
                | inl e ↦ rw e (
                    placed-append (length s.queues) i (queue_at i s.queues) n (v.placed i)
                      (ground (arith, e)))
                | inr e ↦ rw e (v.placed i)
              ]);
      })

  mine_unknown :
      (id : Bytes) (n : LogicNode) → contains n.msg_id callbacks ≡ false → mine id (n ∷ []) ≡ []
  unfolding mine
  mine_unknown id n e = ground (arith, e)

  dispatch_lem :
      (id : Bytes) (s : LogicSystem) (n : LogicNode)
      → ((dispatch s n).queues ≡ s.queues)
        × (mine id (dispatch s n).handled ≡ mine id s.handled ++ mine id (n ∷ []))
  unfolding dispatch
  dispatch_lem id s n = elim (Bool-cases (contains n.msg_id callbacks)) [
    | inl e ↦ rw (e, dispatch) (refl, mine-append id s.handled (n ∷ []))
    | inr e ↦
        rw (e, dispatch)
          (refl, sym (ap (λ t. mine id s.handled ++ t) (mine_unknown id n e) ∙ append-nil _))
  ]

  deal_cases :
      (s : LogicSystem) (i : ℕ)
      → (step hash s (deal i) ≡ s)
        ⊎ ((n : LogicNode) × (rest : List (List LogicNode)) × (pop_at i s.queues ≡ some (n, rest))
            × (step hash s (deal i) ≡ dispatch (record s { queues = rest }) n))
  unfolding step deal_msg
  deal_cases s i = elim (Option-cases (pop_at i s.queues)) [
    | inl e ↦ inl (rw (e, deal_msg))
    | inr ((n, rest), e) ↦ inr (n, rest, e, rw (e, deal_msg) refl)
  ]

  module _ (s : LogicSystem) (i : ℕ) (v : IsPlaced s) (n : LogicNode) (rest : List (List LogicNode))
      (taken : pop_at i s.queues ≡ some (n, rest)) where
    abbrev L : ℕ
    L = length s.queues

    same_length : length rest ≡ L
    same_length = (pop_at_self i s.queues n rest taken).0

    front : queue_at i s.queues ≡ n ∷ queue_at i rest
    front = (pop_at_self i s.queues n rest taken).1

    placed_front :
        (hash n.session_id % L ≡ i)
        × All (λ (m : LogicNode). hash m.session_id % L ≡ i) (queue_at i rest)
    placed_front = subst (All (λ (m : LogicNode). hash m.session_id % L ≡ i)) front (v.placed i)

    mine_taken :
        (id : Bytes)
        → mine id (n ∷ []) ++ mine id (queue_at (hash id % L) rest)
          ≡ mine id (queue_at (hash id % L) s.queues)
    mine_taken id = elim (ℕ_discrete i (hash id % L)) [
      | yes same ↦
          rw (← same) (sym (ap (mine id) front ∙ mine-append id (n ∷ []) (queue_at i rest)))
      | no other ↦
          rw (mine_other id n L (λ h. other (sym placed_front.0 ∙ h)))
            (ap (mine id) (pop_at-other i (hash id % L) s.queues n rest taken other))
    ]

    dispatch-pipeline :
        (id : Bytes) → pipeline id (dispatch (record s { queues = rest }) n) ≡ pipeline id s
    dispatch-pipeline id =
        let (same, more) = dispatch_lem id (record s { queues = rest }) n in
        rw (same, more, same_length)
          (append_assoc (mine id s.handled) (mine id (n ∷ [])) _
            ∙ ap (λ t. mine id s.handled ++ t) (mine_taken id))

    placed_rest : (j : ℕ) → All (λ (m : LogicNode). hash m.session_id % L ≡ j) (queue_at j rest)
    placed_rest j = elim (ℕ_discrete i j) [
      | yes same ↦
          subst (λ k. All (λ (m : LogicNode). hash m.session_id % L ≡ k) (queue_at k rest)) same
            placed_front.1
      | no other ↦ rw (pop_at-other i j s.queues n rest taken other) (v.placed j)
    ]

    dispatch-IsPlaced : IsPlaced (dispatch (record s { queues = rest }) n)
    dispatch-IsPlaced =
        let same = (dispatch_lem [] (record s { queues = rest }) n).0 in
        record {
          nonempty = rw (same, same_length) v.nonempty;
          placed = λ j. rw (same, same_length) (placed_rest j);
        }

  deal-pipeline :
      (id : Bytes) (s : LogicSystem) (i : ℕ)
      → IsPlaced s
      → pipeline id (step hash s (deal i)) ≡ pipeline id s
  deal-pipeline id s i v = elim (deal_cases s i) [
    | inl e ↦ ap (pipeline id) e
    | inr (n, rest, e, d) ↦ ap (pipeline id) d ∙ dispatch-pipeline s i v n rest e id
  ]

  deal-IsPlaced : (s : LogicSystem) (i : ℕ) → IsPlaced s → IsPlaced (step hash s (deal i))
  deal-IsPlaced s i v = elim (deal_cases s i) [
    | inl e ↦ rw e v
    | inr (n, rest, e, d) ↦ rw d (dispatch-IsPlaced s i v n rest e)
  ]

  -- Posting and dealing keep every waiting node in the queue of its session.
  run-IsPlaced : (s : LogicSystem) (es : List Event) → IsPlaced s → IsPlaced (run hash s es)
  unfolding run
  run-IsPlaced s [] v = v
  run-IsPlaced s (post n ∷ es) v = run-IsPlaced (step hash s (post n)) es (post-IsPlaced s n v)
  run-IsPlaced s (deal i ∷ es) v = run-IsPlaced (step hash s (deal i)) es (deal-IsPlaced s i v)

  -- Whatever the interleaving of posts with the rounds of the workers, the nodes of a session whose
  -- callbacks were called, followed by those that wait, are those from before followed by the posted
  -- ones, in the order of posting. Ids without a callback are left out on both sides.
  pub run-pipeline :
      (id : Bytes) (s : LogicSystem) (es : List Event)
      → IsPlaced s
      → pipeline id (run hash s es) ≡ pipeline id s ++ mine id (posts es)
  unfolding run
  run-pipeline id s [] v = unfold mine in sym (append-nil (pipeline id s))
  run-pipeline id s (post n ∷ es) v =
      run-pipeline id (step hash s (post n)) es (post-IsPlaced s n v)
      ∙ (ap (λ t. t ++ mine id (posts es)) (post-pipeline id s n v)
          ∙ (append_assoc (pipeline id s) (mine id (n ∷ [])) (mine id (posts es))
              ∙ ap (λ t. pipeline id s ++ t) (sym (mine-append id (n ∷ []) (posts es)))))
  run-pipeline id s (deal i ∷ es) v =
      run-pipeline id (step hash s (deal i)) es (deal-IsPlaced s i v)
      ∙ ap (λ t. t ++ mine id (posts es)) (deal-pipeline id s i v)
