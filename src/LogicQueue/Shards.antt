-- ===== src/LogicQueue/Shards.antt =====
-- The list of queues, with a push or a pop at one of them, and the messages of one session.
use minichat.Base.{
  ℕ, zero, suc, ◌<◌, ◌≡◌, ◌≢◌, refl, ap, ◌∙◌, Bool, some, List, [], ◌∷◌, ◌++◌, Bytes, ◌==◌, nat_eq,
  bytes_eq, ◌&&◌, if◌then◌else◌, length, contains, arith, Option-cases, inl, inr,
}
use minichat.LogicQueue.{LogicNode, callbacks, push_at, pop_at, Event, post, deal}

abbrev pub queue_at : ℕ → List (List LogicNode) → List LogicNode
queue_at i [] = []
queue_at zero (q ∷ qs) = q
queue_at (suc i) (q ∷ qs) = queue_at i qs

-- A node of the session that has a callback.
abbrev pub concerns : Bytes → LogicNode → Bool
concerns id n = n.session_id == id && contains n.msg_id callbacks

-- The nodes of one session that have a callback.
unfoldable pub mine : Bytes → List LogicNode → List LogicNode
mine id [] = []
mine id (n ∷ ns) = let rest = mine id ns in if concerns id n then n ∷ rest else rest

abbrev pub posts : List Event → List LogicNode
posts [] = []
posts (post n ∷ es) = n ∷ posts es
posts (deal i ∷ es) = posts es

pub mine-append :
    (id : Bytes) (xs ys : List LogicNode) → mine id (xs ++ ys) ≡ mine id xs ++ mine id ys
unfolding mine
mine-append id [] ys = refl
mine-append id (n ∷ xs) ys = ground (arith, mine-append id xs ys)

pub queue_at-push_at :
    (i j : ℕ) (n : LogicNode) (qs : List (List LogicNode))
    → i < length qs
    → queue_at j (push_at i n qs) ≡ (if i == j then queue_at j qs ++ n ∷ [] else queue_at j qs)
unfolding push_at
queue_at-push_at i j n [] h = absurd (omega arith)
queue_at-push_at zero zero n (q ∷ qs) h = refl
queue_at-push_at zero (suc j) n (q ∷ qs) h = ground arith
queue_at-push_at (suc i) zero n (q ∷ qs) h = ground arith
queue_at-push_at (suc i) (suc j) n (q ∷ qs) h =
    queue_at-push_at i j n qs (omega arith) ∙ ground arith

pub length-push_at :
    (i : ℕ) (n : LogicNode) (qs : List (List LogicNode)) → length (push_at i n qs) ≡ length qs
unfolding push_at
length-push_at i n [] = refl
length-push_at zero n (q ∷ qs) = refl
length-push_at (suc i) n (q ∷ qs) = ap suc (length-push_at i n qs)

-- pop_at takes the front of its queue, and leaves the others alone.
pub pop_at_self :
    (i : ℕ) (qs : List (List LogicNode)) (n : LogicNode) (rest : List (List LogicNode))
    → pop_at i qs ≡ some (n, rest)
    → (length rest ≡ length qs) × (queue_at i qs ≡ n ∷ queue_at i rest)
unfolding pop_at
pop_at_self i [] n rest e = cc
pop_at_self zero ([] ∷ qs) n rest e = cc
pop_at_self zero ((m ∷ q) ∷ qs) n rest e = ground arith
pop_at_self (suc i) (q ∷ qs) n rest e = elim (Option-cases (pop_at i qs)) [
  | inl z ↦ ground arith
  | inr ((m, r), z) ↦ ground (arith, pop_at_self i qs m r z)
]

pub pop_at-other :
    (i j : ℕ) (qs : List (List LogicNode)) (n : LogicNode) (rest : List (List LogicNode))
    → pop_at i qs ≡ some (n, rest)
    → i ≢ j
    → queue_at j rest ≡ queue_at j qs
unfolding pop_at
pop_at-other i j [] n rest e h = cc
pop_at-other zero j ([] ∷ qs) n rest e h = cc
pop_at-other zero zero ((m ∷ q) ∷ qs) n rest e h = absurd (h refl)
pop_at-other zero (suc j) ((m ∷ q) ∷ qs) n rest e h = ground arith
pop_at-other (suc i) zero (q ∷ qs) n rest e h = elim (Option-cases (pop_at i qs)) [
  | inl z ↦ ground arith
  | inr ((m, r), z) ↦ ground (arith, z)
]
pop_at-other (suc i) (suc j) (q ∷ qs) n rest e h = elim (Option-cases (pop_at i qs)) [
  | inl z ↦ ground arith
  | inr ((m, r), z) ↦ ground (arith, z, pop_at-other i j qs m r z (λ k. h (ap suc k)))
]
