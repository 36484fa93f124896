-- ===== src/Examples/LogicQueue.antt =====
-- Two workers; the sessions "a" and "b" go to different queues.
use minichat.Base.{ℕ, zero, suc, ◌%◌, ◌≡◌, List, [], ◌∷◌, ◌++◌, Bytes, codes, arith, All}
use minichat.LogicQueue.{LogicNode, LogicSystem, Event, post, deal, run}
use minichat.LogicQueue.Shards.{mine, posts, queue_at}
use minichat.LogicQueue.Order.{IsPlaced, pipeline, run-pipeline}

abbrev first_code : Bytes → ℕ
first_code [] = 0
first_code (c ∷ s) = c

abbrev node : Bytes → ℕ → LogicNode
node id msg_id = record { session_id = id; msg_id = msg_id; payload = [] }

abbrev idle : LogicSystem
idle = record { queues = [] ∷ [] ∷ []; handled = [] }

idle-empty :
    (i : ℕ) → All (λ (n : LogicNode). first_code n.session_id % 2 ≡ i) (queue_at i idle.queues)
idle-empty zero = tt
idle-empty (suc zero) = tt
idle-empty (suc (suc i)) = tt

idle-IsPlaced : IsPlaced first_code idle
idle-IsPlaced = record { nonempty = omega arith; placed = idle-empty }

abbrev history : List Event
history =
    post (node (codes "a") 1005)
    ∷ post (node (codes "b") 1017)
    ∷ deal 1
    ∷ deal 0
    ∷ post (node (codes "a") 1017)
    ∷ []

run-pipeline_example :
    pipeline first_code (codes "a") (run first_code idle history)
    ≡ pipeline first_code (codes "a") idle ++ mine (codes "a") (posts history)
run-pipeline_example = run-pipeline first_code (codes "a") idle history idle-IsPlaced
