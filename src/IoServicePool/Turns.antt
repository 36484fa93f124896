-- ===== src/IoServicePool/Turns.antt =====
-- Which io_context gets the connections.
use minichat.Base.{
  false, ℕ, zero, suc, ◌+◌, ◌<◌, ◌≡◌, refl, ap, ◌∙◌, List, [], ◌∷◌, ◌++◌, ltb, arith, lt→ltb,
}
use minichat.IoServicePool.{get_io_service, serve}

-- k, k + 1, …, of n numbers.
abbrev pub up_from : ℕ → ℕ → List ℕ
up_from k zero = []
up_from k (suc n) = k ∷ up_from (k + 1) n

step_low :
    (next size n : ℕ)
    → next < size
    → serve (suc n) (record { next = next; size = size })
      ≡ next ∷ serve n (record { next = next + 1; size = size })
unfolding serve
step_low next size n h = rw (lt→ltb next size h, get_io_service) refl

step_wrap :
    (size n : ℕ)
    → serve (suc n) (record { next = size; size = size })
      ≡ 0 ∷ serve n (record { next = 0; size = size })
unfolding serve
step_wrap size n = rw (not_below size, get_io_service) refl
  where
    not_below : (k : ℕ) → ltb k k ≡ false
    not_below k = ground arith

climb :
    (left next size n : ℕ)
    → next + left ≡ size
    → serve (left + suc n) (record { next = next; size = size })
      ≡ up_from next left ++ (0 ∷ serve n (record { next = 0; size = size }))
climb zero next size n e =
    ap (λ (k : ℕ). serve k (record { next = next; size = size })) (omega arith)
    ∙ (ap (λ (k : ℕ). serve (suc n) (record { next = k; size = size })) (omega (arith, e))
        ∙ step_wrap size n)
climb (suc left) next size n e =
    ap (λ (k : ℕ). serve k (record { next = next; size = size })) (omega arith)
    ∙ (step_low next size (left + suc n) (omega (arith, e))
        ∙ ap (◌∷◌ next) (climb left (next + 1) size n (omega (arith, e))))

-- The turns repeat after one call more than there are services: 0, 1, …, size - 1, and 0 again, so
-- the first service is given out twice in every turn.
serve_turn :
    (size n : ℕ)
    → serve (size + suc n) (record { next = 0; size = size })
      ≡ up_from 0 size ++ (0 ∷ serve n (record { next = 0; size = size }))
serve_turn size n = climb size 0 size n (omega arith)
