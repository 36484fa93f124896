-- ===== src/IoServicePool.antt =====
-- ChatSever/AsioIOServicePool.cpp: GetIOService hands out the io_contexts in turn.
pub mod Turns
use minichat.Base.{ℕ, zero, suc, ◌+◌, List, [], ◌∷◌, ltb, if◌then◌else◌}

-- NextIOservice, and io_content_.size().
pub record Pool : Type 0 where
  pub next : ℕ
  pub size : ℕ

-- The index of the service, and the pool afterwards.
unfoldable pub get_io_service : Pool → ℕ × Pool
get_io_service p =
    if ltb p.next p.size
    then (p.next, record p { next = p.next + 1 })
    else (0, record p { next = 0 })

-- The indices that n calls give.
unfoldable pub serve : ℕ → Pool → List ℕ
unfolding get_io_service
serve zero p = []
serve (suc n) p = let (i, q) = get_io_service p in i ∷ serve n q
