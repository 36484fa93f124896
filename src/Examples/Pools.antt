-- ===== src/Examples/Pools.antt =====
-- Sizes from the environment, three io_contexts, a pool with one dead connection, and an empty one.
use minichat.Base.{
  ℕ, ◌≡◌, refl, Bool, false, none, some, List, [], if◌then◌else◌, ◌∷◌, codes, ◌==◌, nat_eq, arith,
}
use minichat.Base.Int.{negsuc}
use minichat.Settings.{atoi, leading_number, leading_digits, read_size_env}
use minichat.Settings.Bounds.{Sized, read_size_env_bounds}
use minichat.IoServicePool.{Pool}
use minichat.MysqlPool.{MysqlPool, Shared, Other, take, give, check_connection_pro}
use minichat.MysqlPool.Gate.{Got, get_connection, get_connection-Got}
use minichat.MysqlPool.Conservation.{total, check_connection_pro-total}

read_size_env_bounds_example : Sized 1 64 (read_size_env (some (codes "900")) 16 64)
unfolding leading_number leading_digits
read_size_env_bounds_example =
    read_size_env_bounds (some (codes "900")) 16 64 refl (omega arith) (omega arith)

minus_one : atoi (codes "-1") ≡ some (negsuc 0)
unfolding atoi leading_number leading_digits
minus_one = refl

-- A number beyond int, of which the behaviour of atoi is undefined.
too_large : atoi (codes "2147483648") ≡ none
unfolding atoi leading_number leading_digits
too_large = refl

abbrev three : Pool
three = record { next = 0; size = 3 }

abbrev two_connections : MysqlPool
two_connections = record {
  pool = record { con = 1; last_oper_time = 0 } ∷ record { con = 2; last_oper_time = 90 } ∷ [];
  fail_count = 0;
  stop = false;
}

abbrev one_fails : ℕ → Bool
one_fails con = con == 1

-- A second thread takes a connection during the first probe and gives it back behind the second.
abbrev held : ℕ → List Other
held n = if n == 1 then take ∷ [] else []

abbrev freed : ℕ → List Other
freed n = if n == 0 then give 0 ∷ [] else []

abbrev shared : Shared
shared = record { idle = two_connections; in_use = [] }

check_connection_pro-total_example :
    (total (check_connection_pro 100 one_fails [] held freed ((some 3, []) ∷ []) shared)
      ≡ total shared)
    × ((check_connection_pro 100 one_fails [] held freed ((some 3, []) ∷ []) shared).idle.stop
        ≡ false)
check_connection_pro-total_example =
    check_connection_pro-total 100 one_fails [] held freed ((some 3, []) ∷ []) shared refl

-- All connections of the pool are in use.
abbrev no_connection : MysqlPool
no_connection = record { pool = []; fail_count = 0; stop = false }

get_connection-Got_example :
    Got 100 (some 7) no_connection (get_connection 100 (some 7) (λ q. q) no_connection)
get_connection-Got_example = get_connection-Got 100 (some 7) no_connection
