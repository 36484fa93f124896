-- ===== src/MysqlPool/Conservation.antt =====
-- The health check and the other threads lose no connection from the count.
use minichat.Base.{
  ℕ, zero, suc, ◌+◌, ◌≡◌, refl, ap, sym, subst, Bool, false, Option, none, some, List, [], ◌∷◌, ltb,
  length, length-append, arith, Bool-cases, inl, inr,
}
use minichat.MysqlPool.{
  SqlConnection, get_connection, take_front, return_connection, is_due, probe, Shared, Other, take,
  give, took, behind, pick, gave, interfere, check_loop, reconnect_loop, check_connection_pro,
}

-- The connections that are idle, wait for a reconnect, or are in use.
abbrev pub total : Shared → ℕ
total s = length s.idle.pool + (s.idle.fail_count + length s.in_use)

-- The pool is open, and all connections are there, but n in the hands of the check.
pub record Keeps (n m : ℕ) (s : Shared) : Type 0 where
  pub counted : n + total s ≡ m
  pub running : s.idle.stop ≡ false

behind-length :
    (x : SqlConnection) (o : Option (SqlConnection × List SqlConnection)) (m : ℕ)
    → ((c : SqlConnection) (rest : List SqlConnection) → o ≡ some (c, rest) → suc (length rest) ≡ m)
    → (c : SqlConnection) (rest : List SqlConnection) → behind x o ≡ some (c, rest)
    → suc (length rest) ≡ suc m
behind-length x none m h c rest e = absurd cc
behind-length x (some (d, r)) m h c rest e =
    let q : x ∷ r ≡ rest = cc in omega (arith, h d r refl, ap length q)

pick-length :
    (n : ℕ) (cs : List SqlConnection) (c : SqlConnection) (rest : List SqlConnection)
    → pick n cs ≡ some (c, rest)
    → suc (length rest) ≡ length cs
unfolding pick
pick-length n [] c rest e = absurd cc
pick-length zero (x ∷ cs) c rest e = let q : cs ≡ rest = cc in ap (λ l. suc (length l)) (sym q)
pick-length (suc n) (x ∷ cs) c rest e =
    behind-length x (pick n cs) (length cs) (pick-length n cs) c rest e

take-Keeps :
    (n m : ℕ) (s : Shared) (q : List SqlConnection)
    → s.idle.pool ≡ q
    → Keeps n m s
    → Keeps n m (took s (get_connection s.idle))
unfolding get_connection take_front
take-Keeps n m s [] e k = simp (k.running, e) k
take-Keeps n m s (c ∷ q) e k =
    simp (k.running, e) (record { counted = omega (arith, k.counted, ap length e); running = refl })

return-Keeps :
    (n m : ℕ) (s : Shared) (c : SqlConnection) (rest : List SqlConnection)
    → suc (length rest) ≡ length s.in_use
    → Keeps n m s
    → Keeps n m (record { idle = return_connection s.idle c; in_use = rest })
unfolding return_connection
return-Keeps n m s c rest e k = simp (k.running) (record {
  counted = omega (arith, k.counted, e, length-append s.idle.pool (c ∷ []));
  running = refl;
})

gave-Keeps :
    (n m : ℕ) (s : Shared) (o : Option (SqlConnection × List SqlConnection))
    → ((c : SqlConnection) (rest : List SqlConnection)
        → o ≡ some (c, rest)
        → suc (length rest) ≡ length s.in_use)
    → Keeps n m s
    → Keeps n m (gave s o)
gave-Keeps n m s none h k = k
gave-Keeps n m s (some (c, rest)) h k = return-Keeps n m s c rest (h c rest refl) k

interfere-Keeps :
    (n m : ℕ) (os : List Other) (s : Shared) → Keeps n m s → Keeps n m (interfere os s)
unfolding interfere
interfere-Keeps n m [] s k = k
interfere-Keeps n m (take ∷ os) s k = interfere-Keeps n m os _ (take-Keeps n m s s.idle.pool refl k)
interfere-Keeps n m (give i ∷ os) s k =
    interfere-Keeps n m os _ (gave-Keeps n m s (pick i s.in_use) (pick-length i s.in_use) k)

probe-Keeps :
    (m timestamp : ℕ) (fails : ℕ → Bool) (s : Shared) (c : SqlConnection)
    → Keeps 1 m s
    → Keeps 0 m (record s { idle = probe timestamp fails s.idle c })
unfolding probe
probe-Keeps m timestamp fails s c k = elim (Bool-cases (is_due timestamp c)) [
  | inr early ↦
      rw (early, probe)
        (record {
          counted = omega (arith, k.counted, length-append s.idle.pool (c ∷ []));
          running = k.running;
        })
  | inl due ↦ elim (Bool-cases (fails c.con)) [
    | inl bad ↦
        rw (due, bad, probe) (record { counted = omega (arith, k.counted); running = k.running })
    | inr good ↦
        rw (due, good, probe)
          (record {
            counted = omega (
              arith,
              k.counted,
              length-append s.idle.pool (record c { last_oper_time = timestamp } ∷ []),
            );
            running = k.running;
          })
  ]
]

check_loop-end :
    (n timestamp : ℕ) (fails : ℕ → Bool) (held freed : ℕ → List Other) (s : Shared)
    → s.idle.pool ≡ []
    → check_loop (suc n) timestamp fails held freed s ≡ s
unfolding check_loop
check_loop-end n timestamp fails held freed s e = rw (e, check_loop) cc

check_loop-next :
    (n timestamp : ℕ) (fails : ℕ → Bool) (held freed : ℕ → List Other) (s : Shared)
    (c : SqlConnection) (q : List SqlConnection)
    → s.idle.pool ≡ c ∷ q
    → check_loop (suc n) timestamp fails held freed s ≡ (
        let probing = interfere (held n) (record s { idle = record s.idle { pool = q } }) in
        check_loop n timestamp fails held freed
          (interfere (freed n) (record probing { idle = probe timestamp fails probing.idle c })))
unfolding check_loop
check_loop-next n timestamp fails held freed s c q e = rw (e, check_loop) refl

check_loop-Keeps :
    (n m timestamp : ℕ) (fails : ℕ → Bool) (held freed : ℕ → List Other) (s : Shared)
    (q : List SqlConnection)
    → s.idle.pool ≡ q
    → Keeps 0 m s
    → Keeps 0 m (check_loop n timestamp fails held freed s)
unfolding check_loop
check_loop-Keeps zero m timestamp fails held freed s q e k = k
check_loop-Keeps (suc n) m timestamp fails held freed s [] e k =
    subst (Keeps 0 m) (sym (check_loop-end n timestamp fails held freed s e)) k
check_loop-Keeps (suc n) m timestamp fails held freed s (c ∷ q) e k =
    let popped : Shared = record s { idle = record s.idle { pool = q } } in
    let p : Keeps 1 m popped = record {
      counted = omega (arith, k.counted, ap length e);
      running = k.running;
    } in
    subst (Keeps 0 m) (sym (check_loop-next n timestamp fails held freed s c q e)) (
      check_loop-Keeps n m timestamp fails held freed _ _ refl (
        interfere-Keeps 0 m (freed n) _
          (probe-Keeps m timestamp fails _ c (interfere-Keeps 1 m (held n) popped p))))

reconnect_loop-Keeps :
    (m timestamp : ℕ) (answers : List (Option ℕ × List Other)) (s : Shared)
    → Keeps 0 m s
    → Keeps 0 m (reconnect_loop timestamp answers s)
unfolding reconnect_loop
reconnect_loop-Keeps m timestamp [] s k = k
reconnect_loop-Keeps m timestamp ((none, os) ∷ answers) s k = k
reconnect_loop-Keeps m timestamp ((some con, os) ∷ answers) s k =
    elim (Bool-cases (ltb 0 s.idle.fail_count)) [
      | inr e ↦ rw (e, reconnect_loop) k
      | inl e ↦
          rw (e, reconnect_loop)
            (reconnect_loop-Keeps m timestamp answers _ (
              interfere-Keeps 0 m os _ (record {
                counted = ground (
                  arith,
                  e,
                  k.counted,
                  length-append s.idle.pool (record { con = con; last_oper_time = timestamp } ∷ []),
                );
                running = k.running;
              })))
    ]

-- While the pool is not closed, checkConnectionPro loses no connection and makes none too many: however
-- other threads take and give back connections between its critical sections, and whatever probes
-- fail and reconnects succeed, the connections that are idle, in use or still to be replaced are as
-- many after it as before, and the pool stays open.
pub check_connection_pro-total :
    (timestamp : ℕ) (fails : ℕ → Bool) (counted : List Other) (held freed : ℕ → List Other)
    (answers : List (Option ℕ × List Other)) (s : Shared)
    → s.idle.stop ≡ false
    → (total (check_connection_pro timestamp fails counted held freed answers s) ≡ total s)
      × ((check_connection_pro timestamp fails counted held freed answers s).idle.stop ≡ false)
unfolding check_connection_pro
check_connection_pro-total timestamp fails counted held freed answers s not_closed =
    let k = reconnect_loop-Keeps (total s) timestamp answers _ (
      check_loop-Keeps (length s.idle.pool) (total s) timestamp fails held freed _ _ refl (
        interfere-Keeps 0 (total s) counted s
          (record { counted = omega arith; running = not_closed }))) in
    (omega (arith, k.counted), k.running)
