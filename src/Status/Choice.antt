-- ===== src/Status/Choice.antt =====
-- getChatServer gives the server with the most connections.
use minichat.Base.{
  ◌≡◌, refl, ap, sym, subst, ◌∙◌, true, some, List, [], ◌∷◌, All, ◌⊎◌, inl, inr, Bool-cases, arith,
}
use minichat.Base.Int.{ℤ, leb_ℤ, leb_ℤ-total}
use minichat.Status.{ChatServer, pick, choose_server}

pub data In (s : ChatServer) : List ChatServer → Type 0 where
  here : (rest : List ChatServer) → In s (s ∷ rest)
  there : (t : ChatServer) {rest : List ChatServer} → In s rest → In s (t ∷ rest)

leb_ℤ_refl : (a : ℤ) → leb_ℤ a a ≡ true
leb_ℤ_refl a = ground arith

leb_ℤ_trans : (a b c : ℤ) → leb_ℤ a b ≡ true → leb_ℤ b c ≡ true → leb_ℤ a c ≡ true
leb_ℤ_trans a b c h k = ground arith

-- No server of the list has more connections than s.
abbrev pub IsFullest : ChatServer → List ChatServer → Type 0
IsFullest s = All (λ t. leb_ℤ t.con_count s.con_count ≡ true)

record Picked (server : ChatServer) (rest : List ChatServer) (s : ChatServer) : Type 0 where
  from : (s ≡ server) ⊎ In s rest
  above : leb_ℤ server.con_count s.con_count ≡ true
  fullest : IsFullest s rest

pick-Picked : (server : ChatServer) (rest : List ChatServer) → Picked server rest (pick server rest)
unfolding pick
pick-Picked server [] = record {
  from = inl refl;
  above = leb_ℤ_refl server.con_count;
  fullest = tt;
}
pick-Picked server (i ∷ rest) = elim (Bool-cases (leb_ℤ i.con_count server.con_count)) [
  | inl e ↦
      let p = pick-Picked server rest in
      rw e (record {
        from = later i rest p.from;
        above = p.above;
        fullest = (leb_ℤ_trans i.con_count server.con_count _ e p.above, p.fullest);
      })
  | inr e ↦
      let p = pick-Picked i rest in
      rw e (record {
        from = newer i rest p.from;
        above =
            leb_ℤ_trans server.con_count i.con_count _ (leb_ℤ-total i.con_count server.con_count e)
              p.above;
        fullest = (p.above, p.fullest);
      })
]
  where
    later :
        (i : ChatServer) (rest : List ChatServer) {s : ChatServer}
        → (s ≡ server) ⊎ In s rest
        → (s ≡ server) ⊎ In s (i ∷ rest)
    later i rest (inl e) = inl e
    later i rest (inr h) = inr (there i h)

    newer :
        (i : ChatServer) (rest : List ChatServer) {s : ChatServer}
        → (s ≡ i) ⊎ In s rest
        → (s ≡ server) ⊎ In s (i ∷ rest)
    newer i rest (inl e) = inr (subst (λ t. In t (i ∷ rest)) (sym e) (here rest))
    newer i rest (inr h) = inr (there i h)

-- getChatServer returns, as soon as one server is configured, a configured server, and none has a
-- larger con_count.
pub choose_server-IsFullest :
    (server : ChatServer) (rest : List ChatServer)
    → (s : ChatServer) × (choose_server (server ∷ rest) ≡ some s)
      × In s (server ∷ rest)
      × IsFullest s (server ∷ rest)
unfolding choose_server
choose_server-IsFullest server rest =
    let p = pick-Picked server (server ∷ rest) in
    (pick server (server ∷ rest), refl, listed p.from, p.fullest)
  where
    listed : {s : ChatServer} → (s ≡ server) ⊎ In s (server ∷ rest) → In s (server ∷ rest)
    listed (inl e) = subst (λ t. In t (server ∷ rest)) (sym e) (here rest)
    listed (inr h) = h

pick_first :
    (server : ChatServer) (rest : List ChatServer)
    → All (λ t. t.con_count ≡ server.con_count) rest
    → pick server rest ≡ server
unfolding pick
pick_first server [] h = refl
pick_first server (i ∷ rest) h =
    rw (ap (λ c. leb_ℤ c server.con_count) h.0 ∙ leb_ℤ_refl server.con_count)
      (pick_first server rest h.1)

-- While all counts are equal, every user is sent to the first server.
pub choose_server_first :
    (server : ChatServer) (rest : List ChatServer)
    → All (λ t. t.con_count ≡ server.con_count) rest
    → choose_server (server ∷ rest) ≡ some server
unfolding choose_server
choose_server_first server rest h = ap some (pick_first server (server ∷ rest) (refl, h))
