-- ===== src/Chat/Trace.antt =====
-- What a piece of a handler returns and which calls it adds: the rules by which the handlers'
-- properties are proved. `Adds P` says of every call that was added, and of the calls before it, P;
-- `Since P` says that some added call has P.
use minichat.Base.{
  ◌≡◌, refl, ap, ◌∙◌, Bool, true, false, Option, some, List, [], ◌∷◌, if◌then◌else◌,
}
use minichat.Chat.World.{Call, World, M, ◌>>=◌, each, each_flag, followed, pure, ignore}

-- `m` throws nothing in the world w, and Q holds of what it returns.
abbrev pub Returns : {A : Type 0} → M A → World → (A → World → Type 0) → Type 0
Returns {A} m w Q = (a : A) × (w' : World) × (m w ≡ some (a, w')) × Q a w'

pub followed_lem :
    {A B : Type 0} {r : Option (A × World)} {a : A} {w' : World} (f : A → M B)
    → r ≡ some (a, w')
    → followed r f ≡ f a w'
followed_lem f e = ap (λ t. followed t f) e

pub bind :
    {A B : Type 0} (m : M A) (f : A → M B) (w : World) (P : A → World → Type 0)
    (Q : B → World → Type 0)
    → Returns m w P
    → ((a : A) (w' : World) → P a w' → Returns (f a) w' Q)
    → Returns (m >>= f) w Q
bind m f w P Q (a, w', e, p) k =
    let (b, w'', e', q) = k a w' p in (b, w'', followed_lem f e ∙ e', q)

pub weaken :
    {A : Type 0} (m : M A) (w : World) (P Q : A → World → Type 0)
    → Returns m w P
    → ((a : A) (w' : World) → P a w' → Q a w')
    → Returns m w Q
weaken m w P Q (a, w', e, p) k = (a, w', e, k a w' p)

pub ignored :
    {A : Type 0} (m : M A) (w : World) (Q : World → Type 0)
    → Returns m w (λ _. Q)
    → Returns (ignore m) w (λ _. Q)
ignored m w Q r = bind m (λ _. pure tt) w (λ _. Q) (λ _. Q) r (λ a w' q. (tt, w', refl, q))

pub branch :
    {A : Type 0} (b : Bool) (m n : M A) (w : World) (Q : A → World → Type 0)
    → (b ≡ true → Returns m w Q)
    → (b ≡ false → Returns n w Q)
    → Returns (if b then m else n) w Q
branch true m n w Q h k = h refl
branch false m n w Q h k = k refl

-- A loop over a vector keeps what its body keeps.
pub each-keeps :
    {A : Type 0} (I : World → Type 0) (body : A → M (Unit {0}))
    → ((x : A) (w : World) → I w → Returns (body x) w (λ _. I))
    → (xs : List A) (w : World) → I w
    → Returns (each xs body) w (λ _. I)
unfolding each
each-keeps I body h [] w i = (tt, w, refl, i)
each-keeps I body h (x ∷ xs) w i =
    let (a, w', e, i') = h x w i in
    let (b, w'', e', i'') = each-keeps I body h xs w' i' in
    (b, w'', followed_lem (λ _. each xs body) e ∙ e', i'')

-- A loop with a flag keeps what its body keeps of the flag and the world.
pub each_flag-keeps :
    {A : Type 0} (I : Bool → World → Type 0) (body : Bool → A → M Bool)
    → ((flag : Bool) (x : A) (w : World) → I flag w → Returns (body flag x) w I)
    → (flag : Bool) (xs : List A) (w : World) → I flag w
    → Returns (each_flag flag xs body) w I
unfolding each_flag
each_flag-keeps I body h flag [] w i = (flag, w, refl, i)
each_flag-keeps I body h flag (x ∷ xs) w i =
    let (a, w', e, i') = h flag x w i in
    let (b, w'', e', i'') = each_flag-keeps I body h a xs w' i' in
    (b, w'', followed_lem (λ next. each_flag next xs body) e ∙ e', i'')

-- Every call that was added to `base` has P, which may look at the calls before it.
pub data Adds (P : Call → List Call → Type 0) (base : List Call) : List Call → Type 0 where
  same : Adds P base base
  more : (c : Call) {cs : List Call} → P c cs → Adds P base cs → Adds P base (c ∷ cs)

-- Some call that was added to `base` has P.
pub data Since (P : Call → List Call → Type 0) (base : List Call) : List Call → Type 0 where
  now :
      (c : Call) {cs : List Call} → P c cs → Adds (λ _ _. Unit {0}) base cs → Since P base (c ∷ cs)
  earlier : (c : Call) {cs : List Call} → Since P base cs → Since P base (c ∷ cs)

module _ (P Q : Call → List Call → Type 0) (f : (c : Call) (cs : List Call) → P c cs → Q c cs) where
  pub Adds-map : (a b : List Call) → Adds P a b → Adds Q a b
  Adds-map a b same = same
  Adds-map a b (more c {cs} p r) = more c (f c cs p) (Adds-map a cs r)

  pub Since-map : (a b : List Call) → Since P a b → Since Q a b
  Since-map a b (now c {cs} p r) = now c (f c cs p) r
  Since-map a b (earlier c {cs} s) = earlier c (Since-map a cs s)

module _ {P : Call → List Call → Type 0} where
  pub Adds-trans : {a b c : List Call} → Adds P a b → Adds P b c → Adds P a c
  Adds-trans p same = p
  Adds-trans p (more d h q) = more d h (Adds-trans p q)

  pub Adds-any : {a b : List Call} → Adds P a b → Adds (λ _ _. Unit {0}) a b
  Adds-any same = same
  Adds-any (more d h q) = more d tt (Adds-any q)

  pub Since-any : {a b : List Call} → Since P a b → Adds (λ _ _. Unit {0}) a b
  Since-any (now d h q) = more d tt q
  Since-any (earlier d q) = more d tt (Since-any q)

module _ {P : Call → List Call → Type 0} where
  -- What has happened stays in the log.
  pub Since-Adds :
      {Q : Call → List Call → Type 0} {a b c : List Call} → Since P a b → Adds Q b c → Since P a c
  Since-Adds s same = s
  Since-Adds s (more d h q) = earlier d (Since-Adds s q)

  -- What happened after b happened after any a before it.
  pub Adds-Since :
      {Q : Call → List Call → Type 0} {a b c : List Call} → Adds Q a b → Since P b c → Since P a c
  Adds-Since q (now d h r) = now d h (Adds-trans (Adds-any q) r)
  Adds-Since q (earlier d s) = earlier d (Adds-Since q s)

-- From one world to the other calls with P have been added, and nothing else has changed.
pub record Framed (P : Call → List Call → Type 0) (w w' : World) : Type 0 where
  pub adds : Adds P w.calls w'.calls
  pub users_kept : w'.users ≡ w.users
  pub sessions_kept : w'.sessions ≡ w.sessions
  pub ids_kept : w'.user_ids ≡ w.user_ids
  pub uuids_kept : w'.uuids ≡ w.uuids

module _ {P : Call → List Call → Type 0} where
  pub Framed-refl : (w : World) → Framed P w w
  Framed-refl w = record {
    adds = same;
    users_kept = refl;
    sessions_kept = refl;
    ids_kept = refl;
    uuids_kept = refl;
  }

  pub Framed-trans : (u v w : World) → Framed P u v → Framed P v w → Framed P u w
  Framed-trans u v w p q = record {
    adds = Adds-trans p.adds q.adds;
    users_kept = q.users_kept ∙ p.users_kept;
    sessions_kept = q.sessions_kept ∙ p.sessions_kept;
    ids_kept = q.ids_kept ∙ p.ids_kept;
    uuids_kept = q.uuids_kept ∙ p.uuids_kept;
  }

  pub Framed-call :
      (w v : World) (c : Call)
      → P c v.calls
      → Framed P w v
      → Framed P w (record v { calls = c ∷ v.calls })
  Framed-call w v c p f = record {
    adds = more c p f.adds;
    users_kept = f.users_kept;
    sessions_kept = f.sessions_kept;
    ids_kept = f.ids_kept;
    uuids_kept = f.uuids_kept;
  }

  -- One call more, with nothing else.
  pub called : (w : World) (c : Call) → P c w.calls → Framed P w (record w { calls = c ∷ w.calls })
  called w c p = Framed-call w w c p (Framed-refl w)

pub Framed-map :
    (P Q : Call → List Call → Type 0)
    → ((c : Call) (cs : List Call) → P c cs → Q c cs)
    → (w w' : World) → Framed P w w'
    → Framed Q w w'
Framed-map P Q f w w' r = record {
  adds = Adds-map P Q f w.calls w'.calls r.adds;
  users_kept = r.users_kept;
  sessions_kept = r.sessions_kept;
  ids_kept = r.ids_kept;
  uuids_kept = r.uuids_kept;
}
