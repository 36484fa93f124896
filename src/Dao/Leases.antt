-- ===== src/Dao/Leases.antt =====
-- The discipline of a connection, with one rule for each way to build an operation.
use minichat.Base.{
  ℕ, Bool, true, false, Option, none, some, List, ◌∷◌, ◌≡◌, refl, Option-cases, inl, inr,
  if◌then◌else◌,
}
use minichat.Dao.{
  Query, ResultSet, finished, broken, row, Event, took, sent, controlled, gave, Control, control,
  Database, Dao, followed, ◌>>=◌, ◌>>◌, done, or_throw, next, give_back, caught, caught_giving,
  given, try_catch, deferred, try_giving, update, select, with_connection, leased,
}

-- What happened since `base`, newest first, in code that holds the connection `user`: statements go
-- to that connection only, and a connection that is taken meanwhile is used in the same way and
-- given back once.
pub data Balanced : Option ℕ → List Event → List Event → Type 0 where
  nothing : {user : Option ℕ} {base log : List Event} → log ≡ base → Balanced user base log
  uses :
      {base log : List Event} (con : ℕ) (q : Query)
      → Balanced (some con) base log
      → Balanced (some con) base (sent con q ∷ log)
  controls :
      {base log : List Event} (con : ℕ) (c : Control)
      → Balanced (some con) base log
      → Balanced (some con) base (controlled con c ∷ log)
  lease :
      {user : Option ℕ} {base log log' : List Event} (con : ℕ)
      → Balanced user base log
      → Balanced (some con) (took con ∷ log) log'
      → Balanced user base (gave con ∷ log')

-- Code that holds `user`.
pub record Uses {A : Type 0} (user : Option ℕ) (m : Dao A) : Type 0 where
  pub at : {base log : List Event} → Balanced user base log → Balanced user base (m log).1

-- Code that gives `con` back when it returns, and keeps it when it throws.
pub data Given {A : Type 0} (con : ℕ) (base : List Event) : Option A × List Event → Type 0 where
  returned :
      (a : A) {log : List Event}
      → Balanced (some con) base log
      → Given con base (some a, gave con ∷ log)
  threw : {log : List Event} → Balanced (some con) base log → Given con base (none, log)

pub record Gives {A : Type 0} (con : ℕ) (m : Dao A) : Type 0 where
  pub at : {base log : List Event} → Balanced (some con) base log → Given con base (m log)

module _ {A : Type 0} {user : Option ℕ} where
  pub Uses-done : (a : A) → Uses user (done a)
  Uses-done a = record { at = λ b. b }

  pub Uses-or_throw : (value : Option A) → Uses user (or_throw value)
  Uses-or_throw value = record { at = λ b. b }

  pub Uses-if :
      (test : Bool) (m n : Dao A) → Uses user m → Uses user n → Uses user (if test then m else n)
  Uses-if true m n um un = um
  Uses-if false m n um un = un

pub Uses-next : {user : Option ℕ} (res : ResultSet) → Uses user (next res)
Uses-next (finished at_end) = record { at = λ b. b }
Uses-next broken = record { at = λ b. b }
Uses-next (row r rest) = record { at = λ b. b }

module _ {A B : Type 0} where
  followed-Balanced :
      {user : Option ℕ} {base : List Event} (f : A → Dao B) (r : Option A × List Event)
      → ((a : A) → Uses user (f a))
      → Balanced user base r.1
      → Balanced user base (followed f r).1
  followed-Balanced f (none, log) uf b = b
  followed-Balanced f (some a, log) uf b = (uf a).at b

  pub Uses-bind :
      {user : Option ℕ} (m : Dao A) (f : A → Dao B)
      → Uses user m
      → ((a : A) → Uses user (f a))
      → Uses user (m >>= f)
  Uses-bind m f um uf = record { at = λ {base} {log} b. followed-Balanced f (m log) uf (um.at b) }

  followed-Given :
      {con : ℕ} {base : List Event} (f : A → Dao B) (r : Option A × List Event)
      → ((a : A) → Gives con (f a))
      → Balanced (some con) base r.1
      → Given con base (followed f r)
  followed-Given f (none, log) gf b = threw b
  followed-Given f (some a, log) gf b = (gf a).at b

  pub Gives-bind :
      {con : ℕ} (m : Dao A) (f : A → Dao B)
      → Uses (some con) m
      → ((a : A) → Gives con (f a))
      → Gives con (m >>= f)
  Gives-bind m f um gf = record { at = λ {base} {log} b. followed-Given f (m log) gf (um.at b) }

pub Gives-give_back : {A : Type 0} (con : ℕ) (a : A) → Gives con (give_back con >> done a)
Gives-give_back con a = record { at = λ b. returned a b }

module _ (db : Database) where
  pub Uses-update : (con : ℕ) (q : Query) → Uses (some con) (update db con q)
  Uses-update con q = record { at = λ b. uses con q b }

  pub Uses-select : (con : ℕ) (q : Query) → Uses (some con) (select db con q)
  Uses-select con q = record { at = λ b. uses con q b }

  pub Uses-control : (con : ℕ) (c : Control) → Uses (some con) (control db con c)
  Uses-control con c = record { at = λ b. controls con c b }

  -- `body` with its fresh connection.
  with_connection-Uses :
      {A : Type 0} {user : Option ℕ} (otherwise : A) (body : ℕ → Dao A)
      → ((con : ℕ) → Uses user (λ log. body con (took con ∷ log)))
      → Uses user (with_connection db otherwise body)
  with_connection-Uses otherwise body h = record {
    at = λ {base} {log} b. elim (Option-cases (db.connection log)) [
      | inl e ↦ rw e b
      | inr (con, e) ↦ rw e ((h con).at b)
    ];
  }

  module _ {A : Type 0} {user : Option ℕ} (otherwise : A) (body : ℕ → Dao A) where
    given-Balanced :
        (con : ℕ) {base log : List Event} (r : Option A × List Event)
        → Balanced user base log
        → Balanced (some con) (took con ∷ log) r.1
        → Balanced user base (given con (caught otherwise r)).1
    given-Balanced con (none, log') b t = lease con b t
    given-Balanced con (some a, log') b t = lease con b t

    -- The operations with a Defer.
    pub Uses-leased :
        ((con : ℕ) → Uses (some con) (body con)) → Uses user (leased db otherwise body)
    Uses-leased h =
        with_connection-Uses otherwise (λ con. deferred con (try_catch otherwise (body con)))
          (λ con. record {
            at = λ {base} {log} b.
                given-Balanced con (body con (took con ∷ log)) b ((h con).at (nothing refl));
          })

  module _ {A : Type 0} {user : Option ℕ} (otherwise on_throw : A) (body : ℕ → Dao A) where
    caught_giving-Balanced :
        (con : ℕ) {base log : List Event} (r : Option A × List Event)
        → Balanced user base log
        → Given con (took con ∷ log) r
        → Balanced user base (caught_giving con on_throw r).1
    caught_giving-Balanced con r b (returned a t) = lease con b t
    caught_giving-Balanced con r b (threw t) = lease con b t

    -- The operations that give the connection back on each way out.
    pub Uses-giving :
        ((con : ℕ) → Gives con (body con))
        → Uses user (with_connection db otherwise (λ con. try_giving con on_throw (body con)))
    Uses-giving h =
        with_connection-Uses otherwise (λ con. try_giving con on_throw (body con))
          (λ con. record {
            at = λ {base} {log} b.
                caught_giving-Balanced con (body con (took con ∷ log)) b
                  ((h con).at (nothing refl));
          })
