-- ===== src/UserMgr/Laws.antt =====
-- The user manager against the map from (user, session id) to session that it stands for.
use minichat.Base.{
  contains, beq_refl, zero, suc, ◌≡◌, ◌≢◌, ◌↔◌, refl, ap, ◌∙◌, inl, inr, Bool, true, Option, none,
  some, [], ◌∷◌, Bytes, if◌then◌else◌, ◌==◌, bytes_eq, nat_eq, arith, Option-cases, ◌&&◌,
}
use minichat.Base.Int.{ℤ, int_eq, int_beq_iff}
use minichat.Base.Assoc.{lookup, insert, erase, lookup-insert, lookup-erase}
use minichat.UserMgr.{
  SessionPtr, Sessions, UserMgr, get_session, collect, get_sessions, sessions_of, set_user_session,
  drop_session, rmv_user_session,
}

-- The session that a user has under an id.
unfoldable pub view : UserMgr → ℤ → Bytes → Option SessionPtr
view m uid id = elim (lookup uid m) [ none ↦ none | some sessions ↦ lookup id sessions ]

lookup-sessions_of :
    (m : UserMgr) (uid : ℤ) (id : Bytes) → lookup id (sessions_of m uid) ≡ view m uid id
unfolding sessions_of view lookup
lookup-sessions_of m uid id = ground (arith)

lookup_same : (m : UserMgr) (uid uid' : ℤ) → (uid == uid') ≡ true → lookup uid m ≡ lookup uid' m
lookup_same m uid uid' e = ap (λ t. lookup t m) ((int_beq_iff uid uid').0 e)

-- SetUserSession writes one entry, the user's session under this id, and changes no other.
pub view-set_user_session :
    (m : UserMgr) (uid uid' : ℤ) (id id' : Bytes) (p : SessionPtr)
    → view (set_user_session m uid id p) uid' id'
      ≡ (if uid == uid' && id == id' then some p else view m uid' id')
unfolding set_user_session view
view-set_user_session m uid uid' id id' p = ground (
  arith,
  lookup-insert uid uid' (insert id p (sessions_of m uid)) m,
  lookup-insert id id' p (sessions_of m uid),
  lookup-sessions_of m uid id',
  lookup_same m uid uid',
)

view_absent :
    (m : UserMgr) (uid uid' : ℤ) (id' : Bytes) (same : Bool)
    → lookup uid m ≡ none
    → view m uid' id' ≡ (if uid == uid' && same then none else view m uid' id')
unfolding view
view_absent m uid uid' id' same e = ground (arith, lookup_same m uid uid')

view-drop_session :
    (m : UserMgr) (uid uid' : ℤ) (id id' : Bytes) (sessions left : Sessions)
    → lookup uid m ≡ some sessions
    → erase id sessions ≡ left
    → view (drop_session m uid id sessions) uid' id'
      ≡ (if uid == uid' && id == id' then none else view m uid' id')
unfolding drop_session view lookup
view-drop_session m uid uid' id id' sessions [] h e = rw e (
    ground (
      arith,
      h,
      lookup-erase uid uid' m,
      lookup-erase id id' sessions,
      lookup_same m uid uid',
      ap (λ t. lookup id' t) e,
    ))
view-drop_session m uid uid' id id' sessions (x ∷ left) h e = rw e (
    ground (
      arith,
      h,
      lookup-insert uid uid' (x ∷ left) m,
      lookup-erase id id' sessions,
      lookup_same m uid uid',
      ap (λ t. lookup id' t) e,
    ))

-- RmvUserSession removes that entry and changes no other.
pub view-rmv_user_session :
    (m : UserMgr) (uid uid' : ℤ) (id id' : Bytes)
    → view (rmv_user_session m uid id) uid' id'
      ≡ (if uid == uid' && id == id' then none else view m uid' id')
unfolding rmv_user_session
view-rmv_user_session m uid uid' id id' = elim (Option-cases (lookup uid m)) [
  | inl e ↦ rw (e, rmv_user_session) (view_absent m uid uid' id' (id == id') e)
  | inr (sessions, e) ↦
      rw (e, rmv_user_session) (view-drop_session m uid uid' id id' sessions _ e refl)
]

-- No user has an empty map of sessions, and no session is null.
pub record IsValid (m : UserMgr) : Type 0 where
  pub nonempty : (uid : ℤ) → lookup uid m ≢ some []
  pub nonnull : (uid : ℤ) (id : Bytes) → view m uid id ≢ some 0

insert-ne-empty : (id : Bytes) (p : SessionPtr) (s : Sessions) → insert id p s ≢ []
unfolding insert
insert-ne-empty id p [] e = cc
insert-ne-empty id p ((j, q) ∷ s) e = ground arith

-- SetUserSession with a session that is not null keeps the manager valid.
pub IsValid-set_user_session :
    (m : UserMgr) (uid : ℤ) (id : Bytes) (p : SessionPtr)
    → p ≢ 0
    → IsValid m
    → IsValid (set_user_session m uid id p)
unfolding set_user_session
IsValid-set_user_session m uid id p h v = record {
  nonempty = λ u e. ground (
    arith,
    lookup-insert uid u (insert id p (sessions_of m uid)) m,
    insert-ne-empty id p (sessions_of m uid),
    v.nonempty u,
  );
  nonnull = λ u i e. ground (arith, view-set_user_session m uid u id i p, v.nonnull u i);
}

drop-nonempty :
    (m : UserMgr) (uid u : ℤ) (id : Bytes) (sessions left : Sessions)
    → lookup u m ≢ some []
    → erase id sessions ≡ left
    → lookup u (drop_session m uid id sessions) ≢ some []
unfolding drop_session
drop-nonempty m uid u id sessions [] v e h = ground (arith, lookup-erase uid u m)
drop-nonempty m uid u id sessions (x ∷ left) v e h =
    ground (arith, lookup-insert uid u (x ∷ left) m)

rmv-nonempty :
    (m : UserMgr) (uid u : ℤ) (id : Bytes)
    → lookup u m ≢ some []
    → lookup u (rmv_user_session m uid id) ≢ some []
unfolding rmv_user_session
rmv-nonempty m uid u id v = elim (Option-cases (lookup uid m)) [
  | inl e ↦ rw (e, rmv_user_session) v
  | inr (sessions, e) ↦ rw (e, rmv_user_session) (drop-nonempty m uid u id sessions _ v refl)
]

-- RmvUserSession keeps the manager valid: a user's entry goes with its last session.
IsValid-rmv_user_session :
    (m : UserMgr) (uid : ℤ) (id : Bytes) → IsValid m → IsValid (rmv_user_session m uid id)
IsValid-rmv_user_session m uid id v = record {
  nonempty = λ u. rmv-nonempty m uid u id (v.nonempty u);
  nonnull = λ u i e. ground (arith, view-rmv_user_session m uid u id i, v.nonnull u i);
}

-- Whether a user has a session in the map.
abbrev pub Has : UserMgr → ℤ → Type 0
Has m uid = (id : Bytes) × (p : SessionPtr) × (view m uid id ≡ some p)

collect-nonempty : (s : Sessions) → s ≢ [] → ((id : Bytes) → lookup id s ≢ some 0) → collect s ≢ []
unfolding collect lookup
collect-nonempty [] h v e = h refl
collect-nonempty ((id, zero) ∷ s) h v e = ground (arith, v id, beq_refl id)
collect-nonempty ((id, suc p) ∷ s) h v e = ground arith

lookup_head : (id : Bytes) (p : SessionPtr) (s : Sessions) → lookup id ((id, p) ∷ s) ≡ some p
unfolding lookup
lookup_head id p s = ground (arith, beq_refl id)

-- The entry of a user in a valid manager.
data Entry (m : UserMgr) (uid : ℤ) : Type 0 where
  absent : lookup uid m ≡ none → Entry m uid
  present :
      (id : Bytes) (p : SessionPtr) (rest : Sessions)
      → lookup uid m ≡ some ((id, p) ∷ rest)
      → Entry m uid

Entry-of :
    (m : UserMgr) (uid : ℤ) (o : Option Sessions) → lookup uid m ≡ o → IsValid m → Entry m uid
Entry-of m uid none e v = absent e
Entry-of m uid (some []) e v = absurd (v.nonempty uid e)
Entry-of m uid (some ((id, p) ∷ rest)) e v = present id p rest e

view-none : (m : UserMgr) (uid : ℤ) (id : Bytes) → lookup uid m ≡ none → view m uid id ≡ none
unfolding view
view-none m uid id e = rw (e, view)

view_present :
    (m : UserMgr) (uid : ℤ) (s : Sessions) (id : Bytes)
    → lookup uid m ≡ some s
    → view m uid id ≡ lookup id s
unfolding view
view_present m uid s id e = rw (e, view)

-- In a valid manager GetSessions is empty exactly when the user has no session there, and
-- GetSession is null exactly then.
pub get_sessions-empty_iff :
    (m : UserMgr) (uid : ℤ)
    → IsValid m
    → ((get_sessions m uid ≡ []) ↔ ¬ Has m uid)
      × ((get_session m uid ≡ 0) ↔ (get_sessions m uid ≡ []))
unfolding get_sessions get_session
get_sessions-empty_iff m uid v = elim (Entry-of m uid (lookup uid m) refl v) [
  | absent e ↦
      rw (e, get_sessions, get_session)
        ((λ _ h. cc (h.2, view-none m uid h.0 e), λ _. refl), (λ _. refl, λ _. refl))
  | present id p rest e ↦
      let at_id = view_present m uid ((id, p) ∷ rest) id e ∙ lookup_head id p rest in
      let filled =
        collect-nonempty ((id, p) ∷ rest) (λ h. cc)
          (λ j h. v.nonnull uid j (view_present m uid ((id, p) ∷ rest) j e ∙ h)) in
      rw (e, get_sessions, get_session)
        (
          (λ h. absurd (filled h), λ h. absurd (h (id, p, at_id))),
          (λ h. absurd (v.nonnull uid id (at_id ∙ ap some h)), λ h. absurd (filled h)),
        )
]

contains-collect :
    (s : Sessions) (id : Bytes) (p : SessionPtr)
    → lookup id s ≡ some p
    → p ≢ 0
    → contains p (collect s) ≡ true
unfolding collect lookup contains
contains-collect [] id p e h = cc
contains-collect ((j, q) ∷ s) id p e h = ground (arith, contains-collect s id p)

-- GetSessions returns every session that is registered for the user.
pub contains-get_sessions :
    (m : UserMgr) (uid : ℤ) (id : Bytes) (p : SessionPtr)
    → IsValid m
    → view m uid id ≡ some p
    → contains p (get_sessions m uid) ≡ true
unfolding view get_sessions
contains-get_sessions m uid id p v h = elim (Option-cases (lookup uid m)) [
  | inl e ↦ ground arith
  | inr (s, e) ↦
      rw (e, get_sessions)
        (contains-collect s id p (ground arith) (λ z. v.nonnull uid id (ground (arith, h, z))))
]
