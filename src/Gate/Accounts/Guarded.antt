-- ===== src/Gate/Accounts/Guarded.antt =====
-- What the account handlers change, and under which conditions.
use minichat.Base.{
  ◌≡◌, ◌≢◌, refl, ap, ◌∙◌, Bool, true, false, Option, none, some, List, ◌∷◌, ◌++◌, Bytes, codes,
  ◌==◌, bytes_eq, ◌||◌, if◌then◌else◌, Bool-cases, inl, inr,
}
use minichat.Base.Int.{ℤ, pos, negsuc, int_eq}
use minichat.Const.ErrorCodes
use minichat.Const.Prefix
use minichat.Chat.Json.{Json}
use minichat.Chat.World.{answer}
use minichat.Gate.Accounts.{
  Call, redis_get, reg_user, check_email, update_pwd, Env, text_of, failed, registered_value,
  reset_value, user_register, reset_pwd, with_code, register, reset, pure,
}

-- The handler returns, and Q holds of its value and its calls.
abbrev pub Ends : {A : Type 0} → Option (A × List Call) → (A → List Call → Type 0) → Type 0
Ends {A} r Q = (a : A) × (log' : List Call) × (r ≡ some (a, log')) × Q a log'

beq_true : (x y : Bytes) → (x == y) ≡ true → x ≡ y
beq_true x y e = (bytes_eq.beq_iff x y).0 e

beq_false : (x y : Bytes) → (x == y) ≡ false → x ≢ y
beq_false x y e h = cc (e, (bytes_eq.beq_iff x y).1 h)

pub picked :
    {A : Type 0} (b : Bool) (x y : A) (log : List Call)
    → (if b then pure x else pure y) log ≡ some (if b then x else y, log)
picked true x y log = refl
picked false x y log = refl

module _ (j : Json) (env : Env) (body email name pwd given : Bytes) (stored : Option Bytes)
    (log : List Call) where
  open j use {Value, parses}

  abbrev pub code_key : Bytes
  code_key = Prefix.code ++ email

  abbrev pub looked : List Call
  looked = redis_get code_key ∷ log

  -- What MySQL answers to the registration.
  abbrev pub new_uid : Bytes → ℤ
  new_uid icon = env.registered looked name email pwd icon

  -- What /user_register does: it asks MySQL to create the account if and only if the passwords agree
  -- and the given code is the one that Redis holds for the address.
  pub data RegisterEnd (confirm icon : Bytes) (v : Value) (log' : List Call) : Type 0 where
    passwords_differ :
        pwd ≢ confirm
        → v ≡ failed j ErrorCodes.passwd_err
        → log' ≡ log
        → RegisterEnd confirm icon v log'
    expired :
        stored ≡ none
        → v ≡ failed j ErrorCodes.varify_expired
        → log' ≡ looked
        → RegisterEnd confirm icon v log'
    wrong_code :
        stored ≢ some given
        → v ≡ failed j ErrorCodes.varify_code_err
        → log' ≡ looked
        → RegisterEnd confirm icon v log'
    asked :
        pwd ≡ confirm
        → stored ≡ some given
        → v ≡ (
            if new_uid icon == pos 0 || new_uid icon == negsuc 0
            then failed j ErrorCodes.user_exist
            else registered_value j env (new_uid icon) email name pwd confirm icon given)
        → log' ≡ reg_user name email pwd icon ∷ looked
        → RegisterEnd confirm icon v log'

  -- What /reset_pwd does: it changes the password if and only if the given code is the one that Redis
  -- holds for the address and MySQL says that the address is the user's.
  pub data ResetEnd (v : Value) (log' : List Call) : Type 0 where
    code_expired :
        stored ≡ none → v ≡ failed j ErrorCodes.varify_expired → log' ≡ looked → ResetEnd v log'
    code_wrong :
        stored ≢ some given
        → v ≡ failed j ErrorCodes.varify_code_err
        → log' ≡ looked
        → ResetEnd v log'
    not_matched :
        stored ≡ some given
        → env.email_valid looked name email ≡ false
        → v ≡ failed j ErrorCodes.email_not_match
        → log' ≡ check_email name email ∷ looked
        → ResetEnd v log'
    matched :
        stored ≡ some given
        → env.email_valid looked name email ≡ true
        → v ≡ (
            if env.updated (check_email name email ∷ looked) name pwd
            then reset_value j env email name pwd given
            else failed j ErrorCodes.passwd_up_failed)
        → log' ≡ update_pwd name pwd ∷ check_email name email ∷ looked
        → ResetEnd v log'

  module _ (parsed : parses body ≡ true) (e1 : text_of j body (codes "email") ≡ some email)
      (e3 : text_of j body (codes "passwd") ≡ some pwd)
      (e4 : text_of j body (codes "varifycode") ≡ some given)
      (answers : env.get log code_key ≡ answer stored) where
    -- /reset_pwd, for a request with its members, while Redis answers: MySQL is told to change the
    -- password if and only if the given code is the one that Redis holds for the address and MySQL
    -- says that the address is the user's; every other ending has its error code and writes nothing.
    pub reset_pwd-ResetEnd :
        text_of j body (codes "name") ≡ some name → Ends (reset_pwd j env body log) ResetEnd
    unfolding reset_pwd
    reset_pwd-ResetEnd e2 = rw (parsed, e1, e2, e3, answers) (coded stored refl)
      where
        decided :
            (valid : Bool)
            → env.email_valid looked name email ≡ valid
            → stored ≡ some given
            → Ends (reset j env email name pwd given looked) ResetEnd
        decided true e s = (
          _,
          _,
          rw e (
              picked (env.updated (check_email name email ∷ looked) name pwd)
                (reset_value j env email name pwd given) (failed j ErrorCodes.passwd_up_failed)
                (update_pwd name pwd ∷ check_email name email ∷ looked)),
          matched s e refl refl,
        )
        decided false e s = (_, _, rw e refl, not_matched s e refl refl)

        coded :
            (found : Option Bytes)
            → stored ≡ found
            → Ends (with_code j env body (reset j env email name pwd) found looked) ResetEnd
        coded none e = (_, _, refl, code_expired e refl refl)
        coded (some c) e = elim (Bool-cases (c == given)) [
          | inl h ↦
              let s = e ∙ ap some (beq_true c given h) in
              rw (e4, h) (decided (env.email_valid looked name email) refl s)
          | inr h ↦
              (_, _, rw (e4, h) refl, code_wrong (λ q. beq_false c given h (cc (e, q))) refl refl)
        ]

    -- /user_register, for a request with its members, while Redis answers: MySQL is told to create the
    -- account if and only if the passwords agree and the given code is the one that Redis holds for the
    -- address; every other ending has its error code and writes nothing.
    pub user_register-RegisterEnd :
        (confirm icon : Bytes)
        → text_of j body (codes "user") ≡ some name
        → text_of j body (codes "confirm") ≡ some confirm
        → text_of j body (codes "icon") ≡ some icon
        → Ends (user_register j env body log) (RegisterEnd confirm icon)
    unfolding user_register
    user_register-RegisterEnd confirm icon e2 e5 e6 = elim (Bool-cases (pwd == confirm)) [
      | inl h ↦
          rw (parsed, e1, e2, e3, e5, e6, h, answers) (coded (beq_true pwd confirm h) stored refl)
      | inr h ↦ (
        _,
        _,
        rw (parsed, e1, e2, e3, e5, e6, h) refl,
        passwords_differ (beq_false pwd confirm h) refl refl,
      )
    ]
      where
        coded :
            pwd ≡ confirm
            → (found : Option Bytes) → stored ≡ found
            → Ends
                (with_code j env body (register j env email name pwd confirm icon) found looked)
                (RegisterEnd confirm icon)
        coded same none e = (_, _, refl, expired e refl refl)
        coded same (some c) e = elim (Bool-cases (c == given)) [
          | inl h ↦ (
            _,
            _,
            rw (e4, h)
                (picked (new_uid icon == pos 0 || new_uid icon == negsuc 0)
                  (failed j ErrorCodes.user_exist)
                  (registered_value j env (new_uid icon) email name pwd confirm icon given)
                  (reg_user name email pwd icon ∷ looked)),
            asked same (e ∙ ap some (beq_true c given h)) refl refl,
          )
          | inr h ↦
              (_, _, rw (e4, h) refl, wrong_code (λ q. beq_false c given h (cc (e, q))) refl refl)
        ]
