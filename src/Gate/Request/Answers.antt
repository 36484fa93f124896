-- ===== src/Gate/Request/Answers.antt =====
-- How often HandleReq answers, and with what.
use minichat.Base.{
  ◌≡◌, Bool, true, false, Option, none, some, List, [], ◌∷◌, ◌++◌, Bytes, codes, bytes_eq, contains,
}
use minichat.Chat.Json.{Json}
use minichat.Gate.Accounts.{Call, Env, M}
use minichat.Gate.Request.{HttpConnection, post_urls, post_handler}

abbrev has : {A : Type 0} → Option A → Bool
has none = false
has (some a) = true

module _ (j : Json) (env : Env) where
  -- What a POST leaves of the connection: one answer with the value of the handler, none when the
  -- handler throws, and two answers to a url that is not registered.
  pub data Posted (target content : Bytes) (c : HttpConnection) (log : List Call)
      : HttpConnection → Type 0 where
    answered :
        (handler : Bytes → M j.Value) (v : j.Value) (log' : List Call)
        → contains target post_urls ≡ true
        → post_handler j env target ≡ some handler
        → handler content log ≡ some (v, log')
        → Posted target content c log
            (record { status = 200; written = c.written ++ 200 ∷ []; body = c.body ++ j.styled v })
    silent :
        (handler : Bytes → M j.Value)
        → contains target post_urls ≡ true
        → post_handler j env target ≡ some handler
        → handler content log ≡ none
        → Posted target content c log c
    twice :
        (d : HttpConnection)
        → contains target post_urls ≡ false
        → d.written ≡ c.written ++ 404 ∷ 200 ∷ []
        → d.body ≡ c.body ++ codes "url not found"
        → Posted target content c log d
