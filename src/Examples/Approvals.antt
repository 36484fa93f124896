-- ===== src/Examples/Approvals.antt =====
-- A user who accepts an application, while nobody is connected and nothing is cached.
use minichat.Base.{bytes_beq, Option, [], ◌∷◌, codes, ◌≡◌, refl}
use minichat.Base.Int.{pos}
use minichat.Const.MsgIds
use minichat.Chat.Json.{Json}
use minichat.Chat.World.{UserInfo, World, send}
use minichat.Chat.Redis.Answers.{after}
use minichat.Chat.Trace.{Returns, Framed}
use minichat.Chat.Users.Cache.{Readable, Fetched}
use minichat.Chat.Friends.{auth_friend_apply, auth_reply}
use minichat.Chat.Friends.Approvals.{Approval, recorded, auth_friend_apply-Approval}
use minichat.Examples.Documents.{
  one_user, one_user-IsUp, number, text, object, documents, fresh_world,
}

abbrev auth_json : Json
auth_json = documents (codes "auth") (
    object (
      (codes "fromuid", number (pos 7))
      ∷ (codes "touid", number (pos 8))
      ∷ (codes "back", text (codes "b"))
      ∷ []))

abbrev accepting_world : World
accepting_world = fresh_world []

accepting-Readable : Readable auth_json one_user (pos 7)
unfolding bytes_beq
accepting-Readable cs t e = absurd cc

applicant-Readable : Readable auth_json one_user (pos 8)
unfolding bytes_beq
applicant-Readable cs t e = absurd cc

auth_friend_apply-Approval_example :
    Returns (auth_friend_apply auth_json one_user 1 (codes "auth")) accepting_world (λ _ w'.
      (info : Option UserInfo) × (u : World) × (v : World) × Fetched auth_json one_user
        (pos 8)
        accepting_world
        info
        u
      × Framed
          (Approval auth_json one_user accepting_world.users (pos 7) (pos 8))
          (recorded u (pos 7) (pos 8) (codes "b"))
          v
      × (w'
          ≡ after v (
              send 1
                (auth_json.styled (auth_reply auth_json one_user (pos 8) info))
                MsgIds.auth_friend_rsp)))
unfolding bytes_beq
auth_friend_apply-Approval_example =
    auth_friend_apply-Approval auth_json one_user one_user-IsUp 1 (codes "auth") (pos 7) (pos 8)
      (codes "b") accepting_world refl refl refl accepting-Readable applicant-Readable
