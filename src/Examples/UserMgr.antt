-- ===== src/Examples/UserMgr.antt =====
-- Two users, one of them with two devices.
use minichat.Base.{
  bytes_beq, ◌≡◌, refl, none, some, [], codes, if◌then◌else◌, ◌==◌, ◌&&◌, bytes_eq, nat_eq, arith,
}
use minichat.Base.Int.{pos, int_eq}
use minichat.UserMgr.{UserMgr, set_user_session, rmv_user_session, sessions_of}
use minichat.UserMgr.Laws.{
  view, IsValid, view-set_user_session, view-rmv_user_session, IsValid-set_user_session,
}
use minichat.Base.Assoc.{lookup, insert}

abbrev none_yet : UserMgr
none_yet = []

none_yet-IsValid : IsValid none_yet
unfolding view lookup
none_yet-IsValid = record { nonempty = λ u e. cc; nonnull = λ u i e. cc }

abbrev logged_in : UserMgr
logged_in = set_user_session none_yet (pos 7) (codes "a") 1

logged_in-IsValid : IsValid logged_in
logged_in-IsValid =
    IsValid-set_user_session none_yet (pos 7) (codes "a") 1 (λ e. omega (arith, e)) none_yet-IsValid

abbrev two_devices : UserMgr
two_devices = set_user_session logged_in (pos 7) (codes "b") 2

view-set_user_session_example : view two_devices (pos 7) (codes "a") ≡ (
    if pos 7 == pos 7 && codes "b" == codes "a" then some 2 else view logged_in (pos 7) (codes "a"))
view-set_user_session_example =
    view-set_user_session logged_in (pos 7) (pos 7) (codes "b") (codes "a") 2

view-rmv_user_session_example :
    view (rmv_user_session two_devices (pos 7) (codes "a")) (pos 7) (codes "b") ≡ (
      if pos 7 == pos 7 && codes "a" == codes "b"
      then none
      else view two_devices (pos 7) (codes "b"))
view-rmv_user_session_example =
    view-rmv_user_session two_devices (pos 7) (pos 7) (codes "a") (codes "b")

logged_in-view : view logged_in (pos 7) (codes "a") ≡ some 1
unfolding view lookup insert set_user_session sessions_of bytes_beq
logged_in-view = refl
