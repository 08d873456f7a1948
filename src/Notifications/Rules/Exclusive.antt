-- ===== src/Notifications/Rules/Exclusive.antt =====
-- A notification is pushed to a phone only where no window of the user shows it.
use desk_be.Common.{String, List, Bool, true, Option, ◌≡◌, ◌⊎◌, inl, inr, refl, arith}
use desk_be.Notifications.Types.{
  NotificationType, Channel, in_app, desktop, mobile_push, email, sound, call_sound, Target,
  Preferences, EmailKey,
}
use desk_be.Notifications.Presence.{Presence}
use desk_be.Notifications.Rules.{decisions}
use desk_be.Notifications.Rules.Reach.{sends, Reaches, Foreground, decisions-Reaches}

module _ (user : String) (k : NotificationType) (target : Option Target) (live : Bool)
    (prefs : Preferences) (p : Presence) (history : List EmailKey) where
  apart :
      (c : Channel)
      → Reaches mobile_push user k target live prefs p history
      → Reaches c user k target live prefs p history
      → (c ≡ mobile_push) ⊎ (c ≡ email)
  unfolding Reaches Foreground
  apart in_app away here = ground arith
  apart desktop away here = ground arith
  apart mobile_push away here = inl refl
  apart email away here = inr refl
  apart sound away here = ground arith
  apart call_sound away here = ground arith

-- A notification that is pushed to the user's phone goes over no other channel than email.
pub decisions-exclusive :
    (c : Channel) (user : String) (k : NotificationType) (target : Option Target) (live : Bool)
    (prefs : Preferences) (p : Presence) (history : List EmailKey)
    → sends mobile_push (decisions user k target live prefs p history) ≡ true
    → sends c (decisions user k target live prefs p history) ≡ true
    → (c ≡ mobile_push) ⊎ (c ≡ email)
decisions-exclusive c user k target live prefs p history push other =
    let away = (decisions-Reaches user k target live prefs p history mobile_push).0 push in
    apart user k target live prefs p history c away
      ((decisions-Reaches user k target live prefs p history c).0 other)
