-- ===== src/Notifications/Tests.antt =====
-- A user in a workspace, what reaches her, and the theorems there.
use desk_be.Common.{
  [], ◌∷◌, Bool, true, false, Option, none, some, ◌≡◌, ◌≢◌, ◌⊎◌, inr, eq_iff, ◌↔◌, refl, arith,
}
use desk_be.Notifications.Types.{
  NotificationType, new_incoming_message, data_export_ready, Channel, desktop, mobile_push, email,
  sound, active, offline, dnd, Target, Preferences, ContactScope, SoundScope, CallSoundScope,
  Activity,
}
use desk_be.Notifications.Presence.{Presence}
use desk_be.Notifications.Presence.Sessions.{
  beat, look, identifier, row_after, rows_after, SessionFollows, row_after-SessionFollows, IsManual,
  rows_after-manual,
}
use desk_be.Notifications.Rules.{decisions}
use desk_be.Notifications.Rules.Reach.{sends, Reaches, decisions-Reaches}
use desk_be.Notifications.Rules.Exclusive.{decisions-exclusive}
use desk_be.Notifications.Service.{Store, Notification, evaluate, record_email}

abbrev own : Option Target
own = some (record { assignee_id = some "ada"; contact_id = some "c1"; mentioned_user_ids = none })

abbrev narrow : Preferences
narrow = record {
  sound_scope = SoundScope.assigned_only;
  call_sound_scope = CallSoundScope.assigned_only;
  desktop_scope = ContactScope.assigned_only;
  mobile_scope = ContactScope.assigned_only;
  email_scope = ContactScope.assigned_only;
}

abbrev gone : Activity
gone = record {
  activity_status = offline;
  last_seen_at = some 1000;
  last_activity_at = some 1000;
  last_workspace_id = some "w1";
  inactivity_session_id = "s1";
}

abbrev here : Activity
here = record gone { activity_status = active }

abbrev busy_ada : Activity
busy_ada = record gone { activity_status = dnd }

abbrev store : Activity → Store
store a = record {
  activity = some a;
  preferences = none;
  role = some "WS_AGENT";
  timeout_sec = some 60;
  history = [];
}

abbrev message_mail : Notification
message_mail = record {
  user_id = "ada";
  workspace_id = some "w1";
  kind = new_incoming_message;
  contact_id = some "c1";
}

sent : Channel → NotificationType → Bool → Store → Bool
unfolding evaluate sends
sent c k live st = sends c (evaluate 50000 "s2" "ada" k own live st).0

pushed : sent mobile_push new_incoming_message false (store gone) ≡ true
unfolding sent
pushed = refl

mailed : sent email new_incoming_message false (store gone) ≡ true
unfolding sent
mailed = refl

-- After one email, the same message sends none.
mailed_once : sent email new_incoming_message false (record_email message_mail (store gone)) ≡ false
unfolding sent record_email
mailed_once = refl

shown : sent desktop new_incoming_message true (store here) ≡ true
unfolding sent
shown = refl

-- Whoever asked not to be disturbed still gets the desktop notification and the sound of an open
-- window.
disturbed :
    (sent desktop new_incoming_message true (store busy_ada) ≡ true)
    × (sent sound new_incoming_message true (store busy_ada) ≡ true)
unfolding sent
disturbed = (refl, refl)

export_ready :
    (sent email data_export_ready true (store here) ≡ true)
    × (sent desktop data_export_ready true (store here) ≡ false)
unfolding sent
export_ready = (refl, refl)

abbrev seen : Presence
seen = record { status = offline; inactivity_session_id = some "s1"; timeout_sec = 60 }

decisions-Reaches_example :
    (sends mobile_push (decisions "ada" new_incoming_message own false narrow seen []) ≡ true)
    ↔ Reaches mobile_push "ada" new_incoming_message own false narrow seen []
decisions-Reaches_example =
    decisions-Reaches "ada" new_incoming_message own false narrow seen [] mobile_push

push_there :
    sends mobile_push (decisions "ada" new_incoming_message own false narrow seen []) ≡ true
unfolding sends decisions
push_there = refl

mail_there : sends email (decisions "ada" new_incoming_message own false narrow seen []) ≡ true
unfolding sends decisions
mail_there = refl

decisions-exclusive_example : (email ≡ mobile_push) ⊎ (email ≡ email)
decisions-exclusive_example =
    decisions-exclusive email "ada" new_incoming_message own false narrow seen [] push_there
      mail_there

new_session : identifier (look 500000 "s2" (some 60)) ≢ here.inactivity_session_id
unfolding identifier
new_session = ground (arith, eq_iff "s2" "s1")

busy_ada-IsManual : IsManual busy_ada.activity_status
unfolding IsManual
busy_ada-IsManual = inr (inr refl)

row_after-SessionFollows_example : SessionFollows here (row_after (look 500000 "s2" (some 60)) here)
row_after-SessionFollows_example =
    row_after-SessionFollows (look 500000 "s2" (some 60)) here new_session

rows_after-manual_example :
    (rows_after
      (look 500000 "s2" none ∷ beat 500001 "w1" "s3" (some "background") ∷ [])
      busy_ada).activity_status
    ≡ dnd
rows_after-manual_example =
    rows_after-manual (look 500000 "s2" none ∷ beat 500001 "w1" "s3" (some "background") ∷ [])
      busy_ada busy_ada-IsManual
