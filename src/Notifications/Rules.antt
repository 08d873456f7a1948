-- ===== src/Notifications/Rules.antt =====
-- src/modules/notifications/notification-rule-engine.service.ts: over which channels a
-- notification is sent to a user.
pub mod Reach
pub mod Exclusive
use desk_be.Common.{
  String, List, [], ◌∷◌, Bool, true, false, not, ◌&&◌, ◌||◌, Option, none, some, contains, any,
  truthy, opt_eq, str_eq, if◌then◌else◌,
}
use desk_be.Notifications.Types.{
  NotificationType, new_incoming_message, contact_assigned, comment_mention, custom_notification,
  contacts_import_completed, data_export_ready, new_incoming_call, Channel, in_app, desktop,
  mobile_push, email, sound, call_sound, ContactScope, SoundScope, CallSoundScope, PresenceStatus,
  active, offline, away, busy, dnd, Target, Preferences, Decision, EmailKey, kind_eq, is_offline,
  center_defaults, desktop_defaults, mobile_defaults, email_defaults,
}
use desk_be.Notifications.Presence.{Presence}

-- `target?.assigneeId`
unfoldable pub assignee : Option Target → Option String
assignee none = none
assignee (some t) = t.assignee_id

-- `target?.contactId`
unfoldable pub contact : Option Target → Option String
contact none = none
contact (some t) = t.contact_id

names : String → Option (List String) → Bool
names user none = false
names user (some ids) = contains ids user

-- `target?.mentionedUserIds?.includes(userId) ?? false`
unfoldable pub is_mentioned : String → Option Target → Bool
unfolding names
is_mentioned user none = false
is_mentioned user (some t) = names user t.mentioned_user_ids

-- `!target?.assigneeId || target.assigneeId === userId`
unfoldable pub is_free_or_own : String → Option Target → Bool
unfolding assignee
is_free_or_own user target = not (truthy (assignee target)) || opt_eq (assignee target) user

unfoldable pub is_own : String → Option Target → Bool
unfolding assignee
is_own user target = opt_eq (assignee target) user

matches_scope : ContactScope → String → Option Target → Bool
unfolding is_mentioned is_free_or_own is_own
matches_scope ContactScope.all_contacts user target = true
matches_scope ContactScope.assigned_and_unassigned user target = is_free_or_own user target
matches_scope ContactScope.assigned_only user target = is_own user target
matches_scope ContactScope.mentions_only user target = is_mentioned user target
matches_scope ContactScope.nothing user target = false

-- what a notification about no contact asks of the scope
matches_system : ContactScope → String → Option Target → Bool
unfolding is_mentioned
matches_system ContactScope.mentions_only user target = is_mentioned user target
matches_system ContactScope.nothing user target = false
matches_system _ user target = true

-- `matchesContactScope`
unfoldable pub matches_contact_scope :
    ContactScope → NotificationType → String → Option Target → Bool
unfolding matches_scope matches_system is_mentioned
matches_contact_scope scope comment_mention user target = is_mentioned user target
matches_contact_scope scope custom_notification user target = matches_system scope user target
matches_contact_scope scope contacts_import_completed user target = matches_system scope user target
matches_contact_scope scope data_export_ready user target = matches_system scope user target
matches_contact_scope scope _ user target = matches_scope scope user target

-- `matchesSoundScope`
unfoldable pub matches_sound_scope : SoundScope → String → Option Target → Bool
unfolding is_own is_free_or_own
matches_sound_scope SoundScope.nothing user target = false
matches_sound_scope SoundScope.assigned_only user target = is_own user target
matches_sound_scope SoundScope.assigned_and_unassigned user target = is_free_or_own user target

-- `matchesCallSoundScope`
unfoldable pub matches_call_sound_scope : CallSoundScope → String → Option Target → Bool
unfolding is_own is_free_or_own
matches_call_sound_scope CallSoundScope.all user target = true
matches_call_sound_scope CallSoundScope.assigned_only user target = is_own user target
matches_call_sound_scope CallSoundScope.assigned_and_unassigned user target =
    is_free_or_own user target
matches_call_sound_scope CallSoundScope.mute_all user target = false

-- `matchesEmailRules`
unfoldable pub matches_email_rules : NotificationType → PresenceStatus → Bool
unfolding is_offline
matches_email_rules new_incoming_message s = is_offline s
matches_email_rules contact_assigned s = is_offline s
matches_email_rules _ s = true

-- `matchesPushRules`
unfoldable pub matches_push_rules : PresenceStatus → Bool
matches_push_rules dnd = false
matches_push_rules busy = false
matches_push_rules _ = true

-- `findFirst` on the email history, at a contact and a session that are there
unfoldable pub was_mailed :
    String → NotificationType → Option String → Option String → List EmailKey → Bool
unfolding kind_eq
was_mailed user kind contact_id session history =
    any
      (λ k.
        str_eq k.user_id user
        && opt_eq contact_id k.contact_id
        && kind_eq k.kind kind
        && opt_eq session k.inactivity_session_id)
      history

-- Whether the engine looks for an earlier email.
unfoldable pub checks_history : NotificationType → Option String → Option String → Bool
checks_history new_incoming_message contact_id session = truthy contact_id && truthy session
checks_history _ contact_id session = false

decide : Channel → Bool → String → Decision
decide c b why = record { channel = c; should_send = b; reason = why }

foreground_reason : Bool → Bool → String → String → String
foreground_reason allowed here when_here else_where =
    if not allowed then "matrix-disabled" else if here then when_here else else_where

push_reason : Bool → Bool → PresenceStatus → String
unfolding matches_push_rules
push_reason allowed here s =
    if not allowed
    then "matrix-disabled"
    else if here
    then "active-session"
    else if not (matches_push_rules s)
    then "manual-presence-suppressed"
    else "background-preference-scope"

email_reason : Bool → PresenceStatus → String
unfolding is_offline
email_reason allowed s =
    if allowed && not (is_offline s)
    then "user-active"
    else if allowed
    then "preference-scope"
    else "matrix-disabled"

email_decision : Bool → Bool → Bool → String → Decision
unfolding decide
email_decision eligible checks mailed why =
    if eligible && checks && mailed
    then decide email false "email-already-sent-for-inactivity-session"
    else decide email eligible why

-- `hasLiveSession && activity.status !== OFFLINE`
unfoldable pub has_foreground : Bool → PresenceStatus → Bool
unfolding is_offline
has_foreground live s = live && not (is_offline s)

-- `evaluate`, at the preferences, the presence and the email history that it reads
unfoldable pub decisions :
    String
    → NotificationType
    → Option Target
    → Bool
    → Preferences
    → Presence
    → List EmailKey
    → List Decision
unfolding decide foreground_reason push_reason email_reason email_decision has_foreground
    matches_contact_scope matches_sound_scope matches_call_sound_scope matches_email_rules
    matches_push_rules was_mailed checks_history center_defaults desktop_defaults mobile_defaults
    email_defaults contact
decisions user kind target live prefs presence history =
    let s : PresenceStatus = presence.status in
    let here : Bool = has_foreground live s in
    decide in_app (center_defaults kind && here)
      (foreground_reason (center_defaults kind) here "active-session" "no-active-session")
    ∷ decide desktop
        (desktop_defaults kind
          && here
          && matches_contact_scope prefs.desktop_scope kind user target)
        (foreground_reason (desktop_defaults kind) here "preference-scope" "no-active-session")
    ∷ decide mobile_push
        (mobile_defaults kind
          && not here
          && matches_push_rules s
          && matches_contact_scope prefs.mobile_scope kind user target)
        (push_reason (mobile_defaults kind) here s)
    ∷ email_decision
        (email_defaults kind
          && matches_contact_scope prefs.email_scope kind user target
          && matches_email_rules kind s)
        (checks_history kind (contact target) presence.inactivity_session_id)
        (was_mailed user kind (contact target) presence.inactivity_session_id history)
        (email_reason (email_defaults kind) s)
    ∷ decide sound (here && matches_sound_scope prefs.sound_scope user target)
        (if here then "frontend-active-module-gates-final-playback" else "no-active-session")
    ∷ decide call_sound (here && matches_call_sound_scope prefs.call_sound_scope user target)
        (if here then "frontend-active-module-gates-final-playback" else "no-active-session")
    ∷ []
