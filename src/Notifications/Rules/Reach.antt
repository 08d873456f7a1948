-- ===== src/Notifications/Rules/Reach.antt =====
-- Which channels of the rule engine send, against a description that is not read off its tests.
use desk_be.Common.{
  String, List, Bool, true, false, not, ◌&&◌, Option, ◌≡◌, ◌≢◌, refl, ◌↔◌, ◌⊎◌, any, truthy, opt_eq,
  arith,
}
use desk_be.Notifications.Types.{
  NotificationType, new_incoming_message, contact_assigned, comment_mention, custom_notification,
  contacts_import_completed, data_export_ready, new_incoming_call, Channel, in_app, desktop,
  mobile_push, email, sound, call_sound, ContactScope, SoundScope, CallSoundScope, PresenceStatus,
  offline, busy, dnd, Target, Preferences, Decision, EmailKey, is_offline, desktop_defaults,
  mobile_defaults, email_defaults, center_defaults,
}
use desk_be.Notifications.Presence.{Presence}
use desk_be.Notifications.Rules.{
  assignee, contact, is_mentioned, is_own, is_free_or_own, matches_contact_scope, has_foreground,
  matches_sound_scope, matches_call_sound_scope, matches_email_rules, matches_push_rules,
  was_mailed, checks_history, decisions, email_decision, decide,
}

-- whether the engine sends over a channel
unfoldable pub channel_eq : Channel → Channel → Bool
channel_eq in_app in_app = true
channel_eq desktop desktop = true
channel_eq mobile_push mobile_push = true
channel_eq email email = true
channel_eq sound sound = true
channel_eq call_sound call_sound = true
channel_eq _ _ = false

unfoldable pub sends : Channel → List Decision → Bool
unfolding channel_eq
sends c ds = any (λ d. channel_eq d.channel c && d.should_send) ds

-- The user is connected and was not found offline.
unfoldable pub Foreground : Bool → PresenceStatus → Type 0
Foreground live s = (live ≡ true) × (s ≢ offline)

-- What the spoken-of channels of a user get, by kind of notification.
pub IsSystem : NotificationType → Type 0
IsSystem k = (k ≡ custom_notification) ⊎ (k ≡ contacts_import_completed) ⊎ (k ≡ data_export_ready)

-- Somebody else is in charge of the contact.
taken : String → Option Target → Bool
unfolding assignee
taken user target = truthy (assignee target) && not (opt_eq (assignee target) user)

-- A scope covers a notification: mentions go to whom they name; the scope of mentions only lets
-- nothing else through; else a notification of the system reaches all who did not turn it off,
-- and the others those that the scope and the assignee of the contact name.
pub Covers : ContactScope → NotificationType → String → Option Target → Type 0
unfolding is_mentioned is_own taken IsSystem
Covers scope k user target =
    (((k ≡ comment_mention) ⊎ (scope ≡ ContactScope.mentions_only))
      × (is_mentioned user target ≡ true))
    ⊎ (k ≢ comment_mention)
      × (scope ≢ ContactScope.mentions_only)
      × (scope ≢ ContactScope.nothing)
      × (IsSystem k
          ⊎ (scope ≡ ContactScope.all_contacts)
          ⊎ (scope ≡ ContactScope.assigned_only) × (is_own user target ≡ true)
          ⊎ (scope ≡ ContactScope.assigned_and_unassigned) × (taken user target ≡ false))

pub matches-Covers :
    (scope : ContactScope) (k : NotificationType) (user : String) (target : Option Target)
    → (matches_contact_scope scope k user target ≡ true) ↔ Covers scope k user target
unfolding matches_contact_scope Covers taken is_free_or_own is_own
matches-Covers scope new_incoming_message user target = ground arith
matches-Covers scope contact_assigned user target = ground arith
matches-Covers scope comment_mention user target = ground arith
matches-Covers scope custom_notification user target = ground arith
matches-Covers scope contacts_import_completed user target = ground arith
matches-Covers scope data_export_ready user target = ground arith
matches-Covers scope new_incoming_call user target = ground arith

-- An email about a message of the contact went out in this inactivity session.
unfoldable pub WasMailed : String → Option Target → Presence → List EmailKey → Type 0
WasMailed user target p history =
    (truthy (contact target) ≡ true)
    × (truthy p.inactivity_session_id ≡ true)
    × (was_mailed user new_incoming_message (contact target) p.inactivity_session_id history ≡ true)

-- What is sent to a user, channel by channel.
unfoldable pub Reaches :
    Channel
    → String
    → NotificationType
    → Option Target
    → Bool
    → Preferences
    → Presence
    → List EmailKey
    → Type 0
unfolding Foreground Covers WasMailed taken is_own
Reaches in_app user k target live prefs p history = Foreground live p.status
Reaches desktop user k target live prefs p history =
    (k ≢ contacts_import_completed)
    × (k ≢ data_export_ready)
    × Foreground live p.status
    × Covers prefs.desktop_scope k user target
Reaches mobile_push user k target live prefs p history =
    (k ≢ contacts_import_completed)
    × (k ≢ data_export_ready)
    × ((live ≡ false) ⊎ (p.status ≡ offline))
    × (p.status ≢ dnd)
    × (p.status ≢ busy)
    × Covers prefs.mobile_scope k user target
Reaches email user k target live prefs p history =
    (k ≢ custom_notification)
    × (k ≢ new_incoming_call)
    × Covers prefs.email_scope k user target
    × (((k ≡ new_incoming_message) ⊎ (k ≡ contact_assigned)) → p.status ≡ offline)
    × (k ≡ new_incoming_message → ¬ WasMailed user target p history)
Reaches sound user k target live prefs p history =
    Foreground live p.status
    × ((prefs.sound_scope ≡ SoundScope.assigned_only) × (is_own user target ≡ true)
        ⊎ (prefs.sound_scope ≡ SoundScope.assigned_and_unassigned) × (taken user target ≡ false))
Reaches call_sound user k target live prefs p history =
    Foreground live p.status
    × ((prefs.call_sound_scope ≡ CallSoundScope.all)
        ⊎ (prefs.call_sound_scope ≡ CallSoundScope.assigned_only) × (is_own user target ≡ true)
        ⊎ (prefs.call_sound_scope ≡ CallSoundScope.assigned_and_unassigned)
          × (taken user target ≡ false))

has_foreground-Foreground :
    (live : Bool) (s : PresenceStatus) → (has_foreground live s ≡ true) ↔ Foreground live s
unfolding has_foreground is_offline Foreground
has_foreground-Foreground live s = ground arith

module _ (user : String) (target : Option Target) where
  sound-covers :
      (scope : SoundScope)
      → (matches_sound_scope scope user target ≡ true) ↔ (
          (scope ≡ SoundScope.assigned_only) × (is_own user target ≡ true)
          ⊎ (scope ≡ SoundScope.assigned_and_unassigned) × (taken user target ≡ false))
  unfolding matches_sound_scope taken is_free_or_own is_own
  sound-covers scope = ground arith

  call_sound-covers :
      (scope : CallSoundScope)
      → (matches_call_sound_scope scope user target ≡ true) ↔ (
          (scope ≡ CallSoundScope.all)
          ⊎ (scope ≡ CallSoundScope.assigned_only) × (is_own user target ≡ true)
          ⊎ (scope ≡ CallSoundScope.assigned_and_unassigned) × (taken user target ≡ false))
  unfolding matches_call_sound_scope taken is_free_or_own is_own
  call_sound-covers scope = ground arith

email_decision_send :
    (e c m : Bool) (why : String) → (email_decision e c m why).should_send ≡ (e && not (c && m))
unfolding email_decision decide
email_decision_send true true true why = refl
email_decision_send true true false why = refl
email_decision_send true false m why = refl
email_decision_send false c m why = refl

email_decision_channel : (e c m : Bool) (why : String) → (email_decision e c m why).channel ≡ email
unfolding email_decision decide
email_decision_channel true true true why = refl
email_decision_channel true true false why = refl
email_decision_channel true false m why = refl
email_decision_channel false c m why = refl

module _ (user : String) (target : Option Target) (p : Presence) (history : List EmailKey) where
  -- the tests for an email
  mails : NotificationType → ContactScope → Bool
  unfolding email_defaults matches_contact_scope matches_email_rules checks_history was_mailed
      contact
  mails k scope =
      (email_defaults k
        && matches_contact_scope scope k user target
        && matches_email_rules k p.status)
      && not (
          checks_history k (contact target) p.inactivity_session_id
          && was_mailed user k (contact target) p.inactivity_session_id history)

  mails_iff :
      (k : NotificationType) (scope : ContactScope)
      → (mails k scope ≡ true) ↔ (
          (k ≢ custom_notification)
          × (k ≢ new_incoming_call)
          × Covers scope k user target
          × (((k ≡ new_incoming_message) ⊎ (k ≡ contact_assigned)) → p.status ≡ offline)
          × (k ≡ new_incoming_message → ¬ WasMailed user target p history))
  unfolding mails WasMailed email_defaults matches_email_rules checks_history is_offline
  mails_iff new_incoming_message scope =
      ground (arith, matches-Covers scope new_incoming_message user target)
  mails_iff contact_assigned scope =
      ground (arith, matches-Covers scope contact_assigned user target)
  mails_iff comment_mention scope = ground (arith, matches-Covers scope comment_mention user target)
  mails_iff custom_notification scope = ground arith
  mails_iff contacts_import_completed scope =
      ground (arith, matches-Covers scope contacts_import_completed user target)
  mails_iff data_export_ready scope =
      ground (arith, matches-Covers scope data_export_ready user target)
  mails_iff new_incoming_call scope = ground arith

  desktop_iff :
      (k : NotificationType) (scope : ContactScope) (live : Bool)
      → ((desktop_defaults k
            && has_foreground live p.status
            && matches_contact_scope scope k user target)
          ≡ true)
        ↔ ((k ≢ contacts_import_completed)
            × (k ≢ data_export_ready)
            × Foreground live p.status
            × Covers scope k user target)
  unfolding desktop_defaults
  desktop_iff k scope live =
      ground (arith, matches-Covers scope k user target, has_foreground-Foreground live p.status)

  push_iff :
      (k : NotificationType) (scope : ContactScope) (live : Bool)
      → ((mobile_defaults k
            && not (has_foreground live p.status)
            && matches_push_rules p.status
            && matches_contact_scope scope k user target)
          ≡ true)
        ↔ ((k ≢ contacts_import_completed)
            × (k ≢ data_export_ready)
            × ((live ≡ false) ⊎ (p.status ≡ offline))
            × (p.status ≢ dnd)
            × (p.status ≢ busy)
            × Covers scope k user target)
  unfolding desktop_defaults mobile_defaults matches_push_rules has_foreground is_offline
  push_iff k scope live = ground (arith, matches-Covers scope k user target)

module _ (user : String) (k : NotificationType) (target : Option Target) (live : Bool)
    (prefs : Preferences) (p : Presence) (history : List EmailKey) where
  -- Over every channel, the engine sends exactly to the users whom the channel reaches.
  pub decisions-Reaches :
      (c : Channel)
      → (sends c (decisions user k target live prefs p history) ≡ true)
        ↔ Reaches c user k target live prefs p history
  unfolding sends decisions Reaches mails center_defaults
  decisions-Reaches in_app =
      rw (email_decision_channel) (ground (arith, has_foreground-Foreground live p.status))
  decisions-Reaches desktop =
      rw (email_decision_channel)
        (ground (arith, desktop_iff user target p history k prefs.desktop_scope live))
  decisions-Reaches mobile_push =
      rw (email_decision_channel)
        (ground (arith, push_iff user target p history k prefs.mobile_scope live))
  decisions-Reaches email =
      rw (email_decision_channel, email_decision_send)
        (ground (arith, mails_iff user target p history k prefs.email_scope))
  decisions-Reaches sound = rw (email_decision_channel) (
      ground (
        arith,
        has_foreground-Foreground live p.status,
        sound-covers user target prefs.sound_scope,
      ))
  decisions-Reaches call_sound = rw (email_decision_channel) (
      ground (
        arith,
        has_foreground-Foreground live p.status,
        call_sound-covers user target prefs.call_sound_scope,
      ))
