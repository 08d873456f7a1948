-- ===== src/Notifications/Types.antt =====
-- src/modules/notifications/notification.types.ts, and the rows of prisma/schema.prisma that the
-- notifications of a user in a workspace rest on.
use desk_be.Common.{ℕ, String, List, Bool, true, false, Option, ◌==◌}

pub data NotificationType : Type 0 where
  new_incoming_message contact_assigned comment_mention custom_notification : NotificationType
  contacts_import_completed data_export_ready new_incoming_call : NotificationType

pub data Channel : Type 0 where
  in_app desktop mobile_push email sound call_sound : Channel

pub data ContactScope : Type 0 where
  all_contacts assigned_and_unassigned assigned_only mentions_only nothing : ContactScope

pub data SoundScope : Type 0 where
  assigned_and_unassigned assigned_only nothing : SoundScope

pub data CallSoundScope : Type 0 where
  assigned_and_unassigned assigned_only all mute_all : CallSoundScope

pub data PresenceStatus : Type 0 where
  active offline away busy dnd : PresenceStatus

-- `target?`: every field may be left out
pub record Target : Type 0 where
  pub assignee_id : Option String
  pub contact_id : Option String
  pub mentioned_user_ids : Option (List String)

pub record Preferences : Type 0 where
  pub sound_scope : SoundScope
  pub call_sound_scope : CallSoundScope
  pub desktop_scope : ContactScope
  pub mobile_scope : ContactScope
  pub email_scope : ContactScope

pub record Decision : Type 0 where
  pub channel : Channel
  pub should_send : Bool
  pub reason : String

-- a row of UserActivity; its user is the one whose state is modelled
pub record Activity : Type 0 where
  pub activity_status : PresenceStatus
  pub last_seen_at : Option ℕ
  pub last_activity_at : Option ℕ
  pub last_workspace_id : Option String
  pub inactivity_session_id : String

-- the unique key of NotificationEmailHistory
pub record EmailKey : Type 0 where
  pub user_id : String
  pub contact_id : String
  pub kind : NotificationType
  pub inactivity_session_id : String

index_of : NotificationType → ℕ
index_of new_incoming_message = 0
index_of contact_assigned = 1
index_of comment_mention = 2
index_of custom_notification = 3
index_of contacts_import_completed = 4
index_of data_export_ready = 5
index_of new_incoming_call = 6

-- `===` on the notification types
unfoldable pub kind_eq : NotificationType → NotificationType → Bool
unfolding index_of
kind_eq k l = index_of k == index_of l

unfoldable pub is_offline : PresenceStatus → Bool
is_offline offline = true
is_offline _ = false

-- NOTIFICATION_CENTER_DEFAULTS
unfoldable pub center_defaults : NotificationType → Bool
center_defaults _ = true

-- DESKTOP_DEFAULTS
unfoldable pub desktop_defaults : NotificationType → Bool
desktop_defaults contacts_import_completed = false
desktop_defaults data_export_ready = false
desktop_defaults _ = true

-- MOBILE_DEFAULTS
unfoldable pub mobile_defaults : NotificationType → Bool
unfolding desktop_defaults
mobile_defaults k = desktop_defaults k

-- EMAIL_DEFAULTS
unfoldable pub email_defaults : NotificationType → Bool
email_defaults custom_notification = false
email_defaults new_incoming_call = false
email_defaults _ = true
