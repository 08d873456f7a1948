-- ===== src/Notifications/Service.antt =====
-- The services around the rule engine, on what is stored of one user in one workspace:
-- notification-preferences.service.ts and `evaluate` of notification-rule-engine.service.ts with its
-- reads (src/modules/notifications), and what src/workers/notification.worker.ts records of an email
-- that it sent. `registerEmailHistory` of notifications.service.ts is never called.
pub mod Once
use desk_be.Common.{
  ℕ, String, List, [], ◌∷◌, ◌++◌, Bool, true, false, ◌&&◌, ◌||◌, Option, none, some, any, str_eq,
  get_or, present, truthy, includes, to_lower, if◌then◌else◌,
}
use desk_be.Notifications.Types.{
  NotificationType, ContactScope, SoundScope, CallSoundScope, Target, Preferences, Decision,
  Activity, EmailKey, kind_eq,
}
use desk_be.Notifications.Presence.{Presence, effective_status}
use desk_be.Notifications.Rules.{decisions}

-- `activity` is the user's row, `preferences` the row of the user and the workspace, `role` that
-- of the user's membership, `timeout_sec` the workspace's, `history` all emails that were sent.
pub record Store : Type 0 where
  pub activity : Option Activity
  pub preferences : Option Preferences
  pub role : Option String
  pub timeout_sec : Option ℕ
  pub history : List EmailKey

is_creator : String → Bool
unfolding includes
is_creator role =
    includes role "owner"
    || includes role "admin"
    || includes role "ws_owner"
    || includes role "org_admin"

lower_role : Option String → String
unfolding to_lower
lower_role none = ""
lower_role (some r) = to_lower r

-- buildDefaultPreferences
build_default_preferences : Option String → Preferences
unfolding is_creator lower_role
build_default_preferences role =
    if is_creator (lower_role role)
    then record {
      sound_scope = SoundScope.assigned_and_unassigned;
      call_sound_scope = CallSoundScope.assigned_and_unassigned;
      desktop_scope = ContactScope.all_contacts;
      mobile_scope = ContactScope.all_contacts;
      email_scope = ContactScope.all_contacts;
    }
    else record {
      sound_scope = SoundScope.assigned_only;
      call_sound_scope = CallSoundScope.assigned_only;
      desktop_scope = ContactScope.assigned_only;
      mobile_scope = ContactScope.assigned_only;
      email_scope = ContactScope.assigned_only;
    }

-- `getUserPreferences`: the row, created where it is missing
unfoldable pub user_preferences : Store → Preferences
unfolding build_default_preferences
user_preferences st = get_or st.preferences (build_default_preferences st.role)

-- `updateUserPreferences`; a payload has every field
pub update_user_preferences : Preferences → Store → Store
update_user_preferences payload st = record st { preferences = some payload }

-- the store after `getEffectiveStatus`
looked : ℕ → String → Store → Store
unfolding effective_status
looked now fresh st = record st {
  activity = (effective_status now fresh st.timeout_sec st.activity).1;
}

presence : ℕ → String → Store → Presence
unfolding effective_status
presence now fresh st = (effective_status now fresh st.timeout_sec st.activity).0

-- `evaluate`: it creates the preferences and may find the user offline
unfoldable pub evaluate :
    ℕ → String → String → NotificationType → Option Target → Bool → Store → List Decision × Store
unfolding decisions user_preferences presence looked
evaluate now fresh user kind target live st = (
  decisions user kind target live (user_preferences st) (presence now fresh st) st.history,
  record (looked now fresh st) { preferences = some (user_preferences st) },
)

-- what the worker reads of a notification and its metadata
pub record Notification : Type 0 where
  pub user_id : String
  pub workspace_id : Option String
  pub kind : NotificationType
  pub contact_id : Option String

key_eq : EmailKey → EmailKey → Bool
unfolding kind_eq
key_eq k l =
    str_eq k.user_id l.user_id
    && str_eq k.contact_id l.contact_id
    && kind_eq k.kind l.kind
    && str_eq k.inactivity_session_id l.inactivity_session_id

-- `upsert` on the unique key; the time of the last email is not read by any method here
upsert_key : EmailKey → List EmailKey → List EmailKey
unfolding key_eq
upsert_key k history = if any (λ l. key_eq l k) history then history else history ++ k ∷ []

keyed : Notification → String → String → EmailKey
keyed n contact session = record {
  user_id = n.user_id;
  contact_id = contact;
  kind = n.kind;
  inactivity_session_id = session;
}

recorded : Notification → Option String → Option String → List EmailKey → List EmailKey
unfolding upsert_key keyed
recorded n (some contact) (some session) history = upsert_key (keyed n contact session) history
recorded n _ _ history = history

session_of : Option Activity → Option String
session_of none = none
session_of (some a) = present (some a.inactivity_session_id)

-- what the worker does once the mail server has accepted an email
unfoldable pub record_email : Notification → Store → Store
unfolding recorded session_of
record_email n st =
    if truthy n.workspace_id
    then record st {
      history = recorded n (present n.contact_id) (session_of st.activity) st.history;
    }
    else st
