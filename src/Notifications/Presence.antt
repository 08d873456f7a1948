-- ===== src/Notifications/Presence.antt =====
-- src/modules/notifications/notification-activity.service.ts: the presence of a user, whose row of
-- UserActivity may be missing. `fresh` is the identifier that crypto.randomUUID, or the default of
-- the column, would give; `timeout_sec` is the workspace's, where the workspace is there.
pub mod Sessions
pub mod Quiet
use desk_be.Common.{
  ℕ, zero, ◌-◌, ◌*◌, String, Bool, true, false, not, ◌&&◌, ◌||◌, Option, none, some, coalesce,
  get_or, opt_eq, ltb, if◌then◌else◌,
}
use desk_be.Notifications.Types.{
  PresenceStatus, active, offline, away, busy, dnd, Activity, is_offline,
}

-- what `getEffectiveStatus` returns, and the row that it leaves
pub record Presence : Type 0 where
  pub status : PresenceStatus
  pub inactivity_session_id : Option String
  pub timeout_sec : ℕ

preserved_status : PresenceStatus → Option PresenceStatus
preserved_status away = some away
preserved_status busy = some busy
preserved_status dnd = some dnd
preserved_status _ = none

-- getPreservedManualState
unfoldable pub preserved_manual_state : Option Activity → Option PresenceStatus
unfolding preserved_status
preserved_manual_state none = none
preserved_manual_state (some a) = preserved_status a.activity_status

background_status : Option Activity → PresenceStatus
unfolding preserved_manual_state
background_status existing = get_or (preserved_manual_state existing) offline

rotates : PresenceStatus → Activity → Bool
unfolding is_offline
rotates next a = is_offline next && not (is_offline a.activity_status)

background_row : ℕ → String → String → PresenceStatus → Option Activity → Activity
unfolding rotates
background_row now workspace fresh next (some a) = record a {
  activity_status = next;
  last_seen_at = some now;
  last_workspace_id = some workspace;
  inactivity_session_id = if rotates next a then fresh else a.inactivity_session_id;
}
background_row now workspace fresh next none = record {
  activity_status = next;
  last_seen_at = some now;
  last_activity_at = none;
  last_workspace_id = some workspace;
  inactivity_session_id = fresh;
}

active_row : ℕ → String → String → Option Activity → Activity
unfolding preserved_manual_state
active_row now workspace fresh (some a) = record a {
  activity_status = get_or (preserved_manual_state (some a)) active;
  last_seen_at = some now;
  last_activity_at = some now;
  last_workspace_id = some workspace;
}
active_row now workspace fresh none = record {
  activity_status = active;
  last_seen_at = some now;
  last_activity_at = some now;
  last_workspace_id = some workspace;
  inactivity_session_id = fresh;
}

-- `heartbeat`: the row that it leaves
unfoldable pub heartbeat : ℕ → String → String → Option String → Option Activity → Activity
unfolding background_status background_row active_row
heartbeat now workspace fresh module_name existing =
    if opt_eq module_name "background"
    then background_row now workspace fresh (background_status existing) existing
    else active_row now workspace fresh existing

-- `!lastActivityAt || now - lastActivityAt > timeoutSec * 1000`: the time zero counts as none
unfoldable pub is_idle : ℕ → ℕ → Option ℕ → Bool
is_idle now timeout none = true
is_idle now timeout (some zero) = true
is_idle now timeout (some t) = ltb (timeout * 1000) (now - t)

presence_of : PresenceStatus → ℕ → Activity → Presence
presence_of s timeout a = record {
  status = s;
  inactivity_session_id = some a.inactivity_session_id;
  timeout_sec = timeout;
}

timed_out : String → Activity → Activity
timed_out fresh a = record a { activity_status = offline; inactivity_session_id = fresh }

effective_of : ℕ → String → ℕ → PresenceStatus → Activity → Presence × Option Activity
unfolding presence_of timed_out is_idle
effective_of now fresh timeout active a =
    if is_idle now timeout a.last_activity_at
    then (presence_of offline timeout (timed_out fresh a), some (timed_out fresh a))
    else (presence_of active timeout a, some a)
effective_of now fresh timeout s a = (presence_of s timeout a, some a)

-- `getEffectiveStatus`. A user without a row is offline, so that the branches below the first
-- `if` that test for a missing row are never reached.
unfoldable pub effective_status :
    ℕ → String → Option ℕ → Option Activity → Presence × Option Activity
unfolding effective_of
effective_status now fresh timeout_sec none = (
  record { status = offline; inactivity_session_id = none; timeout_sec = get_or timeout_sec 300 },
  none,
)
effective_status now fresh timeout_sec (some a) =
    effective_of now fresh (get_or timeout_sec 300) a.activity_status a
