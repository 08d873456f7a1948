-- ===== src/Notifications/Presence/Quiet.antt =====
-- A user whom no call finds active stays offline in the same inactivity session.
use mathlib.Core.Path.{subst}
use desk_be.Common.{
  ℕ, String, List, [], ◌∷◌, true, Option, some, get_or, All, opt_eq, ◌≡◌, refl, sym, ap, ◌∙◌,
}
use desk_be.Notifications.Types.{Activity, offline}
use desk_be.Notifications.Presence.{
  heartbeat, effective_status, effective_of, background_row, background_status, rotates,
  presence_of,
}
use desk_be.Notifications.Presence.Sessions.{Event, beat, look, row_after, rows_after}

-- a call that does not find the user active
unfoldable pub IsQuiet : Event → Type 0
IsQuiet (beat now workspace fresh m) = opt_eq m "background" ≡ true
IsQuiet (look now fresh timeout) = Unit

-- the row of an offline user, in an inactivity session
unfoldable pub OfflineIn : String → Activity → Type 0
OfflineIn session a = (a.activity_status ≡ offline) × (a.inactivity_session_id ≡ session)

background-OfflineIn :
    (now : ℕ) (workspace fresh session : String) (a : Activity)
    → OfflineIn session a
    → OfflineIn session (background_row now workspace fresh (background_status (some a)) (some a))
unfolding OfflineIn background_row background_status rotates
background-OfflineIn now workspace fresh session a (h, e) = rw (h) (refl, e)

quiet_beat :
    (now : ℕ) (workspace fresh session : String) (m : Option String) (a : Activity)
    → opt_eq m "background" ≡ true
    → OfflineIn session a
    → OfflineIn session (heartbeat now workspace fresh m (some a))
unfolding heartbeat
quiet_beat now workspace fresh session m a quiet h =
    rw (quiet) (background-OfflineIn now workspace fresh session a h)

looking-OfflineIn :
    (now : ℕ) (fresh session : String) (timeout : ℕ) (a : Activity)
    → OfflineIn session a
    → (effective_of now fresh timeout a.activity_status a ≡ (presence_of offline timeout a, some a))
unfolding OfflineIn effective_of
looking-OfflineIn now fresh session timeout a h = ap (λ s. effective_of now fresh timeout s a) h.0

row_after-OfflineIn :
    (ev : Event) (session : String) (a : Activity)
    → IsQuiet ev
    → OfflineIn session a
    → OfflineIn session (get_or (row_after ev a) a)
unfolding row_after heartbeat effective_status IsQuiet
row_after-OfflineIn (beat now workspace fresh m) session a quiet h =
    quiet_beat now workspace fresh session m a quiet h
row_after-OfflineIn (look now fresh timeout) session a quiet h =
    subst (λ r. OfflineIn session (get_or r.1 a))
      (sym (looking-OfflineIn now fresh session (get_or timeout 300) a h)) h

pub rows_after-OfflineIn :
    (es : List Event) (session : String) (a : Activity)
    → All IsQuiet es
    → OfflineIn session a
    → OfflineIn session (rows_after es a)
unfolding rows_after
rows_after-OfflineIn [] session a quiet h = h
rows_after-OfflineIn (e ∷ es) session a quiet h =
    rows_after-OfflineIn es session (get_or (row_after e a) a) quiet.1
      (row_after-OfflineIn e session a quiet.0 h)

-- what is read of the row of an offline user
pub effective_status-OfflineIn :
    (now : ℕ) (fresh session : String) (timeout : Option ℕ) (a : Activity)
    → OfflineIn session a
    → (effective_status now fresh timeout (some a)).0.inactivity_session_id ≡ some session
unfolding effective_status OfflineIn presence_of
effective_status-OfflineIn now fresh session timeout a h =
    ap (λ r. r.0.inactivity_session_id)
      (looking-OfflineIn now fresh session (get_or timeout 300) a h)
    ∙ ap some h.1
