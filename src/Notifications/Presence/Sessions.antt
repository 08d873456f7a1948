-- ===== src/Notifications/Presence/Sessions.antt =====
-- The inactivity session of a user: when it changes, and what a chosen presence withstands.
use mathlib.Core.Path.{subst}
use desk_be.Common.{
  ℕ, String, List, [], ◌∷◌, Option, none, some, ◌≡◌, ◌≢◌, refl, sym, ◌∙◌, ◌↔◌, ◌⊎◌, inl, inr,
  opt_eq, get_or, not, ◌&&◌, Bool-cases, arith, if◌then◌else◌,
}
use desk_be.Notifications.Types.{
  PresenceStatus, active, offline, away, busy, dnd, Activity, is_offline,
}
use desk_be.Notifications.Presence.{
  heartbeat, effective_status, is_idle, preserved_status, effective_of,
}

-- One call of the service about a user, at a clock, an identifier and the workspace's data.
pub data Event : Type 0 where
  beat : ℕ → String → String → Option String → Event
  look : ℕ → String → Option ℕ → Event

unfoldable pub identifier : Event → String
identifier (beat now workspace fresh m) = fresh
identifier (look now fresh timeout) = fresh

-- the row after a call, where there was one
unfoldable pub row_after : Event → Activity → Option Activity
unfolding heartbeat effective_status
row_after (beat now workspace fresh m) a = some (heartbeat now workspace fresh m (some a))
row_after (look now fresh timeout) a = (effective_status now fresh timeout (some a)).1

-- The user became offline.
unfoldable pub WentOffline : Activity → Activity → Type 0
WentOffline a b = (a.activity_status ≢ offline) × (b.activity_status ≡ offline)

module _ (fresh old : String) (ne : fresh ≢ old) where
  background_session :
      (s : PresenceStatus)
      → ((if is_offline (get_or (preserved_status s) offline) && not (is_offline s)
            then fresh
            else old)
          ≢ old)
        ↔ ((s ≢ offline) × (get_or (preserved_status s) offline ≡ offline))
  unfolding is_offline preserved_status
  background_session active = ground arith
  background_session offline = ground arith
  background_session away = ground arith
  background_session busy = ground arith
  background_session dnd = ground arith

  active_session :
      (s : PresenceStatus)
      → (old ≢ old) ↔ ((s ≢ offline) × (get_or (preserved_status s) active ≡ offline))
  unfolding preserved_status
  active_session active = ground arith
  active_session offline = ground arith
  active_session away = ground arith
  active_session busy = ground arith
  active_session dnd = ground arith

beat_session :
    (now : ℕ) (workspace fresh : String) (m : Option String) (a : Activity)
    → fresh ≢ a.inactivity_session_id
    → ((heartbeat now workspace fresh m (some a)).inactivity_session_id ≢ a.inactivity_session_id)
      ↔ WentOffline a (heartbeat now workspace fresh m (some a))
unfolding WentOffline heartbeat
beat_session now workspace fresh m a ne = elim (Bool-cases (opt_eq m "background")) [
  | inl e ↦ rw (e) (background_session fresh a.inactivity_session_id ne a.activity_status)
  | inr e ↦ rw (e) (active_session fresh a.inactivity_session_id ne a.activity_status)
]

-- The row is still there, and its session is another one exactly when the user went offline.
unfoldable pub SessionFollows : Activity → Option Activity → Type 0
SessionFollows a none = ⊥
SessionFollows a (some b) = (b.inactivity_session_id ≢ a.inactivity_session_id) ↔ WentOffline a b

module _ (now : ℕ) (fresh : String) (timeout : ℕ) (a : Activity)
    (ne : fresh ≢ a.inactivity_session_id) where
  kept_row : SessionFollows a (some a)
  unfolding SessionFollows WentOffline
  kept_row = ground arith

  look_session :
      (s : PresenceStatus)
      → a.activity_status ≡ s
      → SessionFollows a (effective_of now fresh timeout s a).1
  unfolding SessionFollows WentOffline effective_of
  look_session active same = elim (Bool-cases (is_idle now timeout a.last_activity_at)) [
    | inl e ↦ rw (e, same) (ground arith)
    | inr e ↦ rw (e) kept_row
  ]
  look_session offline same = kept_row
  look_session away same = kept_row
  look_session busy same = kept_row
  look_session dnd same = kept_row

-- A call that uses a new identifier gives the user a new inactivity session exactly when it finds
-- the user not offline and leaves the user offline.
pub row_after-SessionFollows :
    (e : Event) (a : Activity)
    → identifier e ≢ a.inactivity_session_id
    → SessionFollows a (row_after e a)
unfolding row_after identifier effective_status SessionFollows
row_after-SessionFollows (beat now workspace fresh m) a ne = beat_session now workspace fresh m a ne
row_after-SessionFollows (look now fresh timeout) a ne =
    look_session now fresh (get_or timeout 300) a ne a.activity_status refl

-- the row after a sequence of calls, the first one first
unfoldable pub rows_after : List Event → Activity → Activity
unfolding row_after
rows_after [] a = a
rows_after (e ∷ es) a = rows_after es (get_or (row_after e a) a)

unfoldable pub IsManual : PresenceStatus → Type 0
IsManual s = (s ≡ away) ⊎ (s ≡ busy) ⊎ (s ≡ dnd)

module _ (a : Activity) (manual : IsManual a.activity_status) where
  preserved : preserved_status a.activity_status ≡ some a.activity_status
  unfolding preserved_status IsManual
  preserved = elim manual [
    | inl e ↦ rw (e) refl
    | inr (inl e) ↦ rw (e) refl
    | inr (inr e) ↦ rw (e) refl
  ]

  beat_status :
      (now : ℕ) (workspace fresh : String) (m : Option String)
      → (heartbeat now workspace fresh m (some a)).activity_status ≡ a.activity_status
  unfolding heartbeat
  beat_status now workspace fresh m = elim (Bool-cases (opt_eq m "background")) [
    | inl e ↦ rw (e, preserved) refl
    | inr e ↦ rw (e, preserved) refl
  ]

  look_status :
      (now : ℕ) (fresh : String) (timeout : ℕ)
      → (get_or (effective_of now fresh timeout a.activity_status a).1 a).activity_status
        ≡ a.activity_status
  unfolding effective_of IsManual
  look_status now fresh timeout = elim manual [
    | inl e ↦ rw (e) refl
    | inr (inl e) ↦ rw (e) refl
    | inr (inr e) ↦ rw (e) refl
  ]

  row_status : (e : Event) → (get_or (row_after e a) a).activity_status ≡ a.activity_status
  unfolding row_after effective_status
  row_status (beat now workspace fresh m) = beat_status now workspace fresh m
  row_status (look now fresh timeout) = look_status now fresh (get_or timeout 300)

-- Who chose to be away, busy or not disturbed stays so through any sequence of heartbeats and
-- looks, however long it takes.
pub rows_after-manual :
    (es : List Event) (a : Activity)
    → IsManual a.activity_status
    → (rows_after es a).activity_status ≡ a.activity_status
unfolding rows_after
rows_after-manual [] a manual = refl
rows_after-manual (e ∷ es) a manual =
    rows_after-manual es (get_or (row_after e a) a)
      (subst IsManual (sym (row_status a manual e)) manual)
    ∙ row_status a manual e
