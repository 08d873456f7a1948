-- ===== src/Billing/Status/Order.antt =====
-- The status that an upsert gives an operation, and the delays before an operation is retried. (A
-- worker's turn that throws writes FAILED without asking `next_status`.)
use desk_be.Common.{ℕ, ◌≤◌, ◌<◌, ◌≢◌, true, Option, some, ◌≡◌, refl, arith}
use desk_be.Billing.Records.{
  Status, pending, cleanup_pending, cancel_requested, completed, abandoned, failed, retrying,
}
use desk_be.Billing.Status.{is_terminal, next_status, cleanup_delay, verification_delay}

-- How far the cancellation of the replaced subscription has come.
abbrev pub stage : Status → ℕ
stage pending = 0
stage retrying = 0
stage failed = 0
stage cleanup_pending = 1
stage cancel_requested = 2
stage completed = 3
stage abandoned = 3

-- The status that nextRazorpayOperationStatus gives to an upsert is, at a row that has ended, the
-- row's own, and at a request that is neither `failed` nor the legacy `retrying` of no earlier
-- stage than the row's.
pub next_status_advances :
    (existing requested : Status)
    → (is_terminal existing ≡ true → next_status (some existing) requested ≡ existing)
      × (requested ≢ failed
          → requested ≢ retrying
          → stage existing ≤ stage (next_status (some existing) requested))
unfolding next_status
next_status_advances existing requested = (λ e. ground arith, λ f r. ground arith)

-- The statuses that the worker and the detached cleanup request while an operation goes on.
pub data IsOngoing : Status → Type 0 where
  pending_ongoing : IsOngoing pending
  cleanup_ongoing : IsOngoing cleanup_pending
  cancel_ongoing : IsOngoing cancel_requested

-- Two upserts that request an ongoing status leave the same status in either order, so a detached
-- cleanup may run before or after the worker's own write.
pub next_status_comm :
    (existing : Option Status) {a b : Status}
    → IsOngoing a
    → IsOngoing b
    → next_status (some (next_status existing a)) b ≡ next_status (some (next_status existing b)) a
unfolding next_status
next_status_comm existing pending_ongoing pending_ongoing = refl
next_status_comm existing pending_ongoing cleanup_ongoing = ground arith
next_status_comm existing pending_ongoing cancel_ongoing = ground arith
next_status_comm existing cleanup_ongoing pending_ongoing = ground arith
next_status_comm existing cleanup_ongoing cleanup_ongoing = refl
next_status_comm existing cleanup_ongoing cancel_ongoing = ground arith
next_status_comm existing cancel_ongoing pending_ongoing = ground arith
next_status_comm existing cancel_ongoing cleanup_ongoing = ground arith
next_status_comm existing cancel_ongoing cancel_ongoing = refl

-- A cleanup is retried after one to thirty minutes and a verification after five to sixty; later
-- attempts never wait for less, and a verification always waits longer than a cleanup of the same
-- attempt.
pub delay_bounds :
    (attempt later : ℕ)
    → attempt ≤ later
    → (60_000 ≤ cleanup_delay attempt)
      × (300_000 ≤ verification_delay attempt)
      × (cleanup_delay attempt ≤ cleanup_delay later)
      × (cleanup_delay later ≤ 1_800_000)
      × (cleanup_delay attempt < verification_delay attempt)
      × (verification_delay attempt ≤ verification_delay later)
      × (verification_delay later ≤ 3_600_000)
unfolding cleanup_delay verification_delay
delay_bounds attempt later h = ground arith
