-- ===== src/Billing/Status/Tests.antt =====
-- Statuses and delays at concrete inputs.
use desk_be.Common.{◌≤◌, ◌<◌, ◌≡◌, ◌≢◌, refl, true, some, arith}
use desk_be.Billing.Records.{
  pending, cleanup_pending, cancel_requested, completed, failed, retrying,
}
use desk_be.Billing.Status.{is_terminal, next_status, cleanup_delay, verification_delay}
use desk_be.Billing.Status.Order.{
  stage, next_status_advances, cleanup_ongoing, cancel_ongoing, next_status_comm, delay_bounds,
}

completed_stays : next_status (some completed) cleanup_pending ≡ completed
unfolding next_status
completed_stays = refl

next_status_advances_example :
    (is_terminal completed ≡ true → next_status (some completed) cleanup_pending ≡ completed)
    × (cleanup_pending ≢ failed
        → cleanup_pending ≢ retrying
        → stage completed ≤ stage (next_status (some completed) cleanup_pending))
next_status_advances_example = next_status_advances completed cleanup_pending

next_status_comm_example :
    next_status (some (next_status (some pending) cleanup_pending)) cancel_requested
    ≡ next_status (some (next_status (some pending) cancel_requested)) cleanup_pending
next_status_comm_example = next_status_comm (some pending) cleanup_ongoing cancel_ongoing

delay_bounds_example :
    (60_000 ≤ cleanup_delay 1)
    × (300_000 ≤ verification_delay 1)
    × (cleanup_delay 1 ≤ cleanup_delay 7)
    × (cleanup_delay 7 ≤ 1_800_000)
    × (cleanup_delay 1 < verification_delay 1)
    × (verification_delay 1 ≤ verification_delay 7)
    × (verification_delay 7 ≤ 3_600_000)
delay_bounds_example = delay_bounds 1 7 (omega arith)
