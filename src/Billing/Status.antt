-- ===== src/Billing/Status.antt =====
-- The statuses of a subscription operation and its retry delays (`nextRazorpayOperationStatus`,
-- `isTerminalRazorpayOperationStatus`, `getRazorpayCleanupDelayMs`, …), and the classes of
-- Razorpay's own subscription statuses.
mod Order
mod Tests
use desk_be.Common.{
  ℕ, zero, suc, ◌-◌, min, String, List, [], ◌∷◌, Bool, true, false, not, ◌&&◌, Option, none, some,
  contains, lookup, get_or, present, to_lower, join, if◌then◌else◌,
}
use desk_be.Billing.Records.{
  Status, pending, cleanup_pending, cancel_requested, completed, abandoned, failed, retrying,
}

-- `RAZORPAY_OPERATION_TERMINAL_STATUSES.includes(status)`
unfoldable pub is_terminal : Status → Bool
is_terminal completed = true
is_terminal abandoned = true
is_terminal _ = false

-- `RAZORPAY_OPERATION_WORKER_STATUSES.includes(status)`
unfoldable pub is_worker_status : Status → Bool
is_worker_status pending = true
is_worker_status cleanup_pending = true
is_worker_status cancel_requested = true
is_worker_status failed = true
is_worker_status retrying = true
is_worker_status _ = false

-- the guard of the second `if`: what a requested cancellation gives way to
ends_cancellation : Status → Bool
ends_cancellation completed = true
ends_cancellation abandoned = true
ends_cancellation failed = true
ends_cancellation _ = false

-- the tests of `nextRazorpayOperationStatus` below the terminal one
next_open_status : Status → Status → Status
next_open_status cancel_requested requested =
    if ends_cancellation requested then requested else cancel_requested
next_open_status cleanup_pending pending = cleanup_pending
next_open_status _ requested = requested

unfoldable pub next_status : Option Status → Status → Status
unfolding is_terminal next_open_status ends_cancellation
next_status none requested = requested
next_status (some existing) requested =
    if is_terminal existing then existing else next_open_status existing requested

abbrev pub nth_delay : List ℕ → ℕ → ℕ
nth_delay [] i = 0
nth_delay (d ∷ ds) zero = d
nth_delay (d ∷ ds) (suc i) = nth_delay ds i

-- `retryDelaysMs[Math.min(attempt, retryDelaysMs.length - 1)]`
unfoldable pub cleanup_delay : ℕ → ℕ
cleanup_delay attempt = nth_delay (60_000 ∷ 300_000 ∷ 900_000 ∷ 1_800_000 ∷ []) (min attempt 3)

unfoldable pub verification_delay : ℕ → ℕ
verification_delay attempt =
    nth_delay (300_000 ∷ 900_000 ∷ 1_800_000 ∷ 3_600_000 ∷ []) (min attempt 3)

-- `isPendingRazorpaySubscriptionStatus`
unfoldable pub is_pending_subscription : String → Bool
is_pending_subscription = contains ("created" ∷ "authenticated" ∷ "pending" ∷ "halted" ∷ [])

-- `isTerminalRazorpaySubscriptionStatus`
unfoldable pub is_terminal_subscription : String → Bool
is_terminal_subscription = contains ("cancelled" ∷ "completed" ∷ "expired" ∷ [])

abbrev status_map : List (String × String)
status_map =
    ("active", "active")
    ∷ ("authenticated", "active")
    ∷ ("resumed", "active")
    ∷ ("pending", "past_due")
    ∷ ("halted", "past_due")
    ∷ ("paused", "paused")
    ∷ ("cancelled", "cancelled")
    ∷ ("completed", "cancelled")
    ∷ ("expired", "expired")
    ∷ []

-- `mapRazorpaySubscriptionStatus`
unfoldable pub map_subscription_status : String → String
map_subscription_status status = get_or (lookup (to_lower status) status_map) "past_due"

-- `buildRazorpayReplacementOperationKey`, `buildRazorpayCancelOperationKey`
abbrev colon : String → String → String
colon s t = join s (join ":" t)

unfoldable pub replacement_key : String → String → String → String
replacement_key workspace old new =
    colon "razorpay" (colon "replace_subscription" (colon workspace (colon old new)))

unfoldable pub cancel_key : String → String → String
cancel_key workspace sub = colon "razorpay" (colon "cancel_subscription" (colon workspace sub))
