-- ===== src/Billing/Replacement.antt =====
-- Replacing a Razorpay subscription: `activateRazorpayReplacement`,
-- `verifyRazorpayReplacementCancellation`, `finalizeReplacedRazorpaySubscription` and
-- `deferRazorpayOperation`.
pub mod Present
pub mod Cancels
use desk_be.Common.{
  ℕ, ◌+◌, ◌*◌, zero, suc, String, List, ◌∷◌, Bool, true, false, not, ◌&&◌, ◌||◌, Option, none, some,
  coalesce, get_or, present, opt_eq, str_eq, join, to_lower, if◌then◌else◌,
}
use desk_be.Billing.Records.{
  Status, pending, cleanup_pending, cancel_requested, abandoned, Operation, Subscription,
  ProviderSubscription,
}
use desk_be.Billing.World.{
  World, M, ok, ◌>>=◌, ◌>>◌, pure, gets, catch, Cleanup, Razorpay, update_operation,
  update_subscription, find_latest,
}
use desk_be.Billing.Status.{cleanup_delay, verification_delay, is_terminal_subscription}
use desk_be.Billing.Upsert.{
  ReplacementParams, upsert_replacement, mark_completed, schedule_cleanup, replaces,
}
use desk_be.Billing.Provider.{
  CancelResult, CancelOutcome, cancelled, deferred, not_started, already_cancelled,
  cancel_subscription_if_possible, fetch_status, refund_replacement_credit,
}

-- `getRazorpayDate`, in milliseconds
abbrev razorpay_date : Option ℕ → Option ℕ
razorpay_date none = none
razorpay_date (some zero) = none
razorpay_date (some (suc seconds)) = some (suc seconds * 1000)

-- the data of the `update` in `activateRazorpayReplacement`
unfoldable pub activated :
    Subscription → ProviderSubscription → String → Option String → ℕ → Subscription → Subscription
activated s r new plan now row = record row {
  provider = some "razorpay";
  provider_customer_id = coalesce (present r.customer_id) s.provider_customer_id;
  provider_sub_id = some new;
  plan =
      get_or (coalesce (present plan) (coalesce (present r.notes_plan) (present s.pending_plan)))
        s.plan;
  status = "active";
  pending_plan = none;
  pending_effective_at = none;
  pending_provider_sub_id = none;
  current_period_start = coalesce (razorpay_date r.current_start) s.current_period_start;
  current_period_end =
      coalesce (razorpay_date r.current_end)
        (coalesce (razorpay_date r.charge_at) s.current_period_end);
}

-- `queueRazorpayReplacementCleanup`: the cleanup runs later, detached.
queue_cleanup : Cleanup → M (Unit {0})
queue_cleanup c w = (ok tt, record w { queued = c ∷ w.queued })

-- A subscription is replaced where the old one is named and is not the new one.
unfoldable pub replaced_by : Option String → String → Option String
replaced_by old new = elim (present old) [
  | none ↦ none
  | some o ↦ if str_eq o new then none else some o
]

queue_for : Subscription → String → Option String → M (Unit {0})
queue_for s new none = pure tt
queue_for s new (some old) = queue_cleanup (record {
  workspace_id = s.workspace_id;
  replaced = old;
  replacement = new;
  attempt = none;
  last_error = none;
})

unfoldable pub activate :
    Subscription → ProviderSubscription → String → Option String → Option String → M Subscription
unfolding activated queue_cleanup replaced_by queue_for
activate s r new old plan = do
  updated ← update_subscription s.id (activated s r new plan)
  queue_for s new (replaced_by old new)
  pure updated

still : String → String → Option String
still text status = some (join text status)

unfoldable pub abandon : String → ℕ → Operation → Operation
abandon text now o = record o { status = abandoned; last_error = some text }

-- the row of a cancellation that the provider has not carried out
unfoldable pub requested_again : ℕ → String → String → ℕ → Operation → Operation
unfolding still
requested_again retries text status now o = record o {
  status = cancel_requested;
  retry_count = retries;
  next_retry_at = now + verification_delay retries;
  last_error = still text status;
}

abbrev pub is_cancel_requested : Status → Bool
is_cancel_requested cancel_requested = true
is_cancel_requested _ = false

-- `deferRazorpayOperation`: the row of an operation whose replacement is not active yet
abbrev deferred_status : Status → Status
deferred_status cleanup_pending = cleanup_pending
deferred_status _ = pending

unfoldable pub deferred_row : Operation → String → ℕ → Operation → Operation
deferred_row o error now row = record row {
  status = deferred_status o.status;
  retry_count = o.retry_count + 1;
  next_retry_at = now + cleanup_delay (o.retry_count + 1);
  last_error = some error;
}

module _ (rp : Razorpay) where
  verify_named : Operation → Subscription → Option String → Option String → M (Unit {0})
  verify_named o s (some old) (some new) = do
    status ← fetch_status rp old
    if is_terminal_subscription status
        then (mark_completed o.workspace_id old new >> refund_replacement_credit rp s (some old))
        else update_operation o.operation_key (
            requested_again (o.retry_count + 1) "Cancel requested; old Razorpay subscription still "
              status)
  verify_named o s _ _ =
      update_operation o.operation_key
        (abandon "Cancellation verification is missing old or new subscription id")

  unfoldable pub verify_cancellation : Operation → Subscription → M (Unit {0})
  unfolding verify_named abandon requested_again still
  verify_cancellation o s =
      verify_named o s (present o.old_provider_sub_id) (present o.new_provider_sub_id)

  -- The old subscription is known to have ended.
  finish : Subscription → String → String → M (Unit {0})
  finish s old new = do
    mark_completed s.workspace_id old new
    catch (refund_replacement_credit rp s (some old)) (λ error. pure tt)

  replacement_params :
      Subscription → String → String → Status → ℕ → ℕ → Option String → ReplacementParams
  replacement_params s old new status retries at error = record {
    workspace_id = s.workspace_id;
    old_provider_sub_id = some old;
    new_provider_sub_id = some new;
    plan = none;
    status = status;
    retry_count = some retries;
    next_retry_at = some at;
    last_error = error;
    refund_amount = none;
  }

  -- the status of the old subscription: the returned one if it has ended, else fetched
  old_status : String → String → M String
  old_status old returned =
      if is_terminal_subscription returned then pure returned else fetch_status rp old

  after_cancel : Subscription → String → String → ℕ → CancelResult → CancelOutcome → M (Unit {0})
  after_cancel s old new attempt r deferred = schedule_cleanup (record {
    workspace_id = s.workspace_id;
    replaced = old;
    replacement = new;
    attempt = some (attempt + 1);
    last_error = r.reason;
  })
  after_cancel s old new attempt r not_started = do
    now ← gets (λ w. w.now)
    upsert_replacement (
        replacement_params s old new cleanup_pending (attempt + 1)
          (now + cleanup_delay (attempt + 1)) r.reason)
  after_cancel s old new attempt r _ = do
    status ← old_status old (to_lower (get_or r.returned_status ""))
    now ← gets (λ w. w.now)
    if is_terminal_subscription status
        then finish s old new
        else upsert_replacement (
            replacement_params s old new cancel_requested (attempt + 1)
              (now + verification_delay (attempt + 1))
              (still "Cancel requested; old Razorpay subscription still " status))

  -- A cancellation that was requested before is only verified.
  cancel_once : Subscription → String → String → ℕ → Option Operation → M (Unit {0})
  cancel_once s old new attempt (some o) = verify_cancellation o s
  cancel_once s old new attempt none = do
    r ← cancel_subscription_if_possible rp old false
    after_cancel s old new attempt r r.outcome

  finalize_named : Subscription → String → ℕ → Option String → M (Unit {0})
  finalize_named s new attempt none = pure tt
  finalize_named s new attempt (some old) = do
    requested ← gets (λ w.
        find_latest (λ o. replaces s.workspace_id old new o && is_cancel_requested o.status)
          w.operations)
    cancel_once s old new attempt requested

  -- `finalizeReplacedRazorpaySubscription`
  unfoldable pub finalize : Subscription → Option String → String → ℕ → M (Unit {0})
  unfolding finalize_named cancel_once after_cancel old_status replacement_params finish still
      replaced_by
  finalize s old new attempt = finalize_named s new attempt (replaced_by old new)
