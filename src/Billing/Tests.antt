-- ===== src/Billing/Tests.antt =====
-- A workspace whose starter subscription is being replaced by a growth one, and runs of the worker.
use mathlib.Core.Option
use desk_be.Common.{
  find, arith, eq_iff, map, to_lower, includes, String, [], ◌∷◌, false, Option, none, some, ◌≡◌,
  refl, str_eq, if◌then◌else◌,
}
use desk_be.Billing.Records.{
  Status, pending, cleanup_pending, cancel_requested, completed, replace_subscription, Operation,
  Subscription, Payment, ProviderSubscription,
}
use desk_be.Billing.World.{
  World, fetch, cancel, refund, Razorpay, answered, accepted, failed, find_operation,
}
use desk_be.Billing.Status.{
  is_terminal, is_worker_status, next_status, cleanup_delay, verification_delay,
  is_pending_subscription, is_terminal_subscription, replacement_key,
}
use desk_be.Billing.Upsert.{upsert_replacement, mark_completed, schedule_cleanup}
use desk_be.Billing.Provider.{
  cancel_subscription_if_possible, fetch_subscription, fetch_status, refund_replacement_credit,
  classify_refusal, find_payment, description_of,
}
use desk_be.Billing.Replacement.{verify_cancellation, finalize, activate, replaced_by, deferred_row}
use desk_be.Billing.World.{ok}
use desk_be.Billing.Upsert.{ReplacementParams}
use desk_be.Billing.Upsert.Laws.{Leaves, met, upsert_replacement-Leaves}
use desk_be.Billing.Provider.{refunded}
use desk_be.Billing.Provider.Cancels.{cancellations}
use desk_be.Billing.Provider.Refund.{refund-repeat}
use desk_be.Billing.Worker.Cancels.{process-no_cancel}
use desk_be.Billing.Worker.Lock.{claim-exclusive}
use desk_be.Billing.Worker.{
  work_all, work, claim, release, process, due_operations, reconcile_operations,
}

abbrev pub starter : Subscription
starter = record {
  id = "s1";
  workspace_id = "w1";
  plan = "starter";
  status = "active";
  provider = some "razorpay";
  provider_customer_id = some "cust";
  provider_sub_id = some "sub_old";
  current_period_start = some 0;
  current_period_end = some 2_000;
  pending_plan = some "growth";
  pending_effective_at = none;
  pending_provider_sub_id = some "sub_new";
  last_refund_amount = some 500;
  last_refund_status = some "pending";
  last_refund_at = none;
  cancel_at_period_end = false;
}

abbrev pub payment : Payment
payment = record {
  workspace_id = "w1";
  subscription_id = some "s1";
  provider = "razorpay";
  status = "paid";
  provider_payment_id = some "pay_1";
  metadata_subscription_id = some "sub_old";
  paid_at = some 10;
  created_at = 10;
}

abbrev pub operation : Status → Operation
operation status = record {
  operation_key = "razorpay:replace_subscription:w1:sub_old:sub_new";
  workspace_id = "w1";
  provider = "razorpay";
  kind = replace_subscription;
  status = status;
  old_provider_sub_id = some "sub_old";
  new_provider_sub_id = some "sub_new";
  plan = some "growth";
  retry_count = 0;
  next_retry_at = 1_000;
  locked_at = none;
  lock_expires_at = none;
  last_error = none;
  cancel_at_cycle_end = none;
  refund_amount = some 500;
  updated_at = 0;
}

abbrev pub world : Status → World
world status = record {
  now = 1_000;
  operations = operation status ∷ [];
  subscriptions = starter ∷ [];
  payments = payment ∷ [];
  calls = [];
  queued = [];
  racing = [];
}

abbrev pub subscription_as : String → ProviderSubscription
subscription_as status = record {
  status = some status;
  customer_id = none;
  notes_plan = some "growth";
  current_start = some 1;
  current_end = some 3;
  charge_at = none;
}

-- Razorpay where the new subscription is active and the old one ends when it is cancelled.
abbrev pub prompt : Razorpay
prompt = record {
  on_fetch = λ calls sub.
      answered (subscription_as (if str_eq sub "sub_new" then "active" else "cancelled"));
  on_cancel = λ calls sub at_end. accepted (some "Cancelled");
  on_refund = λ calls pay amount. answered (some "processed");
}

-- One run of the worker over the operations that are due.
run : Razorpay → World → World
unfolding reconcile_operations work_all due_operations work claim release process
    verify_cancellation finalize activate upsert_replacement mark_completed schedule_cleanup
    cancel_subscription_if_possible fetch_subscription fetch_status refund_replacement_credit
    classify_refusal find_payment is_terminal is_worker_status next_status cleanup_delay
    verification_delay is_pending_subscription is_terminal_subscription replacement_key to_lower
    includes replaced_by deferred_row description_of
run rp w = (reconcile_operations rp w).1

status_of : World → Option Status
status_of w =
    Option.map (λ o. o.status) (find_operation "razorpay:replace_subscription:w1:sub_old:sub_new" w)

replaced_at_once :
    let w = run prompt (world pending) in
    (w.calls ≡ refund "pay_1" 500 ∷ cancel "sub_old" false ∷ fetch "sub_new" ∷ [])
    × (status_of w ≡ some completed)
    × (map (λ s. s.plan) w.subscriptions ≡ "growth" ∷ [])
unfolding run status_of
replaced_at_once = (refl, refl, refl)

process-no_cancel_example :
    cancellations (process prompt (operation cancel_requested) (world cancel_requested)).1.calls
    ≡ []
process-no_cancel_example =
    process-no_cancel prompt (operation cancel_requested) (world cancel_requested) refl

-- Razorpay where the old subscription cannot be looked up.
abbrev unknown_old : Razorpay
unknown_old = record prompt {
  on_fetch = λ calls sub.
      if str_eq sub "sub_new" then answered (subscription_as "active") else failed "down";
}

-- A subscription whose cancellation was requested is cancelled again: its verification fails, which
-- makes the row FAILED, and the next due turn starts over.
cancelled_again :
    let requested = record (world cancel_requested) { calls = cancel "sub_old" false ∷ [] } in
    let failed_once = run unknown_old requested in
    (status_of failed_once ≡ some Status.failed)
    × (cancellations (run prompt (record failed_once { now = 2_000_000 })).calls
        ≡ cancel "sub_old" false ∷ cancel "sub_old" false ∷ [])
unfolding run status_of
cancelled_again = (refl, refl)

-- A refund that throws makes a row FAILED that was completed just before.
completed_fails :
    let refusing : Razorpay = record prompt { on_refund = λ calls pay amount. failed "down" } in
    status_of (run refusing (world cancel_requested)) ≡ some Status.failed
unfolding run status_of
completed_fails = refl

abbrev claimed_once : World
claimed_once = (claim (operation pending) (world pending)).1

-- four minutes later another workspace's plan has changed, and the row is as it was claimed
abbrev while_held : World
while_held = record claimed_once { now = 200_000; subscriptions = [] }

claim-exclusive_example : (claim (operation pending) while_held).0 ≡ ok none
unfolding claim
claim-exclusive_example =
    claim-exclusive (operation pending) (operation pending) (world pending) while_held (tt, tt) refl
      refl refl (omega arith)

-- Razorpay answers a refund with `pending` until it has been carried out.
abbrev slow : Razorpay
slow = record prompt { on_refund = λ calls pay amount. answered (some "pending") }

refund-repeat_example :
    let w' = (refund_replacement_credit slow starter (some "sub_old") (world pending)).1 in
    let s' = refunded (some "pending") 1_000 starter in
    (w'.calls ≡ refund "pay_1" 500 ∷ [])
    × (find (λ x. str_eq x.id "s1") w'.subscriptions ≡ some s')
    × ((refund_replacement_credit slow s' (some "sub_old") w').1.calls
        ≡ refund "pay_1" 500 ∷ refund "pay_1" 500 ∷ [])
unfolding find_payment
refund-repeat_example =
    refund-repeat slow starter (world pending) "sub_old" "pay_1" 499 payment (some "pending") refl
      refl refl refl refl refl refl

-- The worker's request to verify, met by a row that another process has inserted.
abbrev request : ReplacementParams
request = record {
  workspace_id = "w1";
  old_provider_sub_id = some "sub_old";
  new_provider_sub_id = some "sub_new";
  plan = none;
  status = cleanup_pending;
  retry_count = none;
  next_retry_at = none;
  last_error = none;
  refund_amount = none;
}

abbrev raced : World
raced = record (world pending) { operations = []; racing = operation cancel_requested ∷ [] }

raced_status : status_of (upsert_replacement request raced).1 ≡ some cancel_requested
unfolding upsert_replacement replacement_key next_status is_terminal status_of
raced_status = refl

upsert_replacement-Leaves_example :
    Leaves
      (replacement_key "w1" "sub_old" "sub_new")
      cleanup_pending
      (met (replacement_key "w1" "sub_old" "sub_new") raced)
      (upsert_replacement request raced)
upsert_replacement-Leaves_example =
    upsert_replacement-Leaves request "sub_old" "sub_new" raced refl refl
      (ground (arith, eq_iff "sub_old" "sub_new"))
