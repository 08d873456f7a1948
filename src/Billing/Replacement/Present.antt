-- ===== src/Billing/Replacement/Present.antt =====
-- Replacing a subscription keeps the rows of operations that are there.
use desk_be.Common.{false, ℕ, ◌+◌, String, Option, none, some, refl, present, get_or, to_lower}
use desk_be.Billing.Records.{Operation, Subscription, ProviderSubscription}
use desk_be.Billing.World.{Razorpay, update_operation}
use desk_be.Billing.Status.{is_terminal_subscription}
use desk_be.Billing.Keeps.{
  Keeps, Keeps-pure, Keeps-bind, Keeps-then, Keeps-read, Keeps-if, Keeps-catch,
}
use desk_be.Billing.Present.{
  StillThere, still_there, same-StillThere, update_operation-StillThere,
  update_subscription-StillThere,
}
use desk_be.Billing.Provider.{CancelResult, CancelOutcome, deferred, not_started}
use desk_be.Billing.Provider.Present.{cancel-StillThere, fetch_status-StillThere, refund-StillThere}
use desk_be.Billing.Upsert.Present.{
  upsert_replacement-StillThere, mark_completed-StillThere, schedule_cleanup-StillThere,
}
use desk_be.Billing.Replacement.{
  activated, queue_cleanup, replaced_by, queue_for, activate, abandon, requested_again,
  verify_named, verify_cancellation, finish, old_status, after_cancel, cancel_once, finalize_named,
  finalize,
}

pub abandon-StillThere :
    (key text : String) → Keeps StillThere (update_operation key (abandon text))
unfolding abandon
abandon-StillThere key text = update_operation-StillThere key (abandon text) (λ now o. refl)

pub requested-StillThere :
    (key : String) (retries : ℕ) (text status : String)
    → Keeps StillThere (update_operation key (requested_again retries text status))
unfolding requested_again
requested-StillThere key retries text status =
    update_operation-StillThere key (requested_again retries text status) (λ now o. refl)

queue_for-StillThere :
    (s : Subscription) (new : String) (old : Option String) → Keeps StillThere (queue_for s new old)
unfolding queue_for queue_cleanup
queue_for-StillThere s new none = Keeps-pure still_there tt
queue_for-StillThere s new (some old) = same-StillThere _ (λ w. refl)

pub activate-StillThere :
    (s : Subscription) (r : ProviderSubscription) (new : String) (old plan : Option String)
    → Keeps StillThere (activate s r new old plan)
unfolding activate
activate-StillThere s r new old plan =
    Keeps-bind still_there _ _ (update_subscription-StillThere s.id (activated s r new plan))
      λ updated.
        Keeps-then still_there _ _ (queue_for-StillThere s new (replaced_by old new))
          (Keeps-pure still_there updated)

module _ (rp : Razorpay) where
  verify_named-StillThere :
      (o : Operation) (s : Subscription) (old new : Option String)
      → Keeps StillThere (verify_named rp o s old new)
  unfolding verify_named
  verify_named-StillThere o s (some old) (some new) =
      Keeps-bind still_there _ _ (fetch_status-StillThere rp old) λ status.
        Keeps-if (is_terminal_subscription status)
          (Keeps-then still_there _ _ (mark_completed-StillThere o.workspace_id old new)
            (refund-StillThere rp s (some old)))
          (requested-StillThere o.operation_key (o.retry_count + 1)
            "Cancel requested; old Razorpay subscription still " status)
  verify_named-StillThere o s _ _ =
      abandon-StillThere o.operation_key
        "Cancellation verification is missing old or new subscription id"

  pub verify_cancellation-StillThere :
      (o : Operation) (s : Subscription) → Keeps StillThere (verify_cancellation rp o s)
  unfolding verify_cancellation
  verify_cancellation-StillThere o s =
      verify_named-StillThere o s (present o.old_provider_sub_id) (present o.new_provider_sub_id)

  finish-StillThere : (s : Subscription) (old new : String) → Keeps StillThere (finish rp s old new)
  unfolding finish
  finish-StillThere s old new =
      Keeps-then still_there _ _ (mark_completed-StillThere s.workspace_id old new) (
        Keeps-catch still_there _ _ (refund-StillThere rp s (some old))
          (λ e. Keeps-pure still_there tt))

  old_status-StillThere : (old returned : String) → Keeps StillThere (old_status rp old returned)
  unfolding old_status
  old_status-StillThere old returned =
      Keeps-if (is_terminal_subscription returned) (Keeps-pure still_there returned)
        (fetch_status-StillThere rp old)

  settled-StillThere :
      (s : Subscription) (old new : String) (attempt : ℕ) (r : CancelResult) (o : CancelOutcome)
      → Keeps StillThere (after_cancel rp s old new attempt r o)
  unfolding after_cancel
  settled-StillThere s old new attempt r deferred = schedule_cleanup-StillThere _
  settled-StillThere s old new attempt r not_started =
      Keeps-read still_there (λ w. w.now) _ (λ now. upsert_replacement-StillThere _)
  settled-StillThere s old new attempt r _ =
      Keeps-bind still_there _ _
        (old_status-StillThere old (to_lower (get_or r.returned_status "")))
        λ status.
          Keeps-read still_there (λ w. w.now) _
            λ now.
              Keeps-if (is_terminal_subscription status) (finish-StillThere s old new)
                (upsert_replacement-StillThere _)

  cancel_once-StillThere :
      (s : Subscription) (old new : String) (attempt : ℕ) (o : Option Operation)
      → Keeps StillThere (cancel_once rp s old new attempt o)
  unfolding cancel_once
  cancel_once-StillThere s old new attempt (some o) = verify_cancellation-StillThere o s
  cancel_once-StillThere s old new attempt none =
      Keeps-bind still_there _ _ (cancel-StillThere rp old false)
        (λ r. settled-StillThere s old new attempt r r.outcome)

  finalize_named-StillThere :
      (s : Subscription) (new : String) (attempt : ℕ) (old : Option String)
      → Keeps StillThere (finalize_named rp s new attempt old)
  unfolding finalize_named
  finalize_named-StillThere s new attempt none = Keeps-pure still_there tt
  finalize_named-StillThere s new attempt (some old) =
      Keeps-read still_there _ _ (λ o. cancel_once-StillThere s old new attempt o)

  pub finalize-StillThere :
      (s : Subscription) (old : Option String) (new : String) (attempt : ℕ)
      → Keeps StillThere (finalize rp s old new attempt)
  unfolding finalize
  finalize-StillThere s old new attempt =
      finalize_named-StillThere s new attempt (replaced_by old new)
