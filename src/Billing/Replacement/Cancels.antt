-- ===== src/Billing/Replacement/Cancels.antt =====
-- Verifying a requested cancellation asks the provider and cancels nothing.
use desk_be.Common.{String, Option, some, refl, present, ◌+◌}
use desk_be.Billing.Records.{Operation, Subscription}
use desk_be.Billing.World.{Razorpay}
use desk_be.Billing.Keeps.{Keeps, Keeps-bind, Keeps-then, Keeps-if}
use desk_be.Billing.Status.{is_terminal_subscription}
use desk_be.Billing.Upsert.{mark_completed}
use desk_be.Billing.Provider.Cancels.{
  SameCancels, same_cancels, update_operation-Keeps, fetch_status-Keeps, refund-Keeps,
}
use desk_be.Billing.Replacement.{verify_named, verify_cancellation, requested_again, abandon}

pub mark_completed-Keeps :
    (workspace old new : String) → Keeps SameCancels (mark_completed workspace old new)
unfolding mark_completed
mark_completed-Keeps workspace old new = record { keeps = λ w. refl }

verify_named-Keeps :
    (rp : Razorpay) (o : Operation) (s : Subscription) (old new : Option String)
    → Keeps SameCancels (verify_named rp o s old new)
unfolding verify_named
verify_named-Keeps rp o s (some old) (some new) =
    Keeps-bind same_cancels _ _ (fetch_status-Keeps rp old) λ status.
      Keeps-if (is_terminal_subscription status)
        (Keeps-then same_cancels _ _ (mark_completed-Keeps o.workspace_id old new)
          (refund-Keeps rp s (some old)))
        (update_operation-Keeps o.operation_key (
          requested_again (o.retry_count + 1) "Cancel requested; old Razorpay subscription still "
            status))
verify_named-Keeps rp o s _ _ =
    update_operation-Keeps o.operation_key
      (abandon "Cancellation verification is missing old or new subscription id")

pub verify_cancellation-Keeps :
    (rp : Razorpay) (o : Operation) (s : Subscription)
    → Keeps SameCancels (verify_cancellation rp o s)
unfolding verify_cancellation
verify_cancellation-Keeps rp o s =
    verify_named-Keeps rp o s (present o.old_provider_sub_id) (present o.new_provider_sub_id)
