-- ===== src/Billing/Worker/Cancels.antt =====
-- What one call of `process` makes of an operation whose cancellation was requested: it is only
-- verified. An error makes the row FAILED, and a later turn may then cancel the subscription again.
use desk_be.Common.{String, Option, none, some, ◌≡◌, ap, present, opt_eq, str_eq, ◌+◌}
use desk_be.Billing.Records.{
  cancel_requested, Kind, replace_subscription, cancel_subscription, other_kind, Operation,
  Subscription,
}
use desk_be.Billing.World.{World, Razorpay, find_subscription}
use desk_be.Billing.Keeps.{
  Keeps, Keeps-pure, Keeps-bind, Keeps-then, Keeps-read, Keeps-if, Keeps-then_branch,
}
use desk_be.Billing.Status.{is_terminal_subscription}
use desk_be.Billing.Upsert.{complete}
use desk_be.Billing.Provider.{fetch_status}
use desk_be.Billing.Provider.Cancels.{
  SameCancels, cancellations, same_cancels, update_operation-Keeps, update_subscription-Keeps,
  fetch_status-Keeps,
}
use desk_be.Billing.Replacement.{requested_again, abandon, is_cancel_requested, verify_cancellation}
use desk_be.Billing.Replacement.Cancels.{verify_cancellation-Keeps}
use desk_be.Billing.Worker.{
  ended, end_subscription, settle_cancel, cancel_named, pursue, pursue_found, process_replacement,
  process_kind, process, check_cancel, request_cancel, check_replacement,
}

module _ (rp : Razorpay) where
  end_subscription-Keeps :
      (s : Option Subscription) (sub status : String)
      → Keeps SameCancels (end_subscription rp s sub status)
  unfolding end_subscription
  end_subscription-Keeps none sub status = Keeps-pure same_cancels tt
  end_subscription-Keeps (some s) sub status =
      Keeps-if (opt_eq s.provider_sub_id sub)
        (Keeps-then same_cancels _ _ (update_subscription-Keeps s.id (ended status))
          (Keeps-pure same_cancels tt))
        (Keeps-pure same_cancels tt)

  settle_cancel-Keeps :
      (o : Operation) (s : Option Subscription) (sub status : String)
      → Keeps SameCancels (settle_cancel rp o s sub status)
  unfolding settle_cancel
  settle_cancel-Keeps o s sub status =
      Keeps-if (is_terminal_subscription status)
        (Keeps-then same_cancels _ _ (update_operation-Keeps o.operation_key complete)
          (end_subscription-Keeps s sub status))
        (update_operation-Keeps o.operation_key (
          requested_again (o.retry_count + 1) "Cancel requested; Razorpay subscription still "
            status))

  check_cancel-Keeps :
      (o : Operation) (s : Option Subscription) (sub : String)
      → Keeps SameCancels (check_cancel rp o s sub)
  unfolding check_cancel
  check_cancel-Keeps o s sub =
      Keeps-bind same_cancels (fetch_status rp sub) (settle_cancel rp o s sub)
        (fetch_status-Keeps rp sub) (λ status. settle_cancel-Keeps o s sub status)

  module _ (o : Operation) (requested : o.status ≡ cancel_requested) where
    cancel_named-Keeps : (sub : Option String) → Keeps SameCancels (cancel_named rp o sub)
    unfolding cancel_named
    cancel_named-Keeps none =
        update_operation-Keeps o.operation_key
          (abandon "Cancel operation is missing subscription id")
    cancel_named-Keeps (some sub) =
        Keeps-read same_cancels (find_subscription o.workspace_id) _ λ s.
          Keeps-then_branch (check_cancel rp o s sub) (request_cancel rp o s sub)
            (ap is_cancel_requested requested) (check_cancel-Keeps o s sub)

    pursue-Keeps : (s : Subscription) (new : String) → Keeps SameCancels (pursue rp o s new)
    unfolding pursue
    pursue-Keeps s new =
        Keeps-then_branch (verify_cancellation rp o s) (check_replacement rp o s new)
          (ap is_cancel_requested requested) (verify_cancellation-Keeps rp o s)

    pursue_found-Keeps :
        (new : String) (s : Option Subscription) → Keeps SameCancels (pursue_found rp o new s)
    unfolding pursue_found
    pursue_found-Keeps new none =
        update_operation-Keeps o.operation_key (abandon "Workspace subscription not found")
    pursue_found-Keeps new (some s) = pursue-Keeps s new

    process_replacement-Keeps :
        (new : Option String) → Keeps SameCancels (process_replacement rp o new)
    unfolding process_replacement
    process_replacement-Keeps none =
        update_operation-Keeps o.operation_key (abandon "Replacement subscription id is missing")
    process_replacement-Keeps (some new) =
        Keeps-read same_cancels (find_subscription o.workspace_id) (pursue_found rp o new)
          (λ s. pursue_found-Keeps new s)

    process_kind-Keeps : (k : Kind) → Keeps SameCancels (process_kind rp o k)
    unfolding process_kind
    process_kind-Keeps cancel_subscription = cancel_named-Keeps (present o.old_provider_sub_id)
    process_kind-Keeps replace_subscription =
        process_replacement-Keeps (present o.new_provider_sub_id)
    process_kind-Keeps (other_kind k) = Keeps-pure same_cancels tt

    process-Keeps : Keeps SameCancels (process rp o)
    unfolding process
    process-Keeps =
        Keeps-if (str_eq o.provider "razorpay") (process_kind-Keeps o.kind)
          (Keeps-pure same_cancels tt)

-- One call of `process` on an operation whose status is `cancel_requested` makes no cancellation,
-- whatever the provider answers and whether it returns or throws.
pub process-no_cancel :
    (rp : Razorpay) (o : Operation) (w : World)
    → o.status ≡ cancel_requested
    → cancellations (process rp o w).1.calls ≡ cancellations w.calls
process-no_cancel rp o w requested = (process-Keeps rp o requested).keeps w
