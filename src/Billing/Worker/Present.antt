-- ===== src/Billing/Worker/Present.antt =====
-- Processing an operation keeps the rows of operations that are there.
use desk_be.Common.{
  ◌+◌, String, Option, none, some, refl, present, get_or, to_lower, str_eq, opt_eq, true, join,
}
use desk_be.Billing.Records.{
  Operation, Subscription, ProviderSubscription, Kind, replace_subscription, cancel_subscription,
  other_kind,
}
use desk_be.Billing.World.{Razorpay, find_subscription}
use desk_be.Billing.Status.{is_terminal_subscription, is_pending_subscription}
use desk_be.Billing.Keeps.{Keeps, Keeps-pure, Keeps-bind, Keeps-then, Keeps-read, Keeps-if}
use desk_be.Billing.Present.{
  StillThere, still_there, KeepsKey, update_operation-StillThere, update_subscription-StillThere,
}
use desk_be.Billing.Upsert.{complete}
use desk_be.Billing.Provider.{CancelResult, CancelOutcome, deferred, not_started}
use desk_be.Billing.Provider.Present.{
  cancel-StillThere, fetch_subscription-StillThere, fetch_status-StillThere,
}
use desk_be.Billing.Replacement.{replaced_by, deferred_row, is_cancel_requested}
use desk_be.Billing.Replacement.Present.{
  abandon-StillThere, requested-StillThere, activate-StillThere, verify_cancellation-StillThere,
  finalize-StillThere,
}
use desk_be.Billing.Worker.{
  or_text, stopped_row, put_off, ended, conclude, carry_out, follow, check_replacement, pursue,
  pursue_found, process_replacement, end_subscription, settle_cancel, check_cancel, settle_returned,
  request_cancel, cancel_named, process_kind, process,
}

deferred-KeepsKey : (o : Operation) (error : String) → KeepsKey (deferred_row o error)
unfolding deferred_row
deferred-KeepsKey o error now row = refl

stopped-KeepsKey : (o : Operation) (status : String) → KeepsKey (stopped_row o status)
unfolding stopped_row
stopped-KeepsKey o status now row = refl

put_off-KeepsKey : (o : Operation) (reason : Option String) → KeepsKey (put_off o reason)
unfolding put_off
put_off-KeepsKey o reason now row = refl

module _ (rp : Razorpay) where
  conclude-StillThere :
      (o : Operation) (s : Subscription) (new : String) (old : Option String)
      → Keeps StillThere (conclude rp o s new old)
  unfolding conclude
  conclude-StillThere o s new none =
      update_operation-StillThere o.operation_key complete (λ now row. refl)
  conclude-StillThere o s new (some old) = finalize-StillThere rp s (some old) new o.retry_count

  carry_out-StillThere :
      (o : Operation) (s : Subscription) (new : String) (r : ProviderSubscription)
      → Keeps StillThere (carry_out rp o s new r)
  unfolding carry_out
  carry_out-StillThere o s new r =
      Keeps-bind still_there _ _ (activate-StillThere s r new o.old_provider_sub_id o.plan)
        (λ updated. conclude-StillThere o updated new (replaced_by o.old_provider_sub_id new))

  follow-StillThere :
      (o : Operation) (s : Subscription) (new : String) (r : ProviderSubscription) (status : String)
      → Keeps StillThere (follow rp o s new r status)
  unfolding follow
  follow-StillThere o s new r status =
      Keeps-if (str_eq status "active") (carry_out-StillThere o s new r) (
        Keeps-if (is_pending_subscription status)
          (update_operation-StillThere o.operation_key
            (deferred_row o (join "Replacement subscription is still " (or_text status "pending")))
            (deferred-KeepsKey o _))
          (update_operation-StillThere o.operation_key (stopped_row o status)
            (stopped-KeepsKey o status)))

  check_replacement-StillThere :
      (o : Operation) (s : Subscription) (new : String)
      → Keeps StillThere (check_replacement rp o s new)
  unfolding check_replacement
  check_replacement-StillThere o s new =
      Keeps-bind still_there _ _ (fetch_subscription-StillThere rp new)
        (λ r. follow-StillThere o s new r _)

  pursue_found-StillThere :
      (o : Operation) (new : String) (s : Option Subscription)
      → Keeps StillThere (pursue_found rp o new s)
  unfolding pursue_found pursue
  pursue_found-StillThere o new none =
      abandon-StillThere o.operation_key "Workspace subscription not found"
  pursue_found-StillThere o new (some s) =
      Keeps-if (is_cancel_requested o.status) (verify_cancellation-StillThere rp o s)
        (check_replacement-StillThere o s new)

  process_replacement-StillThere :
      (o : Operation) (new : Option String) → Keeps StillThere (process_replacement rp o new)
  unfolding process_replacement
  process_replacement-StillThere o none =
      abandon-StillThere o.operation_key "Replacement subscription id is missing"
  process_replacement-StillThere o (some new) =
      Keeps-read still_there (find_subscription o.workspace_id) (pursue_found rp o new)
        (λ s. pursue_found-StillThere o new s)

  end_subscription-StillThere :
      (s : Option Subscription) (sub status : String)
      → Keeps StillThere (end_subscription rp s sub status)
  unfolding end_subscription
  end_subscription-StillThere none sub status = Keeps-pure still_there tt
  end_subscription-StillThere (some s) sub status =
      Keeps-if (opt_eq s.provider_sub_id sub)
        (Keeps-then still_there _ _ (update_subscription-StillThere s.id (ended status))
          (Keeps-pure still_there tt))
        (Keeps-pure still_there tt)

  settle_cancel-StillThere :
      (o : Operation) (s : Option Subscription) (sub status : String)
      → Keeps StillThere (settle_cancel rp o s sub status)
  unfolding settle_cancel
  settle_cancel-StillThere o s sub status =
      Keeps-if (is_terminal_subscription status)
        (Keeps-then still_there _ _
          (update_operation-StillThere o.operation_key complete (λ now row. refl))
          (end_subscription-StillThere s sub status))
        (requested-StillThere o.operation_key (o.retry_count + 1)
          "Cancel requested; Razorpay subscription still " status)

  check_cancel-StillThere :
      (o : Operation) (s : Option Subscription) (sub : String)
      → Keeps StillThere (check_cancel rp o s sub)
  unfolding check_cancel
  check_cancel-StillThere o s sub =
      Keeps-bind still_there _ (settle_cancel rp o s sub) (fetch_status-StillThere rp sub)
        (λ status. settle_cancel-StillThere o s sub status)

  settle_returned-StillThere :
      (o : Operation) (s : Option Subscription) (sub : String) (r : CancelResult)
      (c : CancelOutcome)
      → Keeps StillThere (settle_returned rp o s sub r c)
  unfolding settle_returned
  settle_returned-StillThere o s sub r deferred =
      update_operation-StillThere o.operation_key (put_off o r.reason) (put_off-KeepsKey o r.reason)
  settle_returned-StillThere o s sub r not_started =
      update_operation-StillThere o.operation_key (put_off o r.reason) (put_off-KeepsKey o r.reason)
  settle_returned-StillThere o s sub r _ =
      Keeps-if (is_terminal_subscription (to_lower (get_or r.returned_status "")))
        (settle_cancel-StillThere o s sub (to_lower (get_or r.returned_status "")))
        (check_cancel-StillThere o s sub)

  request_cancel-StillThere :
      (o : Operation) (s : Option Subscription) (sub : String)
      → Keeps StillThere (request_cancel rp o s sub)
  unfolding request_cancel
  request_cancel-StillThere o s sub =
      Keeps-bind still_there _ _ (cancel-StillThere rp sub (get_or o.cancel_at_cycle_end true))
        (λ r. settle_returned-StillThere o s sub r r.outcome)

  cancel_named-StillThere :
      (o : Operation) (sub : Option String) → Keeps StillThere (cancel_named rp o sub)
  unfolding cancel_named
  cancel_named-StillThere o none =
      abandon-StillThere o.operation_key "Cancel operation is missing subscription id"
  cancel_named-StillThere o (some sub) =
      Keeps-read still_there (find_subscription o.workspace_id) _ λ s.
        Keeps-if (is_cancel_requested o.status) (check_cancel-StillThere o s sub)
          (request_cancel-StillThere o s sub)

  process_kind-StillThere : (o : Operation) (k : Kind) → Keeps StillThere (process_kind rp o k)
  unfolding process_kind
  process_kind-StillThere o cancel_subscription =
      cancel_named-StillThere o (present o.old_provider_sub_id)
  process_kind-StillThere o replace_subscription =
      process_replacement-StillThere o (present o.new_provider_sub_id)
  process_kind-StillThere o (other_kind k) = Keeps-pure still_there tt

  pub process-StillThere : (o : Operation) → Keeps StillThere (process rp o)
  unfolding process
  process-StillThere o =
      Keeps-if (str_eq o.provider "razorpay") (process_kind-StillThere o o.kind)
        (Keeps-pure still_there tt)
