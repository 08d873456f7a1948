-- ===== src/Billing/Provider.antt =====
-- The calls of Razorpay: src/modules/billing/providers/razorpay.service.ts
-- (`cancelSubscriptionIfPossible`, `fetchSubscription`, `refundPayment`), and in the billing service
-- `fetchRazorpaySubscriptionStatus` and `refundReplacementCredit`.
pub mod Present
pub mod Cancels
pub mod Refund
use desk_be.Common.{
  ℕ, zero, suc, String, List, [], ◌∷◌, Bool, true, false, not, ◌&&◌, ◌||◌, Option, none, some,
  coalesce, get_or, present, opt_eq, str_eq, includes, to_lower, find, keep, take, truthy, ltb,
  ◌==◌, is_some, if◌then◌else◌,
}
use desk_be.Billing.Records.{Subscription, Payment, ProviderSubscription}
use desk_be.Billing.World.{
  World, M, Result, ok, err, ◌>>=◌, ◌>>◌, pure, throw, gets, Call, fetch, cancel, refund, Reply,
  answered, failed, CancelReply, accepted, refused, RazorpayError, Razorpay, log_call,
  update_subscription,
}

pub data CancelOutcome : Type 0 where
  cancelled deferred not_started already_cancelled : CancelOutcome

-- What `cancelSubscriptionIfPossible` returns; the status is that of the returned subscription.
pub record CancelResult : Type 0 where
  pub outcome : CancelOutcome
  pub reason : Option String
  pub returned_status : Option String

-- `a || b` on strings
abbrev or_string : Option String → Option String → Option String
or_string a b = coalesce (present a) (present b)

-- `String(error?.error?.description || error?.description || error?.message || '').toLowerCase()`
unfoldable pub description_of : RazorpayError → String
description_of e =
    to_lower (get_or (or_string e.error_description (or_string e.description e.message)) "")

-- the reason, with the text for an error that says nothing
reason_of : RazorpayError → String → String
reason_of e default = get_or (or_string e.error_description e.message) default

skipped : CancelOutcome → String → CancelResult
skipped outcome reason = record { outcome = outcome; reason = some reason; returned_status = none }

-- the `catch` of `cancelSubscriptionIfPossible`; `none` is the error that it throws
unfoldable pub classify_refusal : RazorpayError → Option CancelResult
unfolding reason_of skipped
classify_refusal e =
    let d = description_of e in
    if e.status_code == 429 || includes d "too many requests"
    then some (skipped deferred (reason_of e "Razorpay rate limit reached"))
    else if includes d "cannot be cancelled since no billing cycle is going on"
    then some (skipped not_started (reason_of e "Subscription has no active billing cycle"))
    else if includes d "another subscription operation is in progress"
        || (includes d "not cancellable in cancelled status" || includes d "already cancelled")
    then some (
        skipped (if includes d "operation is in progress" then deferred else already_cancelled)
          (reason_of e "Cancellation skipped"))
    else none

refused_result : Option CancelResult → M CancelResult
refused_result none = throw "Failed to cancel Razorpay subscription"
refused_result (some r) = pure r

cancel_result : CancelReply → M CancelResult
unfolding refused_result
cancel_result (accepted status) =
    pure (record { outcome = cancelled; reason = none; returned_status = status })
cancel_result (refused e) = refused_result (classify_refusal e)

abbrev reply : {A : Type 0} → Reply A → M A
reply (answered a) = pure a
reply (failed message) = throw message

-- the order of `paidAt` from the latest, null first as PostgreSQL sorts it, then of `createdAt`
abbrev later_paid : Option ℕ → Option ℕ → Bool
later_paid none none = false
later_paid none (some b) = true
later_paid (some a) none = false
later_paid (some a) (some b) = ltb b a

comes_first : Payment → Payment → Bool
comes_first p q =
    later_paid p.paid_at q.paid_at
    || (not (later_paid q.paid_at p.paid_at) && ltb q.created_at p.created_at)

insert_payment : Payment → List Payment → List Payment
insert_payment p [] = p ∷ []
insert_payment p (q ∷ qs) = if comes_first q p then q ∷ insert_payment p qs else p ∷ q ∷ qs

sort_payments : List Payment → List Payment
sort_payments [] = []
sort_payments (p ∷ ps) = insert_payment p (sort_payments ps)

abbrev is_paid : Subscription → Payment → Bool
is_paid s p =
    str_eq p.workspace_id s.workspace_id
    && (opt_eq p.subscription_id s.id
        && (str_eq p.provider "razorpay"
            && (str_eq p.status "paid" && is_some p.provider_payment_id)))

-- `findLatestRazorpayPaymentForProviderSubscription`
unfoldable pub find_payment : Subscription → String → World → Option Payment
unfolding comes_first insert_payment sort_payments
find_payment s sub w =
    find (λ p. opt_eq p.metadata_subscription_id sub)
      (take 20 (sort_payments (keep (is_paid s) w.payments)))

-- `lastRefundStatus` is there and is not `pending`: the credit was refunded before.
abbrev pub refund_was_made : Subscription → Bool
refund_was_made s = truthy s.last_refund_status && not (opt_eq s.last_refund_status "pending")

-- the row's `lastRefundStatus` and `lastRefundAt` after a refund
abbrev pub refunded : Option String → ℕ → Subscription → Subscription
refunded status now s = record s {
  last_refund_status = some (get_or (present status) "initiated");
  last_refund_at = some now;
}

-- `payment?.providerPaymentId`, when truthy
abbrev payment_id : Option Payment → Option String
payment_id none = none
payment_id (some p) = present p.provider_payment_id

module _ (rp : Razorpay) where
  unfoldable pub cancel_subscription_if_possible : String → Bool → M CancelResult
  unfolding cancel_result
  cancel_subscription_if_possible sub at_cycle_end w =
      cancel_result (rp.on_cancel w.calls sub at_cycle_end) (log_call (cancel sub at_cycle_end) w)

  -- `razorpayService.fetchSubscription`
  unfoldable pub fetch_subscription : String → M ProviderSubscription
  fetch_subscription sub w = reply (rp.on_fetch w.calls sub) (log_call (fetch sub) w)

  -- `fetchRazorpaySubscriptionStatus`, its status
  unfoldable pub fetch_status : String → M String
  unfolding fetch_subscription
  fetch_status sub = do
    s ← fetch_subscription sub
    pure (to_lower (get_or (present s.status) "unknown"))

  -- `razorpayService.refundPayment`
  refund_payment : String → ℕ → M (Option String)
  refund_payment payment amount w =
      reply (rp.on_refund w.calls payment amount) (log_call (refund payment amount) w)

  refund_found : Subscription → ℕ → Option String → M (Unit {0})
  refund_found s amount none = pure tt
  refund_found s amount (some payment) = do
    status ← refund_payment payment amount
    _ ← update_subscription s.id (refunded status)
    pure tt

  -- `refundReplacementCredit`, behind its guards
  refund_from : Subscription → String → ℕ → M (Unit {0})
  refund_from s replaced amount = do
    payment ← gets (find_payment s replaced)
    refund_found s amount (payment_id payment)

  refund_named : Subscription → Option String → M (Unit {0})
  refund_named s none = pure tt
  refund_named s (some old) =
      if get_or s.last_refund_amount 0 == 0 || refund_was_made s
      then pure tt
      else refund_from s old (get_or s.last_refund_amount 0)

  unfoldable pub refund_replacement_credit : Subscription → Option String → M (Unit {0})
  unfolding refund_named refund_from refund_found refund_payment
  refund_replacement_credit s replaced = refund_named s (present replaced)
