-- ===== src/Billing/Provider/Present.antt =====
-- The calls of the provider leave the rows of operations.
use desk_be.Common.{ℕ, String, Bool, Option, none, some, refl, get_or, ◌≡◌, present, ◌==◌, ◌||◌}
use desk_be.Billing.Records.{Subscription}
use desk_be.Billing.World.{
  World, Reply, answered, failed, Razorpay, log_call, fetch, cancel, refund, CancelReply, accepted,
  refused,
}
use desk_be.Billing.Keeps.{Keeps, Keeps-pure, Keeps-bind, Keeps-read, Keeps-if}
use desk_be.Billing.Present.{
  StillThere, still_there, same-StillThere, update_subscription-StillThere,
}
use desk_be.Billing.Provider.{
  reply, payment_id, fetch_subscription, fetch_status, refund_payment, refund_found, refund_named,
  CancelResult, refund_from, refunded, refund_was_made, find_payment, refund_replacement_credit,
  cancel_result, refused_result, classify_refusal, cancel_subscription_if_possible,
}

reply-operations : {A : Type 0} (r : Reply A) (w : World) → (reply r w).1.operations ≡ w.operations
reply-operations (answered a) w = refl
reply-operations (failed e) w = refl

refused-operations :
    (r : Option CancelResult) (w : World) → (refused_result r w).1.operations ≡ w.operations
unfolding refused_result
refused-operations none w = refl
refused-operations (some r) w = refl

cancel-operations : (r : CancelReply) (w : World) → (cancel_result r w).1.operations ≡ w.operations
unfolding cancel_result
cancel-operations (accepted status) w = refl
cancel-operations (refused e) w = refused-operations (classify_refusal e) w

module _ (rp : Razorpay) where
  pub cancel-StillThere :
      (sub : String) (at_end : Bool)
      → Keeps StillThere (cancel_subscription_if_possible rp sub at_end)
  unfolding cancel_subscription_if_possible
  cancel-StillThere sub at_end =
      same-StillThere _
        (λ w. cancel-operations (rp.on_cancel w.calls sub at_end) (log_call (cancel sub at_end) w))

  pub fetch_subscription-StillThere : (sub : String) → Keeps StillThere (fetch_subscription rp sub)
  unfolding fetch_subscription
  fetch_subscription-StillThere sub =
      same-StillThere _ (λ w. reply-operations (rp.on_fetch w.calls sub) (log_call (fetch sub) w))

  pub fetch_status-StillThere : (sub : String) → Keeps StillThere (fetch_status rp sub)
  unfolding fetch_status
  fetch_status-StillThere sub =
      Keeps-bind still_there (fetch_subscription rp sub) _ (fetch_subscription-StillThere sub)
        (λ s. Keeps-pure still_there _)

  refund_payment-StillThere :
      (payment : String) (amount : ℕ) → Keeps StillThere (refund_payment rp payment amount)
  unfolding refund_payment
  refund_payment-StillThere payment amount = same-StillThere _ (λ w.
      reply-operations (rp.on_refund w.calls payment amount) (log_call (refund payment amount) w))

  refund_found-StillThere :
      (s : Subscription) (amount : ℕ) (payment : Option String)
      → Keeps StillThere (refund_found rp s amount payment)
  unfolding refund_found
  refund_found-StillThere s amount none = Keeps-pure still_there tt
  refund_found-StillThere s amount (some p) =
      Keeps-bind still_there _ _ (refund_payment-StillThere p amount) λ status.
        Keeps-bind still_there _ _ (update_subscription-StillThere s.id (refunded status))
          (λ _. Keeps-pure still_there tt)

  refund_named-StillThere :
      (s : Subscription) (old : Option String) → Keeps StillThere (refund_named rp s old)
  unfolding refund_named refund_from
  refund_named-StillThere s none = Keeps-pure still_there tt
  refund_named-StillThere s (some old) =
      Keeps-if (get_or s.last_refund_amount 0 == 0 || refund_was_made s) (Keeps-pure still_there tt)
        (Keeps-read still_there (find_payment s old)
          (λ p. refund_found rp s (get_or s.last_refund_amount 0) (payment_id p))
          (λ p. refund_found-StillThere s (get_or s.last_refund_amount 0) (payment_id p)))

  pub refund-StillThere :
      (s : Subscription) (old : Option String)
      → Keeps StillThere (refund_replacement_credit rp s old)
  unfolding refund_replacement_credit
  refund-StillThere s old = refund_named-StillThere s (present old)
