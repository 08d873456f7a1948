-- ===== src/Billing/Provider/Refund.antt =====
-- How often the credit of a replaced subscription is refunded.
use mathlib.Core.Option.{some_inj}
use desk_be.Common.{
  ℕ, suc, String, List, [], ◌∷◌, map, Bool, true, false, not, ◌||◌, Option, none, some, ◌≡◌, refl,
  inl, inr, find, Bool-cases, ap, ◌∙◌, present, opt_eq, str_eq, get_or, arith, if◌then◌else◌, ◌==◌,
}
use desk_be.Billing.Records.{Subscription, Payment}
use desk_be.Billing.World.{
  World, M, Result, ok, err, Razorpay, Reply, answered, failed, refund, follow_up, pure, ◌>>◌,
  update_subscription, write_subscription, log_call,
}
use desk_be.Billing.Provider.Cancels.{write_subscription-calls}
use desk_be.Billing.Provider.{
  refunded, refund_was_made, find_payment, payment_id, reply, refund_payment, refund_found,
  refund_from, refund_named, refund_replacement_credit,
}

-- The first row with an identifier, after the rows with it were written.
find-write :
    (id : String) (s : Subscription) (g : Subscription → Subscription) (xs : List Subscription)
    → ((x : Subscription) → (g x).id ≡ x.id)
    → find (λ x. str_eq x.id id) xs ≡ some s
    → find (λ x. str_eq x.id id) (map (λ x. if str_eq x.id id then g x else x) xs) ≡ some (g s)
find-write id s g [] same h = cc
find-write id s g (x ∷ xs) same h = elim (Bool-cases (str_eq x.id id)) [
  | inl here ↦
      let e : x ≡ s = some_inj.0 (rw here at h) in
      let kept : str_eq (g x).id id ≡ true = ap (λ i. str_eq i id) (same x) ∙ here in
      rw (here, kept) (ap (λ y. some (g y)) e)
  | inr other ↦ rw (other, other) (find-write id s g xs same (rw other at h))
]

-- The state after the provider has answered a refund.
abbrev after : Subscription → World → String → ℕ → Option String → World
after s w pay amount status = record w {
  calls = refund pay (suc amount) ∷ w.calls;
  subscriptions =
      map (λ x. if str_eq x.id s.id then refunded status w.now x else x) w.subscriptions;
}

follow_pure :
    {A : Type 0} (r : Result A) (w : World) → (follow_up (λ _. pure {A = Unit {0}} tt) r w).1 ≡ w
follow_pure (ok a) w = refl
follow_pure (err e) w = refl

stopped :
    (a made : Bool) (m : M (Unit {0})) → made ≡ true → (if a || made then pure tt else m) ≡ pure tt
stopped true made m e = refl
stopped false made m e = rw e refl

module _ (rp : Razorpay) where
  past_guards :
      (s : Subscription) (old : String) (amount n : ℕ) (made : Bool)
      → n ≡ suc amount
      → made ≡ false
      → (if n == 0 || made then pure tt else refund_from rp s old n)
        ≡ refund_from rp s old (suc amount)
  past_guards s old amount n made e f =
      let positive : (suc amount == 0) ≡ false = ground arith in rw (e, f, positive) refl

  refund_payment_lem :
      (w : World) (pay : String) (n : ℕ) {status : Option String}
      → rp.on_refund w.calls pay n ≡ answered status
      → refund_payment rp pay n w ≡ (ok status, log_call (refund pay n) w)
  unfolding refund_payment
  refund_payment_lem w pay n e = rw e refl

  module _ (s : Subscription) (w : World) (old pay : String) (amount : ℕ) (p : Payment)
      (named : present (some old) ≡ some old) (credit : s.last_refund_amount ≡ some (suc amount))
      (unpaid : refund_was_made s ≡ false) (found : find_payment s old w ≡ some p)
      (paid : present p.provider_payment_id ≡ some pay) where
    refund_guarded :
        refund_replacement_credit rp s (some old) w ≡ refund_found rp s (suc amount) (some pay) w
    unfolding refund_replacement_credit
    refund_guarded =
        ap (λ o. refund_named rp s o w) named
        ∙ ap (λ m. m w) (past_guards s old amount _ _ (ap (λ o. get_or o 0) credit) unpaid)
        ∙ ap (λ o. refund_found rp s (suc amount) (payment_id o) w) found
        ∙ ap (λ o. refund_found rp s (suc amount) o w) paid

    refund_made :
        (status : Option String)
        → rp.on_refund w.calls pay (suc amount) ≡ answered status
        → find (λ x. str_eq x.id s.id) w.subscriptions ≡ some s
        → refund_found rp s (suc amount) (some pay) w ≡ (ok tt, after s w pay amount status)
    unfolding refund_found
    refund_made status answer row =
        ap
          (λ r.
            follow_up (λ status'. update_subscription s.id (refunded status') >> pure tt) r.0 r.1)
          (refund_payment_lem w pay (suc amount) answer)
        ∙ ap
            (λ o.
              follow_up (λ _. pure tt)
                (write_subscription s.id (refunded status) o
                  (log_call (refund pay (suc amount)) w)).0
                (write_subscription s.id (refunded status) o
                  (log_call (refund pay (suc amount)) w)).1)
            row

  write_refunded-calls :
      (s : Subscription) (w : World) (r : Reply (Option String))
      → (follow_up
          (λ status. update_subscription s.id (refunded status) >> pure tt)
          (reply r w).0
          (reply r w).1).1.calls
        ≡ w.calls
  write_refunded-calls s w (failed e) = refl
  write_refunded-calls s w (answered status) =
      ap (λ v. v.calls)
        (follow_pure
          (write_subscription s.id (refunded status) (find (λ x. str_eq x.id s.id) w.subscriptions)
            w).0
          _)
      ∙ write_subscription-calls s.id (refunded status)
          (find (λ x. str_eq x.id s.id) w.subscriptions) w

  refund_found_calls :
      (s : Subscription) (w : World) (pay : String) (n : ℕ)
      → (refund_found rp s n (some pay) w).1.calls ≡ refund pay n ∷ w.calls
  unfolding refund_found refund_payment
  refund_found_calls s w pay n =
      write_refunded-calls s (log_call (refund pay n) w) (rp.on_refund w.calls pay n)

-- The row's refund status is kept apart from `pending`, unless the provider answered so.
refund_was_made-refunded :
    (status : Option String) (now : ℕ) (s : Subscription)
    → refund_was_made (refunded status now s) ≡ not (opt_eq (present status) "pending")
refund_was_made-refunded none now s = refl
refund_was_made-refunded (some t) now s = elim (Bool-cases (str_eq t "")) [
  | inl empty ↦ rw empty refl
  | inr there ↦ rw (there, there) refl
]

module _ (rp : Razorpay) (s : Subscription) (w : World) (old pay : String) (amount : ℕ)
    (p : Payment) (named : present (some old) ≡ some old)
    (credit : s.last_refund_amount ≡ some (suc amount)) (found : find_payment s old w ≡ some p)
    (paid : present p.provider_payment_id ≡ some pay) where
  -- Whether a call refunds depends on what the row says of the last refund.
  refund_again :
      (open_refund : Bool)
      → refund_was_made s ≡ not open_refund
      → (refund_replacement_credit rp s (some old) w).1.calls
        ≡ (if open_refund then refund pay (suc amount) ∷ w.calls else w.calls)
  unfolding refund_replacement_credit
  refund_again true e =
      ap (λ r. r.1.calls) (refund_guarded rp s w old pay amount p named credit e found paid)
      ∙ refund_found_calls rp s w pay (suc amount)
  refund_again false e =
      ap (λ o. (refund_named rp s o w).1.calls) named
      ∙ ap (λ m. (m w).1.calls)
          (stopped (get_or s.last_refund_amount 0 == 0) (refund_was_made s) (refund_from rp s old _)
            e)

-- A refund that the provider answered is recorded on the row, and a second call on that row makes
-- the same refund again exactly when the provider's answer was `pending`. The first call is taken
-- at a row with a credit that was not refunded, whose payment is known.
pub refund-repeat :
    (rp : Razorpay) (s : Subscription) (w : World) (old pay : String) (amount : ℕ) (p : Payment)
    (status : Option String)
    → present (some old) ≡ some old
    → s.last_refund_amount ≡ some (suc amount)
    → refund_was_made s ≡ false
    → find_payment s old w ≡ some p
    → present p.provider_payment_id ≡ some pay
    → find (λ x. str_eq x.id s.id) w.subscriptions ≡ some s
    → rp.on_refund w.calls pay (suc amount) ≡ answered status
    → let w' = (refund_replacement_credit rp s (some old) w).1 in
      let s' = refunded status w.now s in
      (w'.calls ≡ refund pay (suc amount) ∷ w.calls)
      × (find (λ x. str_eq x.id s.id) w'.subscriptions ≡ some s')
      × ((refund_replacement_credit rp s' (some old) w').1.calls ≡ (
          if opt_eq (present status) "pending"
          then refund pay (suc amount) ∷ refund pay (suc amount) ∷ w.calls
          else refund pay (suc amount) ∷ w.calls))
unfolding find_payment
refund-repeat rp s w old pay amount p status named credit unpaid found paid row answer =
    let whole : refund_replacement_credit rp s (some old) w ≡ (ok tt, after s w pay amount status) =
      refund_guarded rp s w old pay amount p named credit unpaid found paid
      ∙ refund_made rp s w old pay amount p named credit unpaid found paid status answer row in
    (
      ap (λ r. r.1.calls) whole,
      ap (λ r. find (λ x. str_eq x.id s.id) r.1.subscriptions) whole
          ∙ find-write s.id s (refunded status w.now) w.subscriptions (λ x. refl) row,
      ap (λ r. (refund_replacement_credit rp (refunded status w.now s) (some old) r.1).1.calls)
            whole
          ∙ refund_again rp (refunded status w.now s) (after s w pay amount status) old pay amount p
              named credit found paid (opt_eq (present status) "pending")
              (refund_was_made-refunded status w.now s),
    )
