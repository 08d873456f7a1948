-- ===== src/Billing/Worker.antt =====
-- The worker of the subscription operations: `processRazorpaySubscriptionOperation`,
-- `processRazorpayCancelSubscriptionOperation`, the lock of an operation, and the first loop of
-- `reconcileRazorpayBillingState`.
pub mod Present
pub mod Cancels
pub mod Lock
pub mod Settles
pub mod Due
mod Tests
use desk_be.Common.{
  ℕ, zero, suc, ◌+◌, String, List, [], ◌∷◌, Bool, true, false, not, ◌&&◌, ◌||◌, Option, none, some,
  get_or, present, opt_eq, str_eq, join, to_lower, ltb, leb, ◌==◌, any, keep, take, if◌then◌else◌,
}
use desk_be.Billing.Records.{
  Status, pending, cleanup_pending, cancel_requested, completed, abandoned, failed, retrying, Kind,
  replace_subscription, cancel_subscription, other_kind, Operation, Subscription,
  ProviderSubscription,
}
use desk_be.Billing.World.{
  World, M, Result, ok, err, ◌>>=◌, ◌>>◌, pure, throw, gets, catch, finally, Razorpay,
  update_operation, update_operations, update_subscription, find_operation, find_subscription,
}
use desk_be.Billing.Status.{
  is_worker_status, cleanup_delay, is_pending_subscription, is_terminal_subscription,
  map_subscription_status,
}
use desk_be.Billing.Upsert.{complete}
use desk_be.Billing.Provider.{
  CancelResult, CancelOutcome, cancelled, deferred, not_started, already_cancelled,
  cancel_subscription_if_possible, fetch_subscription, fetch_status,
}
use desk_be.Billing.Replacement.{
  activate, verify_cancellation, finalize, deferred_row, abandon, requested_again, replaced_by,
  is_cancel_requested,
}

-- `replacementStatus || 'pending'` in the texts of the errors
abbrev or_text : String → String → String
or_text s default = get_or (present (some s)) default

-- the row of a replacement that ended, or has a status that the code does not know
stopped_row : Operation → String → ℕ → Operation → Operation
stopped_row o status now row = record row {
  status = if is_terminal_subscription status then abandoned else failed;
  retry_count = o.retry_count + 1;
  next_retry_at = now + cleanup_delay (o.retry_count + 1);
  last_error = some (join "Replacement subscription status is " (or_text status "unknown"));
}

-- the row of a cancellation that the provider put off
put_off : Operation → Option String → ℕ → Operation → Operation
put_off o reason now row = record row {
  status = cleanup_pending;
  retry_count = o.retry_count + 1;
  next_retry_at = now + cleanup_delay (o.retry_count + 1);
  last_error = reason;
}

ended : String → ℕ → Subscription → Subscription
ended status now s = record s {
  status = map_subscription_status status;
  cancel_at_period_end = false;
}

module _ (rp : Razorpay) where
  -- Whether the replacement is another subscription decides who completes the operation.
  conclude : Operation → Subscription → String → Option String → M (Unit {0})
  conclude o s new none = update_operation o.operation_key complete
  conclude o s new (some old) = finalize rp s (some old) new o.retry_count

  carry_out : Operation → Subscription → String → ProviderSubscription → M (Unit {0})
  carry_out o s new r = do
    updated ← activate s r new o.old_provider_sub_id o.plan
    conclude o updated new (replaced_by o.old_provider_sub_id new)

  follow : Operation → Subscription → String → ProviderSubscription → String → M (Unit {0})
  follow o s new r status =
      if str_eq status "active"
      then carry_out o s new r
      else if is_pending_subscription status
      then update_operation o.operation_key
          (deferred_row o (join "Replacement subscription is still " (or_text status "pending")))
      else update_operation o.operation_key (stopped_row o status)

  check_replacement : Operation → Subscription → String → M (Unit {0})
  check_replacement o s new = do
    r ← fetch_subscription rp new
    follow o s new r (to_lower (get_or (present r.status) ""))

  pursue : Operation → Subscription → String → M (Unit {0})
  pursue o s new =
      if is_cancel_requested o.status then verify_cancellation rp o s else check_replacement o s new

  pursue_found : Operation → String → Option Subscription → M (Unit {0})
  pursue_found o new none =
      update_operation o.operation_key (abandon "Workspace subscription not found")
  pursue_found o new (some s) = pursue o s new

  process_replacement : Operation → Option String → M (Unit {0})
  process_replacement o none =
      update_operation o.operation_key (abandon "Replacement subscription id is missing")
  process_replacement o (some new) = do
    s ← gets (find_subscription o.workspace_id)
    pursue_found o new s

  -- the rows when the provider says that the subscription has ended
  end_subscription : Option Subscription → String → String → M (Unit {0})
  end_subscription none sub status = pure tt
  end_subscription (some s) sub status =
      if opt_eq s.provider_sub_id sub
      then (update_subscription s.id (ended status) >> pure tt)
      else pure tt

  settle_cancel : Operation → Option Subscription → String → String → M (Unit {0})
  settle_cancel o s sub status =
      if is_terminal_subscription status
      then (update_operation o.operation_key complete >> end_subscription s sub status)
      else update_operation o.operation_key (
          requested_again (o.retry_count + 1) "Cancel requested; Razorpay subscription still "
            status)

  check_cancel : Operation → Option Subscription → String → M (Unit {0})
  check_cancel o s sub = fetch_status rp sub >>= settle_cancel o s sub

  settle_returned :
      Operation → Option Subscription → String → CancelResult → CancelOutcome → M (Unit {0})
  settle_returned o s sub r deferred = update_operation o.operation_key (put_off o r.reason)
  settle_returned o s sub r not_started = update_operation o.operation_key (put_off o r.reason)
  settle_returned o s sub r _ =
      let returned = to_lower (get_or r.returned_status "") in
      if is_terminal_subscription returned
      then settle_cancel o s sub returned
      else check_cancel o s sub

  request_cancel : Operation → Option Subscription → String → M (Unit {0})
  request_cancel o s sub = do
    r ← cancel_subscription_if_possible rp sub (get_or o.cancel_at_cycle_end true)
    settle_returned o s sub r r.outcome

  cancel_named : Operation → Option String → M (Unit {0})
  cancel_named o none =
      update_operation o.operation_key (abandon "Cancel operation is missing subscription id")
  cancel_named o (some sub) = do
    s ← gets (find_subscription o.workspace_id)
    if is_cancel_requested o.status then check_cancel o s sub else request_cancel o s sub

  process_kind : Operation → Kind → M (Unit {0})
  process_kind o cancel_subscription = cancel_named o (present o.old_provider_sub_id)
  process_kind o replace_subscription = process_replacement o (present o.new_provider_sub_id)
  process_kind o (other_kind k) = pure tt

  -- `processRazorpaySubscriptionOperation`
  unfoldable pub process : Operation → M (Unit {0})
  unfolding process_kind process_replacement pursue_found cancel_named check_cancel request_cancel
      pursue check_replacement follow carry_out conclude settle_returned settle_cancel
      end_subscription stopped_row put_off ended
  process o = if str_eq o.provider "razorpay" then process_kind o o.kind else pure tt

-- `razorpayOperationLockMs`
abbrev pub lock_ms : ℕ
lock_ms = 300_000

-- `OR: [{ lockExpiresAt: null }, { lockExpiresAt: { lt: now } }]`
abbrev pub is_unlocked : ℕ → Operation → Bool
is_unlocked now o = elim o.lock_expires_at [ none ↦ true | some t ↦ ltb t now ]

abbrev pub index_of : Status → ℕ
index_of pending = 0
index_of cleanup_pending = 1
index_of cancel_requested = 2
index_of completed = 3
index_of abandoned = 4
index_of failed = 5
index_of retrying = 6

abbrev pub same_status : Status → Status → Bool
same_status a b = index_of a == index_of b

-- the `where` of `claimRazorpaySubscriptionOperation`
abbrev pub can_claim : Operation → ℕ → Operation → Bool
can_claim o now row =
    str_eq row.operation_key o.operation_key
    && (same_status row.status o.status && (leb row.next_retry_at now && is_unlocked now row))

abbrev pub locked : ℕ → Operation → Operation
locked now o = record o { locked_at = some now; lock_expires_at = some (now + lock_ms) }

abbrev pub unlocked : ℕ → Operation → Operation
unlocked now o = record o { locked_at = none; lock_expires_at = none }

unfoldable pub claim : Operation → M (Option Operation)
claim o = do
  now ← gets (λ w. w.now)
  count ← gets (λ w. any (can_claim o now) w.operations)
  update_operations (can_claim o now) locked
  row ← gets (find_operation o.operation_key)
  pure (if count then row else none)

unfoldable pub release : String → M (Unit {0})
release key = update_operations (λ o. str_eq o.operation_key key) unlocked

-- the `catch` of the loop
failed_row : Operation → String → ℕ → Operation → Operation
failed_row o error now row = record row {
  status = failed;
  retry_count = o.retry_count + 1;
  next_retry_at = now + cleanup_delay (o.retry_count + 1);
  last_error = some error;
}

module _ (rp : Razorpay) where
  handle_claimed : Option Operation → M (Unit {0})
  handle_claimed none = pure tt
  handle_claimed (some o) =
      finally
        (catch (process rp o) (λ error. update_operation o.operation_key (failed_row o error)))
        (release o.operation_key)

  -- one round of the loop over the operations that are due
  unfoldable pub work : Operation → M (Unit {0})
  unfolding handle_claimed failed_row
  work o = claim o >>= handle_claimed

  unfoldable pub work_all : List Operation → M (Unit {0})
  work_all [] = pure tt
  work_all (o ∷ os) = work o >> work_all os

abbrev due : ℕ → Operation → Bool
due now o =
    str_eq o.provider "razorpay"
    && (is_worker_status o.status && (leb o.next_retry_at now && is_unlocked now o))

insert_due : Operation → List Operation → List Operation
insert_due o [] = o ∷ []
insert_due o (p ∷ ps) =
    if ltb p.next_retry_at o.next_retry_at then p ∷ insert_due o ps else o ∷ p ∷ ps

sort_due : List Operation → List Operation
sort_due [] = []
sort_due (o ∷ os) = insert_due o (sort_due os)

-- the `findMany` of the loop: at most 25, the longest due first
unfoldable pub due_operations : World → List Operation
unfolding insert_due sort_due
due_operations w = take 25 (sort_due (keep (due w.now) w.operations))

unfoldable pub reconcile_operations : Razorpay → M (Unit {0})
reconcile_operations rp = do os ← gets due_operations; work_all rp os
