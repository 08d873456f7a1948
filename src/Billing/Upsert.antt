-- ===== src/Billing/Upsert.antt =====
-- Recording a subscription operation: `upsertRazorpayReplacementOperation`,
-- `upsertRazorpayCancelOperation`, `markRazorpayReplacementOperationCompleted` and
-- `scheduleRazorpayReplacementCleanup`.
pub mod Present
pub mod Laws
use desk_be.Common.{
  ℕ, zero, suc, ◌+◌, String, Bool, true, false, not, ◌&&◌, Option, none, some, coalesce, get_or,
  present, opt_eq, str_eq, if◌then◌else◌,
}
use desk_be.Billing.Records.{
  Status, cleanup_pending, completed, Kind, replace_subscription, cancel_subscription, other_kind,
  Operation,
}
use desk_be.Billing.World.{
  World, M, ok, err, ◌>>=◌, ◌>>◌, pure, throw, gets, Cleanup, find_operation, update_operation,
  update_operations, create_operation,
}
use desk_be.Billing.Status.{is_terminal, next_status, cleanup_delay, replacement_key, cancel_key}

-- The parameters of `upsertRazorpayReplacementOperation`; `none` is an absent or null one.
pub record ReplacementParams : Type 0 where
  pub workspace_id : String
  pub old_provider_sub_id : Option String
  pub new_provider_sub_id : Option String
  pub plan : Option String
  pub status : Status
  pub retry_count : Option ℕ
  pub next_retry_at : Option ℕ
  pub last_error : Option String
  pub refund_amount : Option ℕ

-- `metadata: undefined` leaves the column; otherwise it is written whole.
write_refund : Option ℕ → Operation → Operation
write_refund none o = o
write_refund (some amount) o = record o { refund_amount = some amount; cancel_at_cycle_end = none }

-- the `update` of a row that was found
merge_replacement : ReplacementParams → ℕ → Operation → ℕ → Operation → Operation
merge_replacement p default_at existing now row = write_refund p.refund_amount (record row {
  status = next_status (some existing.status) p.status;
  plan = coalesce p.plan existing.plan;
  retry_count = get_or p.retry_count existing.retry_count;
  next_retry_at = get_or p.next_retry_at default_at;
  last_error = coalesce p.last_error existing.last_error;
})

-- the default of `nextRetryAt`
replacement_retry_at : ReplacementParams → Option Operation → ℕ → ℕ
replacement_retry_at p existing now =
    now
    + cleanup_delay (
        get_or
          (coalesce p.retry_count (elim existing [ none ↦ none | some o ↦ some o.retry_count ])) 0)

new_replacement : ReplacementParams → String → String → String → ℕ → Operation
new_replacement p key old new now = record {
  operation_key = key;
  workspace_id = p.workspace_id;
  provider = "razorpay";
  kind = replace_subscription;
  status = next_status none p.status;
  old_provider_sub_id = some old;
  new_provider_sub_id = some new;
  plan = p.plan;
  retry_count = get_or p.retry_count 0;
  next_retry_at = get_or p.next_retry_at (replacement_retry_at p none now);
  locked_at = none;
  lock_expires_at = none;
  last_error = p.last_error;
  cancel_at_cycle_end = none;
  refund_amount = p.refund_amount;
  updated_at = now;
}

-- the `catch` of a create that the unique index refused: read the row again and update it
after_conflict : ReplacementParams → String → Option Operation → M (Unit {0})
after_conflict p key none = throw "P2002"
after_conflict p key (some o) = update_operation key (merge_replacement p o.next_retry_at o)

settle_create : ReplacementParams → String → Bool → M (Unit {0})
settle_create p key created = do
  again ← gets (find_operation key)
  if created then pure tt else after_conflict p key again

create_replacement : ReplacementParams → String → String → String → M (Unit {0})
create_replacement p key old new = do
  now ← gets (λ w. w.now)
  created ← create_operation (new_replacement p key old new now)
  settle_create p key created

save_replacement : ReplacementParams → String → String → String → Option Operation → M (Unit {0})
save_replacement p key old new none = create_replacement p key old new
save_replacement p key old new (some o) = do
  now ← gets (λ w. w.now)
  update_operation key (merge_replacement p (replacement_retry_at p (some o) now) o)

-- Nothing is recorded unless both subscriptions are named and differ.
named_replacement : ReplacementParams → Option String → Option String → M (Unit {0})
named_replacement p none new = pure tt
named_replacement p (some old) none = pure tt
named_replacement p (some old) (some new) = if str_eq old new then pure tt else do
  existing ← gets (find_operation (replacement_key p.workspace_id old new))
  save_replacement p (replacement_key p.workspace_id old new) old new existing

unfoldable pub upsert_replacement : ReplacementParams → M (Unit {0})
unfolding named_replacement save_replacement create_replacement settle_create after_conflict
    new_replacement replacement_retry_at merge_replacement write_refund
upsert_replacement p =
    named_replacement p (present p.old_provider_sub_id) (present p.new_provider_sub_id)

-- The parameters of `upsertRazorpayCancelOperation`.
pub record CancelParams : Type 0 where
  pub workspace_id : String
  pub provider_sub_id : Option String
  pub cancel_at_cycle_end : Bool
  pub status : Option Status
  pub retry_count : Option ℕ
  pub next_retry_at : Option ℕ
  pub last_error : Option String

abbrev requested_status : CancelParams → Status
requested_status p = get_or p.status cleanup_pending

merge_cancel : CancelParams → Operation → ℕ → Operation → Operation
merge_cancel p existing now row = record row {
  status = next_status (some existing.status) (requested_status p);
  retry_count = get_or p.retry_count existing.retry_count;
  next_retry_at = get_or p.next_retry_at now;
  last_error = coalesce p.last_error existing.last_error;
  cancel_at_cycle_end = some p.cancel_at_cycle_end;
  refund_amount = none;
}

new_cancel : CancelParams → String → String → ℕ → Operation
new_cancel p key sub now = record {
  operation_key = key;
  workspace_id = p.workspace_id;
  provider = "razorpay";
  kind = cancel_subscription;
  status = next_status none (requested_status p);
  old_provider_sub_id = some sub;
  new_provider_sub_id = none;
  plan = none;
  retry_count = get_or p.retry_count 0;
  next_retry_at = get_or p.next_retry_at now;
  locked_at = none;
  lock_expires_at = none;
  last_error = p.last_error;
  cancel_at_cycle_end = some p.cancel_at_cycle_end;
  refund_amount = none;
  updated_at = now;
}

-- The code calls itself again when the unique index refuses its row. `tries` bounds how often;
-- the second call finds the row that was in the way.
save_cancel : ℕ → CancelParams → String → String → Option Operation → M (Unit {0})
save_cancel tries p key sub (some o) = update_operation key (merge_cancel p o)
save_cancel zero p key sub none = throw "P2002"
save_cancel (suc tries) p key sub none = do
  now ← gets (λ w. w.now)
  created ← create_operation (new_cancel p key sub now)
  again ← gets (find_operation key)
  let retry = save_cancel tries p key sub again
  if created then pure tt else retry

named_cancel : CancelParams → Option String → M (Unit {0})
named_cancel p none = pure tt
named_cancel p (some sub) = do
  existing ← gets (find_operation (cancel_key p.workspace_id sub))
  save_cancel 1 p (cancel_key p.workspace_id sub) sub existing

unfoldable pub upsert_cancel : CancelParams → M (Unit {0})
unfolding named_cancel save_cancel new_cancel merge_cancel
upsert_cancel p = named_cancel p (present p.provider_sub_id)

-- the `where` of `markRazorpayReplacementOperationCompleted`
abbrev is_replacement : Kind → Bool
is_replacement replace_subscription = true
is_replacement _ = false

abbrev pub replaces : String → String → String → Operation → Bool
replaces workspace old new o =
    str_eq o.workspace_id workspace
    && (str_eq o.provider "razorpay"
        && (is_replacement o.kind
            && (opt_eq o.old_provider_sub_id old && opt_eq o.new_provider_sub_id new)))

abbrev pub complete : ℕ → Operation → Operation
complete now o = record o { status = completed; last_error = none; next_retry_at = now }

unfoldable pub mark_completed : String → String → String → M (Unit {0})
mark_completed workspace old new =
    update_operations (λ o. replaces workspace old new o && not (is_terminal o.status)) complete

-- `scheduleRazorpayReplacementCleanup`
unfoldable pub schedule_cleanup : Cleanup → M (Unit {0})
schedule_cleanup c = do
  now ← gets (λ w. w.now)
  upsert_replacement (record {
    workspace_id = c.workspace_id;
    old_provider_sub_id = some c.replaced;
    new_provider_sub_id = some c.replacement;
    plan = none;
    status = cleanup_pending;
    retry_count = some (get_or c.attempt 0);
    next_retry_at = some (now + cleanup_delay (get_or c.attempt 0));
    last_error = c.last_error;
    refund_amount = none;
  })
