-- ===== src/Billing/Worker/Tests.antt =====
-- Turns of the worker while Razorpay is down.
use desk_be.Common.{◌≡◌, refl, some}
use desk_be.Billing.Records.{pending, Operation}
use desk_be.Billing.World.{ok, err, Razorpay, failed}
use desk_be.Billing.Provider.{fetch_subscription, fetch_status}
use desk_be.Billing.Worker.Due.{IsBatch, due_operations-IsBatch}
use desk_be.Billing.Worker.{due_operations, claim, process, work, locked, reconcile_operations}
use desk_be.Billing.Worker.Settles.{
  Unlocked, Failing, work-Unlocked, work-Failing, reconcile_operations-ok,
}
use desk_be.Billing.Tests.{operation, world, prompt}

abbrev down : Razorpay
down = record prompt { on_fetch = λ calls sub. failed "down" }

abbrev taken : Operation
taken = record (locked 1_000 (operation pending)) { updated_at = 1_000 }

claimed_row : (claim (operation pending) (world pending)).0 ≡ ok (some taken)
unfolding claim
claimed_row = refl

thrown : (process down taken (claim (operation pending) (world pending)).1).0 ≡ err "down"
unfolding process claim fetch_subscription fetch_status
thrown = refl

reconcile_operations-ok_example : (reconcile_operations down (world pending)).0 ≡ ok tt
reconcile_operations-ok_example = reconcile_operations-ok down (world pending)

work-Unlocked_example :
    Unlocked (operation pending).operation_key (work down (operation pending) (world pending)).1
work-Unlocked_example = work-Unlocked down (operation pending) taken (world pending) claimed_row

work-Failing_example :
    Failing taken "down"
      (process down taken (claim (operation pending) (world pending)).1).1.now
      (work down (operation pending) (world pending)).1
work-Failing_example =
    work-Failing down (operation pending) taken "down" (world pending) claimed_row thrown

due_operations-IsBatch_example : IsBatch (world pending) (due_operations (world pending))
due_operations-IsBatch_example = due_operations-IsBatch (world pending)
