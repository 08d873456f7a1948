-- ===== src/Billing/Upsert/Present.antt =====
-- Recording an operation keeps the rows that are there.
use desk_be.Common.{ℕ, String, Option, none, some, refl, ◌≡◌, present, str_eq, ◌&&◌, not}
use desk_be.Billing.Records.{Operation}
use desk_be.Billing.World.{find_operation, Cleanup}
use desk_be.Billing.Status.{is_terminal, replacement_key}
use desk_be.Billing.Keeps.{Keeps, Keeps-pure, Keeps-throw, Keeps-bind, Keeps-read, Keeps-if}
use desk_be.Billing.Present.{
  StillThere, still_there, KeepsKey, update_operation-StillThere, update_operations-StillThere,
  create_operation-StillThere,
}
use desk_be.Billing.Upsert.{
  ReplacementParams, merge_replacement, write_refund, new_replacement, after_conflict,
  create_replacement, settle_create, save_replacement, named_replacement, upsert_replacement,
  replacement_retry_at, mark_completed, schedule_cleanup, complete, replaces,
}

write_refund-KeepsKey :
    (a : Option ℕ) (o : Operation) → (write_refund a o).operation_key ≡ o.operation_key
unfolding write_refund
write_refund-KeepsKey none o = refl
write_refund-KeepsKey (some a) o = refl

merge-KeepsKey :
    (p : ReplacementParams) (at : ℕ) (o : Operation) → KeepsKey (merge_replacement p at o)
unfolding merge_replacement
merge-KeepsKey p at o now row = write_refund-KeepsKey p.refund_amount _

after_conflict-StillThere :
    (p : ReplacementParams) (key : String) (o : Option Operation)
    → Keeps StillThere (after_conflict p key o)
unfolding after_conflict
after_conflict-StillThere p key none = Keeps-throw still_there "P2002"
after_conflict-StillThere p key (some o) =
    update_operation-StillThere key (merge_replacement p o.next_retry_at o)
      (merge-KeepsKey p o.next_retry_at o)

create-StillThere :
    (p : ReplacementParams) (key old new : String)
    → Keeps StillThere (create_replacement p key old new)
unfolding create_replacement settle_create
create-StillThere p key old new =
    Keeps-read still_there (λ w. w.now) _
      λ now.
        Keeps-bind still_there _ _ (create_operation-StillThere (new_replacement p key old new now))
          λ created. Keeps-read still_there (find_operation key) _ λ again.
            Keeps-if created (Keeps-pure still_there tt) (after_conflict-StillThere p key again)

save-StillThere :
    (p : ReplacementParams) (key old new : String) (o : Option Operation)
    → Keeps StillThere (save_replacement p key old new o)
unfolding save_replacement
save-StillThere p key old new none = create-StillThere p key old new
save-StillThere p key old new (some o) =
    Keeps-read still_there (λ w. w.now) _
      λ now.
        update_operation-StillThere key
          (merge_replacement p (replacement_retry_at p (some o) now) o) (merge-KeepsKey p _ o)

named-StillThere :
    (p : ReplacementParams) (old new : Option String)
    → Keeps StillThere (named_replacement p old new)
unfolding named_replacement
named-StillThere p none new = Keeps-pure still_there tt
named-StillThere p (some old) none = Keeps-pure still_there tt
named-StillThere p (some old) (some new) = Keeps-if (str_eq old new) (Keeps-pure still_there tt) (
    Keeps-read still_there (find_operation (replacement_key p.workspace_id old new)) _
      (λ existing. save-StillThere p (replacement_key p.workspace_id old new) old new existing))

pub upsert_replacement-StillThere :
    (p : ReplacementParams) → Keeps StillThere (upsert_replacement p)
unfolding upsert_replacement
upsert_replacement-StillThere p =
    named-StillThere p (present p.old_provider_sub_id) (present p.new_provider_sub_id)

pub mark_completed-StillThere :
    (workspace old new : String) → Keeps StillThere (mark_completed workspace old new)
unfolding mark_completed
mark_completed-StillThere workspace old new =
    update_operations-StillThere (λ o. replaces workspace old new o && not (is_terminal o.status))
      complete (λ now o. refl)

pub schedule_cleanup-StillThere : (c : Cleanup) → Keeps StillThere (schedule_cleanup c)
unfolding schedule_cleanup
schedule_cleanup-StillThere c =
    Keeps-read still_there (λ w. w.now) _ (λ now. upsert_replacement-StillThere _)
