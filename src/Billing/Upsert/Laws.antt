-- ===== src/Billing/Upsert/Laws.antt =====
-- What recording a replacement leaves in the table, also where another process inserts the row.
use mathlib.Core.Path.{subst}
use mathlib.Core.Option
use mathlib.Core.Option.{some_inj}
use desk_be.Common.{
  ℕ, String, List, [], ◌∷◌, ◌++◌, true, false, Option, none, some, ◌≡◌, ◌≢◌, refl, ◌∙◌, sym, ap,
  is_some, any, map, present, str_eq, eq_iff, eq_refl, arith, if◌then◌else◌,
}
use desk_be.Billing.Records.{Operation, Status}
use desk_be.Billing.World.{
  World, Result, ok, follow_up, find_operation, has_key, update_operation, create_operation,
  insert_new,
}
use desk_be.Billing.Status.{next_status, replacement_key}
use desk_be.Billing.Rows.{
  find_key, find_key-update_self, find_key-update_ne, find_key-append, find_key-append_ne, any-key,
}
use desk_be.Billing.Upsert.{
  ReplacementParams, merge_replacement, write_refund, new_replacement, after_conflict,
  create_replacement, settle_create, save_replacement, named_replacement, upsert_replacement,
  replacement_retry_at,
}

abbrev pub status_of : Option Operation → Option Status
status_of o = Option.map (λ r. r.status) o

-- The rows that an upsert of a key meets: those of other processes too, if it has to create.
abbrev pub met : String → World → List Operation
met key w =
    if is_some (find_operation key w) then w.operations else insert_new w.racing w.operations

-- The rows that an upsert with that requested status leaves.
abbrev pub Leaves : String → Status → List Operation → Result (Unit {0}) × World → Type 0
Leaves key requested before after =
    (after.0 ≡ ok tt)
    × ((row : Operation) × (find_key key after.1.operations ≡ some row)
        × (row.status ≡ next_status (status_of (find_key key before)) requested))
    × ((k : String) → k ≢ key → find_key k after.1.operations ≡ find_key k before)

write_refund-key :
    (a : Option ℕ) (o : Operation) → (write_refund a o).operation_key ≡ o.operation_key
unfolding write_refund
write_refund-key none o = refl
write_refund-key (some a) o = refl

write_refund-status : (a : Option ℕ) (o : Operation) → (write_refund a o).status ≡ o.status
unfolding write_refund
write_refund-status none o = refl
write_refund-status (some a) o = refl

merge-key :
    (p : ReplacementParams) (at : ℕ) (o : Operation) (now : ℕ) (row : Operation)
    → (merge_replacement p at o now row).operation_key ≡ row.operation_key
unfolding merge_replacement
merge-key p at o now row = write_refund-key p.refund_amount _

merge-status :
    (p : ReplacementParams) (at : ℕ) (o : Operation) (now : ℕ) (row : Operation)
    → (merge_replacement p at o now row).status ≡ next_status (some o.status) p.status
unfolding merge_replacement
merge-status p at o now row = write_refund-status p.refund_amount _

-- An update finds a row that is there.
update-found :
    (key : String) (f : ℕ → Operation → Operation) (w : World)
    → any (has_key key) w.operations ≡ true
    → update_operation key f w ≡ (
      ok tt,
      record w {
        operations =
            map
              (λ o. if has_key key o then record (f w.now o) { updated_at = w.now } else o)
              w.operations;
      },
    )
update-found key f w e = rw e refl

-- An update of a row that is there.
update-Leaves :
    (p : ReplacementParams) (key : String) (at : ℕ) (o : Operation) (w : World)
    → find_key key w.operations ≡ some o
    → Leaves key p.status w.operations (update_operation key (merge_replacement p at o) w)
update-Leaves p key at o w found =
    let g : Operation → Operation =
      λ r. record (merge_replacement p at o w.now r) { updated_at = w.now } in
    subst (Leaves key p.status w.operations)
      (sym (
        update-found key (merge_replacement p at o) w
          (any-key key w.operations ∙ ap is_some found)))
      (
        refl,
        (
          g o,
          find_key-update_self key g (merge-key p at o w.now) w.operations
              ∙ ap (Option.map g) found,
          merge-status p at o w.now o ∙ ap (λ r. next_status (status_of r) p.status) (sym found),
        ),
        λ k ne. find_key-update_ne key g (merge-key p at o w.now) k w.operations ne,
      )

create-fresh :
    (o : Operation) (w : World)
    → find_key o.operation_key (insert_new w.racing w.operations) ≡ none
    → create_operation o w
      ≡ (ok true, record w { operations = insert_new w.racing w.operations ++ o ∷ []; racing = [] })
create-fresh o w absent =
    let e = any-key o.operation_key (insert_new w.racing w.operations) ∙ ap is_some absent in
    rw e refl

create-conflict :
    (o r : Operation) (w : World)
    → find_key o.operation_key (insert_new w.racing w.operations) ≡ some r
    → create_operation o w
      ≡ (ok false, record w { operations = insert_new w.racing w.operations; racing = [] })
create-conflict o r w there =
    let e = any-key o.operation_key (insert_new w.racing w.operations) ∙ ap is_some there in
    rw e refl

-- A creation: the row is new, or another process has inserted it just before.
create-Leaves :
    (p : ReplacementParams) (key old new : String) (w : World) (found : Option Operation)
    → find_key key (insert_new w.racing w.operations) ≡ found
    → Leaves key p.status (insert_new w.racing w.operations) (create_replacement p key old new w)
unfolding create_replacement settle_create after_conflict new_replacement
create-Leaves p key old new w (some r) e =
    let here : World = record w { operations = insert_new w.racing w.operations; racing = [] } in
    let path : create_replacement p key old new w
        ≡ update_operation key (merge_replacement p r.next_retry_at r) here =
      ap (λ x. follow_up (settle_create p key) x.0 x.1)
        (create-conflict (new_replacement p key old new w.now) r w e)
      ∙ ap (λ o. after_conflict p key o here) e in
    subst (Leaves key p.status (insert_new w.racing w.operations)) (sym path)
      (update-Leaves p key r.next_retry_at r here e)
create-Leaves p key old new w none e =
    let row : Operation = new_replacement p key old new w.now in
    let before : List Operation = insert_new w.racing w.operations in
    let here : World = record w { operations = before ++ row ∷ []; racing = [] } in
    let path : create_replacement p key old new w ≡ (ok tt, here) =
      ap (λ x. follow_up (settle_create p key) x.0 x.1) (create-fresh row w e) in
    subst (Leaves key p.status before) (sym path) (
      refl,
      (
        row,
        find_key-append key before row e ∙ rw (eq_refl key) refl,
        ap (λ r. next_status (status_of r) p.status) (sym e),
      ),
      λ k ne. find_key-append_ne k before row (λ same. ne (sym same)),
    )

save-Leaves :
    (p : ReplacementParams) (key old new : String) (w : World) (found : Option Operation)
    → find_key key w.operations ≡ found
    → Leaves key p.status (met key w) (save_replacement p key old new found w)
unfolding save_replacement
save-Leaves p key old new w none e =
    subst (λ os. Leaves key p.status os (create_replacement p key old new w))
      (ap (λ f. if is_some f then w.operations else insert_new w.racing w.operations) (sym e))
      (create-Leaves p key old new w _ refl)
save-Leaves p key old new w (some o) e =
    subst
      (λ os.
        Leaves key p.status os
          (update_operation key (merge_replacement p (replacement_retry_at p (some o) w.now) o) w))
      (ap (λ f. if is_some f then w.operations else insert_new w.racing w.operations) (sym e))
      (update-Leaves p key _ o w e)

-- Recording a replacement of one named subscription by another never throws. It leaves a row under
-- the replacement's key whose status is what `nextRazorpayOperationStatus` gives for the row that
-- was there, also for a row that another process inserted between the read and the creation, and
-- it leaves every row under another key as it was.
pub upsert_replacement-Leaves :
    (p : ReplacementParams) (old new : String) (w : World)
    → present p.old_provider_sub_id ≡ some old
    → present p.new_provider_sub_id ≡ some new
    → old ≢ new
    → let key = replacement_key p.workspace_id old new in
      Leaves key p.status (met key w) (upsert_replacement p w)
unfolding upsert_replacement
upsert_replacement-Leaves p old new w from to ne =
    let key = replacement_key p.workspace_id old new in
    let apart : str_eq old new ≡ false = ground (arith, eq_iff old new) in
    let path : upsert_replacement p w ≡ save_replacement p key old new (find_operation key w) w =
      ap (λ o. named_replacement p o (present p.new_provider_sub_id) w) from
      ∙ ap (λ o. named_replacement p (some old) o w) to
      ∙ rw apart refl in
    subst (Leaves key p.status (met key w)) (sym path)
      (save-Leaves p key old new w (find_operation key w) refl)
