-- ===== src/Billing/Worker/Settles.antt =====
-- The loop over the operations that are due: it goes on after every error, and gives every lock
-- back.
use mathlib.Core.Path.{subst}
use mathlib.Core.Option.{some_inj}
use desk_be.Common.{
  ℕ, ◌+◌, String, List, [], ◌∷◌, map, Bool, true, false, Option, none, some, ◌≡◌, refl, sym, ap,
  ◌∙◌, All, find, any, is_some, str_eq, eq_iff, Bool-cases, inl, inr, arith, if◌then◌else◌,
}
use desk_be.Billing.Records.{Operation, failed}
use desk_be.Billing.Status.{cleanup_delay}
use desk_be.Billing.World.{
  World, M, Result, ok, err, Razorpay, follow_up, recover, has_key, update_operation,
}
use desk_be.Billing.Rows.{any-key}
use desk_be.Billing.Present.{IsPresent}
use desk_be.Billing.Worker.{
  can_claim, claim, release, unlocked, work, work_all, handle_claimed, failed_row,
  reconcile_operations, process,
}
use desk_be.Billing.Worker.Present.{process-StillThere}

-- No row under a key is locked.
abbrev pub Unlocked : String → World → Type 0
Unlocked key w = All (λ row. row.operation_key ≡ key → row.lock_expires_at ≡ none) w.operations

unlock_rows :
    (key : String) (now : ℕ) (os : List Operation)
    → All
        (λ row. row.operation_key ≡ key → row.lock_expires_at ≡ none)
        (map
          (λ o.
            if str_eq o.operation_key key then record (unlocked now o) { updated_at = now } else o)
          os)
unlock_rows key now [] = tt
unlock_rows key now (o ∷ os) = elim (Bool-cases (str_eq o.operation_key key)) [
  | inl e ↦ rw (e) ((λ _. refl), unlock_rows key now os)
  | inr e ↦
      rw (e) ((λ same. ground (arith, e, same, eq_iff o.operation_key key)), unlock_rows key now os)
]

payload : Result (Option Operation) → Option Operation
payload (ok o) = o
payload (err e) = none

find_has_key :
    (key : String) (os : List Operation) (row : Operation)
    → find (λ o. str_eq o.operation_key key) os ≡ some row
    → row.operation_key ≡ key
find_has_key key [] row h = ground (arith, h)
find_has_key key (o ∷ os) row h = elim (Bool-cases (str_eq o.operation_key key)) [
  | inl e ↦
      subst (λ r. r.operation_key ≡ key)
        (some_inj.0
          (sym (ap (λ b. if b then some o else find (λ o. str_eq o.operation_key key) os) e) ∙ h))
        ((eq_iff o.operation_key key).0 e)
  | inr e ↦
      find_has_key key os row
        (sym (ap (λ b. if b then some o else find (λ o. str_eq o.operation_key key) os) e) ∙ h)
]

found_if :
    (b : Bool) (key : String) (os : List Operation) (row : Operation)
    → (if b then find (λ o. str_eq o.operation_key key) os else none) ≡ some row
    → row.operation_key ≡ key
found_if true key os row h = find_has_key key os row h
found_if false key os row h = ground (arith, h)

claim-key :
    (o row : Operation) (w : World)
    → (claim o w).0 ≡ ok (some row)
    → row.operation_key ≡ o.operation_key
unfolding claim payload
claim-key o row w h = found_if _ o.operation_key _ row (ap payload h)

found-IsPresent :
    (key : String) (os : List Operation) (row : Operation)
    → find (λ o. str_eq o.operation_key key) os ≡ some row
    → any (has_key key) os ≡ true
found-IsPresent key os row h = any-key key os ∙ ap is_some h

-- What a claim gives is a row that is there.
Claimed : Option Operation → World → Type 0
Claimed none w = Unit
Claimed (some row) w = IsPresent row.operation_key w

if-Claimed :
    (b : Bool) (key : String) (w : World) (o : Option Operation)
    → find (λ o. str_eq o.operation_key key) w.operations ≡ o
    → Claimed (if b then o else none) w
unfolding Claimed
if-Claimed true key w none h = tt
if-Claimed true key w (some row) h =
    subst (λ k. IsPresent k w) (sym (find_has_key key w.operations row h))
      (found-IsPresent key w.operations row h)
if-Claimed false key w o h = tt

claim-Claimed : (o : Operation) (w : World) → Claimed (payload (claim o w).0) (claim o w).1
unfolding claim payload
claim-Claimed o w =
    if-Claimed (any (can_claim o w.now) w.operations) o.operation_key (claim o w).1 _ refl

claim-IsPresent :
    (o row : Operation) (w : World)
    → (claim o w).0 ≡ ok (some row)
    → IsPresent row.operation_key (claim o w).1
unfolding Claimed payload
claim-IsPresent o row w got =
    subst (λ r. Claimed r (claim o w).1) (ap payload got) (claim-Claimed o w)

release-Unlocked : (key : String) (w : World) → Unlocked key (release key w).1
unfolding release
release-Unlocked key w = unlock_rows key w.now w.operations

-- the `catch` of the loop at a row that is there
recover-ok :
    (o : Operation) (r : Result (Unit {0})) (w : World)
    → IsPresent o.operation_key w
    → (recover (λ error. update_operation o.operation_key (failed_row o error)) r w).0 ≡ ok tt
recover-ok o (ok a) w there = refl
recover-ok o (err e) w there = rw there refl

module _ (rp : Razorpay) where
  handled-Unlocked :
      (o : Operation) (w : World) → Unlocked o.operation_key (handle_claimed rp (some o) w).1
  unfolding handle_claimed
  handled-Unlocked o w = release-Unlocked o.operation_key _

  handled_ok : (o : Option Operation) (w : World) → Claimed o w → (handle_claimed rp o w).0 ≡ ok tt
  unfolding handle_claimed release Claimed
  handled_ok none w there = refl
  handled_ok (some o) w there =
      recover-ok o (process rp o w).0 (process rp o w).1
        ((process-StillThere rp o).keeps w o.operation_key there)

  work_ok : (o : Operation) (w : World) → (work rp o w).0 ≡ ok tt
  unfolding work claim payload
  work_ok o w = handled_ok _ _ (claim-Claimed o w)

  work_all_ok : (os : List Operation) (w : World) → (work_all rp os w).0 ≡ ok tt
  unfolding work_all
  work_all_ok [] w = refl
  work_all_ok (o ∷ os) w =
      ap (λ r. (follow_up (λ _. work_all rp os) r (work rp o w).1).0) (work_ok o w)
      ∙ work_all_ok os (work rp o w).1

  -- A run of the loop over the due operations ends without an error, whatever the provider
  -- answers and whatever is thrown within.
  pub reconcile_operations-ok : (w : World) → (reconcile_operations rp w).0 ≡ ok tt
  unfolding reconcile_operations
  reconcile_operations-ok w = work_all_ok _ w

-- the end of a turn, where the row was claimed
turn :
    (rp : Razorpay) (o row : Operation) (w : World)
    → (claim o w).0 ≡ ok (some row)
    → work rp o w ≡ handle_claimed rp (some row) (claim o w).1
unfolding work
turn rp o row w got = ap (λ r. follow_up (handle_claimed rp) r (claim o w).1) got

-- After the turn of a claimed operation, whether its processing returned or threw, no row under
-- its key is locked.
pub work-Unlocked :
    (rp : Razorpay) (o row : Operation) (w : World)
    → (claim o w).0 ≡ ok (some row)
    → Unlocked o.operation_key (work rp o w).1
work-Unlocked rp o row w got =
    subst (λ k. Unlocked k (work rp o w).1) (claim-key o row w got)
      (subst (λ r. Unlocked row.operation_key r.1) (sym (turn rp o row w got))
        (handled-Unlocked rp row (claim o w).1))

-- what the loop writes of an error on the row of an operation
pub record HasFailed (o : Operation) (error : String) (now : ℕ) (row : Operation) : Type 0 where
  pub status_failed : row.status ≡ failed
  pub retried : row.retry_count ≡ o.retry_count + 1
  pub put_off : row.next_retry_at ≡ now + cleanup_delay (o.retry_count + 1)
  pub noted : row.last_error ≡ some error

failed_rows :
    (o : Operation) (error key : String) (now : ℕ) (os : List Operation)
    → All
        (λ row. row.operation_key ≡ key → HasFailed o error now row)
        (map
          (λ p.
            if str_eq p.operation_key key then record (unlocked now p) { updated_at = now } else p)
          (map
            (λ p.
              if str_eq p.operation_key key
              then record (failed_row o error now p) { updated_at = now }
              else p)
            os))
unfolding failed_row
failed_rows o error key now [] = tt
failed_rows o error key now (p ∷ os) = elim (Bool-cases (str_eq p.operation_key key)) [
  | inl e ↦
      rw (e, e)
        (
          (λ _. record { status_failed = refl; retried = refl; put_off = refl; noted = refl }),
          failed_rows o error key now os,
        )
  | inr e ↦
      rw (e, e)
        (
          (λ same. ground (arith, e, same, eq_iff p.operation_key key)),
          failed_rows o error key now os,
        )
]

-- The rows under the key of an operation after a turn that threw.
unfoldable pub Failing : Operation → String → ℕ → World → Type 0
Failing o error now w =
    All (λ row. row.operation_key ≡ o.operation_key → HasFailed o error now row) w.operations

recover-Failing :
    (o : Operation) (error : String) (w : World)
    → IsPresent o.operation_key w
    → Failing o error w.now
        (release o.operation_key
          (recover {A = Unit {0}}
            (λ e. update_operation o.operation_key (failed_row o e))
            (err error)
            w).1).1
unfolding Failing release
recover-Failing o error w there = rw there (failed_rows o error o.operation_key w.now w.operations)

thrown-Failing :
    (rp : Razorpay) (o : Operation) (error : String) (w : World)
    → IsPresent o.operation_key w
    → (process rp o w).0 ≡ err error
    → Failing o error (process rp o w).1.now (handle_claimed rp (some o) w).1
unfolding handle_claimed
thrown-Failing rp o error w there h =
    let after : World = (process rp o w).1 in
    let handler : String → M (Unit {0}) = λ e. update_operation o.operation_key (failed_row o e) in
    subst (λ r. Failing o error after.now (release o.operation_key (recover handler r after).1).1)
      (sym h)
      (recover-Failing o error after ((process-StillThere rp o).keeps w o.operation_key there))

-- Where the processing of a claimed operation throws, its turn leaves it failed, with one retry
-- more, due again after the delay of that many retries, and with the message of the error.
pub work-Failing :
    (rp : Razorpay) (o row : Operation) (error : String) (w : World)
    → (claim o w).0 ≡ ok (some row)
    → (process rp row (claim o w).1).0 ≡ err error
    → Failing row error (process rp row (claim o w).1).1.now (work rp o w).1
work-Failing rp o row error w got thrown =
    subst (λ r. Failing row error (process rp row (claim o w).1).1.now r.1)
      (sym (turn rp o row w got))
      (thrown-Failing rp row error (claim o w).1 (claim-IsPresent o row w got) thrown)
