-- ===== src/Workflows/Runs/Rounds.antt =====
-- `completeRun` ends a run, its parent and so on: the rounds that src/modules/workflows'
-- workflow-engine.service.ts goes through are bounded by the runs that wait.
use desk_be.Common.{
  ℕ, zero, suc, ◌≤◌, ◌<◌, String, List, [], ◌∷◌, map, true, false, Option, none, find, length,
  str_eq, ◌≡◌, refl, ap, Bool-cases, Option-cases, inl, inr, if◌then◌else◌, arith, ◌⊎◌,
}
use desk_be.Workflows.Values.{filled, value_of}
use desk_be.Workflows.World.{Run, Context, World, find_run, update_run, save_context, load_context}
use desk_be.Workflows.Runs.{
  is_waiting, record_activity, cleanup_run, parent_waits, parent_left, complete_parent,
  go_on_parent, completed_now, resume_parent, complete_within, complete_run, end_as_completed,
}

-- how many runs wait
waiting_count : List Run → ℕ
waiting_count [] = 0
waiting_count (r ∷ rs) =
    let rest = waiting_count rs in if is_waiting r.status then suc rest else rest

completed_rows : String → ℕ → List Run → List Run
completed_rows id now rs = map (λ r. if str_eq r.id id then completed_now now r else r) rs

count-length : (rs : List Run) → waiting_count rs ≤ length rs
unfolding waiting_count
count-length [] = omega arith
count-length (r ∷ rs) = ground (arith, count-length rs)

count-completed :
    (id : String) (now : ℕ) (rs : List Run)
    → waiting_count (completed_rows id now rs) ≤ waiting_count rs
unfolding waiting_count completed_rows completed_now is_waiting
count-completed id now [] = omega arith
count-completed id now (r ∷ rs) = ground (arith, count-completed id now rs)

-- Completing a run that waits leaves fewer runs that wait.
count-parent :
    (id : String) (now : ℕ) (rs : List Run)
    → parent_waits (find (λ r. str_eq r.id id) rs) ≡ true
    → waiting_count (completed_rows id now rs) < waiting_count rs
unfolding waiting_count completed_rows completed_now is_waiting parent_waits
count-parent id now [] h = ground (arith, h)
count-parent id now (r ∷ rs) h =
    ground (arith, h, count-parent id now rs, count-completed id now rs)

-- the runs that wait once a run is completed
left : String → World → ℕ
unfolding completed_rows waiting_count
left id w = waiting_count (completed_rows id w.now w.runs)

ended_rows :
    (id : String) (c : Context) (w : World)
    → ((end_as_completed id c w).runs ≡ completed_rows id w.now w.runs)
      × ((end_as_completed id c w).now ≡ w.now)
unfolding end_as_completed update_run cleanup_run record_activity completed_rows
ended_rows id c w = elim (Option-cases c.conversation_id) [
  | inl h ↦ rw (h) (refl, refl)
  | inr (x, h) ↦ rw (h) (refl, refl)
]

left_parent :
    (parent : String) (p : Context) (v : World)
    → parent_waits (find_run parent v) ≡ true
    → left parent (save_context p v) < waiting_count v.runs
unfolding left save_context
left_parent parent p v h = count-parent parent v.now v.runs h

-- Two ways to complete a run, where they agree on every parent that waits.
resume_parent_cong :
    (f g : String → Context → World → World) (c : Context) (status : String) (e : Option String)
    (v : World)
    → ((parent : String) (p : Context)
        → parent_waits (find_run parent v) ≡ true
        → f parent p (save_context p v) ≡ g parent p (save_context p v))
    → resume_parent f c status e v ≡ resume_parent g c status e v
unfolding resume_parent go_on_parent complete_parent
resume_parent_cong f g c status e v h =
    elim (Option-cases (filled (value_of "triggeredByRunId" c.trigger))) [
      | inl a ↦ rw (resume_parent, a) refl
      | inr (parent, a) ↦
          rw (resume_parent, a) (waits parent (Bool-cases (parent_waits (find_run parent v))))
    ]
  where
    completes :
        (parent : String)
        → parent_waits (find_run parent v) ≡ true
        → complete_parent f c status e parent v ≡ complete_parent g c status e parent v
    completes parent w = elim (Option-cases (load_context parent v)) [
      | inl a ↦ rw (complete_parent, a) refl
      | inr (p, a) ↦ rw (complete_parent, a) (h parent (parent_left p c status e) w)
    ]

    goes_on :
        (parent : String)
        → parent_waits (find_run parent v) ≡ true
        → go_on_parent f c status e parent v ≡ go_on_parent g c status e parent v
    goes_on parent w = elim (Option-cases (filled (value_of "resumeParentStepId" c.trigger))) [
      | inl a ↦ rw (go_on_parent, a) (completes parent w)
      | inr (step, a) ↦ rw (go_on_parent, a) refl
    ]

    waits :
        (parent : String)
        → (parent_waits (find_run parent v) ≡ true) ⊎ (parent_waits (find_run parent v) ≡ false)
        → (if parent_waits (find_run parent v) then go_on_parent f c status e parent v else v)
          ≡ (if parent_waits (find_run parent v) then go_on_parent g c status e parent v else v)
    waits parent (inl w) = rw (w) (goes_on parent w)
    waits parent (inr w) = rw (w) refl

-- More rounds than runs that wait change nothing.
rounds_enough :
    (m n : ℕ) (id : String) (c : Context) (w : World)
    → left id w < m
    → left id w < n
    → complete_within m id c w ≡ complete_within n id c w
unfolding complete_within left
rounds_enough zero n id c w h k = absurd (omega arith)
rounds_enough (suc m) zero id c w h k = absurd (omega arith)
rounds_enough (suc m) (suc n) id c w h k =
    let v = end_as_completed id c w in
    resume_parent_cong (complete_within m) (complete_within n) c "completed" none v (λ parent p q.
      let count = ap waiting_count (ended_rows id c w).0 in
      let fewer = left_parent parent p v q in
      rounds_enough m n parent p (save_context p v) (ground (arith, count, fewer))
        (ground (arith, count, fewer)))

left-length : (id : String) (w : World) → left id w ≤ length w.runs
unfolding left
left-length id w =
    let a = count-completed id w.now w.runs in let b = count-length w.runs in omega arith

-- `completeRun` is the function that its source is, without a bound: the run ends, and a parent that
-- waits and has no step to go on with is completed by the same function, and so on, however long the
-- chain of parents is.
pub complete_run_terminates :
    (run_id : String) (c : Context) (w : World)
    → complete_run run_id c w
      ≡ resume_parent complete_run c "completed" none (end_as_completed run_id c w)
unfolding complete_run complete_within left
complete_run_terminates run_id c w =
    let v = end_as_completed run_id c w in
    resume_parent_cong (complete_within (length w.runs)) complete_run c "completed" none v
      (λ parent p q.
        let count = ap waiting_count (ended_rows run_id c w).0 in
        let fewer = left_parent parent p v q in
        let few = left-length run_id w in
        let same = left-length parent (save_context p v) in
        rounds_enough (length w.runs) (suc (length v.runs)) parent p (save_context p v)
          (ground (arith, count, fewer, few)) (ground (arith, same)))
