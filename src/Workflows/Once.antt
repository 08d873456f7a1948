-- ===== src/Workflows/Once.antt =====
-- A run processes an answer once (`markProcessedAnswerMessage` and `resumeRun` of
-- src/modules/workflows/workflow-engine.service.ts).
use desk_be.Common.{◌≤◌, String, List, true, some, length, contains, not, ◌≡◌, refl, ◌∙◌, ap}
use desk_be.Workflows.Values.{Value, Fields, filled}
use desk_be.Workflows.World.{Run, Context, World, find_run, load_context}
use desk_be.Workflows.Runs.{is_waiting}
use desk_be.Workflows.Answers.{processed_ids, has_processed, mark_processed}
use desk_be.Workflows.Resume.{resume_run, resume_message}
use desk_be.Workflows.Recent.{mark_each, remembered}
use desk_be.Workflows.Tables.{at_some, at_true, at_both}

-- A resume with an answer that the run has marked changes nothing, for as long as what the run
-- remembers comes from that mark and at most 99 later ones, of whatever answers.
pub answers_once :
    (run_id : String) (fields : Fields) (w : World) (r : Run) (c d : Context) (v : Value)
    (later : List Value) (id : String)
    → find_run run_id w ≡ some r
    → load_context run_id w ≡ some d
    → processed_ids d ≡ processed_ids (mark_each (mark_processed c v) later)
    → length later ≤ 99
    → resume_message fields ≡ v
    → filled v ≡ some id
    → resume_run run_id fields w ≡ w
unfolding resume_run has_processed
answers_once run_id fields w r c d v later id hr hd same few message h =
    let kept = ap (λ ys. contains ys id) same ∙ remembered c v later id h few in
    let known : has_processed d (resume_message fields) ≡ true =
      ap (has_processed d) message ∙ rw (has_processed, h) kept in
    let P : World → Type 0 = λ x. x ≡ w in
    at_some P (find_run run_id w) r w _ hr (
      at_both P (not (is_waiting r.status)) w _ refl (
        at_some P (load_context run_id w) d w _ hd
          (at_true P (has_processed d (resume_message fields)) w _ known refl)))
