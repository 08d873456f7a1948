-- ===== src/Workflows/Sending/Buttons.antt =====
-- The answer to a template with buttons (`handleTemplateButtonReply` and what it calls in
-- src/modules/workflows/workflow-engine.service.ts).
use desk_be.Common.{
  ℕ, String, List, [], ◌∷◌, Bool, true, false, Option, none, some, opt_eq, get_or, trim, to_lower,
  is_space, contains, find, keep, length, map, not, ◌&&◌, if◌then◌else◌,
}
use desk_be.Workflows.Values.{Value, Fields, one, text, flag, value_of, remove, filled}
use desk_be.Workflows.Config.{Step, send_message, is_connector}
use desk_be.Workflows.World.{Context}
use desk_be.Workflows.Answers.{mark_processed}
use desk_be.Workflows.Handlers.{Result}

-- `isTemplateButtonBranchingStep`
unfoldable pub is_button_step : Step → Bool
is_button_step s = elim s.kind [ send_message ↦ s.step_data.template_button_branching | _ ↦ false ]

unfoldable pub is_button : Step → Step → Bool
unfolding is_connector
is_button s candidate =
    opt_eq candidate.parent_id s.id
    && is_connector candidate.kind
    && not (opt_eq candidate.name "Failure")

-- `templateButtonConnectorCount`
unfoldable pub button_count : Step → List Step → ℕ
unfolding is_button
button_count s steps = length (keep (is_button s) steps)

-- `.replace(/\s+/g, ' ')`, after a space or not
unfoldable pub one_space : Bool → String → String
unfolding is_space
one_space after String.[] = ""
one_space after (String.◌∷◌ c s) =
    let space = one_space true s in
    let more = one_space false s in
    if is_space c then (if after then space else String.◌∷◌ " " space) else String.◌∷◌ c more

-- `normalizeButtonReply`
unfoldable pub normalize_reply : String → String
unfolding trim to_lower one_space
normalize_reply s = one_space false (to_lower (trim s))

-- the value, trimmed, if it is a text that is not blank
unfoldable pub with_filled : Value → List String → List String
unfolding filled trim
with_filled v rest = elim (filled v) [ none ↦ rest | some s ↦ trim s ∷ rest ]

-- `templateButtonReplyCandidates`
unfoldable pub reply_candidates : Fields → List String
unfolding with_filled value_of
reply_candidates vars = with_filled (value_of "templateButtonReplyTitle" vars) (
    with_filled (value_of "templateButtonReply" vars)
      (with_filled (value_of "templateButtonReplyId" vars) []))

-- `findTemplateButtonConnector`; a connector without a name, which the source does not expect,
-- is none
unfoldable pub find_button : Step → List Step → List String → Option Step
unfolding is_button normalize_reply
find_button s steps replies =
    find
      (λ candidate. is_button s candidate && elim candidate.name [
        | none ↦ false
        | some name ↦ contains (map normalize_reply replies) (normalize_reply name)
      ])
      steps

-- the run has processed the reply
unfoldable pub reply_taken : Context → Context
unfolding mark_processed value_of remove
reply_taken c =
    let d = mark_processed c (value_of "templateButtonReplyMessageId" c.vars) in
    record d {
      vars = remove "templateButtonReplyStepId" (
          remove "templateButtonReplyMessageId" (
            remove "templateButtonReplyId"
              (remove "templateButtonReplyTitle" (remove "templateButtonReply" d.vars))));
    }

abbrev first_of : List String → String → String
first_of [] d = d
first_of (s ∷ ss) d = s

unfoldable pub reply_result : List String → Option Step → Result
reply_result replies none = record {
  output =
      ("waiting", one (flag true))
      ∷ ("unmatchedReply", one (text (first_of replies "")))
      ∷ ("reason", one (text "No template button branch matched"))
      ∷ [];
  branch_connector_id = none;
  next_step_id = none;
  suspend = true;
  wait_for = some "template_button";
}
reply_result replies (some s) = record {
  output =
      ("button", one (text (get_or s.name "")))
      ∷ ("reply", one (text (first_of replies (get_or s.name ""))))
      ∷ ("valid", one (flag true))
      ∷ [];
  branch_connector_id = some s.id;
  next_step_id = none;
  suspend = false;
  wait_for = none;
}

-- `handleTemplateButtonReply`
unfoldable pub handle_button_reply : Step → Context → List Step → Result × Context
unfolding reply_candidates find_button reply_result reply_taken
handle_button_reply s c steps =
    let replies = reply_candidates c.vars in
    (reply_result replies (find_button s steps replies), reply_taken c)
