-- ===== src/Workflows/Questions.antt =====
-- The answers to questions (`normaliseQuestionAnswer`, `validateAnswer`, `resolveRatingAnswer`,
-- `resolveMultipleChoiceAnswer`, `buildQuestionQuickReplies`, `askQuestionTimeoutDelayMs`) of
-- src/modules/workflows/workflow-engine.service.ts.
use Prim.Native.Char.{code}
use Prim.Native.String.{String as Text}
use desk_be.Common.{
  ℕ, zero, suc, ◌*◌, ◌-◌, min, String, List, [], ◌∷◌, Bool, false, Option, none, some, str_eq,
  length, leb, ◌==◌, find, join, trim, to_lower, is_space, present, is_some, get_or, not, ◌&&◌,
  ◌||◌, if◌then◌else◌,
}
use desk_be.Workflows.Config.{Question}
use desk_be.Workflows.Conditions.{Numbers}

-- `answer.replace(/\s+/g, '').replace(/\uFE0F/g, '')`
compact : String → String
unfolding is_space
compact Text.[] = ""
compact (Text.◌∷◌ c s) =
    let rest = compact s in if is_space c || code c == 65039 then rest else Text.◌∷◌ c rest

-- the stars of a text of stars
stars : String → Option ℕ
stars Text.[] = some 0
stars (Text.◌∷◌ c s) = elim (stars s) [
  | none ↦ none
  | some n ↦ if code c == 11088 || code c == 9733 then some (suc n) else none
]

-- `options[i]`
nth : ℕ → List String → Option String
nth n [] = none
nth zero (x ∷ xs) = some x
nth (suc n) (x ∷ xs) = nth n xs

-- `label?.trim() || null`
trimmed : Option String → Option String
trimmed none = none
trimmed (some s) = present (some (trim s))

module _ (n : Numbers) where
  open n use {of_number, parse_float, parse_int, is_nan, index, digits, after}

  -- `resolveRatingAnswer`
  unfoldable pub resolve_rating_answer : String → Option String
  unfolding compact stars
  resolve_rating_answer answer = elim (present (some (compact answer))) [
    | none ↦ none
    | some s ↦ elim (stars s) [
      | none ↦ none
      | some k ↦ if leb 1 k && leb k 5 then some (digits k) else none
    ]
  ]

  by_label : String → List String → Option String
  by_label val options = find (λ o. str_eq (to_lower (trim o)) (to_lower val)) options

  -- `resolveMultipleChoiceAnswer`
  unfoldable pub resolve_multiple_choice_answer : String → List String → Option String
  unfolding nth trimmed by_label
  resolve_multiple_choice_answer answer options =
      if length options == 0 then none else elim (index (trim answer)) [
        | none ↦ trimmed (by_label (trim answer) options)
        | some i ↦
            if leb 1 i && leb i (length options)
            then trimmed (nth (i - 1) options)
            else trimmed (by_label (trim answer) options)
      ]

  -- `normaliseQuestionAnswer`, of an answer as a text
  unfoldable pub normalise_question_answer : String → Question → String
  unfolding resolve_rating_answer resolve_multiple_choice_answer
  normalise_question_answer answer q =
      let val = trim answer in
      if str_eq q.question_type "rating"
      then get_or (resolve_rating_answer val) val
      else if not (str_eq q.question_type "multiple_choice")
      then val
      else get_or (resolve_multiple_choice_answer val q.options) val

  below : Option ℕ → String → Bool
  below none val = false
  below (some m) val = after (of_number m) (parse_float val)

  above : Option ℕ → String → Bool
  above none val = false
  above (some m) val = after (parse_float val) (of_number m)

  joined : List String → String
  joined [] = ""
  joined (x ∷ []) = x
  joined (x ∷ y ∷ xs) = join x (join ", " (joined (y ∷ xs)))

  -- the case of a number in `validateAnswer`; `some` is the reason why the answer is refused
  check_number : String → Question → Option String
  unfolding below above
  check_number val q =
      if is_nan (parse_float val)
      then some "not a valid number"
      else if below q.number_min val
      then some (join "number must be at least " (digits (get_or q.number_min 0)))
      else if above q.number_max val
      then some (join "number must be at most " (digits (get_or q.number_max 0)))
      else none

  check_rating : String → Option String
  check_rating val =
      if is_nan (parse_int val)
        || after (of_number 1) (parse_int val)
        || after (parse_int val) (of_number 5)
      then some "rating must be between 1 and 5"
      else none

  check_choice : String → Question → Option String
  unfolding resolve_multiple_choice_answer joined
  check_choice val q =
      if length q.options == 0 || is_some (resolve_multiple_choice_answer val q.options)
      then none
      else some (join "answer must be one of: " (joined q.options))

  -- `validateAnswer`; `well_formed` are the tests by patterns, of URLs and of dates
  unfoldable pub validate_answer : (String → String → Bool) → String → Question → Option String
  unfolding check_number check_rating check_choice
  validate_answer well_formed answer q =
      let val = trim answer in
      if str_eq val ""
      then some "empty answer"
      else if str_eq q.question_type "number"
      then check_number val q
      else if str_eq q.question_type "email" && not (well_formed "email" val)
      then some "not a valid email address"
      else if str_eq q.question_type "phone" && not (well_formed "phone" val)
      then some "not a valid phone number"
      else if str_eq q.question_type "url" && not (well_formed "url" val)
      then some "not a valid URL"
      else if str_eq q.question_type "date" && not (well_formed "date" val)
      then some "not a valid date"
      else if str_eq q.question_type "rating"
      then check_rating val
      else if str_eq q.question_type "multiple_choice"
      then check_choice val q
      else none

-- `askQuestionTimeoutDelayMs`
unfoldable pub ask_question_timeout_delay : Question → Option ℕ
ask_question_timeout_delay q = elim q.timeout_value [
  | none ↦ none
  | some v ↦
      if v == 0
      then none
      else some (
          min
            (v
              * (if str_eq q.timeout_unit "seconds"
                  then 1000
                  else if str_eq q.timeout_unit "minutes"
                  then 60000
                  else if str_eq q.timeout_unit "hours"
                  then 3600000
                  else 86400000))
            (7 * 86400000))
]
