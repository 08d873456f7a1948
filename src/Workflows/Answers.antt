-- ===== src/Workflows/Answers.antt =====
-- The answers that a run has processed (`hasProcessedAnswerMessage`, `markProcessedAnswerMessage`,
-- `getProcessedAnswerMessageIds` of src/modules/workflows/workflow-engine.service.ts).
use desk_be.Common.{
  ℕ, String, List, [], ◌∷◌, ◌++◌, ◌-◌, Bool, false, none, some, str_eq, length, contains, keep,
  trim, not, ltb, if◌then◌else◌,
}
use desk_be.Workflows.Values.{Scalar, Value, text, one, array, value_of, put, filled}
use desk_be.Workflows.World.{Context}

-- the strings of an array that are not blank
unfoldable pub filled_texts : List Scalar → List String
filled_texts [] = []
filled_texts (text s ∷ vs) =
    let rest = filled_texts vs in if str_eq (trim s) "" then rest else s ∷ rest
filled_texts (v ∷ vs) = filled_texts vs

-- `PROCESSED_ANSWER_MESSAGE_IDS_KEY`
abbrev pub processed_key : String
processed_key = "__processedAnswerMessageIds"

unfoldable pub texts_in : Value → List String
unfolding filled_texts
texts_in (array vs) = filled_texts vs
texts_in (one v) = []

-- `getProcessedAnswerMessageIds`
unfoldable pub processed_ids : Context → List String
unfolding texts_in value_of
processed_ids c = texts_in (value_of processed_key c.vars)

-- `hasProcessedAnswerMessage`
unfoldable pub has_processed : Context → Value → Bool
unfolding filled processed_ids
has_processed c message = elim (filled message) [
  | none ↦ false
  | some id ↦ contains (processed_ids c) id
]

-- `xs.slice(-n)`, at an `n` that is not 0
unfoldable pub drop : {A : Type 0} → ℕ → List A → List A
drop n [] = []
drop n (x ∷ xs) = let rest = drop (n - 1) xs in if ltb 0 n then rest else x ∷ xs

unfoldable pub last_ones : {A : Type 0} → ℕ → List A → List A
unfolding drop
last_ones n xs = drop (length xs - n) xs

abbrev pub max_processed : ℕ
max_processed = 100

unfoldable pub texts : List String → List Scalar
texts [] = []
texts (s ∷ ss) = text s ∷ texts ss

-- `markProcessedAnswerMessage`
unfoldable pub mark_processed : Context → Value → Context
unfolding filled processed_ids last_ones texts put
mark_processed c message = elim (filled message) [
  | none ↦ c
  | some id ↦ record c {
    vars =
        put processed_key
          (array (
            texts (
              last_ones max_processed
                (keep (λ s. not (str_eq s id)) (processed_ids c) ++ id ∷ []))))
          c.vars;
  }
]
