-- ===== src/Workflows/Conditions.antt =====
-- The conditions of triggers and branches (`evaluateConditions`, `evaluateBranchConditions`,
-- `evaluateSingle` and the fields that they read) of
-- src/modules/workflows/workflow-engine.service.ts.
use Prim.Native.String.{String as Text}
use Prim.Native.Char.{code}
use desk_be.Common.{
  ℕ, zero, suc, String, List, [], ◌∷◌, map, Bool, true, false, Option, none, some, str_eq, get_or,
  length, any, all, keep, contains, includes, join, trim, to_lower, ◌==◌, ◌&&◌, ◌||◌, not,
  if◌then◌else◌,
}
use desk_be.Workflows.Values.{
  Scalar, Value, undefined, null, text, number, flag, keyed, one, array, scalar_eq,
}
use desk_be.Workflows.Config.{Condition}

-- What JavaScript makes of texts and dates as numbers. `after` and `at_least` are `>` and `>=`, false
-- on NaN. `index` is `Number(s)` where that is an integer above 0. `time` is `new Date(value).getTime()`, `since now
-- value` is the time from it to `now`, which is negative at a time in the future, and NaN at none.
pub record Numbers : Type 1 where
  pub Num : Type 0
  pub of_number : ℕ → Num
  pub of_text : String → Num
  pub parse_float : String → Num
  pub parse_int : String → Num
  pub is_nan : Num → Bool
  pub index : String → Option ℕ
  pub digits : ℕ → String
  pub time : Value → Num
  pub since : ℕ → Value → Scalar
  pub times : Num → ℕ → Num
  pub after : Num → Num → Bool
  pub at_least : Num → Num → Bool

-- `s.split('|')`
split_from : String → String → List String
split_from seen Text.[] = seen ∷ []
split_from seen (Text.◌∷◌ c s) =
    let stop = split_from "" s in
    let go = split_from (join seen (Text.◌∷◌ c "")) s in if code c == 124 then seen ∷ stop else go

unfoldable pub split_bar : String → List String
unfolding split_from
split_bar = split_from ""

-- `parts[i]`, on the parts of a split
part : ℕ → List String → Option String
part i [] = none
part zero (x ∷ xs) = some x
part (suc i) (x ∷ xs) = part i xs

-- `unitMap[unit] ?? 60_000`
unit_ms : Option String → ℕ
unit_ms none = 60000
unit_ms (some unit) =
    if str_eq unit "minutes"
    then 60000
    else if str_eq unit "hours"
    then 3600000
    else if str_eq unit "days"
    then 86400000
    else 60000

unfoldable pub scalars_of : Value → List Scalar
scalars_of (one s) = s ∷ []
scalars_of (array vs) = vs

unfoldable pub is_empty_value : Value → Bool
is_empty_value (one undefined) = true
is_empty_value (one null) = true
is_empty_value (one (text s)) = str_eq s ""
is_empty_value (one s) = false
is_empty_value (array []) = true
is_empty_value (array (v ∷ vs)) = false

unfoldable pub among : List Scalar → Scalar → Bool
unfolding scalar_eq
among xs x = any (λ y. scalar_eq y x) xs

module _ (n : Numbers) where
  open n use {Num, of_number, of_text, parse_float, digits, time, since, times, after, at_least}

  -- `String(value)`
  unfoldable pub shown_scalar : Scalar → String
  shown_scalar undefined = "undefined"
  shown_scalar null = "null"
  shown_scalar (text s) = s
  shown_scalar (number m) = digits m
  shown_scalar (flag true) = "true"
  shown_scalar (flag false) = "false"
  shown_scalar (keyed ks) = "[object Object]"

  -- the element of an array that is joined to a text
  element : Scalar → String
  unfolding shown_scalar
  element undefined = ""
  element null = ""
  element s = shown_scalar s

  elements : List Scalar → String
  unfolding element
  elements [] = ""
  elements (v ∷ []) = element v
  elements (v ∷ w ∷ vs) = join (element v) (join "," (elements (w ∷ vs)))

  unfoldable pub shown : Value → String
  unfolding shown_scalar elements
  shown (one s) = shown_scalar s
  shown (array vs) = elements vs

  -- `Number(value)` of a value that is not empty
  to_number : Value → Num
  unfolding shown
  to_number (one (number m)) = of_number m
  to_number (one (flag true)) = of_number 1
  to_number (one (flag false)) = of_number 0
  to_number v = of_text (shown v)

  -- a value that is there and not blank
  given : Scalar → Bool
  unfolding shown_scalar
  given undefined = false
  given null = false
  given s = not (str_eq (trim (shown_scalar s)) "")

  -- `Number(parts[i])` and `parseFloat(parts[i])`: a part that is missing is `undefined`
  number_part : ℕ → List String → Num
  unfolding part
  number_part i parts = of_text (get_or (part i parts) "undefined")

  float_part : ℕ → List String → Num
  unfolding part
  float_part i parts = parse_float (get_or (part i parts) "undefined")

  date_part : ℕ → List String → Num
  unfolding part
  date_part i parts = elim (part i parts) [
    | none ↦ time (one undefined)
    | some s ↦ time (one (text s))
  ]

  -- the operators on arrays, where the values to look for are not all blank
  array_match : String → List Scalar → List Scalar → Bool
  unfolding among
  array_match operator arr vals =
      if length vals == 0
      then false
      else if str_eq operator "has_any_of"
      then any (among vals) arr
      else if str_eq operator "has_all_of"
      then all (among arr) vals
      else not (any (among vals) arr)

  timestamp_match : String → Value → Value → Bool
  unfolding date_part split_bar shown
  timestamp_match operator value cond =
      let parts = split_bar (shown cond) in
      if str_eq operator "is_timestamp_after"
      then after (time value) (time cond)
      else if str_eq operator "is_timestamp_before"
      then after (time cond) (time value)
      else at_least (time value) (date_part 0 parts) && at_least (date_part 1 parts) (time value)

  duration_match : String → Value → Value → Bool
  unfolding number_part split_bar shown to_number unit_ms part
  duration_match operator value cond =
      let ms = to_number value in
      let parts = split_bar (shown cond) in
      if str_eq operator "is_greater_than_time"
      then after ms (times (number_part 0 parts) (unit_ms (part 1 parts)))
      else if str_eq operator "is_less_than_time"
      then after (times (number_part 0 parts) (unit_ms (part 1 parts))) ms
      else at_least ms (times (number_part 0 parts) (unit_ms (part 2 parts)))
        && at_least (times (number_part 1 parts) (unit_ms (part 2 parts))) ms

  number_match : String → Value → Value → Bool
  unfolding float_part split_bar shown
  number_match operator value cond =
      let num = parse_float (shown value) in
      let parts = split_bar (shown cond) in
      if str_eq operator "is_greater_than"
      then after num (parse_float (shown cond))
      else if str_eq operator "is_less_than"
      then after (parse_float (shown cond)) num
      else at_least num (float_part 0 parts) && at_least (float_part 1 parts) num

  text_match : String → Value → Value → Bool
  unfolding shown shown_scalar scalars_of to_lower includes
  text_match operator value cond =
      let cv = to_lower (shown cond) in
      let values = map (λ s. to_lower (shown_scalar s)) (scalars_of value) in
      if str_eq operator "is_equal_to"
      then any (λ item. str_eq item cv) values
      else if str_eq operator "is_not_equal_to"
      then all (λ item. not (str_eq item cv)) values
      else if str_eq operator "contains"
      then any (λ item. includes item cv) values
      else if str_eq operator "does_not_contain"
      then all (λ item. not (includes item cv)) values
      else false

  -- `evaluateSingle`
  unfoldable pub evaluate_single : String → Value → Value → Bool
  unfolding array_match given scalars_of is_empty_value timestamp_match duration_match number_match
      text_match
  evaluate_single operator value cond =
      if contains ("has_any_of" ∷ "has_all_of" ∷ "has_none_of" ∷ []) operator
      then array_match operator (scalars_of value) (keep given (scalars_of cond))
      else if str_eq operator "exists"
      then not (is_empty_value value)
      else if str_eq operator "does_not_exist"
      then is_empty_value value
      else if is_empty_value value
      then false
      else if contains ("is_timestamp_after" ∷ "is_timestamp_before" ∷ "is_timestamp_between" ∷ [])
          operator
      then timestamp_match operator value cond
      else if contains ("is_greater_than_time" ∷ "is_less_than_time" ∷ "is_between_time" ∷ [])
          operator
      then duration_match operator value cond
      else if contains ("is_greater_than" ∷ "is_less_than" ∷ "is_between" ∷ []) operator
      then number_match operator value cond
      else text_match operator value cond

  -- The loop of `evaluateConditions` and `evaluateBranchConditions`: `logic` is the operator of the
  -- condition before.
  unfoldable pub fold_conditions :
      (Condition → Value) → Bool → Option String → List Condition → Bool
  unfolding evaluate_single
  fold_conditions field result logic [] = result
  fold_conditions field result logic (c ∷ cs) =
      let matched = evaluate_single c.operator (field c) c.value in
      fold_conditions field
        (if str_eq (get_or logic "AND") "AND" then result && matched else result || matched)
        c.logical_operator cs

  unfoldable pub meets : (Condition → Value) → List Condition → Bool
  unfolding fold_conditions evaluate_single
  meets field [] = true
  meets field (c ∷ cs) =
      fold_conditions field (evaluate_single c.operator (field c) c.value) c.logical_operator cs
