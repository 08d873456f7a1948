-- ===== src/Workflows/Groups.antt =====
-- What a list of conditions means (`evaluateConditions`, `evaluateBranchConditions` of
-- src/modules/workflows/workflow-engine.service.ts).
use desk_be.Common.{
  String, List, [], ◌∷◌, Bool, true, false, Option, str_eq, get_or, not, ◌&&◌, ◌||◌, ◌≡◌, refl, ◌∙◌,
  arith, if◌then◌else◌,
}
use desk_be.Workflows.Values.{Value}
use desk_be.Workflows.Config.{Condition}
use desk_be.Workflows.Conditions.{Numbers, evaluate_single, fold_conditions, meets}

-- one condition more
regroup :
    (a r m l s : Bool)
    → (((if a then r && m else r || m) && l) || s)
      ≡ ((r && ((not a || m) && l)) || ((not a && m && l) || s))
regroup true true m l s = ground arith
regroup true false m l s = ground arith
regroup false r true l s = ground arith
regroup false r false l s = ground arith

module _ (n : Numbers) (field : Condition → Value) where
  abbrev pub matches : Condition → Bool
  matches c = evaluate_single n c.operator (field c) c.value

  is_and : Option String → Bool
  is_and logic = str_eq (get_or logic "AND") "AND"

  -- every condition that is joined by AND matches
  unfoldable pub all_joined : Option String → List Condition → Bool
  unfolding is_and
  all_joined logic [] = true
  all_joined logic (c ∷ cs) =
      let rest = all_joined c.logical_operator cs in (not (is_and logic) || matches c) && rest

  -- a condition after an OR matches, and so does every later one that is joined by AND
  unfoldable pub restarts : Option String → List Condition → Bool
  unfolding is_and all_joined
  restarts logic [] = false
  restarts logic (c ∷ cs) =
      let rest = restarts c.logical_operator cs in
      (not (is_and logic) && matches c && all_joined c.logical_operator cs) || rest

  fold-groups :
      (result : Bool) (logic : Option String) (cs : List Condition)
      → fold_conditions n field result logic cs
        ≡ ((result && all_joined logic cs) || restarts logic cs)
  unfolding fold_conditions all_joined restarts is_and
  fold-groups result logic [] = ground arith
  fold-groups result logic (c ∷ cs) =
      fold-groups
        (if str_eq (get_or logic "AND") "AND" then result && matches c else result || matches c)
        c.logical_operator cs
      ∙ regroup (is_and logic) result (matches c) (all_joined c.logical_operator cs)
          (restarts c.logical_operator cs)

  -- A list of conditions is met when it is empty, when the first condition and every later one that
  -- is joined by AND matches, or when a condition after an OR and every later one that is joined by
  -- AND matches.
  pub meets-groups :
      (c : Condition) (cs : List Condition)
      → (meets n field [] ≡ true)
        × (meets n field (c ∷ cs)
            ≡ ((matches c && all_joined c.logical_operator cs) || restarts c.logical_operator cs))
  unfolding meets
  meets-groups c cs = (refl, fold-groups (matches c) c.logical_operator cs)
