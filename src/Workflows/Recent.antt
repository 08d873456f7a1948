-- ===== src/Workflows/Recent.antt =====
-- How long an answer that was marked is remembered (`markProcessedAnswerMessage` of
-- src/modules/workflows/workflow-engine.service.ts).
use desk_be.Common.{
  ℕ, suc, ◌+◌, ◌-◌, ◌≤◌, String, List, [], ◌∷◌, ◌++◌, Bool, true, false, some, str_eq, length,
  contains, keep, trim, not, leb, ◌&&◌, ◌≡◌, refl, sym, ◌∙◌, ap, eq_iff, eq_refl, arith, get_or,
  Bool-cases, Option-cases, inl, inr, if◌then◌else◌,
}
use desk_be.Workflows.Values.{Scalar, Value, one, array, value_of, filled}
use desk_be.Workflows.World.{Context}
use desk_be.Workflows.Answers.{
  filled_texts, texts_in, texts, drop, last_ones, processed_key, max_processed, processed_ids,
  mark_processed,
}
use desk_be.Workflows.Tables.{lookup-put_same}

-- the id is in the list, with at most `n` others behind it
unfoldable recent : ℕ → String → List String → Bool
recent n id [] = false
recent n id (x ∷ xs) =
    let rest = recent n id xs in if str_eq x id && leb (length xs) n then true else rest

contains-recent :
    (n : ℕ) (id : String) (xs : List String) → recent n id xs ≡ true → contains xs id ≡ true
unfolding recent
contains-recent n id [] h = cc
contains-recent n id (x ∷ xs) h = ground (arith, h, contains-recent n id xs)

recent_mono :
    (n m : ℕ) (id : String) (xs : List String)
    → n ≤ m
    → recent n id xs ≡ true
    → recent m id xs ≡ true
unfolding recent
recent_mono n m id [] l h = cc
recent_mono n m id (x ∷ xs) l h = ground (arith, l, h, recent_mono n m id xs l)

length-snoc : (xs : List String) (x : String) → length (xs ++ x ∷ []) ≡ suc (length xs)
length-snoc [] x = refl
length-snoc (y ∷ xs) x = ap suc (length-snoc xs x)

recent-snoc :
    (n : ℕ) (id y : String) (xs : List String)
    → recent n id xs ≡ true
    → recent (n + 1) id (xs ++ y ∷ []) ≡ true
unfolding recent
recent-snoc n id y [] h = cc
recent-snoc n id y (x ∷ xs) h = ground (arith, h, length-snoc xs y, recent-snoc n id y xs)

recent-snoc_same : (id : String) (xs : List String) → recent 0 id (xs ++ id ∷ []) ≡ true
unfolding recent
recent-snoc_same id [] = ground (arith, eq_refl id)
recent-snoc_same id (x ∷ xs) = ground (arith, recent-snoc_same id xs)

length-keep : (p : String → Bool) (xs : List String) → length (keep p xs) ≤ length xs
length-keep p [] = omega arith
length-keep p (x ∷ xs) = ground (arith, length-keep p xs)

recent-keep :
    (n : ℕ) (id : String) (p : String → Bool) (xs : List String)
    → p id ≡ true
    → recent n id xs ≡ true
    → recent n id (keep p xs) ≡ true
unfolding recent
recent-keep n id p [] k h = cc
recent-keep n id p (x ∷ xs) k h = elim (Bool-cases (str_eq x id)) [
  | inl same ↦
      rw (ap p ((eq_iff x id).0 same) ∙ k)
        (ground (arith, h, same, length-keep p xs, recent-keep n id p xs k))
  | inr other ↦ ground (arith, h, other, recent-keep n id p xs k)
]

recent-drop :
    (n k : ℕ) (id : String) (xs : List String)
    → k ≤ length xs - suc n
    → recent n id xs ≡ true
    → recent n id (drop k xs) ≡ true
unfolding recent drop
recent-drop n k id [] l h = cc
recent-drop n k id (x ∷ xs) l h = ground (arith, l, h, recent-drop n (k - 1) id xs)

length-filled : (xs : List String) → length (filled_texts (texts xs)) ≤ length xs
unfolding filled_texts texts
length-filled [] = omega arith
length-filled (x ∷ xs) = ground (arith, length-filled xs)

recent-filled :
    (n : ℕ) (id : String) (xs : List String)
    → str_eq (trim id) "" ≡ false
    → recent n id xs ≡ true
    → recent n id (filled_texts (texts xs)) ≡ true
unfolding filled_texts texts recent
recent-filled n id [] k h = cc
recent-filled n id (x ∷ xs) k h =
    ground (arith, k, h, recent-filled n id xs k, length-filled xs, eq_iff x id)

-- a value that is filled is a text that is not blank
not_blank : (v : Value) (id : String) → filled v ≡ some id → str_eq (trim id) "" ≡ false
unfolding filled
not_blank v id h = ground (arith, h)

-- what is remembered before the last marked id
abbrev others : Context → String → List String
others c id = keep (λ s. not (str_eq s id)) (processed_ids c)

marked :
    (c : Context) (v : Value) (id : String)
    → filled v ≡ some id
    → processed_ids (mark_processed c v)
      ≡ filled_texts (texts (last_ones max_processed (others c id ++ id ∷ [])))
unfolding mark_processed processed_ids texts_in value_of
marked c v id h =
    rw (mark_processed, h)
      (ap (λ o. texts_in (get_or o (one Scalar.undefined)))
        (lookup-put_same processed_key
          (array (texts (last_ones max_processed (others c id ++ id ∷ [])))) c.vars))

-- An id that is among the last hundred stays there when the list is cut.
recent-kept :
    (n : ℕ) (id : String) (xs : List String)
    → n ≤ 99
    → str_eq (trim id) "" ≡ false
    → recent n id xs ≡ true
    → recent n id (filled_texts (texts (last_ones max_processed xs))) ≡ true
unfolding last_ones
recent-kept n id xs l k h =
    recent-filled n id (last_ones max_processed xs) k
      (recent-drop n (length xs - max_processed) id xs (ground (arith, l)) h)

recent-mark_same :
    (c : Context) (v : Value) (id : String)
    → filled v ≡ some id
    → recent 0 id (processed_ids (mark_processed c v)) ≡ true
recent-mark_same c v id h = rw (marked c v id h) (
    recent-kept 0 id (others c id ++ id ∷ []) (omega arith) (not_blank v id h)
      (recent-snoc_same id (others c id)))

recent-mark :
    (n : ℕ) (c : Context) (v : Value) (id : String)
    → n + 1 ≤ 99
    → str_eq (trim id) "" ≡ false
    → recent n id (processed_ids c) ≡ true
    → recent (n + 1) id (processed_ids (mark_processed c v)) ≡ true
unfolding mark_processed
recent-mark n c v id l k h = elim (Option-cases (filled v)) [
  | inl e ↦
      recent_mono n (n + 1) id (processed_ids (mark_processed c v)) (omega arith)
        (rw (mark_processed, e) h)
  | inr (x, e) ↦ elim (Bool-cases (str_eq id x)) [
    | inl same ↦
        let id≡x = (eq_iff id x).0 same in
        recent_mono 0 (n + 1) id (processed_ids (mark_processed c v)) (omega arith)
          (recent-mark_same c v id (e ∙ ap some (sym id≡x)))
    | inr other ↦ rw (marked c v x e) (
        recent-kept (n + 1) id (others c x ++ x ∷ []) l k (
          recent-snoc n id x (others c x)
            (recent-keep n id (λ s. not (str_eq s x)) (processed_ids c) (rw other refl) h)))
  ]
]

-- `markProcessedAnswerMessage` for one message after the other
unfoldable pub mark_each : Context → List Value → Context
mark_each c [] = c
mark_each c (v ∷ vs) = mark_each (mark_processed c v) vs

recent-mark_each :
    (n : ℕ) (c : Context) (vs : List Value) (id : String)
    → n + length vs ≤ 99
    → str_eq (trim id) "" ≡ false
    → recent n id (processed_ids c) ≡ true
    → recent (n + length vs) id (processed_ids (mark_each c vs)) ≡ true
unfolding mark_each
recent-mark_each n c [] id l k h = recent_mono n (n + 0) id (processed_ids c) (omega arith) h
recent-mark_each n c (v ∷ vs) id l k h =
    recent_mono (n + 1 + length vs) (n + length (v ∷ vs)) id
      (processed_ids (mark_each (mark_processed c v) vs)) (ground arith)
      (recent-mark_each (n + 1) (mark_processed c v) vs id (ground (arith, l)) k
        (recent-mark n c v id (ground (arith, l)) k h))

-- An answer that was marked is remembered until a hundred more have been.
pub remembered :
    (c : Context) (v : Value) (vs : List Value) (id : String)
    → filled v ≡ some id
    → length vs ≤ 99
    → contains (processed_ids (mark_each (mark_processed c v) vs)) id ≡ true
remembered c v vs id h l =
    contains-recent (length vs) id (processed_ids (mark_each (mark_processed c v) vs)) (
      recent_mono (0 + length vs) (length vs) id (processed_ids (mark_each (mark_processed c v) vs))
        (omega arith)
        (recent-mark_each 0 (mark_processed c v) vs id (ground (arith, l)) (not_blank v id h)
          (recent-mark_same c v id h)))
