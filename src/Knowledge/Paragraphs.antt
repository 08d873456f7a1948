-- ===== src/Knowledge/Paragraphs.antt =====
-- `splitSection` of src/modules/ai-agents/knowledge/smart-chunker.util.ts, at the paragraphs that its
-- regular expression gives (Sections.antt).
use desk_be.Common.{
  ℕ, ◌*◌, ◌≤◌, String, List, [], ◌∷◌, ◌++◌, map, Bool, ◌||◌, Option, none, some, ◌≡◌, refl, leb,
  str_eq, join, Bool-cases, inl, inr, arith, if◌then◌else◌,
}
use desk_be.Knowledge.{size, chunk_of, force_split, estimate_tokens}
use desk_be.Knowledge.Cover.{force_split-IsCover}

append_all : Option (List String) → Option (List String) → Option (List String)
append_all none other = none
append_all (some cs) none = none
append_all (some cs) (some bs) = some (cs ++ bs)

-- `` current ? `${current}\n\n${paragraph}` : paragraph ``
candidate : String → String → String
candidate current paragraph =
    if str_eq current "" then paragraph else join current (join "\n\n" paragraph)

-- `this.estimateTokens(candidate) <= targetTokens || !current`
takes : ℕ → String → String → Bool
unfolding candidate estimate_tokens
takes target current paragraph =
    leb (estimate_tokens (candidate current paragraph)) target || str_eq current ""

-- The loop: the paragraphs that are left, after those that `current` has collected.
merge : ℕ → ℕ → ℕ → String → List String → Option (List String)
unfolding candidate takes force_split estimate_tokens append_all
merge target max_tokens overlap current [] =
    if str_eq current "" then some [] else force_split current max_tokens overlap
merge target max_tokens overlap current (p ∷ ps) =
    let c : String = candidate current p in
    let go_on = merge target max_tokens overlap c ps in
    let anew = merge target max_tokens overlap p ps in
    if takes target current p
    then (if leb (estimate_tokens c) max_tokens
        then go_on
        else append_all (force_split c max_tokens overlap) anew)
    else append_all (force_split current max_tokens overlap) anew

-- `splitSection`
unfoldable pub split_section : List String → ℕ → ℕ → ℕ → Option (List String)
unfolding merge
split_section paragraphs target max_tokens overlap = merge target max_tokens overlap "" paragraphs

Ends : Option (List String) → Type 0
Ends r = (cs : List String) × (r ≡ some cs)

force_split-Ends : (text : String) (m v : ℕ) → 1 ≤ m → Ends (force_split text m v)
unfolding Ends force_split
force_split-Ends text m v h = elim (Bool-cases (leb (size text) (m * 4))) [
  | inl e ↦ rw (e) (text ∷ [], refl)
  | inr e ↦
      let r = force_split-IsCover text m v h (ground (arith, e)) in (map (chunk_of text) r.0, r.1)
]

append-Ends : (a b : Option (List String)) → Ends a → Ends b → Ends (append_all a b)
unfolding Ends append_all
append-Ends a b (cs, e) (bs, f) = rw (e, f) (cs ++ bs, refl)

merge-Ends :
    (t m v : ℕ) (current : String) (ps : List String) → 1 ≤ m → Ends (merge t m v current ps)
unfolding merge Ends
merge-Ends t m v current [] h = elim (Bool-cases (str_eq current "")) [
  | inl e ↦ rw (e) ([], refl)
  | inr e ↦ rw (e) (force_split-Ends current m v h)
]
merge-Ends t m v current (p ∷ ps) h = elim (Bool-cases (takes t current p)) [
  | inl e ↦ elim (Bool-cases (leb (estimate_tokens (candidate current p)) m)) [
    | inl f ↦ rw (e, f) (merge-Ends t m v (candidate current p) ps h)
    | inr f ↦
        rw (e, f)
          (append-Ends _ _ (force_split-Ends (candidate current p) m v h) (merge-Ends t m v p ps h))
  ]
  | inr e ↦ rw (e) (append-Ends _ _ (force_split-Ends current m v h) (merge-Ends t m v p ps h))
]

-- Splitting a section ends with a list of chunks, whatever its paragraphs and the settings, if a
-- chunk may have one token.
pub split_section-ends :
    (paragraphs : List String) (target max_tokens overlap : ℕ)
    → 1 ≤ max_tokens
    → (cs : List String) × (split_section paragraphs target max_tokens overlap ≡ some cs)
unfolding split_section Ends
split_section-ends ps target m v h = merge-Ends target m v "" ps h
