-- ===== src/Knowledge/Sections.antt =====
-- How a text falls into sections and a section into paragraphs (`sections` and the regular expression
-- of `splitSection` of src/modules/ai-agents/knowledge/smart-chunker.util.ts).
use Prim.Native.Char.{Char, code}
use desk_be.Common.{
  ℕ, zero, suc, String, List, [], ◌∷◌, ◌++◌, map, Bool, false, Option, none, some, str_eq, leb,
  ◌==◌, is_space, join, trim, keep, not, ◌&&◌, if◌then◌else◌,
}
use desk_be.Knowledge.Sanitizer.{sanitize, is_newline}

-- a section, or a document's title and content
pub record Section : Type 0 where
  pub title : Option String
  pub content : String

-- a character before the first of the parts
unfoldable pub to_first : Char → List String → List String
to_first c [] = String.◌∷◌ c "" ∷ []
to_first c (part ∷ parts) = String.◌∷◌ c part ∷ parts

-- `text.split('\n')`
unfoldable pub split_lines : String → List String
unfolding is_newline to_first
split_lines String.[] = "" ∷ []
split_lines (String.◌∷◌ c s) =
    let rest = split_lines s in if is_newline c then "" ∷ rest else to_first c rest

-- the parts, trimmed, that are not empty
unfoldable pub trimmed : List String → List String
unfolding trim
trimmed parts = keep (λ p. not (str_eq p "")) (map trim parts)

-- what stands behind the spaces of `\s+`, of which there is one
unfoldable pub after_spaces : String → Option String
unfolding is_space
after_spaces String.[] = none
after_spaces (String.◌∷◌ c s) = if is_space c then some (trim s) else none

-- the title of a line that `/^#{1,6}\s+/` matches, after a number of `#`
unfoldable pub title_after : ℕ → String → Option String
unfolding after_spaces
title_after n String.[] = none
title_after n (String.◌∷◌ c s) =
    let more = title_after (suc n) s in
    if code c == 35 && leb n 5
    then more
    else if leb 1 n
    then after_spaces (String.◌∷◌ c s)
    else none

-- the title of a line that is a heading
unfoldable pub heading : String → Option String
unfolding title_after
heading line = title_after 0 line

unfoldable pub join_lines : List String → String
join_lines [] = ""
join_lines (line ∷ []) = line
join_lines (line ∷ next ∷ lines) = join line (join "\n" (join_lines (next ∷ lines)))

-- `flush`
unfoldable pub flush : (String → String) → Option String → List String → List Section
unfolding sanitize join_lines
flush nfkc title lines =
    let content = sanitize nfkc (join_lines lines) in
    if str_eq content "" then [] else record { title = title; content = content } ∷ []

-- `line.replace(…).trim() || fallbackTitle`
abbrev titled : String → Option String → Option String
titled title fallback = if str_eq title "" then fallback else some title

-- the loop, at the title and the lines of the current section
unfoldable pub sections_from :
    (String → String) → Option String → Option String → List String → List String → List Section
unfolding flush heading
sections_from nfkc fallback title current [] = flush nfkc title current
sections_from nfkc fallback title current (line ∷ lines) = elim (heading line) [
  | none ↦ sections_from nfkc fallback title (current ++ line ∷ []) lines
  | some t ↦
      flush nfkc title current ++ sections_from nfkc fallback (titled t fallback) (line ∷ []) lines
]

-- `sections`
unfoldable pub sections : (String → String) → String → Option String → List Section
unfolding sections_from split_lines trimmed
sections nfkc text fallback =
    elim (sections_from nfkc fallback fallback [] (trimmed (split_lines text))) [
      | [] ↦ record { title = fallback; content = text } ∷ []
      | s ∷ ss ↦ s ∷ ss
    ]

-- whether a text goes on with a space, as `# ` does
unfoldable pub starts_with_space : String → Bool
starts_with_space String.[] = false
starts_with_space (String.◌∷◌ c s) = code c == 32

-- the parts, where `c` comes after a number of newlines
unfoldable pub cut_before : ℕ → Char → Bool → List String → List String
unfolding to_first
cut_before zero c spaced parts = to_first c parts
cut_before (suc zero) c spaced parts =
    if code c == 35 && spaced then "" ∷ to_first c parts else to_first "\n" (to_first c parts)
cut_before (suc (suc n)) c spaced parts = "" ∷ to_first c parts

unfoldable pub cut_at_end : ℕ → List String
cut_at_end zero = "" ∷ []
cut_at_end (suc zero) = "\n" ∷ []
cut_at_end (suc (suc n)) = "" ∷ "" ∷ []

-- `.split(/\n{2,}|\n(?=# )/)`, after a number of newlines
unfoldable pub split_paragraphs : ℕ → String → List String
unfolding is_newline cut_before cut_at_end starts_with_space
split_paragraphs n String.[] = cut_at_end n
split_paragraphs n (String.◌∷◌ c s) =
    let more = split_paragraphs (suc n) s in
    let rest = split_paragraphs 0 s in
    if is_newline c then more else cut_before n c (starts_with_space s) rest

-- the paragraphs of a section
unfoldable pub paragraphs : String → List String
unfolding trimmed split_paragraphs
paragraphs section = trimmed (split_paragraphs 0 section)
