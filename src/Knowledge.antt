-- ===== src/Knowledge.antt =====
-- src/modules/ai-agents/knowledge/smart-chunker.util.ts: `forceSplit`, which cuts a text into chunks
-- that overlap, and `estimateTokens`. A position is that of a character: texts are taken to have none
-- beyond the basic plane, so that it is one of JavaScript's. The settings are natural numbers.
pub mod Sanitizer
pub mod Sections
pub mod Chunks
mod Tidy
mod Windows
mod Cover
mod Paragraphs
mod Tests
use Prim.Native.Char.{Char, code}
use desk_be.Common.{
  ℕ, zero, suc, ◌+◌, ◌-◌, ◌*◌, ◌/◌, min, String, List, [], ◌∷◌, ◌++◌, map, Bool, true, false, not,
  ◌&&◌, ◌||◌, Option, none, some, ltb, leb, ◌==◌, str_eq, join, trim, if◌then◌else◌,
}

-- `s.length`
unfoldable pub size : String → ℕ
size String.[] = 0
size (String.◌∷◌ c s) = suc (size s)

unfoldable pub first : ℕ → String → String
first zero s = ""
first (suc n) String.[] = ""
first (suc n) (String.◌∷◌ c s) = String.◌∷◌ c (first n s)

after : ℕ → String → String
after zero s = s
after (suc n) String.[] = ""
after (suc n) (String.◌∷◌ c s) = after n s

-- `s.slice(a, b)`, at `a` below `b`
unfoldable pub slice : ℕ → ℕ → String → String
unfolding first after
slice a b s = first (b - a) (after a s)

-- the last newline of a text from position `i` on that is not behind `end`
last_newline : ℕ → ℕ → Option ℕ → String → Option ℕ
last_newline i end found String.[] = found
last_newline i end found (String.◌∷◌ c s) =
    last_newline (suc i) end (if code c == 10 && leb i end then some i else found) s

-- `text.lastIndexOf('\n', end)`; `none` is -1
unfoldable pub last_index_of_newline : String → ℕ → Option ℕ
unfolding last_newline
last_index_of_newline text end = last_newline 0 end none text

-- `if (boundary > offset + maxChars * 0.6) end = boundary`
cut_at : ℕ → ℕ → ℕ → Option ℕ → ℕ
cut_at offset max_chars end none = end
cut_at offset max_chars end (some boundary) =
    if ltb (10 * offset + 6 * max_chars) (10 * boundary) then boundary else end

-- the `end` of the chunk at an offset
unfoldable pub window_end : String → ℕ → ℕ → ℕ
unfolding cut_at last_index_of_newline
window_end text max_chars offset =
    let end = min (offset + max_chars) (size text) in
    cut_at offset max_chars end (last_index_of_newline text end)

max : ℕ → ℕ → ℕ
max a b = if leb a b then b else a

pub next_offset : ℕ → ℕ → ℕ → ℕ
unfolding max
next_offset overlap offset end = max (end - overlap) (offset + 1)

put_first : ℕ × ℕ → Option (List (ℕ × ℕ)) → Option (List (ℕ × ℕ))
put_first w none = none
put_first w (some ws) = some (w ∷ ws)

-- The loop, as the list of its chunks' offsets and ends. `none`: the fuel has run out.
unfoldable pub windows : ℕ → String → ℕ → ℕ → ℕ → Option (List (ℕ × ℕ))
unfolding window_end next_offset put_first size
windows zero text max_chars overlap offset = none
windows (suc fuel) text max_chars overlap offset =
    let end = window_end text max_chars offset in
    let rest = windows fuel text max_chars overlap (next_offset overlap offset end) in
    if not (ltb offset (size text))
    then some []
    else if leb (size text) end
    then some ((offset, end) ∷ [])
    else put_first (offset, end) rest

unfoldable pub chunk_of : String → ℕ × ℕ → String
unfolding slice trim
chunk_of text w = trim (slice w.0 w.1 text)

chunks_of : String → Option (List (ℕ × ℕ)) → Option (List String)
unfolding chunk_of
chunks_of text none = none
chunks_of text (some ws) = some (map (chunk_of text) ws)

-- `forceSplit`, with one unit of fuel more than the text has characters
unfoldable pub force_split : String → ℕ → ℕ → Option (List String)
unfolding windows chunks_of size
force_split text max_tokens overlap =
    let max_chars = max_tokens * 4 in
    if leb (size text) max_chars
    then some (text ∷ [])
    else chunks_of text (windows (suc (size text)) text max_chars overlap 0)

-- `estimateTokens`
unfoldable pub estimate_tokens : String → ℕ
unfolding size max
estimate_tokens text = max 1 ((size text + 3) / 4)
