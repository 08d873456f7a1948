-- ===== src/Knowledge/Windows.antt =====
-- One chunk of a text: where it ends.
use Prim.Native.Char.{code}
use desk_be.Common.{
  ℕ, suc, ◌+◌, ◌≤◌, ◌<◌, min, String, ◌&&◌, Option, none, some, leb, ◌==◌, Bool-cases, inl, inr,
  arith,
}
use desk_be.Knowledge.{size, last_newline, last_index_of_newline, cut_at, window_end, next_offset}

-- A found newline is not behind `end`.
AtMost : ℕ → Option ℕ → Type 0
AtMost end none = Unit
AtMost end (some i) = i ≤ end

newline-AtMost :
    (i end : ℕ) (found : Option ℕ) (s : String)
    → AtMost end found
    → AtMost end (last_newline i end found s)
unfolding last_newline AtMost
newline-AtMost i end found String.[] h = h
newline-AtMost i end found (String.◌∷◌ c s) h = elim (Bool-cases (code c == 10 && leb i end)) [
  | inl e ↦ rw (e) (newline-AtMost (suc i) end (some i) s (ground (arith, e)))
  | inr e ↦ rw (e) (newline-AtMost (suc i) end found s h)
]

cut_bounds :
    (offset max_chars end : ℕ) (found : Option ℕ)
    → AtMost end found
    → 1 ≤ max_chars
    → offset < end
    → (offset < cut_at offset max_chars end found) × (cut_at offset max_chars end found ≤ end)
unfolding cut_at AtMost
cut_bounds offset max_chars end none h m l = ground arith
cut_bounds offset max_chars end (some b) h m l = ground arith

-- A chunk is not empty, not longer than the limit, and within the text.
pub window_end-bounds :
    (text : String) (max_chars offset : ℕ)
    → 1 ≤ max_chars
    → offset < size text
    → (offset < window_end text max_chars offset)
      × (window_end text max_chars offset ≤ offset + max_chars)
      × (window_end text max_chars offset ≤ size text)
unfolding window_end last_index_of_newline AtMost
window_end-bounds text max_chars offset m l =
    let end : ℕ = min (offset + max_chars) (size text) in
    let b =
      cut_bounds offset max_chars end (last_index_of_newline text end)
        (newline-AtMost 0 end none text tt) m (ground arith) in
    ground (arith, b)

pub next_offset-bounds :
    (overlap offset end : ℕ)
    → offset < end
    → (offset < next_offset overlap offset end) × (next_offset overlap offset end ≤ end)
unfolding next_offset
next_offset-bounds overlap offset end l = ground arith
