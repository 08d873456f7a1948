-- ===== src/Knowledge/Cover.antt =====
-- The loop of `forceSplit` ends, and the pieces that it cuts, before they are trimmed, cover the text.
use desk_be.Common.{
  ℕ, zero, suc, ◌+◌, ◌*◌, ◌≤◌, ◌<◌, String, List, [], ◌∷◌, map, Bool, true, false, ◌&&◌, Option,
  some, ◌≡◌, refl, All, any, ltb, leb, Bool-cases, inl, inr, arith,
}
use desk_be.Knowledge.{
  size, window_end, next_offset, windows, put_first, chunk_of, chunks_of, force_split,
}
use desk_be.Knowledge.Windows.{window_end-bounds, next_offset-bounds}

abbrev pub holds : ℕ → ℕ × ℕ → Bool
holds i w = leb w.0 i && ltb i w.1

-- Parts of a text, each from a position before its end, within the text and not longer than a
-- limit, which together have all positions from `offset` on.
pub record IsCover (n limit offset : ℕ) (ws : List (ℕ × ℕ)) : Type 0 where
  pub parts_fit : All (λ w. (w.0 < w.1) × (w.1 ≤ w.0 + limit) × (w.1 ≤ n)) ws
  pub covered : (i : ℕ) → offset ≤ i → i < n → any (holds i) ws ≡ true

module _ (text : String) (limit overlap : ℕ) (positive : 1 ≤ limit) where
  Ends : ℕ → Option (List (ℕ × ℕ)) → Type 0
  Ends offset r = (ws : List (ℕ × ℕ)) × (r ≡ some ws) × IsCover (size text) limit offset ws

  last_part :
      (offset : ℕ)
      → offset < size text
      → size text ≤ window_end text limit offset
      → IsCover (size text) limit offset ((offset, window_end text limit offset) ∷ [])
  last_part offset l last =
      let b = window_end-bounds text limit offset positive l in
      record { parts_fit = (b, tt); covered = λ i above below. ground (arith, b, last) }

  next_part :
      (offset : ℕ) (ws : List (ℕ × ℕ))
      → offset < size text
      → IsCover (size text) limit (next_offset overlap offset (window_end text limit offset)) ws
      → IsCover (size text) limit offset ((offset, window_end text limit offset) ∷ ws)
  next_part offset ws l c =
      let b = window_end-bounds text limit offset positive l in
      let s = next_offset-bounds overlap offset (window_end text limit offset) b.0 in
      record {
        parts_fit = (b, c.parts_fit);
        covered = λ i above below. ground (arith, b, s, c.covered i);
      }

  windows-end :
      (fuel offset : ℕ)
      → offset < size text
      → size text < offset + fuel
      → Ends offset (windows fuel text limit overlap offset)
  unfolding windows put_first Ends
  windows-end zero offset l enough = ground (arith, l, enough)
  windows-end (suc fuel) offset l enough =
      let e : ℕ = window_end text limit offset in
      let b = window_end-bounds text limit offset positive l in
      let s = next_offset-bounds overlap offset e b.0 in
      let inside : ltb offset (size text) ≡ true = ground (arith, l) in
      elim (Bool-cases (leb (size text) e)) [
        | inl last ↦
            rw (inside, last) ((offset, e) ∷ [], refl, last_part offset l (ground (arith, last)))
        | inr more ↦
            let rest =
              windows-end fuel (next_offset overlap offset e) (ground (arith, s, more))
                (ground (arith, s, enough)) in
            rw (inside, more, rest.1) ((offset, e) ∷ rest.0, refl, next_part offset rest.0 l rest.2)
      ]

-- If a chunk may have one token, a text that is longer than the limit is cut, within the fuel given
-- and whatever the overlap, at windows that are not longer than the limit and that together have
-- every position of the text; the chunks are the texts of these windows, trimmed.
pub force_split-IsCover :
    (text : String) (max_tokens overlap : ℕ)
    → 1 ≤ max_tokens
    → max_tokens * 4 < size text
    → (ws : List (ℕ × ℕ)) × (force_split text max_tokens overlap ≡ some (map (chunk_of text) ws))
      × IsCover (size text) (max_tokens * 4) 0 ws
unfolding force_split chunks_of Ends
force_split-IsCover text max_tokens overlap positive long =
    let long' : leb (size text) (max_tokens * 4) ≡ false = ground (arith, long) in
    let r =
      windows-end text (max_tokens * 4) overlap (ground (arith, positive)) (suc (size text)) 0
        (ground (arith, long)) (ground arith) in
    (r.0, rw (long', r.1) refl, r.2)
