-- ===== src/Knowledge/Tests.antt =====
-- A text of ten characters in chunks of at most four, and the theorem there.
use mathlib.Core.Option
use desk_be.Common.{none, true, trim, ℕ, List, [], ◌∷◌, ◌*◌, map, some, ◌≡◌, refl, arith}
use desk_be.Knowledge.{size, chunk_of, force_split}
use desk_be.Knowledge.Sanitizer.{sanitize}
use desk_be.Knowledge.Sections.{sections, paragraphs}
use desk_be.Knowledge.Chunks.{Document, Chunk, Setup, chunk}
use desk_be.Knowledge.Tidy.{is_tidy, chunk-is_tidy}
use desk_be.Knowledge.Paragraphs.{split_section}
use desk_be.Knowledge.Cover.{IsCover, force_split-IsCover}

chunks : force_split "ab cdefghi" 1 1 ≡ some ("ab c" ∷ "cdef" ∷ "fghi" ∷ [])
unfolding force_split
chunks = refl

newline_cut : force_split "abc\ndefghi" 1 0 ≡ some ("abc" ∷ "def" ∷ "ghi" ∷ [])
unfolding force_split
newline_cut = refl

-- A first paragraph that is longer than a chunk is cut twice.
cut_twice :
    split_section ("abcdefgh" ∷ "ij" ∷ []) 1 1 0
    ≡ some ("abcd" ∷ "efgh" ∷ "abcd" ∷ "efgh" ∷ "ij" ∷ [])
unfolding split_section
cut_twice = refl

two_spaces : sanitize (λ s. s) " a  b \n\n\n\n c " ≡ "a b\n\nc"
unfolding sanitize trim
two_spaces = refl

by_headings :
    sections (λ s. s) "intro\n## Usage\ntext" (some "Guide")
    ≡ record { title = some "Guide"; content = "intro" }
      ∷ record { title = some "Usage"; content = "## Usage\ntext" }
      ∷ []
unfolding sections sanitize trim
by_headings = refl

by_paragraphs : paragraphs "a\nb\n\n\nc\n# d" ≡ "a\nb" ∷ "c" ∷ "# d" ∷ []
unfolding paragraphs trim
by_paragraphs = refl

abbrev setup : Setup
setup = record {
  target_tokens = 1;
  max_tokens = 1;
  min_tokens = 1;
  overlap_chars = 0;
  nfkc = λ s. s;
  stable = λ s. s;
  hash = λ s. s;
}

abbrev document : Document
document = record {
  title = none;
  content = "abcdefgh\n\nij";
  url = none;
  canonical_url = none;
  metadata_url = none;
  metadata_canonical_url = none;
}

-- the second copy of the first paragraph's chunks is dropped, and all of a second document's
dropped :
    Option.map (map (λ c. c.clean_text)) (chunk setup (document ∷ document ∷ []))
    ≡ some ("abcd" ∷ "efgh" ∷ "ij" ∷ [])
unfolding chunk sanitize trim
dropped = refl

chunk-is_tidy_example :
    (cs : List Chunk) × (chunk setup (document ∷ document ∷ []) ≡ some cs)
    × (is_tidy setup cs ≡ true)
chunk-is_tidy_example = chunk-is_tidy setup (document ∷ document ∷ []) (omega arith)

force_split-IsCover_example :
    (ws : List (ℕ × ℕ)) × (force_split "ab cdefghi" 1 1 ≡ some (map (chunk_of "ab cdefghi") ws))
    × IsCover (size "ab cdefghi") (1 * 4) 0 ws
unfolding size
force_split-IsCover_example = force_split-IsCover "ab cdefghi" 1 1 (omega arith) (omega arith)
