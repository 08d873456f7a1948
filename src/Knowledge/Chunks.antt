-- ===== src/Knowledge/Chunks.antt =====
-- `chunk` of src/modules/ai-agents/knowledge/smart-chunker.util.ts: the chunks of documents. The normal
-- form of a text, its form for the hash (`stableForHash`) and the hash are arguments.
use desk_be.Common.{
  ℕ, String, List, [], ◌∷◌, ◌++◌, Bool, Option, none, some, str_eq, present, get_or, contains,
  length, ltb, join, ◌&&◌, ◌||◌, if◌then◌else◌,
}
use desk_be.Knowledge.{size, first, estimate_tokens}
use desk_be.Knowledge.Sanitizer.{sanitize, is_probably_binary}
use desk_be.Knowledge.Sections.{Section, sections, paragraphs}
use desk_be.Knowledge.Paragraphs.{split_section}

-- `KnowledgeDocument`, with the addresses of its metadata
pub record Document : Type 0 where
  pub title : Option String
  pub content : String
  pub url : Option String
  pub canonical_url : Option String
  pub metadata_url : Option String
  pub metadata_canonical_url : Option String

-- `KnowledgeChunkInput`; `content` and `cleanText` are one text, and `section_title` and `chars`
-- stand in the metadata
pub record Chunk : Type 0 where
  pub chunk_index : ℕ
  pub title : Option String
  pub clean_text : String
  pub content_hash : String
  pub token_count : ℕ
  pub url : Option String
  pub canonical_url : Option String
  pub section_title : Option String
  pub chars : ℕ

-- the environment's settings, and what is called
pub record Setup : Type 0 where
  pub target_tokens : ℕ
  pub max_tokens : ℕ
  pub min_tokens : ℕ
  pub overlap_chars : ℕ
  pub nfkc : String → String
  pub stable : String → String
  pub hash : String → String

-- the chunks so far, and what was seen
pub record Found : Type 0 where
  pub chunks : List Chunk
  pub seen_hashes : List String
  pub seen_near : List String

-- `a || b` on titles and addresses
abbrev pub either : Option String → Option String → Option String
either a b = elim (present a) [ none ↦ b | some s ↦ some s ]

-- `stable.slice(0, 900)`
unfoldable pub near_key : Setup → String → String
unfolding first
near_key x text = first 900 (x.stable text)

unfoldable pub hash_of : Setup → Option String → String → String
hash_of x title text = x.hash (join (get_or title "") (join "\n" (x.stable text)))

unfoldable pub is_too_short : Setup → String → Bool
unfolding estimate_tokens size
is_too_short x text = ltb (estimate_tokens text) x.min_tokens && ltb (size text) 300

unfoldable pub was_seen : Setup → Option String → String → Found → Bool
unfolding hash_of near_key
was_seen x title text f =
    contains f.seen_hashes (hash_of x title text) || contains f.seen_near (near_key x text)

-- a chunk of a document's section
unfoldable pub new_chunk : Setup → Document → Option String → String → ℕ → Chunk
unfolding hash_of estimate_tokens size
new_chunk x doc title text index = record {
  chunk_index = index;
  title = title;
  clean_text = text;
  content_hash = hash_of x title text;
  token_count = estimate_tokens text;
  url = present (either doc.url doc.metadata_url);
  canonical_url = present (either doc.canonical_url doc.metadata_canonical_url);
  section_title = present title;
  chars = size text;
}

-- the body of the innermost loop, at the sanitized text
unfoldable pub add_chunk : Setup → Document → Option String → String → Found → Found
unfolding is_too_short was_seen new_chunk hash_of near_key
add_chunk x doc title text f =
    if is_too_short x text then f else if was_seen x title text f then f else record {
      chunks = f.chunks ++ new_chunk x doc title text (length f.chunks) ∷ [];
      seen_hashes = hash_of x title text ∷ f.seen_hashes;
      seen_near = near_key x text ∷ f.seen_near;
    }

-- the innermost loop
unfoldable pub add_all : Setup → Document → Option String → List String → Found → Found
unfolding add_chunk sanitize
add_all x doc title [] f = f
add_all x doc title (content ∷ contents) f =
    add_all x doc title contents (add_chunk x doc title (sanitize x.nfkc content) f)

-- `none`: a loop has run out of fuel
unfoldable pub add_section : Setup → Document → Section → Found → Option Found
unfolding split_section paragraphs add_all
add_section x doc s f =
    elim (split_section (paragraphs s.content) x.target_tokens x.max_tokens x.overlap_chars) [
      | none ↦ none
      | some contents ↦ some (add_all x doc (either s.title doc.title) contents f)
    ]

unfoldable pub add_sections : Setup → Document → List Section → Found → Option Found
unfolding add_section
add_sections x doc [] f = some f
add_sections x doc (s ∷ ss) f = elim (add_section x doc s f) [
  | none ↦ none
  | some g ↦ add_sections x doc ss g
]

-- a document whose text is empty or looks binary is left out
unfoldable pub add_document : Setup → Document → Found → Option Found
unfolding sanitize is_probably_binary sections add_sections
add_document x doc f =
    let clean = sanitize x.nfkc doc.content in
    if str_eq clean "" || is_probably_binary clean
    then some f
    else add_sections x doc (sections x.nfkc clean doc.title) f

unfoldable pub add_documents : Setup → List Document → Found → Option Found
unfolding add_document
add_documents x [] f = some f
add_documents x (doc ∷ docs) f = elim (add_document x doc f) [
  | none ↦ none
  | some g ↦ add_documents x docs g
]

abbrev pub nothing_found : Found
nothing_found = record { chunks = []; seen_hashes = []; seen_near = [] }

-- `chunk`
unfoldable pub chunk : Setup → List Document → Option (List Chunk)
unfolding add_documents
chunk x docs = elim (add_documents x docs nothing_found) [ none ↦ none | some f ↦ some f.chunks ]
