-- ===== src/Knowledge/Tidy.antt =====
-- What `chunk` of src/modules/ai-agents/knowledge/smart-chunker.util.ts returns.
use desk_be.Common.{
  ℕ, suc, ◌+◌, ◌≤◌, String, List, [], ◌∷◌, ◌++◌, Bool, true, false, Option, some, str_eq, any, all,
  contains, length, ◌==◌, not, ◌&&◌, ◌||◌, if◌then◌else◌, ◌≡◌, refl, sym, ap, ◌∙◌, Bool-cases, inl,
  inr, arith,
}
use desk_be.Knowledge.Sanitizer.{sanitize, is_probably_binary}
use desk_be.Knowledge.Sections.{Section, sections, paragraphs}
use desk_be.Knowledge.Paragraphs.{split_section-ends}
use desk_be.Knowledge.Chunks.{
  Document, Chunk, Setup, Found, near_key, hash_of, is_too_short, was_seen, new_chunk, add_chunk,
  add_all, add_section, add_sections, add_document, add_documents, nothing_found, chunk, either,
}

-- each chunk has its place for an index
unfoldable pub numbered : ℕ → List Chunk → Bool
numbered n [] = true
numbered n (c ∷ cs) = (c.chunk_index == n) && numbered (suc n) cs

-- the same hash, or the same beginning
unfoldable pub clash : Setup → Chunk → Chunk → Bool
unfolding near_key
clash x a b =
    str_eq a.content_hash b.content_hash
    || str_eq (near_key x a.clean_text) (near_key x b.clean_text)

unfoldable pub apart : Setup → List Chunk → Bool
unfolding clash
apart x [] = true
apart x (c ∷ cs) = not (any (clash x c) cs) && apart x cs

-- Chunks are numbered in order, no two have the same hash or the same beginning, and none is short.
unfoldable pub is_tidy : Setup → List Chunk → Bool
unfolding numbered apart is_too_short
is_tidy x cs = numbered 0 cs && apart x cs && all (λ c. not (is_too_short x c.clean_text)) cs

any-append :
    {A : Type 0} (p : A → Bool) (xs : List A) (a : A) → any p (xs ++ a ∷ []) ≡ (any p xs || p a)
any-append p [] a = ground arith
any-append p (b ∷ bs) a = ground (arith, any-append p bs a)

all-append :
    {A : Type 0} (p : A → Bool) (xs : List A) (a : A) → all p (xs ++ a ∷ []) ≡ (all p xs && p a)
all-append p [] a = ground arith
all-append p (b ∷ bs) a = ground (arith, all-append p bs a)

any-or :
    {A : Type 0} (p q : A → Bool) (xs : List A) → any (λ a. p a || q a) xs ≡ (any p xs || any q xs)
any-or p q [] = refl
any-or p q (a ∷ xs) = ground (arith, any-or p q xs)

numbered-append :
    (n : ℕ) (cs : List Chunk) (c : Chunk)
    → numbered n (cs ++ c ∷ []) ≡ (numbered n cs && (c.chunk_index == n + length cs))
unfolding numbered
numbered-append n [] c = ground arith
numbered-append n (d ∷ cs) c = ground (arith, numbered-append (suc n) cs c)

apart-append :
    (x : Setup) (cs : List Chunk) (c : Chunk)
    → apart x (cs ++ c ∷ []) ≡ (apart x cs && not (any (λ d. clash x d c) cs))
unfolding apart
apart-append x [] c = refl
apart-append x (d ∷ cs) c =
    rw (any-append (clash x d) cs c, apart-append x cs c)
      (regroup (any (clash x d) cs) (clash x d c) (apart x cs) (any (λ d. clash x d c) cs))
  where
    regroup : (a b p r : Bool) → (not (a || b) && (p && not r)) ≡ ((not a && p) && not (b || r))
    regroup true b p r = refl
    regroup false true true r = refl
    regroup false true false r = refl
    regroup false false p r = refl

tidy-append :
    (x : Setup) (cs : List Chunk) (c : Chunk)
    → is_tidy x cs ≡ true
    → (c.chunk_index == length cs) ≡ true
    → any (λ d. clash x d c) cs ≡ false
    → is_too_short x c.clean_text ≡ false
    → is_tidy x (cs ++ c ∷ []) ≡ true
unfolding is_tidy
tidy-append x cs c t i a l =
    let (n, p, q) =
      all_three (numbered 0 cs) (apart x cs) (all (λ c. not (is_too_short x c.clean_text)) cs) t in
    rw
      (
        numbered-append 0 cs c,
        apart-append x cs c,
        all-append (λ c. not (is_too_short x c.clean_text)) cs c,
        n,
        p,
        q,
        a,
        l,
      )
      (ground (arith, i))
  where
    all_three : (a b c : Bool) → (a && b && c) ≡ true → (a ≡ true) × (b ≡ true) × (c ≡ true)
    all_three a b c h = ground (arith, h)

-- what the loops keep: the chunks are tidy, and what was seen is what they have
record Keeps (x : Setup) (f : Found) : Type 0 where
  tidy : is_tidy x f.chunks ≡ true
  hashes : (h : String) → contains f.seen_hashes h ≡ any (λ c. str_eq c.content_hash h) f.chunks
  nears :
      (k : String) → contains f.seen_near k ≡ any (λ c. str_eq (near_key x c.clean_text) k) f.chunks

no_clash :
    (x : Setup) (doc : Document) (title : Option String) (text : String) (f : Found) (index : ℕ)
    → Keeps x f
    → was_seen x title text f ≡ false
    → any (λ d. clash x d (new_chunk x doc title text index)) f.chunks ≡ false
unfolding clash was_seen new_chunk
no_clash x doc title text f index k s =
    any-or (λ d. str_eq d.content_hash (hash_of x title text))
      (λ d. str_eq (near_key x d.clean_text) (near_key x text)) f.chunks
    ∙ rw⁻¹ (k.hashes (hash_of x title text), k.nears (near_key x text)) s

or_comm : (a b : Bool) → (a || b) ≡ (b || a)
or_comm true true = refl
or_comm true false = refl
or_comm false true = refl
or_comm false false = refl

add_chunk-Keeps :
    (x : Setup) (doc : Document) (title : Option String) (text : String) (f : Found)
    → Keeps x f
    → Keeps x (add_chunk x doc title text f)
unfolding add_chunk
add_chunk-Keeps x doc title text f k = elim (Bool-cases (is_too_short x text)) [
  | inl e ↦ rw (add_chunk, e) k
  | inr e ↦ elim (Bool-cases (was_seen x title text f)) [
    | inl s ↦ rw (add_chunk, e, s) k
    | inr s ↦
        let c = new_chunk x doc title text (length f.chunks) in
        rw (add_chunk, e, s)
          (record {
            tidy =
                tidy-append x f.chunks c k.tidy (ground arith)
                  (no_clash x doc title text f (length f.chunks) k s) e;
            hashes = λ h.
                ap (λ b. str_eq (hash_of x title text) h || b) (k.hashes h)
                ∙ or_comm (str_eq (hash_of x title text) h) _
                ∙ sym (any-append (λ c. str_eq c.content_hash h) f.chunks c);
            nears = λ n.
                ap (λ b. str_eq (near_key x text) n || b) (k.nears n)
                ∙ or_comm (str_eq (near_key x text) n) _
                ∙ sym (any-append (λ c. str_eq (near_key x c.clean_text) n) f.chunks c);
          })
  ]
]

add_all-Keeps :
    (x : Setup) (doc : Document) (title : Option String) (contents : List String) (f : Found)
    → Keeps x f
    → Keeps x (add_all x doc title contents f)
unfolding add_all
add_all-Keeps x doc title [] f k = k
add_all-Keeps x doc title (t ∷ ts) f k =
    add_all-Keeps x doc title ts _ (add_chunk-Keeps x doc title (sanitize x.nfkc t) f k)

-- The loops end, and keep it.
abbrev EndsKept : Setup → Option Found → Type 0
EndsKept x r = (g : Found) × (r ≡ some g) × Keeps x g

module _ (x : Setup) (one : 1 ≤ x.max_tokens) (doc : Document) where
  add_section-EndsKept : (s : Section) (f : Found) → Keeps x f → EndsKept x (add_section x doc s f)
  unfolding add_section
  add_section-EndsKept s f k =
      let (cs, e) =
        split_section-ends (paragraphs s.content) x.target_tokens x.max_tokens x.overlap_chars
          one in
      rw (add_section, e) (_, refl, add_all-Keeps x doc (either s.title doc.title) cs f k)

  add_sections-EndsKept :
      (ss : List Section) (f : Found) → Keeps x f → EndsKept x (add_sections x doc ss f)
  unfolding add_sections
  add_sections-EndsKept [] f k = (f, refl, k)
  add_sections-EndsKept (s ∷ ss) f k =
      let (g, e, h) = add_section-EndsKept s f k in
      rw (add_sections, e) (add_sections-EndsKept ss g h)

  add_document-EndsKept : (f : Found) → Keeps x f → EndsKept x (add_document x doc f)
  unfolding add_document
  add_document-EndsKept f k =
      by_test
        (str_eq (sanitize x.nfkc doc.content) ""
          || is_probably_binary (sanitize x.nfkc doc.content))
        (add_sections-EndsKept (sections x.nfkc (sanitize x.nfkc doc.content) doc.title) f k)
    where
      by_test :
          (b : Bool) → {r : Option Found} → EndsKept x r → EndsKept x (if b then some f else r)
      by_test true h = (f, refl, k)
      by_test false h = h

add_documents-EndsKept :
    (x : Setup) (docs : List Document) (f : Found)
    → 1 ≤ x.max_tokens
    → Keeps x f
    → EndsKept x (add_documents x docs f)
unfolding add_documents
add_documents-EndsKept x [] f one k = (f, refl, k)
add_documents-EndsKept x (doc ∷ docs) f one k =
    let (g, e, h) = add_document-EndsKept x one doc f k in
    rw (add_documents, e) (add_documents-EndsKept x docs g one h)

-- If a chunk may have one token, chunking any documents ends, with chunks that are numbered from 0
-- in order, none of which is short, and no two of which have the same hash or begin with the same
-- 900 characters in the form for the hash.
pub chunk-is_tidy :
    (x : Setup) (docs : List Document)
    → 1 ≤ x.max_tokens
    → (cs : List Chunk) × (chunk x docs ≡ some cs) × (is_tidy x cs ≡ true)
unfolding chunk is_tidy
chunk-is_tidy x docs one =
    let (f, e, k) =
      add_documents-EndsKept x docs nothing_found one
        (record { tidy = refl; hashes = λ h. refl; nears = λ n. refl }) in
    rw (chunk, e) (f.chunks, refl, k.tidy)
