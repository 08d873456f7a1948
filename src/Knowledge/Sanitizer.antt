-- ===== src/Knowledge/Sanitizer.antt =====
-- src/modules/ai-agents/knowledge/text-sanitizer.util.ts: `sanitize` and `isProbablyBinary`. The
-- normal form NFKC of a text is an argument. A native text has no lone surrogates, which the source
-- removes.
use Prim.Native.Char.{Char, code}
use desk_be.Common.{
  ℕ, suc, ◌*◌, String, Bool, true, false, str_eq, leb, ltb, ◌==◌, not, ◌&&◌, ◌||◌, trim,
  if◌then◌else◌,
}
use desk_be.Knowledge.{size, first}

-- `[\u0001-\u0008\u000B\u000C\u000E-\u001F\u007F]` and `\uFFFD`
unfoldable pub is_replaced : Char → Bool
is_replaced c =
    let n = code c in
    (leb 1 n && leb n 8) || n == 11 || n == 12 || (leb 14 n && leb n 31) || n == 127 || n == 65533

-- the replacements of single characters: none of the first, spaces, and `\r` by `\n`
unfoldable pub replaced : String → String
unfolding is_replaced
replaced String.[] = ""
replaced (String.◌∷◌ c s) =
    let rest = replaced s in
    if code c == 0
    then rest
    else if is_replaced c
    then String.◌∷◌ " " rest
    else if code c == 13
    then String.◌∷◌ "\n" rest
    else String.◌∷◌ c rest

unfoldable pub is_blank : Char → Bool
is_blank c = code c == 32 || code c == 9

unfoldable pub is_newline : Char → Bool
is_newline c = code c == 10

-- `.replace(/[ \t]+/g, ' ')`, after such a character or not
unfoldable pub one_blank : Bool → String → String
unfolding is_blank
one_blank after String.[] = ""
one_blank after (String.◌∷◌ c s) =
    let skipped = one_blank true s in
    let kept = one_blank false s in
    if is_blank c then (if after then skipped else String.◌∷◌ " " skipped) else String.◌∷◌ c kept

-- `.replace(/\n[ \t]+/g, '\n')`, after a newline and blanks or not
unfoldable pub after_newlines : Bool → String → String
unfolding is_blank is_newline
after_newlines after String.[] = ""
after_newlines after (String.◌∷◌ c s) =
    let skipped = after_newlines true s in
    let kept = after_newlines (is_newline c) s in
    if after && is_blank c then skipped else String.◌∷◌ c kept

-- blanks that stand before `s`, which go where `s` begins a line
with_blank : Char → String → String
unfolding is_newline
with_blank c String.[] = String.◌∷◌ c ""
with_blank c (String.◌∷◌ d s) =
    if is_newline d then String.◌∷◌ d s else String.◌∷◌ c (String.◌∷◌ d s)

-- `.replace(/[ \t]+\n/g, '\n')`
unfoldable pub before_newlines : String → String
unfolding with_blank is_blank
before_newlines String.[] = ""
before_newlines (String.◌∷◌ c s) =
    let rest = before_newlines s in if is_blank c then with_blank c rest else String.◌∷◌ c rest

-- `.replace(/\n{3,}/g, '\n\n')`, after a number of newlines
unfoldable pub two_newlines : ℕ → String → String
unfolding is_newline
two_newlines n String.[] = ""
two_newlines n (String.◌∷◌ c s) =
    let more = two_newlines (suc n) s in
    let other = two_newlines 0 s in
    if is_newline c then (if leb 2 n then more else String.◌∷◌ c more) else String.◌∷◌ c other

-- `sanitize`
unfoldable pub sanitize : (String → String) → String → String
unfolding replaced one_blank after_newlines before_newlines two_newlines trim
sanitize nfkc s =
    trim (
      two_newlines 0 (before_newlines (after_newlines false (one_blank false (replaced (nfkc s))))))

-- `[\u0000-\u0008\u000B\u000C\u000E-\u001F]`
unfoldable pub is_control : Char → Bool
is_control c = let n = code c in leb n 8 || n == 11 || n == 12 || (leb 14 n && leb n 31)

unfoldable pub control_count : String → ℕ
unfolding is_control
control_count String.[] = 0
control_count (String.◌∷◌ c s) =
    let rest = control_count s in if is_control c then suc rest else rest

-- `isProbablyBinary`: more than eight in a hundred of the first 4096 characters
unfoldable pub is_probably_binary : String → Bool
unfolding control_count size first
is_probably_binary s =
    let sample = first 4096 s in
    not (str_eq s "") && ltb (8 * size sample) (100 * control_count sample)
