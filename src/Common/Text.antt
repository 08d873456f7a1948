-- ===== src/Common/Text.antt =====
-- The string methods that the code calls, on native texts.
use Prim.Native.Char.{Char, code}
use Prim.Native.String.{String, ◌++◌ as text_append}
use mathlib.Core.Bool.{Bool, true, false, ◌&&◌, ◌||◌}
use mathlib.Core.Option.{none, some}
use mathlib.Core.List.{List, [], ◌∷◌}
use text.Mathlib.Text.{find?}
use desk_be.Common.Tests.{if◌then◌else◌, ◌==◌, leb}

abbrev lower_pairs : List (Char × Char)
lower_pairs =
    ("A", "a")
    ∷ ("B", "b")
    ∷ ("C", "c")
    ∷ ("D", "d")
    ∷ ("E", "e")
    ∷ ("F", "f")
    ∷ ("G", "g")
    ∷ ("H", "h")
    ∷ ("I", "i")
    ∷ ("J", "j")
    ∷ ("K", "k")
    ∷ ("L", "l")
    ∷ ("M", "m")
    ∷ ("N", "n")
    ∷ ("O", "o")
    ∷ ("P", "p")
    ∷ ("Q", "q")
    ∷ ("R", "r")
    ∷ ("S", "s")
    ∷ ("T", "t")
    ∷ ("U", "u")
    ∷ ("V", "v")
    ∷ ("W", "w")
    ∷ ("X", "x")
    ∷ ("Y", "y")
    ∷ ("Z", "z")
    ∷ []

lower_in : List (Char × Char) → Char → Char
lower_in [] c = c
lower_in ((upper, lower) ∷ ps) c = if code upper == code c then lower else lower_in ps c

-- `s.toLowerCase()`, on the ASCII letters
unfoldable pub to_lower : String → String
unfolding lower_in
to_lower String.[] = ""
to_lower (String.◌∷◌ c s) = String.◌∷◌ (lower_in lower_pairs c) (to_lower s)

-- `s.includes(t)`
unfoldable pub includes : String → String → Bool
includes s t = elim (find? s t) [ none ↦ false | some i ↦ true ]

-- `s + t`
abbrev pub join : String → String → String
join = text_append

-- what `trim` takes away
unfoldable pub is_space : Char → Bool
is_space c =
    let n = code c in
    if leb 9 n && leb n 13
    then true
    else n == 32
      || n == 160
      || n == 5760
      || (leb 8192 n && leb n 8202)
      || n == 8232
      || n == 8233
      || n == 8239
      || n == 8287
      || n == 12288
      || n == 65279

trim_start : String → String
unfolding is_space
trim_start String.[] = ""
trim_start (String.◌∷◌ c s) = if is_space c then trim_start s else String.◌∷◌ c s

keep_end : Char → String → String
unfolding is_space
keep_end c String.[] = if is_space c then "" else String.◌∷◌ c ""
keep_end c s = String.◌∷◌ c s

trim_end : String → String
unfolding keep_end
trim_end String.[] = ""
trim_end (String.◌∷◌ c s) = keep_end c (trim_end s)

-- `s.trim()`
unfoldable pub trim : String → String
unfolding trim_start trim_end
trim s = trim_start (trim_end s)
