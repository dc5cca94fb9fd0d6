-- ===== src/Prelude/Text.antt =====
-- The string functions of the Go library that the program calls, over native strings: valid UTF-8
-- text, whose characters are Go's runes. `unicode.IsSpace` decides which characters are trimmed.
use Prim.Native.Nat.{ℕ, ◌+◌, ◌/◌, ◌%◌}
use Prim.Native.Char.{code}
use Prim.Native.String
use Prim.Native.String.{String, [], ◌∷◌, slice, len}
use mathlib.Core.Bool.{Bool, ◌||◌, ◌&&◌}
use mathlib.Core.Option.{Option, none, some}
use mathlib.Core.List.{List, [], ◌∷◌, ◌++◌}
use text.Mathlib.Text.{◌==◌, starts_with}
use ai_it_dab_com.Prelude.Tests.{leb, if◌then◌else◌}

abbrev pub within : ℕ → ℕ → ℕ → Bool
within lo hi c = leb lo c && leb c hi

-- unicode.IsSpace
unfoldable pub is_space : ℕ → Bool
is_space c =
    within 9 13 c
    || within 32 32 c
    || within 0x85 0x85 c
    || within 0xa0 0xa0 c
    || within 0x1680 0x1680 c
    || within 0x2000 0x200a c
    || within 0x2028 0x2029 c
    || within 0x202f 0x202f c
    || within 0x205f 0x205f c
    || within 0x3000 0x3000 c

-- strings.TrimLeftFunc and strings.TrimRightFunc
unfoldable pub trim_left : (ℕ → Bool) → String → String
trim_left p String.[] = ""
trim_left p (String.◌∷◌ c s) =
    let rest = trim_left p s in if p (code c) then rest else String.◌∷◌ c s

unfoldable pub trim_right : (ℕ → Bool) → String → String
trim_right p String.[] = ""
trim_right p (String.◌∷◌ c s) =
    let rest = trim_right p s in if rest == "" && p (code c) then "" else String.◌∷◌ c rest

-- strings.TrimSpace
unfoldable pub trim_space : String → String
unfolding trim_left trim_right is_space
trim_space s = trim_right is_space (trim_left is_space s)

-- strings.CutPrefix
unfoldable pub cut_prefix : String → String → Option String
cut_prefix s prefix = if starts_with s prefix then some (slice s (len prefix) (len s)) else none

unfoldable pub concat : List String → String
concat [] = ""
concat (s ∷ ss) = String.◌++◌ s (concat ss)

-- strings.Contains
unfoldable pub contains : String → String → Bool
contains String.[] sub = sub == ""
contains (String.◌∷◌ c s) sub = starts_with (String.◌∷◌ c s) sub || contains s sub

abbrev in_first : List String → String → List String
in_first [] part = part ∷ []
in_first (t ∷ ts) part = String.◌++◌ part t ∷ ts

-- strings.Split by one ASCII character
unfoldable pub split : ℕ → String → List String
split sep String.[] = "" ∷ []
split sep (String.◌∷◌ c s) =
    let rest = split sep s in
    if within sep sep (code c) then "" ∷ rest else in_first rest (String.◌∷◌ c "")

-- The bytes of a rune, and of a text.
abbrev utf8_rune : ℕ → List ℕ
utf8_rune c =
    if leb c 0x7f
    then c ∷ []
    else if leb c 0x7ff
    then (0xc0 + c / 64) ∷ (0x80 + c % 64) ∷ []
    else if leb c 0xffff
    then (0xe0 + c / 4096) ∷ (0x80 + (c / 64) % 64) ∷ (0x80 + c % 64) ∷ []
    else (0xf0 + c / 262144)
      ∷ (0x80 + (c / 4096) % 64)
      ∷ (0x80 + (c / 64) % 64)
      ∷ (0x80 + c % 64)
      ∷ []

unfoldable pub utf8 : String → List ℕ
utf8 String.[] = []
utf8 (String.◌∷◌ c s) = utf8_rune (code c) ++ utf8 s
