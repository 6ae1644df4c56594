-- ===== src/Text.antt =====
-- `str` and `String` as lists of code points: the standard library's `trim`,
-- `to_ascii_lowercase`, `len`, `split` and `chars`, as far as the program calls them.
pub mod Trim
pub mod Decimal
use Prim.Native.Char.{code}
use Prim.Native.Nat.{ℕ, zero, suc, ◌+◌}
use Prim.Native.String.{String}
use mathlib.Core.Path.{◌≡◌, refl}
use mathlib.Core.Bool.{Bool, true, false, ◌&&◌, ◌||◌}
use mathlib.Core.List.{List, [], ◌∷◌, ◌++◌, map}
use galynx_api.Common.{ltb, leb, eqb, if◌then◌else◌, text_beq}

abbrev pub Str : Type 0
Str = List ℕ

-- The code points of a literal.
unfoldable pub text : String → Str
text String.[] = []
text (String.◌∷◌ c s) = code c ∷ text s

-- `char::is_whitespace`: the Unicode property White_Space.
unfoldable pub is_whitespace : ℕ → Bool
is_whitespace c =
    (leb 9 c && leb c 13)
    || eqb c 32
    || eqb c 0x85
    || eqb c 0xa0
    || eqb c 0x1680
    || (leb 0x2000 c && leb c 0x200a)
    || eqb c 0x2028
    || eqb c 0x2029
    || eqb c 0x202f
    || eqb c 0x205f
    || eqb c 0x3000

unfoldable pub trim_start : Str → Str
trim_start [] = []
trim_start (c ∷ s) = if is_whitespace c then trim_start s else c ∷ s

-- A character before a text whose own end is trimmed.
abbrev pub before_end : ℕ → Str → Str
before_end c [] = if is_whitespace c then [] else c ∷ []
before_end c (d ∷ s) = c ∷ d ∷ s

unfoldable pub trim_end : Str → Str
trim_end [] = []
trim_end (c ∷ s) = before_end c (trim_end s)

-- `str::trim`
unfoldable pub trim : Str → Str
trim s = trim_end (trim_start s)

unfoldable pub to_lower : ℕ → ℕ
to_lower c = if leb b'A' c && leb c b'Z' then c + 32 else c

-- `str::to_ascii_lowercase`
unfoldable pub to_ascii_lowercase : Str → Str
to_ascii_lowercase s = map to_lower s

-- The bytes of a character in UTF-8, and `str::len`, which counts bytes.
unfoldable pub utf8_len : ℕ → ℕ
utf8_len c = if ltb c 0x80 then 1 else if ltb c 0x800 then 2 else if ltb c 0x10000 then 3 else 4

unfoldable pub byte_len : Str → ℕ
unfolding utf8_len
byte_len [] = 0
byte_len (c ∷ s) = utf8_len c + byte_len s

-- `str::split` at a character: the first segment in front of those of the rest.
abbrev pub push_segment : ℕ → ℕ → List Str → List Str
push_segment sep c [] = (if eqb c sep then [] else c ∷ []) ∷ []
push_segment sep c (seg ∷ segs) = if eqb c sep then [] ∷ seg ∷ segs else (c ∷ seg) ∷ segs

unfoldable pub split : ℕ → Str → List Str
split sep [] = [] ∷ []
split sep (c ∷ s) = push_segment sep c (split sep s)

-- The functions that a test on literals computes with, under one name.
unfoldable pub text_tests : Unit {0}
unfolding text trim trim_start trim_end is_whitespace to_lower to_ascii_lowercase text_beq
text_tests = tt

split_example : split b':' (text "12:3:x") ≡ text "12" ∷ text "3" ∷ text "x" ∷ []
unfolding split text
split_example = refl

trim_example : trim (text "  Abc \t") ≡ text "Abc"
unfolding text_tests
trim_example = refl
