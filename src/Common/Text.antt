-- ===== src/Common/Text.antt =====
-- Text as the list of its Unicode scalar values, bytes as numbers below 256, and what the program
-- uses of Rust's `str`: trim, splitn, lines, starts_with, to_uppercase, as_bytes, parse::<u32> and
-- the decimal `Display` of an unsigned number.
use Prim.Native.Nat.{ℕ, ◌+◌, ◌-◌, ◌/◌, ◌%◌}
use Prim.Native.Char.{code}
use Prim.Native.String.{String}
use mathlib.Core.Path.{◌≡◌, refl}
use mathlib.Core.Bool.{Bool, true, false, ◌&&◌, ◌||◌}
use mathlib.Core.Option.{Option, none, some}
use mathlib.Core.List.{List, [], ◌∷◌, ◌++◌, reverse, append_assoc}
use native.Mathlib.Omega.{arith}
use mai_rust.Common.Tests.{ltb, leb, ◌==◌, if◌then◌else◌}

abbrev pub Text : Type 0
Text = List ℕ

abbrev pub Bytes : Type 0
Bytes = List ℕ

-- The scalar values of a literal. Shut, so that a literal in the code stays one term.
unfoldable pub lit : String → Text
lit String.[] = []
lit (String.◌∷◌ c s) = code c ∷ lit s

unfoldable pub eq_text : Text → Text → Bool
eq_text [] [] = true
eq_text (a ∷ s) (b ∷ t) = a == b && eq_text s t
eq_text _ _ = false

pub eq_text_refl : (s : Text) → eq_text s s ≡ true
unfolding eq_text
eq_text_refl [] = refl
eq_text_refl (c ∷ s) = ground (arith, eq_text_refl s)

pub eq_text_sound : (s t : Text) → eq_text s t ≡ true → s ≡ t
unfolding eq_text
eq_text_sound [] [] h = refl
eq_text_sound [] (b ∷ t) h = cc
eq_text_sound (a ∷ s) [] h = cc
eq_text_sound (a ∷ s) (b ∷ t) h = ground (arith, eq_text_sound s t)

unfoldable pub is_empty : Text → Bool
is_empty [] = true
is_empty (c ∷ s) = false

-- The Unicode property White_Space, as `char::is_whitespace` has it.
unfoldable pub is_space : ℕ → Bool
is_space c =
    (leb 9 c && leb c 13)
    || c == 32
    || c == 0x85
    || c == 0xA0
    || c == 0x1680
    || (leb 0x2000 c && leb c 0x200A)
    || c == 0x2028
    || c == 0x2029
    || c == 0x202F
    || c == 0x205F
    || c == 0x3000

unfoldable pub trim_start : Text → Text
trim_start [] = []
trim_start (c ∷ s) = let rest = trim_start s in if is_space c then rest else c ∷ s

unfoldable pub trim_end : Text → Text
unfolding trim_start
trim_end s = reverse (trim_start (reverse s))

unfoldable pub trim : Text → Text
unfolding trim_start trim_end
trim s = trim_end (trim_start s)

unfoldable pub starts_with : Text → Text → Bool
starts_with s [] = true
starts_with [] (p ∷ ps) = false
starts_with (c ∷ s) (p ∷ ps) = c == p && starts_with s ps

-- What stands before the first `sep`, and what stands behind it if there is one: the one or two
-- parts of `splitn(2, sep)`.
unfoldable pub split_once : ℕ → Text → Text × Option Text
split_once sep [] = ([], none)
split_once sep (c ∷ s) =
    let (before, behind) = split_once sep s in
    if c == sep then ([], some s) else (c ∷ before, behind)

-- `split_whitespace`: the non-empty runs of other characters; `cur` is the run being read.
unfoldable pub words_from : Text → Text → List Text
words_from [] [] = []
words_from (d ∷ cur) [] = (d ∷ cur) ∷ []
words_from [] (c ∷ s) =
    let skip = words_from [] s in
    let grow = words_from (c ∷ []) s in if is_space c then skip else grow
words_from (d ∷ cur) (c ∷ s) =
    let close = words_from [] s in
    let grow = words_from ((d ∷ cur) ++ c ∷ []) s in if is_space c then (d ∷ cur) ∷ close else grow

unfoldable pub split_whitespace : Text → List Text
unfolding words_from
split_whitespace s = words_from [] s

-- The UTF-8 encoding of a scalar value, and of a text.
unfoldable pub utf8_char : ℕ → Bytes
utf8_char c =
    if ltb c 0x80
    then c ∷ []
    else if ltb c 0x800
    then (192 + c / 64) ∷ (128 + c % 64) ∷ []
    else if ltb c 0x10000
    then (224 + c / 4096) ∷ (128 + c / 64 % 64) ∷ (128 + c % 64) ∷ []
    else (240 + c / 262144) ∷ (128 + c / 4096 % 64) ∷ (128 + c / 64 % 64) ∷ (128 + c % 64) ∷ []

unfoldable pub as_bytes : Text → Bytes
unfolding utf8_char
as_bytes [] = []
as_bytes (c ∷ s) = utf8_char c ++ as_bytes s

pub as_bytes-append : (s t : Text) → as_bytes (s ++ t) ≡ as_bytes s ++ as_bytes t
unfolding as_bytes
as_bytes-append [] t = refl
as_bytes-append (c ∷ s) t = simp (as_bytes-append s t, append_assoc)

-- `to_uppercase`: ASCII letters by arithmetic; `wide` gives the mapping of the other characters, a
-- table of the standard library which may map one character to several.
unfoldable pub upper_char : (ℕ → Text) → ℕ → Text
upper_char wide c =
    if ltb c 0x80 then (if leb b'a' c && leb c b'z' then (c - 32) ∷ [] else c ∷ []) else wide c

unfoldable pub to_uppercase : (ℕ → Text) → Text → Text
unfolding upper_char
to_uppercase wide [] = []
to_uppercase wide (c ∷ s) = upper_char wide c ++ to_uppercase wide s

-- `to_lowercase`: ASCII letters by arithmetic, the other characters by `wide`, which gives a capital
-- sigma at the end of a word like one elsewhere.
unfoldable pub to_lowercase : (ℕ → Text) → Text → Text
to_lowercase wide [] = []
to_lowercase wide (c ∷ s) =
    (if ltb c 0x80 then (if leb b'A' c && leb c b'Z' then (c + 32) ∷ [] else c ∷ []) else wide c)
    ++ to_lowercase wide s

-- `contains` of a text.
unfoldable pub has_text : Text → Text → Bool
unfolding starts_with
has_text p [] = starts_with [] p
has_text p (c ∷ s) = starts_with (c ∷ s) p || has_text p s

-- One carriage return at the end is dropped.
unfoldable pub strip_cr : Text → Text
strip_cr [] = []
strip_cr (c ∷ []) = if c == 13 then [] else c ∷ []
strip_cr (c ∷ d ∷ s) = c ∷ strip_cr (d ∷ s)

-- `lines`: a line ends at "\n" or "\r\n"; `cur` is the line being read, and what is left at the
-- end is a line unless it is empty.
unfoldable pub lines_from : Text → Text → List Text
unfolding strip_cr
lines_from [] [] = []
lines_from (d ∷ cur) [] = (d ∷ cur) ∷ []
lines_from cur (c ∷ s) =
    let close = lines_from [] s in
    let grow = lines_from (cur ++ c ∷ []) s in if c == 10 then strip_cr cur ∷ close else grow

unfoldable pub lines : Text → List Text
unfolding lines_from
lines s = lines_from [] s

abbrev pub crlf : Text
crlf = 13 ∷ 10 ∷ []
