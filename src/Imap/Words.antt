-- ===== src/Imap/Words.antt =====
-- The pieces of a command line (imap/parser.rs): quoted strings, atoms, mailbox names and flags.
use mai_rust.Common.{
  ℕ, ◌+◌, ◌-◌, Bool, true, false, ◌&&◌, Option, none, some, List, [], ◌∷◌, take, drop, length,
  if◌then◌else◌, ◌==◌, leb,
}
use mai_rust.Common.Text.{Text, trim, starts_with, split_whitespace}
use mai_rust.Imap.Items.{strip_last}
use mai_rust.Imap.Outcome.{Outcome, parsed, panicked, slice_from}

abbrev pub quote : ℕ
quote = b'"'

-- A backslash.
abbrev pub escape : ℕ
escape = 92

-- The loop over a quoted string, behind its first quote: what it reads, and the count of
-- characters.
unfoldable pub quoted : Bool → ℕ → Text → Text × ℕ
quoted escaped pos [] = ([], pos)
quoted true pos (c ∷ s) = let (result, end) = quoted false (pos + 1) s in (c ∷ result, end)
quoted false pos (c ∷ s) =
    let escaping = quoted true (pos + 1) s in
    let (result, end) = quoted false (pos + 1) s in
    if c == escape then escaping else if c == quote then ([], pos + 1) else (c ∷ result, end)

-- Up to the first space.
unfoldable pub atom : Text → Text × Text
atom [] = ([], [])
atom (c ∷ s) = let (word, rest) = atom s in if c == b' ' then ([], c ∷ s) else (c ∷ word, rest)

unfoldable pub with_rest : Text → Option Text → Outcome (Text × Text)
with_rest result none = panicked
with_rest result (some rest) = parsed (result, rest)

-- The count of characters is used as an index of bytes.
unfoldable pub parse_quoted : Text → Outcome (Text × Text)
unfolding quoted with_rest slice_from
parse_quoted s =
    let (result, pos) = quoted false 1 (drop 1 s) in with_rest result (slice_from pos s)

unfoldable pub parse_astring : Text → Outcome (Text × Text)
unfolding parse_quoted atom
parse_astring s =
    let t = trim s in if starts_with t (quote ∷ []) then parse_quoted t else parsed (atom t)

abbrev pub is_some {ℓ} : {A : Type ℓ} → Option A → Bool
is_some none = false
is_some (some a) = true

unfoldable pub ends_with : Text → ℕ → Bool
unfolding strip_last
ends_with s c = is_some (strip_last c s)

-- `s[1..s.len() - 1]` of a text with one-byte characters at both ends.
unfoldable pub between : Text → Text
between s = take (length s - 2) (drop 1 s)

unfoldable pub parse_mailbox : Text → Outcome Text
unfolding ends_with between
parse_mailbox s =
    let t = trim s in
    if starts_with t (quote ∷ []) && ends_with t quote
    then (if leb 2 (length t) then parsed (between t) else panicked)
    else parsed t

unfoldable pub parse_flags_list : Text → List Text
unfolding ends_with between split_whitespace
parse_flags_list s =
    let t = trim s in
    split_whitespace (if starts_with t (b'(' ∷ []) && ends_with t b')' then between t else t)

-- `trim_matches` of one character.
unfoldable pub trim_char_start : ℕ → Text → Text
trim_char_start x [] = []
trim_char_start x (c ∷ s) = let rest = trim_char_start x s in if c == x then rest else c ∷ s

unfoldable pub trim_char_end : ℕ → Text → Text
trim_char_end x [] = []
trim_char_end x (c ∷ s) = elim (trim_char_end x s) [
  | [] ↦ if c == x then [] else c ∷ []
  | d ∷ t ↦ c ∷ d ∷ t
]

abbrev pub trim_char : ℕ → Text → Text
trim_char x s = trim_char_end x (trim_char_start x s)
