-- ===== src/Smtp/Transfer.antt =====
-- The DATA phase: what is read against what a client sends by RFC 5321.
use mai_rust.Common.{
  ℕ, ◌+◌, ◌≤◌, ◌++◌, ◌≡◌, ap, ◌∙◌, refl, Bool-cases, inl, inr, true, false, List, [], ◌∷◌, arith,
  map, length, All, All-append, if◌then◌else◌, ltb, ◌==◌, ==_iff, append_assoc, append-nil,
  length-append,
}
use mai_rust.Common.Text.{
  Text, Bytes, lit, is_empty, trim, starts_with, eq_text, as_bytes, crlf, trim_start, trim_end,
  utf8_char, is_space, eq_text_refl,
}
use mai_rust.Common.Results.{ok}
use mathlib.Core.List.{reverse, reverse-append}
use mai_rust.Smtp.Types.{Input, line, broken, SmtpConfig}
use mai_rust.Smtp.Receive.{unstuff, max_size, read_lines, read_data}

-- The client doubles a leading dot and ends the line.
abbrev pub stuff : Text → Text
stuff l = (if starts_with l (lit ".") then lit "." ++ l else l) ++ crlf

-- The octets of the lines of a message.
unfoldable pub wire : List Text → Bytes
wire [] = []
wire (l ∷ ls) = as_bytes (l ++ crlf) ++ wire ls

-- The line is not taken for the end of the message.
abbrev pub IsPlain : Text → Type 0
IsPlain l = eq_text (trim (stuff l)) (lit ".") ≡ false

unstuff-stuff : (l : Text) → unstuff (stuff l) ≡ as_bytes (l ++ crlf)
unfolding unstuff starts_with lit as_bytes utf8_char
unstuff-stuff [] = refl
unstuff-stuff (c ∷ l) = elim (Bool-cases (c == b'.')) [
  | inl dot ↦ rw ((==_iff c b'.').0 dot) refl
  | inr other ↦ rw other (rw other refl)
]

-- The terminating line is not empty, and a stuffed line is not.
end_line : (trim (lit "." ++ crlf) ≡ lit ".") × (is_empty (lit "." ++ crlf) ≡ false)
unfolding trim lit is_empty is_space
end_line = (refl, refl)

is_empty-stuff : (l : Text) → is_empty (stuff l) ≡ false
unfolding is_empty lit starts_with
is_empty-stuff [] = refl
is_empty-stuff (c ∷ l) = elim (Bool-cases (starts_with (c ∷ l) (lit "."))) [
  | inl dot ↦ rw dot refl
  | inr other ↦ rw other refl
]

read-stuffed :
    (limit : ℕ) (ls : List Text) (end : Text) (rest : List Input) (acc : Bytes)
    → trim end ≡ lit "."
    → is_empty end ≡ false
    → All IsPlain ls
    → length acc + length (wire ls) ≤ limit
    → read_lines limit (map (λ l. line (stuff l)) ls ++ line end ∷ rest) acc
      ≡ (ok (acc ++ wire ls), rest)
unfolding read_lines wire
read-stuffed limit [] end rest acc d e p h = rw (e, d, eq_text_refl, append-nil) refl
read-stuffed limit (l ∷ ls) end rest acc d e p h =
    let b : Bytes = as_bytes (l ++ crlf) in
    let whole : length acc + (length b + length (wire ls)) ≤ limit =
      omega (arith, h, length-append b (wire ls)) in
    let fits : ltb limit (length (acc ++ b)) ≡ false = ground (arith, length-append acc b) in
    rw (is_empty-stuff l, p.0, unstuff-stuff l, fits)
      (read-stuffed limit ls end rest (acc ++ b) d e p.1 (omega (arith, whole, length-append acc b))
        ∙ ap (λ d. (ok d, rest)) (append_assoc acc b (wire ls)))

-- A message that the reading accepts is within the limit.
pub length-read_lines_le :
    (limit : ℕ) (input : List Input) (acc d : Bytes)
    → length acc ≤ limit
    → (read_lines limit input acc).0 ≡ ok d
    → length d ≤ limit
unfolding read_lines
length-read_lines_le limit [] acc d h e = cc
length-read_lines_le limit (broken ∷ rest) acc d h e = cc
length-read_lines_le limit (line t ∷ rest) acc d h e =
    ground (arith, length-read_lines_le limit rest (acc ++ unstuff t) d)

-- A message of lines that are sent with their leading dots doubled, and none of which reads as the
-- end, is received octet for octet if it fits, and what is sent behind the end is left to be read.
pub read_data-stuffed :
    (config : SmtpConfig) (ls : List Text) (rest : List Input)
    → All IsPlain ls
    → length (wire ls) ≤ max_size config
    → read_data config (map (λ l. line (stuff l)) ls ++ line (lit "." ++ crlf) ∷ rest)
      ≡ (ok (wire ls), rest)
unfolding read_data
read_data-stuffed config ls rest p h =
    read-stuffed (max_size config) ls (lit "." ++ crlf) rest [] end_line.0 end_line.1 p
      (omega arith)

-- No message above the configured size, or the default of 50 MB, is accepted by the reading.
pub read_data_bounded :
    (config : SmtpConfig) (input : List Input) (d : Bytes)
    → (read_data config input).0 ≡ ok d
    → length d ≤ max_size config
unfolding read_data
read_data_bounded config input d e =
    length-read_lines_le (max_size config) input [] d (omega arith) e

abbrev pub IsSpaces : Text → Type 0
IsSpaces = All (λ c. is_space c ≡ true)

trim_start-spaces : (s t : Text) → IsSpaces s → trim_start (s ++ t) ≡ trim_start t
unfolding trim_start
trim_start-spaces [] t h = refl
trim_start-spaces (c ∷ s) t h = rw h.0 (trim_start-spaces s t h.1)

IsSpaces-reverse : (s : Text) → IsSpaces s → IsSpaces (reverse s)
IsSpaces-reverse [] h = tt
IsSpaces-reverse (c ∷ s) h =
    rw (reverse-append (c ∷ []) s)
      (All-append (λ c. is_space c ≡ true) (reverse s) (c ∷ []) (IsSpaces-reverse s h.1) (h.0, tt))

trim-padded : (pre post : Text) → IsSpaces pre → IsSpaces post → trim (pre ++ b'.' ∷ post) ≡ lit "."
unfolding trim lit is_space
trim-padded pre post h k =
    ap trim_end (trim_start-spaces pre (b'.' ∷ post) h)
    ∙ ap (λ t. reverse (trim_start t)) (reverse-append (b'.' ∷ []) post)
    ∙ ap reverse (trim_start-spaces (reverse post) (b'.' ∷ []) (IsSpaces-reverse post k))

is_empty-append : (pre post : Text) → is_empty (pre ++ b'.' ∷ post) ≡ false
unfolding is_empty
is_empty-append [] post = refl
is_empty-append (c ∷ pre) post = refl

-- A body line of a dot between white space, which a client sends as it is since it does not begin
-- with a dot, ends the message: what was read so far is the message, and the lines that follow in
-- the body are left to be read as commands.
pub padded_dot_ends :
    (config : SmtpConfig) (ls : List Text) (pre post : Text) (rest : List Input)
    → All IsPlain ls
    → length (wire ls) ≤ max_size config
    → IsSpaces pre
    → IsSpaces post
    → read_data config (map (λ l. line (stuff l)) ls ++ line (pre ++ b'.' ∷ post) ∷ rest)
      ≡ (ok (wire ls), rest)
unfolding read_data
padded_dot_ends config ls pre post rest p h j k =
    read-stuffed (max_size config) ls (pre ++ b'.' ∷ post) rest [] (trim-padded pre post j k)
      (is_empty-append pre post) p (omega arith)
