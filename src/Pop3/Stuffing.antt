-- ===== src/Pop3/Stuffing.antt =====
-- The multi-line responses as a client reads them: split into lines, up to the line with a single
-- dot, one leading dot dropped from each line before it.
use mai_rust.Common.{
  ◌≡◌, ◌≢◌, refl, ap, ◌∙◌, Bool-cases, inl, inr, false, Option, none, some, List, [], ◌∷◌, ◌++◌,
  append_assoc, append-nil, map, drop, All, All-append, if◌then◌else◌, ◌==◌, arith,
}
use mai_rust.Common.Text.{Text, lit, eq_text, starts_with, lines, lines_from, strip_cr, crlf}
use mai_rust.Pop3.Response.{byte_stuff_line, terminator}
use mai_rust.Pop3.Entry.{push_lines, body_line}

-- A client's reading: the lines of the response body, and those behind its end.
unfoldable pub read_multiline : List Text → Option (List Text × List Text)
read_multiline [] = none
read_multiline (l ∷ ls) =
    let rest = read_multiline ls in
    if eq_text l (lit ".") then some ([], ls) else elim rest [
      | none ↦ none
      | some (body, behind) ↦
          some ((if starts_with l (lit ".") then drop 1 l else l) ∷ body, behind)
    ]

-- No line feed in it.
abbrev pub IsOneLine : Text → Type 0
IsOneLine l = All (λ c. c ≢ 10) l

pub strip_cr-crlf : (l : Text) → strip_cr (l ++ 13 ∷ []) ≡ l
unfolding strip_cr
strip_cr-crlf [] = refl
strip_cr-crlf (c ∷ []) = refl
strip_cr-crlf (c ∷ d ∷ l) = ap (◌∷◌ c) (strip_cr-crlf (d ∷ l))

-- A line that ends in CR LF is read as that line.
pub lines_from-crlf :
    (cur l rest : Text)
    → IsOneLine l
    → lines_from cur (l ++ crlf ++ rest) ≡ (cur ++ l) ∷ lines_from [] rest
unfolding lines_from
lines_from-crlf [] [] rest h = refl
lines_from-crlf (d ∷ cur) [] rest h = rw (strip_cr-crlf (d ∷ cur), append-nil cur) refl
lines_from-crlf cur (c ∷ l) rest (n, h) =
    let other : (c == 10) ≡ false = ground arith in
    rw other (
      lines_from-crlf (cur ++ c ∷ []) l rest h
      ∙ ap (λ x. x ∷ lines_from [] rest) (append_assoc cur (c ∷ []) l))

pub stuff-IsOneLine : (l : Text) → IsOneLine l → IsOneLine (byte_stuff_line l)
unfolding byte_stuff_line
stuff-IsOneLine l h = elim (Bool-cases (starts_with l (lit "."))) [
  | inl dotted ↦ rw dotted ((λ e. ground arith), h)
  | inr plain ↦ rw plain h
]

-- The lines that a client sees are the stuffed lines and the dot.
pub lines-stuffed :
    (ls : List Text) (rest : Text)
    → All IsOneLine ls
    → lines_from [] (push_lines (map body_line ls) ++ (terminator ++ rest))
      ≡ map byte_stuff_line ls ++ (b'.' ∷ []) ∷ lines_from [] rest
unfolding push_lines body_line terminator lit
lines-stuffed [] rest h = lines_from-crlf [] (b'.' ∷ []) rest ((λ e. ground arith), tt)
lines-stuffed (l ∷ ls) rest (one, h) =
    let tail = push_lines (map body_line ls) ++ (terminator ++ rest) in
    ap (lines_from []) (append_assoc (byte_stuff_line l ++ crlf) _ _)
    ∙ lines_from-crlf [] (byte_stuff_line l) tail (stuff-IsOneLine l one)
    ∙ ap (◌∷◌ (byte_stuff_line l)) (lines-stuffed ls rest h)

-- No stuffed line reads as the end.
pub stuffed_not_end : (l : Text) → eq_text (byte_stuff_line l) (lit ".") ≡ false
unfolding byte_stuff_line starts_with lit eq_text
stuffed_not_end [] = refl
stuffed_not_end (c ∷ l) = ground arith

pub unstuff_line :
    (l : Text)
    → (if starts_with (byte_stuff_line l) (lit ".")
        then drop 1 (byte_stuff_line l)
        else byte_stuff_line l)
      ≡ l
unfolding byte_stuff_line starts_with lit
unstuff_line [] = refl
unstuff_line (c ∷ l) = ground arith

pub read_multiline-stuffed :
    (ls rest : List Text)
    → read_multiline (map byte_stuff_line ls ++ (b'.' ∷ []) ∷ rest) ≡ some (ls, rest)
unfolding read_multiline
read_multiline-stuffed [] rest = unfold lit eq_text in refl
read_multiline-stuffed (l ∷ ls) rest =
    rw (stuffed_not_end l, read_multiline-stuffed ls rest, unstuff_line l) refl

pub strip_cr-IsOneLine : (l : Text) → IsOneLine l → IsOneLine (strip_cr l)
unfolding strip_cr
strip_cr-IsOneLine [] h = tt
strip_cr-IsOneLine (c ∷ []) h = ground arith
strip_cr-IsOneLine (c ∷ d ∷ l) (n, h) = (n, strip_cr-IsOneLine (d ∷ l) h)

pub lines_from-IsOneLine : (cur s : Text) → IsOneLine cur → All IsOneLine (lines_from cur s)
unfolding lines_from
lines_from-IsOneLine [] [] h = tt
lines_from-IsOneLine (d ∷ cur) [] h = (h, tt)
lines_from-IsOneLine cur (c ∷ s) h = elim (Bool-cases (c == 10)) [
  | inl ended ↦ rw ended (strip_cr-IsOneLine cur h, lines_from-IsOneLine [] s tt)
  | inr more ↦ rw more (
      lines_from-IsOneLine (cur ++ c ∷ []) s
        (All-append (λ c. c ≢ 10) cur (c ∷ []) h ((λ e. ground arith), tt)))
]

-- A client's reading of a response: the status line is put aside.
unfoldable pub read_response : List Text → Option (List Text × List Text)
read_response [] = none
read_response (status ∷ ls) = read_multiline ls

-- A status line, stuffed lines and the dot are read back as those lines.
pub response-read :
    (status : Text) (ls : List Text) (rest : Text)
    → IsOneLine status
    → All IsOneLine ls
    → read_response
        (lines ((status ++ crlf ++ push_lines (map body_line ls) ++ terminator) ++ rest))
      ≡ some (ls, lines rest)
unfolding lines read_response
response-read status ls rest one h =
    ap (λ t. read_response (lines_from [] t))
      (append_assoc (status ++ crlf ++ push_lines (map body_line ls)) terminator rest
        ∙ append_assoc (status ++ crlf) (push_lines (map body_line ls)) (terminator ++ rest))
    ∙ ap read_response (lines_from-crlf [] status _ one)
    ∙ ap read_multiline (lines-stuffed ls rest h)
    ∙ read_multiline-stuffed ls (lines_from [] rest)
