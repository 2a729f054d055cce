-- ===== src/Spam/Folding.antt =====
-- The headers of a message, folded or not, as the spam rules read them.
use mai_rust.Common.{
  ℕ, ◌≡◌, ◌≢◌, refl, ap, ◌∙◌, Bool, true, false, Option, none, some, List, [], ◌∷◌, ◌++◌, map, All,
  All-append, if◌then◌else◌, ◌==◌, arith,
}
use mai_rust.Common.Text.{
  Text, eq_text, is_empty, is_space, starts_with, trim, trim_start, lines, lines_from, to_lowercase,
  crlf,
}
use mai_rust.Common.Trimming.{IsSolid}
use mai_rust.Smtp.Addresses.{Lacks, split_once-join}
use mai_rust.Pop3.Stuffing.{IsOneLine, lines_from-crlf}
use mai_rust.Spam.Headers.{
  Headers, look_up, Scan, save_header, is_continuation, new_header, scan_line, scan_lines,
  parse_headers,
}

-- A header as it is sent: a name, the rest of its line, and the lines it is continued on.
pub record Field : Type 0 where
  pub name : Text
  pub value : Text
  pub folded : List Text

abbrev pub field_line : Field → Text
field_line f = f.name ++ b':' ∷ b' ' ∷ f.value

abbrev pub field_lines : List Field → List Text
field_lines [] = []
field_lines (f ∷ fs) = (field_line f ∷ map (◌∷◌ b' ') f.folded) ++ field_lines fs

-- Each line ends in CR LF.
abbrev pub in_crlf : List Text → Text
in_crlf [] = []
in_crlf (l ∷ ls) = l ++ crlf ++ in_crlf ls

-- One line, without white space at its ends.
pub record IsTrimmed (s : Text) : Type 0 where
  pub one_line : IsOneLine s
  pub trimmed : trim s ≡ s

-- The name is not empty and has neither white space nor a colon.
pub record IsField (f : Field) : Type 0 where
  pub named : is_empty f.name ≡ false
  pub solid : IsSolid f.name
  pub lacks : Lacks b':' f.name
  pub value : IsTrimmed f.value
  pub folded : All IsTrimmed f.folded

-- The value of a header: its lines with a space between them.
abbrev pub unfolded : Text → List Text → Text
unfolded v [] = v
unfolded v (t ∷ ts) = unfolded (v ++ b' ' ∷ t) ts

-- The value of the last header whose name is `k` in lower case.
abbrev pub last_value : (ℕ → Text) → Text → List Field → Option Text
last_value wide k [] = none
last_value wide k (f ∷ fs) = elim (last_value wide k fs) [
  | some v ↦ some v
  | none ↦ if eq_text (to_lowercase wide f.name) k then some (unfolded f.value f.folded) else none
]

lines-in_crlf : (ls : List Text) → All IsOneLine ls → lines (in_crlf ls) ≡ ls
unfolding lines lines_from
lines-in_crlf [] h = refl
lines-in_crlf (l ∷ ls) h = lines_from-crlf [] l (in_crlf ls) h.0 ∙ ap (◌∷◌ l) (lines-in_crlf ls h.1)

IsSolid-IsOneLine : (s : Text) → IsSolid s → IsOneLine s
unfolding is_space
IsSolid-IsOneLine [] h = tt
IsSolid-IsOneLine (c ∷ s) h = (ground arith, IsSolid-IsOneLine s h.1)

IsTrimmed-IsOneLine : (t : Text) → IsTrimmed t → IsOneLine (b' ' ∷ t)
IsTrimmed-IsOneLine t h = ((λ e. ground arith), h.one_line)

folded-IsOneLine : (ts : List Text) → All IsTrimmed ts → All IsOneLine (map (◌∷◌ b' ') ts)
folded-IsOneLine [] h = tt
folded-IsOneLine (t ∷ ts) h = (IsTrimmed-IsOneLine t h.0, folded-IsOneLine ts h.1)

field_lines-IsOneLine : (fs : List Field) → All IsField fs → All IsOneLine (field_lines fs)
field_lines-IsOneLine [] h = tt
field_lines-IsOneLine (f ∷ fs) h = (
  All-append (λ c. c ≢ 10) f.name (b':' ∷ b' ' ∷ f.value) (IsSolid-IsOneLine f.name h.0.solid)
      ((λ e. ground arith), IsTrimmed-IsOneLine f.value h.0.value),
  All-append IsOneLine (map (◌∷◌ b' ') f.folded) (field_lines fs)
      (folded-IsOneLine f.folded h.0.folded) (field_lines-IsOneLine fs h.1),
)

module _ (wide : ℕ → Text) where
  scan_lines-append :
      (xs ys : List Text) (s : Scan)
      → scan_lines wide (xs ++ ys) s ≡ scan_lines wide ys (scan_lines wide xs s)
  unfolding scan_lines
  scan_lines-append [] ys s = refl
  scan_lines-append (x ∷ xs) ys s = scan_lines-append xs ys (scan_line wide x s)

  trim_space : (t : Text) → trim (b' ' ∷ t) ≡ trim t
  unfolding trim trim_start is_space
  trim_space t = refl

  scan_continuation :
      (t : Text) (s : Scan)
      → trim t ≡ t
      → scan_line wide (b' ' ∷ t) s ≡ record s { current_value = s.current_value ++ b' ' ∷ t }
  unfolding scan_line starts_with
  scan_continuation t s h =
      ap (λ x. record s { current_value = s.current_value ++ b' ' ∷ x }) (trim_space t ∙ h)

  scan_folded :
      (ts : List Text) (s : Scan)
      → All IsTrimmed ts
      → scan_lines wide (map (◌∷◌ b' ') ts) s
        ≡ record s { current_value = unfolded s.current_value ts }
  unfolding scan_lines
  scan_folded [] s h = refl
  scan_folded (t ∷ ts) s h =
      ap (scan_lines wide (map (◌∷◌ b' ') ts)) (scan_continuation t s h.0.trimmed)
      ∙ scan_folded ts (record s { current_value = s.current_value ++ b' ' ∷ t }) h.1

  no_blank : (c : ℕ) → is_space c ≡ false → ((c == b' ') ≡ false) × ((c == 9) ≡ false)
  unfolding is_space
  no_blank c h = ground arith

  not_continued : (s t : Text) → is_empty s ≡ false → IsSolid s → is_continuation (s ++ t) ≡ false
  unfolding is_empty starts_with
  not_continued [] t e h = cc
  not_continued (c ∷ s) t e h = rw ((no_blank c h.0).0, (no_blank c h.0).1) refl

  scan_field :
      (f : Field) (s : Scan)
      → IsField f
      → scan_line wide (field_line f) s
        ≡ record { headers = save_header wide s; current_name = f.name; current_value = f.value }
  unfolding scan_line new_header
  scan_field f s h =
      rw
        (
          not_continued f.name (b':' ∷ b' ' ∷ f.value) h.named h.solid,
          split_once-join b':' f.name (b' ' ∷ f.value) h.lacks,
        )
        (ap (λ v. record { headers = save_header wide s; current_name = f.name; current_value = v })
          (trim_space f.value ∙ h.value.trimmed))

  abbrev entry : Field → Text × Text
  entry f = (to_lowercase wide f.name, unfolded f.value f.folded)

  abbrev stored : List Field → Headers → Headers
  stored [] hs = hs
  stored (f ∷ fs) hs = stored fs (entry f ∷ hs)

  saved :
      (f : Field) (hs : Headers) (v : Text)
      → is_empty f.name ≡ false
      → save_header wide (record { headers = hs; current_name = f.name; current_value = v })
        ≡ (to_lowercase wide f.name, v) ∷ hs
  unfolding save_header
  saved f hs v h = rw h refl

  scan_fields :
      (fs : List Field) (s : Scan)
      → All IsField fs
      → save_header wide (scan_lines wide (field_lines fs) s) ≡ stored fs (save_header wide s)
  unfolding scan_lines
  scan_fields [] s h = refl
  scan_fields (f ∷ fs) s h =
      let started : Scan = record {
        headers = save_header wide s;
        current_name = f.name;
        current_value = f.value;
      } in
      let done : Scan = record started { current_value = unfolded f.value f.folded } in
      ap (λ x. save_header wide (scan_lines wide (map (◌∷◌ b' ') f.folded ++ field_lines fs) x))
        (scan_field f s h.0)
      ∙ ap (save_header wide) (
          scan_lines-append (map (◌∷◌ b' ') f.folded) (field_lines fs) started
          ∙ ap (scan_lines wide (field_lines fs)) (scan_folded f.folded started h.0.folded))
      ∙ scan_fields fs done h.1
      ∙ ap (stored fs) (saved f (save_header wide s) (unfolded f.value f.folded) h.0.named)

  -- A value found behind a header, that of the header itself, or one found before it.
  abbrev or_value : Option Text → Option Text → Option Text
  or_value (some v) o = some v
  or_value none o = o

  chosen :
      (later : Option Text) (b : Bool) (v : Text) (before : Option Text)
      → or_value later (if b then some v else before)
        ≡ or_value (elim later [ some w ↦ some w | none ↦ if b then some v else none ]) before
  chosen (some w) b v before = refl
  chosen none true v before = refl
  chosen none false v before = refl

  or_value-none : (o : Option Text) → or_value o none ≡ o
  or_value-none (some v) = refl
  or_value-none none = refl

  look_up-stored :
      (k : Text) (fs : List Field) (hs : Headers)
      → look_up k (stored fs hs) ≡ or_value (last_value wide k fs) (look_up k hs)
  unfolding look_up
  look_up-stored k [] hs = refl
  look_up-stored k (f ∷ fs) hs =
      look_up-stored k fs (entry f ∷ hs)
      ∙ chosen (last_value wide k fs) (eq_text (to_lowercase wide f.name) k)
          (unfolded f.value f.folded) (look_up k hs)

-- Headers that are sent as lines ending in CR LF, each with a name without white space or colon, a
-- value, and lines it is continued on, are read back: under a name in lower case stands the value of
-- the last header of that name, in any case of its letters, with its lines joined by spaces; and a
-- name that no header has is not found.
pub look_up-parse_headers :
    (wide : ℕ → Text) (k : Text) (fs : List Field)
    → All IsField fs
    → look_up k (parse_headers wide (in_crlf (field_lines fs))) ≡ last_value wide k fs
unfolding parse_headers look_up save_header is_empty
look_up-parse_headers wide k fs h =
    let start : Scan = record { headers = []; current_name = []; current_value = [] } in
    ap (λ ls. look_up k (save_header wide (scan_lines wide ls start)))
      (lines-in_crlf (field_lines fs) (field_lines-IsOneLine fs h))
    ∙ ap (look_up k) (scan_fields wide fs start h)
    ∙ look_up-stored wide k fs []
    ∙ or_value-none wide (last_value wide k fs)
