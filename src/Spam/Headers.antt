-- ===== src/Spam/Headers.antt =====
-- The headers of a message as the spam rules read them: `parse_headers` of spam/rules.rs, and the
-- split of a message. A hash map is the list of its insertions, the latest first.
use mai_rust.Common.{ℕ, Bool, ◌||◌, Option, none, some, List, [], ◌∷◌, ◌++◌, if◌then◌else◌}
use mai_rust.Common.Text.{
  Text, eq_text, is_empty, starts_with, split_once, trim, lines, to_lowercase,
}

abbrev pub Headers : Type 0
Headers = List (Text × Text)

-- `get` of a map with texts for its keys.
unfoldable pub look_up : Text → List (Text × Text) → Option Text
look_up k [] = none
look_up k ((name, value) ∷ rest) =
    let found = look_up k rest in if eq_text name k then some value else found

-- The text before the first occurrence of `p` and the text from there on.
unfoldable pub find_text : Text → Text → Option (Text × Text)
find_text p [] = if is_empty p then some ([], []) else none
find_text p (c ∷ s) =
    let rest = find_text p s in
    if starts_with (c ∷ s) p
    then some ([], c ∷ s)
    else elim rest [ none ↦ none | some (before, found) ↦ some (c ∷ before, found) ]

-- The variables of `parse_headers`.
pub record Scan : Type 0 where
  pub headers : Headers
  pub current_name : Text
  pub current_value : Text

unfoldable pub save_header : (ℕ → Text) → Scan → Headers
save_header wide s =
    if is_empty s.current_name
    then s.headers
    else (to_lowercase wide s.current_name, s.current_value) ∷ s.headers

abbrev pub is_continuation : Text → Bool
is_continuation line = starts_with line (b' ' ∷ []) || starts_with line (9 ∷ [])

unfoldable pub new_header : (ℕ → Text) → Text × Option Text → Scan → Scan
unfolding save_header
new_header wide (name, none) s = s
new_header wide (name, some value) s = record {
  headers = save_header wide s;
  current_name = name;
  current_value = trim value;
}

unfoldable pub scan_line : (ℕ → Text) → Text → Scan → Scan
unfolding new_header
scan_line wide line s =
    if is_continuation line
    then record s { current_value = s.current_value ++ b' ' ∷ trim line }
    else new_header wide (split_once b':' line) s

unfoldable pub scan_lines : (ℕ → Text) → List Text → Scan → Scan
unfolding scan_line
scan_lines wide [] s = s
scan_lines wide (line ∷ rest) s = scan_lines wide rest (scan_line wide line s)

unfoldable pub parse_headers : (ℕ → Text) → Text → Headers
unfolding scan_lines save_header
parse_headers wide text =
    save_header wide (
      scan_lines wide (lines text) (record { headers = []; current_name = []; current_value = [] }))
