-- ===== src/Imap/Envelope.antt =====
-- The envelope of a FETCH response (imap/response.rs).
use mai_rust.Common.{
  ℕ, ◌+◌, ◌-◌, ◌++◌, Option, none, some, [], ◌∷◌, take, drop, if◌then◌else◌, ◌==◌, ltb,
}
use mai_rust.Common.Text.{Text, lit, trim, split_once}
use mai_rust.Common.Decimal.{display}
use mai_rust.Smtp.Parse.{get_or_empty}
use mai_rust.Imap.Sequence.{has_char}
use mai_rust.Imap.Outcome.{Outcome, parsed, refused, panicked, ◌>>=◌}
use mai_rust.Imap.Words.{quote, trim_char_start, trim_char_end, trim_char}
use mai_rust.Imap.Response.{quote_string, join, space}

abbrev pub nil_text : Text
nil_text = lit "NIL"

unfoldable pub quoted_or_nil : Option Text → Text
quoted_or_nil none = nil_text
quoted_or_nil (some s) = lit "\"" ++ s ++ lit "\""

unfoldable pub escaped_or_nil : Option Text → Text
unfolding quote_string
escaped_or_nil none = nil_text
escaped_or_nil (some s) = lit "\"" ++ quote_string s ++ lit "\""

-- The position of a character.
unfoldable pub find_char : ℕ → Text → Option ℕ
find_char x [] = none
find_char x (c ∷ s) =
    if c == x then some 0 else elim (find_char x s) [ none ↦ none | some n ↦ some (n + 1) ]

-- `addr[start + 1..end]` panics when the first '>' stands before the first '<'.
unfoldable pub bracketed : Text → ℕ → ℕ → Outcome (Text × Text)
unfolding trim_char_start trim_char_end
bracketed addr start end =
    if ltb start end
    then parsed
        (trim_char quote (trim (take start addr)), take (end - (start + 1)) (drop (start + 1) addr))
    else panicked

unfoldable pub plain_address : Text → Outcome (Text × Text)
unfolding has_char
plain_address addr = if has_char b'@' addr then parsed ([], addr) else refused

unfoldable pub address_parts : Text → Option ℕ → Option ℕ → Outcome (Text × Text)
unfolding bracketed plain_address
address_parts addr (some start) (some end) = bracketed addr start end
address_parts addr _ _ = plain_address addr

unfoldable pub parse_address : Text → Outcome (Text × Text)
unfolding address_parts find_char
parse_address addr = address_parts addr (find_char b'<' addr) (find_char b'>' addr)

unfoldable pub address_text : Text × Text → Text
unfolding quote_string
address_text (name, email) =
    let (local, domain) = split_once b'@' email in
    lit "((\""
    ++ quote_string name
    ++ lit "\" NIL \""
    ++ quote_string local
    ++ lit "\" \""
    ++ quote_string (get_or_empty domain)
    ++ lit "\"))"

unfoldable pub address_or_nil : Outcome (Text × Text) → Outcome Text
unfolding address_text
address_or_nil (parsed e) = parsed (address_text e)
address_or_nil refused = parsed nil_text
address_or_nil panicked = panicked

unfoldable pub format_address_list : Option Text → Outcome Text
unfolding address_or_nil parse_address
format_address_list none = parsed nil_text
format_address_list (some addr) = address_or_nil (parse_address addr)

-- The sender and the reply-to are the author again.
unfoldable pub format_envelope :
    Option Text → Option Text → Option Text → Option Text → Option Text → Option Text → Outcome Text
unfolding format_address_list quoted_or_nil escaped_or_nil join
format_envelope date subject from to cc message_id = format_address_list from >>= λ from_str.
    format_address_list to >>= λ to_str. format_address_list cc >>= λ cc_str. parsed (
      lit "("
      ++ join space (
          quoted_or_nil date
          ∷ escaped_or_nil subject
          ∷ from_str
          ∷ from_str
          ∷ from_str
          ∷ to_str
          ∷ cc_str
          ∷ nil_text
          ∷ nil_text
          ∷ quoted_or_nil message_id
          ∷ [])
      ++ lit ")")

unfoldable pub format_body_structure_simple : ℕ → ℕ → Text
format_body_structure_simple size lines =
    lit "(\"TEXT\" \"PLAIN\" (\"CHARSET\" \"UTF-8\") NIL NIL \"7BIT\" "
    ++ display size
    ++ b' ' ∷ (display lines ++ lit " NIL NIL NIL NIL)")
