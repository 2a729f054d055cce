-- ===== src/Imap/Response.antt =====
-- `ImapResponse` (imap/response.rs).
use mai_rust.Common.{ℕ, ◌++◌, Bool, List, [], ◌∷◌, map, if◌then◌else◌, ◌==◌}
use mai_rust.Common.Text.{Text, lit, crlf}
use mai_rust.Common.Decimal.{display}
use mai_rust.Imap.Words.{quote, escape}

-- `join` with a separator.
unfoldable pub join : Text → List Text → Text
join sep [] = []
join sep (t ∷ []) = t
join sep (t ∷ u ∷ ts) = t ++ sep ++ join sep (u ∷ ts)

abbrev pub space : Text
space = b' ' ∷ []

unfoldable pub ok : Text → Text → Text
ok tag message = tag ++ lit " OK " ++ message ++ crlf

unfoldable pub no : Text → Text → Text
no tag message = tag ++ lit " NO " ++ message ++ crlf

unfoldable pub bad : Text → Text → Text
bad tag message = tag ++ lit " BAD " ++ message ++ crlf

unfoldable pub bye : Text → Text
bye message = lit "* BYE " ++ message ++ crlf

abbrev pub starttls_last : Bool → List Text
starttls_last enabled = if enabled then lit "STARTTLS" ∷ [] else []

unfoldable pub greeting_with_starttls : Bool → Text
unfolding join
greeting_with_starttls enabled =
    lit "* OK [CAPABILITY "
    ++ join space (
        (lit "IMAP4rev1" ∷ lit "LITERAL+" ∷ lit "SASL-IR" ∷ lit "LOGIN" ∷ lit "AUTH=PLAIN" ∷ [])
        ++ starttls_last enabled)
    ++ lit "] MaiRust IMAP server ready"
    ++ crlf

unfoldable pub capability_with_starttls : Bool → Text
unfolding join
capability_with_starttls enabled =
    lit "* CAPABILITY "
    ++ join space (
        (lit "IMAP4rev1"
          ∷ lit "LITERAL+"
          ∷ lit "SASL-IR"
          ∷ lit "LOGIN"
          ∷ lit "AUTH=PLAIN"
          ∷ lit "IDLE"
          ∷ lit "NAMESPACE"
          ∷ lit "MOVE"
          ∷ lit "UIDPLUS"
          ∷ [])
        ++ starttls_last enabled)
    ++ crlf

unfoldable pub expunge : ℕ → Text
expunge seq = lit "* " ++ display seq ++ lit " EXPUNGE" ++ crlf

unfoldable pub copyuid : ℕ → Text → Text → Text
copyuid uid_validity source_uids dest_uids =
    lit "[COPYUID " ++ display uid_validity ++ b' ' ∷ (source_uids ++ b' ' ∷ (dest_uids ++ lit "]"))

unfoldable pub appenduid : ℕ → ℕ → Text
appenduid uid_validity uid =
    lit "[APPENDUID " ++ display uid_validity ++ b' ' ∷ (display uid ++ lit "]")

unfoldable pub namespace : Text
namespace = lit "* NAMESPACE ((\"\" \"/\")) NIL NIL" ++ crlf

unfoldable pub list : List Text → Text → Text → Text
unfolding join
list flags delimiter mailbox =
    lit "* LIST ("
    ++ join space flags
    ++ lit ") \""
    ++ delimiter
    ++ lit "\" \""
    ++ mailbox
    ++ lit "\""
    ++ crlf

unfoldable pub mailbox_flags : List Text → Text
unfolding join
mailbox_flags flags = lit "* FLAGS (" ++ join space flags ++ lit ")" ++ crlf

unfoldable pub permanent_flags : List Text → Text
unfolding join
permanent_flags flags =
    lit "* OK [PERMANENTFLAGS (" ++ join space flags ++ lit ")] Flags permitted" ++ crlf

unfoldable pub exists : ℕ → Text
exists count = lit "* " ++ display count ++ lit " EXISTS" ++ crlf

unfoldable pub recent : ℕ → Text
recent count = lit "* " ++ display count ++ lit " RECENT" ++ crlf

unfoldable pub unseen : ℕ → Text
unseen first_unseen = lit "* OK [UNSEEN " ++ display first_unseen ++ lit "] First unseen" ++ crlf

unfoldable pub uid_validity : ℕ → Text
uid_validity validity = lit "* OK [UIDVALIDITY " ++ display validity ++ lit "] UIDs valid" ++ crlf

unfoldable pub uid_next : ℕ → Text
uid_next next = lit "* OK [UIDNEXT " ++ display next ++ lit "] Predicted next UID" ++ crlf

abbrev pub pair_text : Text × Text → Text
pair_text e = e.0 ++ b' ' ∷ e.1

abbrev pub count_text : Text × ℕ → Text
count_text e = e.0 ++ b' ' ∷ display e.1

unfoldable pub status : Text → List (Text × ℕ) → Text
unfolding join
status mailbox items =
    lit "* STATUS \""
    ++ mailbox
    ++ lit "\" ("
    ++ join space (map count_text items)
    ++ lit ")"
    ++ crlf

unfoldable pub fetch : ℕ → List (Text × Text) → Text
unfolding join
fetch seq items =
    lit "* " ++ display seq ++ lit " FETCH (" ++ join space (map pair_text items) ++ lit ")" ++ crlf

unfoldable pub search : List ℕ → Text
unfolding join
search [] = lit "* SEARCH" ++ crlf
search (u ∷ us) = lit "* SEARCH " ++ join space (map display (u ∷ us)) ++ crlf

-- A flag's name if the flag is set.
abbrev pub flag_name : Bool → Text → List Text
flag_name set name = if set then name ∷ [] else []

unfoldable pub format_flags : Bool → Bool → Bool → Bool → Bool → Text
unfolding join
format_flags seen answered flagged deleted draft =
    lit "("
    ++ join space (
        flag_name seen (lit "\\Seen")
        ++ flag_name answered (lit "\\Answered")
        ++ flag_name flagged (lit "\\Flagged")
        ++ flag_name deleted (lit "\\Deleted")
        ++ flag_name draft (lit "\\Draft"))
    ++ lit ")"

-- Backslashes and quotes behind a backslash.
unfoldable pub quote_string : Text → Text
quote_string [] = []
quote_string (c ∷ s) =
    let rest = quote_string s in
    if c == escape
    then escape ∷ escape ∷ rest
    else if c == quote
    then escape ∷ quote ∷ rest
    else c ∷ rest
