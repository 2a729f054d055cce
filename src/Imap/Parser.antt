-- ===== src/Imap/Parser.antt =====
-- `ImapParser` (imap/parser.rs).
use mai_rust.Common.{
  ℕ, ◌++◌, Bool, true, false, ◌&&◌, Option, none, some, List, [], ◌∷◌, map, drop, if◌then◌else◌,
}
use mai_rust.Common.Text.{
  Text, lit, eq_text, is_empty, trim, starts_with, split_once, split_whitespace, to_uppercase,
}
use mai_rust.Smtp.Parse.{get_or_empty}
use mai_rust.Imap.Types.{
  SequenceSet, StoreOperation, replace_flags, add_flags, remove_flags, StoreFlags, ImapCommand,
  TaggedCommand, capability_cmd, noop_cmd, logout_cmd, starttls_cmd, close_cmd, check_cmd,
  expunge_cmd, idle_cmd, done_cmd, namespace_cmd, login_cmd, authenticate_cmd, select_cmd,
  examine_cmd, create_cmd, delete_cmd, subscribe_cmd, unsubscribe_cmd, rename_cmd, list_cmd,
  lsub_cmd, status_cmd, append_cmd, fetch_cmd, search_cmd, store_cmd, copy_cmd, move_cmd,
  unknown_cmd,
}
use mai_rust.Imap.Outcome.{Outcome, parsed, refused, ◌>>=◌, require, require_slice, slice_from}
use mai_rust.Imap.Words.{parse_astring, parse_mailbox, parse_flags_list, ends_with, between, quote}
use mai_rust.Imap.SearchKeys.{parse_search_criteria}
use mai_rust.Imap.Sequence
use mai_rust.Imap.Items.{parse_list}

-- Two strings, one behind the other.
unfoldable pub two_strings : (Text → Text → ImapCommand) → Text → Outcome ImapCommand
unfolding parse_astring
two_strings command args =
    parse_astring args >>= λ a. parse_astring (trim a.1) >>= λ b. parsed (command a.0 b.0)

unfoldable pub with_mailbox : (Text → ImapCommand) → Text → Outcome ImapCommand
unfolding parse_mailbox
with_mailbox command args = parse_mailbox args >>= λ m. parsed (command m)

unfoldable pub parse_authenticate : (ℕ → Text) → Text → Outcome ImapCommand
parse_authenticate wide args =
    let (mechanism, initial) = split_once b' ' args in
    parsed (authenticate_cmd (to_uppercase wide mechanism) initial)

unfoldable pub status_items : (ℕ → Text) → Text → List Text
unfolding ends_with between
status_items wide rest =
    if starts_with rest (b'(' ∷ []) && ends_with rest b')'
    then map (to_uppercase wide) (split_whitespace (between rest))
    else []

unfoldable pub parse_status : (ℕ → Text) → Text → Outcome ImapCommand
unfolding parse_astring status_items
parse_status wide args =
    parse_astring args >>= λ a. parsed (status_cmd a.0 (status_items wide (trim a.1)))

unfoldable pub parse_fetch : (ℕ → Text) → Text → Bool → Outcome ImapCommand
unfolding parse_list
parse_fetch wide args uid =
    let (sequence, items) = split_once b' ' args in
    require (Sequence.parse sequence) >>= λ q.
    parsed (fetch_cmd q (parse_list wide (get_or_empty items)) uid)

unfoldable pub parse_search : (ℕ → Text) → Text → Bool → Outcome ImapCommand
unfolding parse_search_criteria
parse_search wide args uid = parse_search_criteria wide args >>= λ c. parsed (search_cmd c uid)

abbrev pub Operation : Type 0
Operation = (StoreOperation × Bool) × ℕ

-- The operation, whether it is silent, and the index behind its name.
unfoldable pub store_operation : Text → Option Operation
store_operation upper =
    if starts_with upper (lit "+FLAGS.SILENT")
    then some ((add_flags, true), 13)
    else if starts_with upper (lit "-FLAGS.SILENT")
    then some ((remove_flags, true), 13)
    else if starts_with upper (lit "FLAGS.SILENT")
    then some ((replace_flags, true), 12)
    else if starts_with upper (lit "+FLAGS")
    then some ((add_flags, false), 6)
    else if starts_with upper (lit "-FLAGS")
    then some ((remove_flags, false), 6)
    else if starts_with upper (lit "FLAGS")
    then some ((replace_flags, false), 5)
    else none

unfoldable pub parse_store_flags : (ℕ → Text) → Text → Outcome StoreFlags
unfolding store_operation slice_from parse_flags_list
parse_store_flags wide args =
    let t = trim args in
    require (store_operation (to_uppercase wide t)) >>= λ o.
    require_slice (slice_from o.1 t) >>= λ rest.
    parsed (record { operation = o.0.0; silent = o.0.1; flags = parse_flags_list (trim rest) })

unfoldable pub parse_store : (ℕ → Text) → Text → Bool → Outcome ImapCommand
unfolding parse_store_flags
parse_store wide args uid =
    let (sequence, behind) = split_once b' ' args in
    require behind >>= λ rest. require (Sequence.parse sequence) >>= λ q.
    parse_store_flags wide rest >>= λ flags. parsed (store_cmd q flags uid)

-- COPY and MOVE.
unfoldable pub sequence_and_mailbox :
    (SequenceSet → Text → Bool → ImapCommand) → Text → Bool → Outcome ImapCommand
unfolding parse_mailbox
sequence_and_mailbox command args uid =
    let (sequence, behind) = split_once b' ' args in
    require behind >>= λ rest. require (Sequence.parse sequence) >>= λ q.
    parse_mailbox rest >>= λ mailbox. parsed (command q mailbox uid)

-- The flags in parentheses, if there are any, and what stands behind them.
unfoldable pub append_flags : Text × Option Text → Text → List Text × Text
append_flags (before, none) rest = ([], rest)
append_flags (before, some behind) rest = (split_whitespace (drop 1 before), trim behind)

unfoldable pub append_flags_of : Text → List Text × Text
unfolding append_flags
append_flags_of rest =
    if starts_with rest (b'(' ∷ []) then append_flags (split_once b')' rest) rest else ([], rest)

-- The literal is not read: the message is empty.
unfoldable pub append_of : Text → List Text × Text → Outcome ImapCommand
unfolding parse_astring
append_of mailbox (flags, remaining) =
    if starts_with remaining (quote ∷ [])
    then parse_astring remaining >>= (λ d. parsed (append_cmd mailbox flags (some d.0) []))
    else parsed (append_cmd mailbox flags none [])

unfoldable pub parse_append : Text → Outcome ImapCommand
unfolding append_of append_flags_of parse_astring
parse_append args = parse_astring args >>= λ a. append_of a.0 (append_flags_of (trim a.1))

unfoldable pub parse_uid_command : (ℕ → Text) → Text → Outcome ImapCommand
unfolding parse_fetch parse_search parse_store sequence_and_mailbox
parse_uid_command wide args =
    let (name, behind) = split_once b' ' args in
    let subcmd = to_uppercase wide name in
    let subargs = get_or_empty behind in
    if eq_text subcmd (lit "FETCH")
    then parse_fetch wide subargs true
    else if eq_text subcmd (lit "SEARCH")
    then parse_search wide subargs true
    else if eq_text subcmd (lit "STORE")
    then parse_store wide subargs true
    else if eq_text subcmd (lit "COPY")
    then sequence_and_mailbox copy_cmd subargs true
    else if eq_text subcmd (lit "MOVE")
    then sequence_and_mailbox move_cmd subargs true
    else if eq_text subcmd (lit "EXPUNGE")
    then parsed expunge_cmd
    else parsed (unknown_cmd (lit "UID " ++ subcmd))

unfoldable pub command_of : (ℕ → Text) → Text → Text → Outcome ImapCommand
unfolding two_strings with_mailbox parse_authenticate parse_status parse_append parse_fetch
    parse_search parse_store sequence_and_mailbox parse_uid_command
command_of wide cmd_name args =
    if eq_text cmd_name (lit "CAPABILITY")
    then parsed capability_cmd
    else if eq_text cmd_name (lit "NOOP")
    then parsed noop_cmd
    else if eq_text cmd_name (lit "LOGOUT")
    then parsed logout_cmd
    else if eq_text cmd_name (lit "STARTTLS")
    then parsed starttls_cmd
    else if eq_text cmd_name (lit "LOGIN")
    then two_strings login_cmd args
    else if eq_text cmd_name (lit "AUTHENTICATE")
    then parse_authenticate wide args
    else if eq_text cmd_name (lit "SELECT")
    then with_mailbox select_cmd args
    else if eq_text cmd_name (lit "EXAMINE")
    then with_mailbox examine_cmd args
    else if eq_text cmd_name (lit "CREATE")
    then with_mailbox create_cmd args
    else if eq_text cmd_name (lit "DELETE")
    then with_mailbox delete_cmd args
    else if eq_text cmd_name (lit "RENAME")
    then two_strings rename_cmd args
    else if eq_text cmd_name (lit "SUBSCRIBE")
    then with_mailbox subscribe_cmd args
    else if eq_text cmd_name (lit "UNSUBSCRIBE")
    then with_mailbox unsubscribe_cmd args
    else if eq_text cmd_name (lit "LIST")
    then two_strings list_cmd args
    else if eq_text cmd_name (lit "LSUB")
    then two_strings lsub_cmd args
    else if eq_text cmd_name (lit "STATUS")
    then parse_status wide args
    else if eq_text cmd_name (lit "APPEND")
    then parse_append args
    else if eq_text cmd_name (lit "CLOSE")
    then parsed close_cmd
    else if eq_text cmd_name (lit "CHECK")
    then parsed check_cmd
    else if eq_text cmd_name (lit "FETCH")
    then parse_fetch wide args false
    else if eq_text cmd_name (lit "SEARCH")
    then parse_search wide args false
    else if eq_text cmd_name (lit "STORE")
    then parse_store wide args false
    else if eq_text cmd_name (lit "COPY")
    then sequence_and_mailbox copy_cmd args false
    else if eq_text cmd_name (lit "MOVE")
    then sequence_and_mailbox move_cmd args false
    else if eq_text cmd_name (lit "EXPUNGE")
    then parsed expunge_cmd
    else if eq_text cmd_name (lit "UID")
    then parse_uid_command wide args
    else if eq_text cmd_name (lit "IDLE")
    then parsed idle_cmd
    else if eq_text cmd_name (lit "DONE")
    then parsed done_cmd
    else if eq_text cmd_name (lit "NAMESPACE")
    then parsed namespace_cmd
    else parsed (unknown_cmd cmd_name)

unfoldable pub parse_command : (ℕ → Text) → Text → Outcome ImapCommand
unfolding command_of
parse_command wide input =
    let (name, behind) = split_once b' ' input in
    command_of wide (to_uppercase wide name) (get_or_empty behind)

unfoldable pub parse_line : (ℕ → Text) → Text × Option Text → Outcome TaggedCommand
unfolding parse_command
parse_line wide (tag, behind) = parse_command wide (trim (get_or_empty behind)) >>= λ command.
    parsed (record { tag = tag; command = command })

unfoldable pub parse : (ℕ → Text) → Text → Outcome TaggedCommand
unfolding parse_line
parse wide line =
    let t = trim line in if is_empty t then refused else parse_line wide (split_once b' ' t)
