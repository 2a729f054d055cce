-- ===== src/Pop3/Command.antt =====
-- `handle_command` and the handlers that it calls (pop3/server.rs): the response, whether the
-- connection ends, and the new state.
use mai_rust.Common.{
  ℕ, ◌+◌, ◌++◌, Bool, true, false, not, Option, none, some, List, [], ◌∷◌, map, keep, length,
  if◌then◌else◌, ◌==◌, leb,
}
use mai_rust.Common.Text.{Text, lit, is_empty, as_bytes, lines}
use mai_rust.Common.Decimal.{display}
use mai_rust.Smtp.Types.{Message}
use mai_rust.Smtp.Parse.{get_or_empty}
use mai_rust.Pop3.Types.{
  MessageInfo, Session, Services, Pop3, Pop3Command, user, pass, apop, stat, list_cmd, retr, dele,
  noop, rset, top, uidl, quit, capa, stls, unknown,
}
use mai_rust.Pop3.Session.{
  is_transaction, message_count, total_size, get_message, mark_deleted, reset_deletions,
  get_deleted_messages, enter_update, list_messages, uidl_messages,
}
use mai_rust.Pop3.Response.{
  ok, ok_simple, err, stat_line, list_header, list_single, list_line, uidl_header, uidl_single,
  uidl_line, retr_header, top_header, capabilities_with_starttls, terminator,
}
use mai_rust.Pop3.Entry.{Handled, say, with_session, push_lines, body_line, on_user, handle_pass}

unfoldable pub on_stat : Pop3 → Handled
on_stat st =
    if not (is_transaction st.session)
    then say (err (lit "Not authenticated")) st
    else say (stat_line (message_count st.session) (total_size st.session)) st

unfoldable pub list_one : ℕ → Option MessageInfo → Text
list_one num none = err (lit "No such message")
list_one num (some m) = list_single num m.size

unfoldable pub list_all : Session → Text
unfolding push_lines
list_all s =
    list_header (message_count s) (total_size s)
    ++ push_lines (map (λ e. list_line e.0 e.1) (list_messages s))
    ++ terminator

unfoldable pub handle_list : Option ℕ → Pop3 → Handled
unfolding list_one list_all
handle_list msg st =
    if not (is_transaction st.session) then say (err (lit "Not authenticated")) st else elim msg [
      | some num ↦ say (list_one num (get_message num st.session)) st
      | none ↦ say (list_all st.session) st
    ]

-- The whole message from the storage, or else the preview.
unfoldable pub message_body : Services → MessageInfo → Text
message_body sv m = elim (sv.read_file m.storage_path) [
  | some data_ ↦ sv.utf8_lossy data_
  | none ↦ get_or_empty m.body_preview
]

unfoldable pub body_content : Text → Text
unfolding push_lines body_line
body_content body = push_lines (map body_line (lines body))

unfoldable pub retr_response : Services → Option MessageInfo → Text
unfolding message_body body_content
retr_response sv none = err (lit "No such message")
retr_response sv (some m) =
    let content = body_content (message_body sv m) in
    if sv.storage_ready
    then retr_header (length (as_bytes content)) ++ content ++ terminator
    else err (lit "Failed to read message")

unfoldable pub handle_retr : Services → ℕ → Pop3 → Handled
unfolding retr_response
handle_retr sv msg st =
    if not (is_transaction st.session)
    then say (err (lit "Not authenticated")) st
    else say (retr_response sv (get_message msg st.session)) st

-- The lines that the loop of TOP pushes: the headers and their empty line, then body lines while
-- their count is below the limit.
unfoldable pub top_lines : ℕ → Bool → ℕ → List Text → List Text
top_lines limit in_body count [] = []
top_lines limit false count (l ∷ ls) = l ∷ top_lines limit (is_empty l) count ls
top_lines limit true count (l ∷ ls) =
    let rest = top_lines limit true (count + 1) ls in if leb limit count then [] else l ∷ rest

unfoldable pub top_response : Services → ℕ → Option MessageInfo → Text
unfolding message_body push_lines body_line top_lines
top_response sv limit none = err (lit "No such message")
top_response sv limit (some m) =
    if sv.storage_ready
    then top_header
      ++ push_lines (map body_line (top_lines limit false 0 (lines (message_body sv m))))
      ++ terminator
    else err (lit "Failed to read message")

unfoldable pub handle_top : Services → ℕ → ℕ → Pop3 → Handled
unfolding top_response
handle_top sv msg limit st =
    if not (is_transaction st.session)
    then say (err (lit "Not authenticated")) st
    else say (top_response sv limit (get_message msg st.session)) st

unfoldable pub report_deleted : ℕ → Bool × Session → Pop3 → Handled
report_deleted msg (true, s) st =
    say (ok (lit "Message " ++ display msg ++ lit " deleted")) (with_session s st)
report_deleted msg (false, s) st = say (err (lit "No such message")) (with_session s st)

unfoldable pub on_dele : Services → ℕ → Pop3 → Handled
unfolding report_deleted
on_dele sv msg st =
    if not (is_transaction st.session)
    then say (err (lit "Not authenticated")) st
    else report_deleted msg (mark_deleted sv.now msg st.session) st

unfoldable pub on_noop : Pop3 → Handled
on_noop st =
    if not (is_transaction st.session)
    then say (err (lit "Not authenticated")) st
    else say ok_simple st

unfoldable pub on_rset : Services → Pop3 → Handled
on_rset sv st =
    let s = reset_deletions sv.now st.session in
    if not (is_transaction st.session)
    then say (err (lit "Not authenticated")) st
    else say (ok (lit "Maildrop has " ++ display (message_count s) ++ lit " messages"))
        (with_session s st)

unfoldable pub uidl_one : ℕ → Option MessageInfo → Text
uidl_one num none = err (lit "No such message")
uidl_one num (some m) = uidl_single num m.uid

unfoldable pub uidl_all : Session → Text
unfolding push_lines
uidl_all s =
    uidl_header ++ push_lines (map (λ e. uidl_line e.0 e.1) (uidl_messages s)) ++ terminator

unfoldable pub handle_uidl : Option ℕ → Pop3 → Handled
unfolding uidl_one uidl_all
handle_uidl msg st =
    if not (is_transaction st.session) then say (err (lit "Not authenticated")) st else elim msg [
      | some num ↦ say (uidl_one num (get_message num st.session)) st
      | none ↦ say (uidl_all st.session) st
    ]

-- One DELETE by identifier; a failure is ignored.
unfoldable pub delete_row : Services → ℕ → List Message → List Message
delete_row sv id table = if sv.can_delete id then keep (λ r. not (r.id == id)) table else table

unfoldable pub delete_rows : Services → List ℕ → List Message → List Message
unfolding delete_row
delete_rows sv [] table = table
delete_rows sv (id ∷ ids) table = delete_rows sv ids (delete_row sv id table)

unfoldable pub handle_quit : Services → Pop3 → Handled
unfolding delete_rows
handle_quit sv st =
    let s = enter_update st.session in
    (
      (ok (lit "Goodbye"), true),
      (if is_transaction st.session
          then record { session = s; table = delete_rows sv (get_deleted_messages s) st.table }
          else st),
    )

unfoldable pub handle_command : Services → Pop3Command → Pop3 → Handled
unfolding on_user handle_pass on_stat handle_list handle_retr on_dele on_noop on_rset handle_top
    handle_uidl handle_quit
handle_command sv (user username) st = on_user sv username st
handle_command sv (pass password) st = handle_pass sv password st
handle_command sv (apop name digest) st = say (err (lit "APOP not supported")) st
handle_command sv stat st = on_stat st
handle_command sv (list_cmd msg) st = handle_list msg st
handle_command sv (retr msg) st = handle_retr sv msg st
handle_command sv (dele msg) st = on_dele sv msg st
handle_command sv noop st = on_noop st
handle_command sv rset st = on_rset sv st
handle_command sv (top msg limit) st = handle_top sv msg limit st
handle_command sv (uidl msg) st = handle_uidl msg st
handle_command sv quit st = handle_quit sv st
handle_command sv capa st = say (capabilities_with_starttls false) st
handle_command sv stls st = say (err (lit "Use STLS before authentication")) st
handle_command sv (unknown command) st = say (err (lit "Unknown command: " ++ command)) st
