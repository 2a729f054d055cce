-- ===== src/Imap/Command.antt =====
-- `handle_command` (imap/server.rs).
use mai_rust.Common.{◌++◌, true, false, not, if◌then◌else◌}
use mai_rust.Common.Text.{Text, lit, eq_text}
use mai_rust.Imap.Types.{
  ImapCommand, Services, Imap, capability_cmd, noop_cmd, logout_cmd, starttls_cmd, close_cmd,
  check_cmd, expunge_cmd, idle_cmd, done_cmd, namespace_cmd, login_cmd, authenticate_cmd,
  select_cmd, examine_cmd, create_cmd, delete_cmd, subscribe_cmd, unsubscribe_cmd, rename_cmd,
  list_cmd, lsub_cmd, status_cmd, append_cmd, fetch_cmd, search_cmd, store_cmd, copy_cmd, move_cmd,
  unknown_cmd,
}
use mai_rust.Imap.Session.{is_selected, close_mailbox, logout, update_activity}
use mai_rust.Imap.Response.{ok, no, bad, bye, capability_with_starttls, namespace}
use mai_rust.Imap.Rows.{Handled, say, with_session}
use mai_rust.Imap.Mailboxes.{
  handle_login, handle_select, handle_list, handle_status, handle_create, handle_delete,
  handle_rename, handle_subscribe,
}
use mai_rust.Imap.Flags.{handle_store}
use mai_rust.Imap.Moves.{handle_copy, handle_move, handle_expunge}
use mai_rust.Imap.Fetch.{handle_fetch, handle_search}
use mai_rust.Imap.Append.{handle_append}

unfoldable pub on_close : Services → Text → Imap → Handled
unfolding close_mailbox
on_close sv tag st =
    if is_selected st.session
    then say (ok tag (lit "CLOSE completed")) (with_session (close_mailbox sv.now st.session) st)
    else say (no tag (lit "No mailbox selected")) st

unfoldable pub on_check : Text → Imap → Handled
on_check tag st =
    if is_selected st.session
    then say (ok tag (lit "CHECK completed")) st
    else say (no tag (lit "No mailbox selected")) st

unfoldable pub on_authenticate : Text → Text → Imap → Handled
on_authenticate tag mechanism st =
    if not (eq_text mechanism (lit "PLAIN"))
    then say (no tag (lit "Unsupported authentication mechanism")) st
    else say (no tag (lit "AUTHENTICATE not yet implemented")) st

unfoldable pub handle_command : Services → Text → ImapCommand → Imap → Handled
unfolding on_close on_check on_authenticate logout handle_login handle_select handle_list
    handle_status handle_create handle_delete handle_rename handle_subscribe handle_store
    handle_copy handle_move handle_expunge handle_fetch handle_search handle_append
handle_command sv tag capability_cmd st =
    say (capability_with_starttls false ++ ok tag (lit "CAPABILITY completed")) st
handle_command sv tag noop_cmd st =
    say (ok tag (lit "NOOP completed")) (with_session (update_activity sv.now st.session) st)
handle_command sv tag logout_cmd st =
    say (bye (lit "Logging out") ++ ok tag (lit "LOGOUT completed"))
      (with_session (logout st.session) st)
handle_command sv tag starttls_cmd st = say (bad tag (lit "Use STARTTLS before authentication")) st
handle_command sv tag (login_cmd username password) st = handle_login sv tag username password st
handle_command sv tag (authenticate_cmd mechanism initial) st = on_authenticate tag mechanism st
handle_command sv tag (select_cmd mailbox) st = handle_select sv tag mailbox false st
handle_command sv tag (examine_cmd mailbox) st = handle_select sv tag mailbox true st
handle_command sv tag (list_cmd reference pattern) st = handle_list sv tag pattern st
handle_command sv tag (lsub_cmd reference pattern) st = handle_list sv tag pattern st
handle_command sv tag (status_cmd mailbox items) st = handle_status sv tag mailbox items st
handle_command sv tag close_cmd st = on_close sv tag st
handle_command sv tag check_cmd st = on_check tag st
handle_command sv tag (fetch_cmd sequence items uid) st = handle_fetch sv tag sequence items uid st
handle_command sv tag (search_cmd criteria uid) st = handle_search sv tag criteria uid st
handle_command sv tag (create_cmd mailbox) st = handle_create sv tag mailbox st
handle_command sv tag (delete_cmd mailbox) st = handle_delete sv tag mailbox st
handle_command sv tag (rename_cmd old new) st = handle_rename sv tag old new st
handle_command sv tag (subscribe_cmd mailbox) st = handle_subscribe tag true st
handle_command sv tag (unsubscribe_cmd mailbox) st = handle_subscribe tag false st
handle_command sv tag (store_cmd sequence flags uid) st = handle_store sv tag sequence flags uid st
handle_command sv tag (copy_cmd sequence mailbox uid) st =
    handle_copy sv tag sequence mailbox uid st
handle_command sv tag (move_cmd sequence mailbox uid) st =
    handle_move sv tag sequence mailbox uid st
handle_command sv tag expunge_cmd st = handle_expunge sv tag st
handle_command sv tag (append_cmd mailbox flags date message) st =
    handle_append sv tag mailbox flags message st
handle_command sv tag idle_cmd st = say (lit "+ \r\n") st
handle_command sv tag done_cmd st = say (ok tag (lit "IDLE terminated")) st
handle_command sv tag namespace_cmd st = say (namespace ++ ok tag (lit "NAMESPACE completed")) st
handle_command sv tag (unknown_cmd command) st =
    say (bad tag (lit "Unknown command: " ++ command)) st
