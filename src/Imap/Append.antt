-- ===== src/Imap/Append.antt =====
-- APPEND (imap/server.rs).
use mai_rust.Common.{
  ℕ, ◌+◌, ◌*◌, ◌++◌, not, Option, none, some, List, [], ◌∷◌, take, length, if◌then◌else◌, ltb,
}
use mai_rust.Common.Text.{Text, Bytes, lit, to_uppercase}
use mai_rust.Common.Decimal.{display}
use mai_rust.Common.Results.{Result, ok, err}
use mai_rust.Smtp.Types.{Mailbox}
use mai_rust.Imap.Types.{Message, Services, Imap}
use mai_rust.Imap.Session.{message_id_to_uid}
use mai_rust.Imap.Response
use mai_rust.Imap.Response.{no, appenduid}
use mai_rust.Imap.Flags.{lists_flag}
use mai_rust.Imap.Rows.{Handled, say, with_user, find_mailbox}

abbrev pub max_append_size : ℕ
max_append_size = 50 * 1024 * 1024

unfoldable pub append_path : Services → ℕ → ℕ → ℕ → Text
append_path sv tenant mailbox id =
    sv.show_uuid tenant ++ b'/' ∷ (sv.show_uuid mailbox ++ b'/' ∷ (sv.show_uuid id ++ lit ".eml"))

unfoldable pub appended : Services → ℕ → ℕ → ℕ → List Text → Bytes → Message
unfolding append_path lists_flag
appended sv tenant mailbox id flags message =
    let lists = lists_flag (to_uppercase sv.wide_upper) in
    record {
      id = id;
      tenant_id = tenant;
      mailbox_id = mailbox;
      message_id_header = none;
      subject = none;
      from_address = none;
      to_addresses = some [];
      header_date = none;
      header_to = none;
      header_cc = none;
      body_preview = some (take 500 (sv.utf8_lossy message));
      body_size = length message;
      storage_path = append_path sv tenant mailbox id;
      seen = lists (lit "\\SEEN") flags;
      answered = lists (lit "\\ANSWERED") flags;
      flagged = lists (lit "\\FLAGGED") flags;
      deleted = lists (lit "\\DELETED") flags;
      draft = lists (lit "\\DRAFT") flags;
      received_at = sv.now;
      created_at = sv.now;
    }

-- A file that is stored stays when the insertion fails.
unfoldable pub insert_message : Services → Text → Message → Imap → Handled
insert_message sv tag m st =
    if sv.can_write m.id
    then say (Response.ok tag (appenduid 1 (message_id_to_uid m.id) ++ lit " APPEND completed"))
        (record st { table = st.table ++ m ∷ [] })
    else say (no tag (lit "Failed to append message")) st

unfoldable pub store_message : Services → Text → Message → Bytes → Imap → Handled
unfolding insert_message
store_message sv tag m message st =
    if not sv.storage_ready
    then say (no tag (lit "Failed to initialize storage")) st
    else if not (sv.can_store m.storage_path message)
    then say (no tag (lit "Failed to store message")) st
    else insert_message sv tag m (record st { files = st.files ++ (m.storage_path, message) ∷ [] })

unfoldable pub append_to :
    Services → Text → ℕ → List Text → Bytes → Result (Option Mailbox) → Imap → Handled
unfolding store_message appended
append_to sv tag tenant flags message (err e) st = say (no tag (lit "Failed to find mailbox")) st
append_to sv tag tenant flags message (ok none) st =
    say (no tag (lit "[TRYCREATE] Mailbox does not exist")) st
append_to sv tag tenant flags message (ok (some m)) st =
    store_message sv tag (appended sv tenant m.id (sv.new_v4 st.drawn) flags message) message
      (record st { drawn = st.drawn + 1 })

unfoldable pub too_large : ℕ → Text
too_large size =
    lit "Message too large ("
    ++ display size
    ++ lit " bytes, max "
    ++ display max_append_size
    ++ lit " bytes)"

unfoldable pub handle_append : Services → Text → Text → List Text → Bytes → Imap → Handled
unfolding with_user find_mailbox append_to too_large
handle_append sv tag name flags message st =
    if ltb max_append_size (length message)
    then say (no tag (too_large (length message))) st
    else with_user tag
        (λ tenant user.
          append_to sv tag tenant flags message (find_mailbox sv tenant user name st.mailboxes) st)
        st
