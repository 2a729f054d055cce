-- ===== src/Imap/Rows.antt =====
-- What the handlers of imap/server.rs share: the guards on the session, the queries on `mailboxes`
-- and `messages`, and which rows a sequence set names.
use mai_rust.Common.{
  ℕ, ◌+◌, ◌%◌, Bool, false, not, ◌&&◌, Option, none, some, List, [], keep, length, if◌then◌else◌,
  ◌==◌,
}
use mai_rust.Common.Text.{Text, lit, eq_text, to_uppercase}
use mai_rust.Common.Decimal.{u32_limit}
use mai_rust.Common.Results.{Result, ok, err}
use mai_rust.Smtp.Types.{Mailbox}
use mai_rust.Imap.Types.{SelectedMailbox, ImapSession, SequenceSet, Message, Services, Imap}
use mai_rust.Imap.Session.{is_authenticated, is_selected, is_readonly, message_id_to_uid}
use mai_rust.Imap.Sequence.{contains}
use mai_rust.Imap.Response.{no}

-- The response, or `none` when the task of the connection panics, and the new state.
abbrev pub Handled : Type 0
Handled = Option Text × Imap

abbrev pub say : Text → Imap → Handled
say response st = (some response, st)

abbrev pub with_session : ImapSession → Imap → Imap
with_session s st = record st { session = s }

abbrev pub with_table : List Message → Imap → Imap
with_table t st = record st { table = t }

-- The tenant and the user of the session, or a refusal.
unfoldable pub with_ids : Text → Option ℕ → Option ℕ → (ℕ → ℕ → Handled) → Imap → Handled
with_ids tag none user f st = say (no tag (lit "No tenant context")) st
with_ids tag (some tenant) none f st = say (no tag (lit "No user context")) st
with_ids tag (some tenant) (some user) f st = f tenant user

-- The guards of the commands of the authenticated state.
unfoldable pub with_user : Text → (ℕ → ℕ → Handled) → Imap → Handled
unfolding with_ids
with_user tag f st =
    if not (is_authenticated st.session)
    then say (no tag (lit "Not authenticated")) st
    else with_ids tag st.session.tenant_id st.session.user_id f st

unfoldable pub with_mailbox :
    Text → Option SelectedMailbox → (SelectedMailbox → Handled) → Imap → Handled
with_mailbox tag none f st = say (no tag (lit "No mailbox selected")) st
with_mailbox tag (some selected) f st = f selected

-- The guards of the commands of the selected state.
unfoldable pub with_selected : Text → (SelectedMailbox → Handled) → Imap → Handled
unfolding with_mailbox
with_selected tag f st =
    if not (is_selected st.session)
    then say (no tag (lit "No mailbox selected")) st
    else with_mailbox tag st.session.selected_mailbox f st

-- The guards of the commands that need a mailbox selected for writing.
unfoldable pub with_writable : Text → (SelectedMailbox → Handled) → Imap → Handled
unfolding with_mailbox
with_writable tag f st =
    if not (is_selected st.session)
    then say (no tag (lit "No mailbox selected")) st
    else if is_readonly st.session
    then say (no tag (lit "Mailbox is read-only")) st
    else with_mailbox tag st.session.selected_mailbox f st

unfoldable pub owned_by : ℕ → Option ℕ → Bool
owned_by user none = false
owned_by user (some owner) = owner == user

-- `WHERE tenant_id = $1 AND user_id = $2`.
unfoldable pub is_users : ℕ → ℕ → Mailbox → Bool
unfolding owned_by
is_users tenant user m = m.tenant_id == tenant && owned_by user m.user_id

unfoldable pub is_inbox : Services → Text → Bool
is_inbox sv name = eq_text (to_uppercase sv.wide_upper name) (lit "INBOX")

-- `AND address = $3`.
unfoldable pub is_named : ℕ → ℕ → Text → Mailbox → Bool
unfolding is_users
is_named tenant user name m = is_users tenant user m && eq_text m.address name

-- The query for one mailbox of the user by its name, where INBOX is any of them.
unfoldable pub find_mailbox : Services → ℕ → ℕ → Text → List Mailbox → Result (Option Mailbox)
unfolding is_named is_users is_inbox
find_mailbox sv tenant user name mailboxes =
    if not sv.can_select
    then err (lit "database")
    else ok (
        sv.fetch_optional (
          if is_inbox sv name
          then keep (is_users tenant user) mailboxes
          else keep (is_named tenant user name) mailboxes))

-- `WHERE mailbox_id = $1 ORDER BY received_at ASC`, and nothing if the query fails.
unfoldable pub mailbox_rows : Services → ℕ → List Message → List Message
mailbox_rows sv mailbox_id table =
    if sv.can_select then sv.by_received_at (keep (λ r. r.mailbox_id == mailbox_id) table) else []

abbrev pub max_seq : List Message → ℕ
max_seq messages = length messages % u32_limit

abbrev pub seq_at : ℕ → ℕ
seq_at idx = (idx + 1) % u32_limit

-- In UID mode a set is asked with the UID as its own maximum.
unfoldable pub in_set : SequenceSet → Bool → ℕ → ℕ → Message → Bool
unfolding contains message_id_to_uid
in_set sequence uid_mode top idx m =
    if uid_mode
    then contains sequence (message_id_to_uid m.id) (message_id_to_uid m.id)
    else contains sequence (seq_at idx) top
