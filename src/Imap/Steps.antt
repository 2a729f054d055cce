-- ===== src/Imap/Steps.antt =====
-- What an IMAP command may do: the steps of a session as a relation, and the states that a run of
-- them reaches.
use mai_rust.Common.{ℕ, ◌+◌, ◌≡◌, ◌++◌, Bool, true, false, some, List, [], ◌∷◌}
use mai_rust.Common.Text.{Text, Bytes}
use mai_rust.Common.Results.{ok}
use mai_rust.Smtp.Types.{Mailbox}
use mai_rust.Imap.Types.{SelectedMailbox, SequenceSet, StoreFlags, Message, Account, Services, Imap}
use mai_rust.Imap.Session.{
  is_authenticated, is_selected, authenticate, select, close_mailbox, logout, update_activity,
  new_mailbox, update_with_messages,
}
use mai_rust.Imap.Rows.{with_session, with_table, find_mailbox, mailbox_rows, max_seq}
use mai_rust.Imap.Mailboxes.{password_valid, has_address, delete_mailboxes, rename_rows}
use mai_rust.Imap.Flags.{store_from}
use mai_rust.Imap.Moves.{copy_from, move_from, expunge_from}
use mai_rust.Imap.Append.{appended}
use mai_rust.Imap.Client.{IsWritable}

-- The session is authenticated, of the tenant and the user.
pub record IsContext (tenant user : ℕ) (st : Imap) : Type 0 where
  pub inside : is_authenticated st.session ≡ true
  pub tenant_of : st.session.tenant_id ≡ some tenant
  pub user_of : st.session.user_id ≡ some user

-- The mailbox `s` is selected, for reading at least.
pub record IsReadable (s : SelectedMailbox) (st : Imap) : Type 0 where
  pub selected : is_selected st.session ≡ true
  pub mailbox : st.session.selected_mailbox ≡ some s

-- The session that SELECT and EXAMINE leave.
abbrev pub selecting : Services → Mailbox → Bool → Imap → Imap
selecting sv m readonly st =
    with_session
      (select sv.now
        (update_with_messages sv.now (mailbox_rows sv m.id st.table) (new_mailbox m.id m.address))
        readonly st.session)
      st

abbrev pub drawing : Imap → Imap
drawing st = record st { drawn = st.drawn + 1 }

abbrev pub storing : Services → SelectedMailbox → SequenceSet → StoreFlags → Bool → Imap → Imap
storing sv s sequence fl uid_mode st =
    let messages = mailbox_rows sv s.id st.table in
    with_table (store_from sv sequence fl uid_mode (max_seq messages) 0 messages st.table).1 st

abbrev pub expunging : Services → SelectedMailbox → Imap → Imap
expunging sv s st = with_table (expunge_from sv 0 0 (mailbox_rows sv s.id st.table) st.table).1 st

abbrev pub moving : Services → SelectedMailbox → Mailbox → SequenceSet → Bool → Imap → Imap
moving sv s dest sequence uid_mode st =
    let messages = mailbox_rows sv s.id st.table in
    with_table (move_from sv sequence uid_mode dest.id (max_seq messages) 0 messages st.table).1 st

abbrev pub copying : Services → SelectedMailbox → Mailbox → SequenceSet → Bool → Imap → Imap
copying sv s dest sequence uid_mode st =
    let messages = mailbox_rows sv s.id st.table in
    let made =
      copy_from sv sequence uid_mode dest.id (max_seq messages) 0 messages st.table st.drawn in
    record st { table = made.1.0; drawn = made.1.1 }

abbrev pub appended_row : Services → ℕ → Mailbox → List Text → Bytes → Imap → Message
appended_row sv tenant m flags message st =
    appended sv tenant m.id (sv.new_v4 st.drawn) flags message

-- `filing` has stored the file, and `appending` has inserted the row too.
abbrev pub filing : Message → Bytes → Imap → Imap
filing r message st = record (drawing st) { files = st.files ++ (r.storage_path, message) ∷ [] }

abbrev pub appending : Message → Bytes → Imap → Imap
appending r message st = record (filing r message st) { table = st.table ++ r ∷ [] }

pub data Step (sv : Services) (st : Imap) : Imap → Type 0 where
  stays : Step sv st st
  touches : Step sv st (with_session (update_activity sv.now st.session) st)
  enters :
      (username password : Text) (a : Account)
      → sv.find_account username ≡ some a
      → a.active ≡ true
      → password_valid sv password a.password_hash ≡ true
      → Step sv st (with_session (authenticate sv.now a.id a.tenant_id a.email st.session) st)
  selects :
      (tenant user : ℕ) (name : Text) (readonly : Bool) (m : Mailbox)
      → IsContext tenant user st
      → find_mailbox sv tenant user name st.mailboxes ≡ ok (some m)
      → Step sv st (selecting sv m readonly st)
  closes :
      is_selected st.session ≡ true → Step sv st (with_session (close_mailbox sv.now st.session) st)
  leaves : Step sv st (with_session (logout st.session) st)
  creates :
      (tenant user : ℕ) (m : Mailbox)
      → IsContext tenant user st
      → m.user_id ≡ some user
      → m.id ≡ sv.new_v4 st.drawn
      → has_address m.address st.mailboxes ≡ false
      → Step sv st (record (drawing st) { mailboxes = st.mailboxes ++ m ∷ [] })
  draws : Step sv st (drawing st)
  deletes :
      (tenant user : ℕ) (name : Text)
      → IsContext tenant user st
      → Step sv st (delete_mailboxes tenant user name st)
  renames :
      (tenant user : ℕ) (old new : Text)
      → IsContext tenant user st
      → Step sv st (record st { mailboxes = rename_rows sv.now tenant user old new st.mailboxes })
  stores :
      (s : SelectedMailbox) (sequence : SequenceSet) (fl : StoreFlags) (uid_mode : Bool)
      → IsWritable s st
      → Step sv st (storing sv s sequence fl uid_mode st)
  expunges : (s : SelectedMailbox) → IsWritable s st → Step sv st (expunging sv s st)
  moves :
      (tenant user : ℕ) (name : Text) (s : SelectedMailbox) (dest : Mailbox)
      (sequence : SequenceSet) (uid_mode : Bool)
      → IsWritable s st
      → IsContext tenant user st
      → find_mailbox sv tenant user name st.mailboxes ≡ ok (some dest)
      → Step sv st (moving sv s dest sequence uid_mode st)
  copies :
      (tenant user : ℕ) (name : Text) (s : SelectedMailbox) (dest : Mailbox)
      (sequence : SequenceSet) (uid_mode : Bool)
      → IsReadable s st
      → IsContext tenant user st
      → find_mailbox sv tenant user name st.mailboxes ≡ ok (some dest)
      → Step sv st (copying sv s dest sequence uid_mode st)
  files_only : (r : Message) (message : Bytes) → Step sv st (filing r message st)
  appends :
      (tenant user : ℕ) (name : Text) (m : Mailbox) (flags : List Text) (message : Bytes)
      → IsContext tenant user st
      → find_mailbox sv tenant user name st.mailboxes ≡ ok (some m)
      → Step sv st (appending (appended_row sv tenant m flags message st) message st)

-- The states that a sequence of steps leads to.
pub data Reach (sv : Services) : Imap → Imap → Type 0 where
  here : {st : Imap} → Reach sv st st
  further : {st st' st'' : Imap} → Step sv st st' → Reach sv st' st'' → Reach sv st st''

module _ (sv : Services) (P : Imap → Type 0)
    (keeps : (st st' : Imap) → Step sv st st' → P st → P st') where
  -- What every step keeps holds of every state reached.
  pub Reach-keeps : {st st' : Imap} → Reach sv st st' → P st → P st'
  Reach-keeps here p = p
  Reach-keeps (further {st} {st'} s r) p = Reach-keeps r (keeps st st' s p)
