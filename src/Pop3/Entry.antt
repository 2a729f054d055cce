-- ===== src/Pop3/Entry.antt =====
-- USER and PASS (pop3/server.rs).
use mai_rust.Common.{
  ℕ, ◌++◌, Bool, true, false, not, Option, none, some, List, [], ◌∷◌, map, keep, length,
  if◌then◌else◌, ◌==◌,
}
use mai_rust.Common.Text.{Text, lit, crlf}
use mai_rust.Common.Decimal.{display}
use mai_rust.Smtp.Types.{Message, bad_hash, verified, wrong_password, verify_error}
use mai_rust.Pop3.Types.{MessageInfo, Session, Account, Services, Pop3}
use mai_rust.Pop3.Session.{is_authorization, set_username, authenticate, load_messages}
use mai_rust.Pop3.Response.{ok, err, byte_stuff_line}

abbrev pub Handled : Type 0
Handled = (Text × Bool) × Pop3

abbrev pub say : Text → Pop3 → Handled
say response st = ((response, false), st)

abbrev pub with_session : Session → Pop3 → Pop3
with_session s st = record st { session = s }

-- What the loops that push lines onto a response add to it.
unfoldable pub push_lines : List Text → Text
push_lines [] = []
push_lines (l ∷ ls) = l ++ push_lines ls

-- A line of a body, byte-stuffed and ended.
unfoldable pub body_line : Text → Text
body_line l = byte_stuff_line l ++ crlf

unfoldable pub on_user : Services → Text → Pop3 → Handled
on_user sv username st =
    if not (is_authorization st.session)
    then say (err (lit "Already authenticated")) st
    else say (ok (lit "Send password")) (with_session (set_username sv.now username st.session) st)

-- The rows of a mailbox that are not marked as deleted, and nothing if the query fails.
unfoldable pub mailbox_rows : Services → ℕ → List Message → List Message
mailbox_rows sv mailbox_id table =
    if sv.can_select
    then sv.by_received_at
        (keep (λ r. if r.mailbox_id == mailbox_id then not r.deleted else false) table)
    else []

unfoldable pub message_info : Services → Message → MessageInfo
message_info sv m = record {
  id = m.id;
  size = m.body_size;
  uid = sv.show_uuid m.id;
  body_preview = m.body_preview;
  storage_path = m.storage_path;
}

unfoldable pub open_maildrop : Services → Account → Option ℕ → Pop3 → Handled
unfolding mailbox_rows message_info
open_maildrop sv account none st = say (err (lit "No mailbox")) st
open_maildrop sv account (some mailbox_id) st =
    let infos = map (message_info sv) (mailbox_rows sv mailbox_id st.table) in
    let s = authenticate sv.now account.id account.tenant_id mailbox_id st.session in
    say (ok (lit "Maildrop has " ++ display (length infos) ++ lit " messages"))
      (with_session (load_messages sv infos s) st)

unfoldable pub password_valid : Services → Text → Text → Bool
password_valid sv password password_hash = elim (sv.argon2_verify password password_hash) [
  | bad_hash ↦ false
  | verified ↦ true
  | wrong_password ↦ false
  | verify_error ↦ false
]

unfoldable pub check_account : Services → Text → Option Account → Pop3 → Handled
unfolding open_maildrop password_valid
check_account sv password none st = say (err (lit "Invalid user")) st
check_account sv password (some account) st =
    if not account.active
    then say (err (lit "Account disabled")) st
    else if not (password_valid sv password account.password_hash)
    then say (err (lit "Invalid password")) st
    else open_maildrop sv account (sv.find_mailbox account.tenant_id account.id) st

unfoldable pub check_username : Services → Text → Option Text → Pop3 → Handled
unfolding check_account
check_username sv password none st = say (err (lit "USER first")) st
check_username sv password (some username) st =
    check_account sv password (sv.find_account username) st

unfoldable pub handle_pass : Services → Text → Pop3 → Handled
unfolding check_username
handle_pass sv password st =
    if not (is_authorization st.session)
    then say (err (lit "Already authenticated")) st
    else check_username sv password st.session.username st
