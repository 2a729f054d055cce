-- ===== src/Imap/Mailboxes.antt =====
-- LOGIN, SELECT and EXAMINE, LIST and LSUB, STATUS, CREATE, DELETE, RENAME and SUBSCRIBE
-- (imap/server.rs).
use mai_rust.Common.{
  ℕ, ◌+◌, ◌%◌, ◌++◌, Bool, true, false, not, ◌&&◌, ◌||◌, Option, none, some, List, [], ◌∷◌, map,
  keep, length, if◌then◌else◌, ◌==◌,
}
use mai_rust.Common.Text.{has_text, Text, lit, eq_text, to_uppercase}
use mai_rust.Common.Decimal.{u32_limit}
use mai_rust.Common.Results.{Result, ok, err}
use mai_rust.Smtp.Types.{Mailbox, bad_hash, verified, wrong_password, verify_error}
use mai_rust.Imap.Types.{SelectedMailbox, Message, Account, Services, Imap}
use mai_rust.Imap.Session.{
  is_authenticated, authenticate, select, new_mailbox, update_with_messages,
}
use mai_rust.Imap.Words.{trim_char_start, trim_char_end, trim_char}
use mai_rust.Imap.Response
use mai_rust.Imap.Response.{
  no, mailbox_flags, permanent_flags, exists, recent, unseen, uid_validity, uid_next, list, status,
}
use mai_rust.Imap.Rows.{
  Handled, say, with_session, with_user, is_users, is_named, is_inbox, find_mailbox, mailbox_rows,
}

unfoldable pub password_valid : Services → Text → Text → Bool
password_valid sv password password_hash = elim (sv.argon2_verify password password_hash) [
  | bad_hash ↦ false
  | verified ↦ true
  | wrong_password ↦ false
  | verify_error ↦ false
]

unfoldable pub check_account : Services → Text → Text → Option Account → Imap → Handled
unfolding password_valid authenticate
check_account sv tag password none st = say (no tag (lit "Invalid credentials")) st
check_account sv tag password (some a) st =
    if not a.active
    then say (no tag (lit "Account is disabled")) st
    else if password_valid sv password a.password_hash
    then say (Response.ok tag (lit "LOGIN completed"))
        (with_session (authenticate sv.now a.id a.tenant_id a.email st.session) st)
    else say (no tag (lit "Invalid credentials")) st

unfoldable pub handle_login : Services → Text → Text → Text → Imap → Handled
unfolding check_account
handle_login sv tag username password st =
    check_account sv tag password (sv.find_account username) st

unfoldable pub unseen_line : Option ℕ → Text
unseen_line none = []
unseen_line (some n) = unseen n

unfoldable pub select_response : Text → Bool → SelectedMailbox → Text
unfolding unseen_line
select_response tag readonly s =
    let flags =
      lit "\\Answered" ∷ lit "\\Flagged" ∷ lit "\\Deleted" ∷ lit "\\Seen" ∷ lit "\\Draft" ∷ [] in
    mailbox_flags flags
    ++ permanent_flags (flags ++ lit "\\*" ∷ [])
    ++ exists s.exists
    ++ recent s.recent
    ++ unseen_line s.first_unseen
    ++ uid_validity s.uid_validity
    ++ uid_next s.uid_next
    ++ Response.ok tag
        ((if readonly then lit "[READ-ONLY]" else lit "[READ-WRITE]") ++ lit " SELECT completed")

unfoldable pub open_mailbox : Services → Text → Bool → Result (Option Mailbox) → Imap → Handled
unfolding select select_response update_with_messages new_mailbox mailbox_rows
open_mailbox sv tag readonly (err e) st = say (no tag (lit "Internal server error")) st
open_mailbox sv tag readonly (ok none) st = say (no tag (lit "Mailbox not found")) st
open_mailbox sv tag readonly (ok (some m)) st =
    let messages = mailbox_rows sv m.id st.table in
    let s = update_with_messages sv.now messages (new_mailbox m.id m.address) in
    say (select_response tag readonly s) (with_session (select sv.now s readonly st.session) st)

unfoldable pub handle_select : Services → Text → Text → Bool → Imap → Handled
unfolding with_user find_mailbox open_mailbox
handle_select sv tag name readonly st =
    with_user tag
      (λ tenant user.
        open_mailbox sv tag readonly (find_mailbox sv tenant user name st.mailboxes) st)
      st

unfoldable pub is_listed : Text → Text → Bool
unfolding trim_char_start trim_char_end has_text
is_listed pattern address =
    eq_text pattern (b'*' ∷ [])
    || eq_text pattern (b'%' ∷ [])
    || has_text (trim_char b'%' (trim_char b'*' pattern)) address

-- The addresses of the user's mailboxes, or of the tenant's if the session has no user.
unfoldable pub list_addresses : Services → ℕ → Option ℕ → List Mailbox → List Text
unfolding is_users
list_addresses sv tenant user mailboxes =
    if not sv.can_select
    then []
    else map (λ m. m.address)
        (elim user [
          | some u ↦ keep (is_users tenant u) mailboxes
          | none ↦ keep (λ m. m.tenant_id == tenant) mailboxes
        ])

unfoldable pub list_lines : List Text → Text
list_lines [] = []
list_lines (a ∷ addresses) = list (lit "\\HasNoChildren" ∷ []) (lit "/") a ++ list_lines addresses

unfoldable pub list_with_tenant : Services → Text → Text → Option ℕ → Imap → Handled
unfolding list_addresses is_listed list_lines
list_with_tenant sv tag pattern none st = say (no tag (lit "No tenant context")) st
list_with_tenant sv tag pattern (some tenant) st =
    let addresses = list_addresses sv tenant st.session.user_id st.mailboxes in
    say
      (list_lines (lit "INBOX" ∷ keep (is_listed pattern) addresses)
        ++ Response.ok tag (lit "LIST completed"))
      st

unfoldable pub handle_list : Services → Text → Text → Imap → Handled
unfolding list_with_tenant
handle_list sv tag pattern st =
    if not (is_authenticated st.session)
    then say (no tag (lit "Not authenticated")) st
    else list_with_tenant sv tag pattern st.session.tenant_id st

unfoldable pub status_item : Services → ℕ → ℕ → Text → List (Text × ℕ)
status_item sv total unseen_count item =
    let upper = to_uppercase sv.wide_upper item in
    if eq_text upper (lit "MESSAGES")
    then (lit "MESSAGES", total % u32_limit) ∷ []
    else if eq_text upper (lit "UNSEEN")
    then (lit "UNSEEN", unseen_count % u32_limit) ∷ []
    else if eq_text upper (lit "RECENT")
    then (lit "RECENT", 0) ∷ []
    else if eq_text upper (lit "UIDNEXT")
    then (lit "UIDNEXT", (total + 1) % u32_limit) ∷ []
    else if eq_text upper (lit "UIDVALIDITY")
    then (lit "UIDVALIDITY", 1) ∷ []
    else []

unfoldable pub status_list : Services → ℕ → ℕ → List Text → List (Text × ℕ)
unfolding status_item
status_list sv total unseen_count [] = []
status_list sv total unseen_count (i ∷ items) =
    status_item sv total unseen_count i ++ status_list sv total unseen_count items

-- STATUS has no INBOX but a mailbox of that address; a failed query finds none.
unfoldable pub status_mailbox : Services → ℕ → ℕ → Text → List Mailbox → Option Mailbox
unfolding is_named
status_mailbox sv tenant user name mailboxes =
    if sv.can_select then sv.fetch_optional (keep (is_named tenant user name) mailboxes) else none

unfoldable pub status_response :
    Services → Text → Text → List Text → Option Mailbox → Imap → Handled
unfolding status_list
status_response sv tag name items none st = say (no tag (lit "Mailbox not found")) st
status_response sv tag name items (some m) st =
    let rows = if sv.can_select then keep (λ r. r.mailbox_id == m.id) st.table else [] in
    say
      (status name (status_list sv (length rows) (length (keep (λ r. not r.seen) rows)) items)
        ++ Response.ok tag (lit "STATUS completed"))
      st

unfoldable pub handle_status : Services → Text → Text → List Text → Imap → Handled
unfolding with_user status_mailbox status_response
handle_status sv tag name items st =
    with_user tag
      (λ tenant user.
        status_response sv tag name items (status_mailbox sv tenant user name st.mailboxes) st)
      st

-- The column `address` is unique.
unfoldable pub has_address : Text → List Mailbox → Bool
has_address address [] = false
has_address address (m ∷ ms) = eq_text m.address address || has_address address ms

unfoldable pub insert_mailbox : Services → Text → Mailbox → Imap → Handled
unfolding has_address
insert_mailbox sv tag m st =
    if sv.can_write m.id && not (has_address m.address st.mailboxes)
    then say (Response.ok tag (lit "CREATE completed"))
        (record st { mailboxes = st.mailboxes ++ m ∷ []; drawn = st.drawn + 1 })
    else say (no tag (lit "Failed to create mailbox")) (record st { drawn = st.drawn + 1 })

unfoldable pub create_in : Services → Text → ℕ → ℕ → Text → Option ℕ → Imap → Handled
unfolding insert_mailbox
create_in sv tag tenant user name none st = say (no tag (lit "No domain found")) st
create_in sv tag tenant user name (some domain) st =
    insert_mailbox sv tag
      (record {
        id = sv.new_v4 st.drawn;
        tenant_id = tenant;
        domain_id = domain;
        user_id = some user;
        address = name;
        display_name = none;
        quota_bytes = none;
        used_bytes = 0;
        created_at = sv.now;
        updated_at = sv.now;
      })
      st

-- `WHERE tenant_id = $1 AND address = $2`; a failed query finds none.
unfoldable pub already_there : Services → ℕ → Text → List Mailbox → Bool
unfolding has_address
already_there sv tenant name mailboxes =
    sv.can_select && has_address name (keep (λ m. m.tenant_id == tenant) mailboxes)

unfoldable pub handle_create : Services → Text → Text → Imap → Handled
unfolding with_user already_there create_in
handle_create sv tag name st =
    with_user tag
      (λ tenant user.
        if already_there sv tenant name st.mailboxes
        then say (no tag (lit "Mailbox already exists")) st
        else create_in sv tag tenant user name (sv.find_domain user) st)
      st

unfoldable pub has_named : ℕ → ℕ → Text → List Mailbox → Bool
unfolding is_named
has_named tenant user name [] = false
has_named tenant user name (m ∷ ms) = is_named tenant user name m || has_named tenant user name ms

-- The messages of a deleted mailbox go with it (ON DELETE CASCADE).
unfoldable pub is_deleted_with : ℕ → ℕ → Text → List Mailbox → Message → Bool
unfolding is_named
is_deleted_with tenant user name [] r = false
is_deleted_with tenant user name (m ∷ ms) r =
    (is_named tenant user name m && r.mailbox_id == m.id) || is_deleted_with tenant user name ms r

unfoldable pub delete_mailboxes : ℕ → ℕ → Text → Imap → Imap
unfolding is_deleted_with is_named
delete_mailboxes tenant user name st = record st {
  mailboxes = keep (λ m. not (is_named tenant user name m)) st.mailboxes;
  table = keep (λ r. not (is_deleted_with tenant user name st.mailboxes r)) st.table;
}

unfoldable pub handle_delete : Services → Text → Text → Imap → Handled
unfolding with_user is_inbox has_named delete_mailboxes
handle_delete sv tag name st =
    with_user tag
      (λ tenant user.
        if is_inbox sv name
        then say (no tag (lit "Cannot delete INBOX")) st
        else if not (sv.can_write user)
        then say (no tag (lit "Failed to delete mailbox")) st
        else if has_named tenant user name st.mailboxes
        then say (Response.ok tag (lit "DELETE completed")) (delete_mailboxes tenant user name st)
        else say (no tag (lit "Mailbox not found")) st)
      st

unfoldable pub rename_rows : ℕ → ℕ → ℕ → Text → Text → List Mailbox → List Mailbox
unfolding is_named
rename_rows now tenant user old new [] = []
rename_rows now tenant user old new (m ∷ ms) =
    (if is_named tenant user old m then record m { address = new; updated_at = now } else m)
    ∷ rename_rows now tenant user old new ms

-- The update fails if another mailbox has the new address.
unfoldable pub handle_rename : Services → Text → Text → Text → Imap → Handled
unfolding with_user is_inbox has_named rename_rows has_address is_named
handle_rename sv tag old new st =
    with_user tag
      (λ tenant user.
        if is_inbox sv old
        then say (no tag (lit "Cannot rename INBOX")) st
        else if not (sv.can_write user)
        then say (no tag (lit "Failed to rename mailbox")) st
        else if not (has_named tenant user old st.mailboxes)
        then say (no tag (lit "Mailbox not found")) st
        else if has_address new (keep (λ m. not (is_named tenant user old m)) st.mailboxes)
        then say (no tag (lit "Failed to rename mailbox")) st
        else say (Response.ok tag (lit "RENAME completed"))
            (record st { mailboxes = rename_rows sv.now tenant user old new st.mailboxes }))
      st

unfoldable pub handle_subscribe : Text → Bool → Imap → Handled
handle_subscribe tag subscribe st =
    if not (is_authenticated st.session)
    then say (no tag (lit "Not authenticated")) st
    else say
        (Response.ok tag
          ((if subscribe then lit "SUBSCRIBE" else lit "UNSUBSCRIBE") ++ lit " completed"))
        st
