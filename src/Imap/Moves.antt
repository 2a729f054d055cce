-- ===== src/Imap/Moves.antt =====
-- COPY, MOVE and EXPUNGE (imap/server.rs).
use mai_rust.Common.{
  ℕ, ◌+◌, ◌-◌, ◌%◌, ◌++◌, Bool, false, not, Option, none, some, List, [], ◌∷◌, map, keep,
  if◌then◌else◌, ◌==◌,
}
use mathlib.Core.List.{reverse}
use mai_rust.Common.Text.{Text, lit}
use mai_rust.Common.Decimal.{display, u32_limit}
use mai_rust.Common.Results.{Result, ok, err}
use mai_rust.Smtp.Types.{Mailbox}
use mai_rust.Imap.Types.{SelectedMailbox, SequenceSet, Message, Services, Imap}
use mai_rust.Imap.Session.{message_id_to_uid, is_selected, is_readonly}
use mai_rust.Imap.Response
use mai_rust.Imap.Response.{no, expunge, copyuid, join}
use mai_rust.Imap.Rows.{
  Handled, say, with_table, with_ids, with_mailbox, with_writable, find_mailbox, mailbox_rows,
  max_seq, seq_at, in_set,
}

-- The loop of EXPUNGE, `offset` deleted rows before index `idx`: the sequence numbers announced,
-- and the new table.
unfoldable pub expunge_from : Services → ℕ → ℕ → List Message → List Message → List ℕ × List Message
expunge_from sv idx offset [] table = ([], table)
expunge_from sv idx offset (m ∷ ms) table =
    let skip = expunge_from sv (idx + 1) offset ms table in
    let failed = expunge_from sv (idx + 1) (offset + 1) ms table in
    let (seqs, table') =
      expunge_from sv (idx + 1) (offset + 1) ms (keep (λ r. not (r.id == m.id)) table) in
    if not m.deleted
    then skip
    else if sv.can_write m.id
    then ((idx + 1 - offset) % u32_limit ∷ seqs, table')
    else failed

unfoldable pub expunge_lines : List ℕ → Text
expunge_lines [] = []
expunge_lines (seq ∷ seqs) = expunge seq ++ expunge_lines seqs

unfoldable pub handle_expunge : Services → Text → Imap → Handled
unfolding with_writable expunge_from expunge_lines mailbox_rows
handle_expunge sv tag st =
    with_writable tag
      (λ s.
        let (seqs, table) = expunge_from sv 0 0 (mailbox_rows sv s.id st.table) st.table in
        say (expunge_lines seqs ++ Response.ok tag (lit "EXPUNGE completed")) (with_table table st))
      st

-- The row that `INSERT … SELECT` makes of a row.
unfoldable pub copied : ℕ → ℕ → ℕ → Message → Message
copied now new_id dest r = record r {
  id = new_id;
  mailbox_id = dest;
  deleted = false;
  created_at = now;
}

-- `FROM messages WHERE id = $3`.
unfoldable pub copy_rows : ℕ → ℕ → ℕ → ℕ → List Message → List Message
unfolding copied
copy_rows now new_id dest id table = map (copied now new_id dest) (keep (λ r. r.id == id) table)

-- The loop of COPY: the UIDs of each source and its copy, the new table and the number of
-- identifiers drawn.
unfoldable pub copy_from :
    Services
    → SequenceSet
    → Bool
    → ℕ
    → ℕ
    → ℕ
    → List Message
    → List Message
    → ℕ
    → List (ℕ × ℕ) × (List Message × ℕ)
unfolding in_set copy_rows message_id_to_uid
copy_from sv sequence uid_mode dest top idx [] table drawn = ([], (table, drawn))
copy_from sv sequence uid_mode dest top idx (m ∷ ms) table drawn =
    let new_id = sv.new_v4 drawn in
    let skip = copy_from sv sequence uid_mode dest top (idx + 1) ms table drawn in
    let failed = copy_from sv sequence uid_mode dest top (idx + 1) ms table (drawn + 1) in
    let (uids, rest) =
      copy_from sv sequence uid_mode dest top (idx + 1) ms
        (table ++ copy_rows sv.now new_id dest m.id table) (drawn + 1) in
    if not (in_set sequence uid_mode top idx m)
    then skip
    else if sv.can_write new_id
    then ((message_id_to_uid m.id, message_id_to_uid new_id) ∷ uids, rest)
    else failed

unfoldable pub uid_list : List ℕ → Text
uid_list uids = join (lit ",") (map display uids)

abbrev pub copyuid_text : SelectedMailbox → List (ℕ × ℕ) → Text
copyuid_text s uids =
    copyuid s.uid_validity (uid_list (map (λ e. e.0) uids)) (uid_list (map (λ e. e.1) uids))

unfoldable pub copy_response : Text → SelectedMailbox → List (ℕ × ℕ) → Text
unfolding uid_list
copy_response tag s [] = Response.ok tag (lit "COPY completed (no messages)")
copy_response tag s (e ∷ uids) =
    Response.ok tag (copyuid_text s (e ∷ uids) ++ lit " COPY completed")

-- What COPY and MOVE say when the destination is not found.
abbrev pub no_destination : Text → Imap → Handled
no_destination tag st = say (no tag (lit "[TRYCREATE] Destination mailbox does not exist")) st

abbrev pub failed_destination : Text → Imap → Handled
failed_destination tag st = say (no tag (lit "Failed to find destination mailbox")) st

unfoldable pub copy_to :
    Services
    → Text
    → SequenceSet
    → Bool
    → SelectedMailbox
    → Result (Option Mailbox)
    → Imap
    → Handled
unfolding copy_from copy_response mailbox_rows
copy_to sv tag sequence uid_mode s (err e) st = failed_destination tag st
copy_to sv tag sequence uid_mode s (ok none) st = no_destination tag st
copy_to sv tag sequence uid_mode s (ok (some dest)) st =
    let messages = mailbox_rows sv s.id st.table in
    let (uids, (table, drawn)) =
      copy_from sv sequence uid_mode dest.id (max_seq messages) 0 messages st.table st.drawn in
    say (copy_response tag s uids) (record st { table = table; drawn = drawn })

unfoldable pub handle_copy : Services → Text → SequenceSet → Text → Bool → Imap → Handled
unfolding with_ids with_mailbox find_mailbox copy_to
handle_copy sv tag sequence name uid_mode st =
    if not (is_selected st.session)
    then say (no tag (lit "No mailbox selected")) st
    else with_ids tag st.session.tenant_id st.session.user_id
        (λ tenant user.
          with_mailbox tag st.session.selected_mailbox
            (λ s.
              copy_to sv tag sequence uid_mode s (find_mailbox sv tenant user name st.mailboxes) st)
            st)
        st

-- `UPDATE messages SET mailbox_id = $2 WHERE id = $1`.
unfoldable pub move_rows : ℕ → ℕ → List Message → List Message
move_rows id dest table = map (λ r. if r.id == id then record r { mailbox_id = dest } else r) table

-- The loop of MOVE: the sequence number and the UID of each message moved, and the new table.
unfoldable pub move_from :
    Services
    → SequenceSet
    → Bool
    → ℕ
    → ℕ
    → ℕ
    → List Message
    → List Message
    → List (ℕ × ℕ) × List Message
unfolding in_set move_rows message_id_to_uid
move_from sv sequence uid_mode dest top idx [] table = ([], table)
move_from sv sequence uid_mode dest top idx (m ∷ ms) table =
    let skip = move_from sv sequence uid_mode dest top (idx + 1) ms table in
    let (moved, table') =
      move_from sv sequence uid_mode dest top (idx + 1) ms (move_rows m.id dest table) in
    if not (in_set sequence uid_mode top idx m)
    then skip
    else if sv.can_write m.id
    then ((seq_at idx, message_id_to_uid m.id) ∷ moved, table')
    else skip

-- The sequence numbers announced, the last first.
unfoldable pub announced : List (ℕ × ℕ) → List ℕ
announced moved = reverse (map (λ e. e.0) moved)

-- A message keeps its UID when it moves.
unfoldable pub move_response : Text → SelectedMailbox → List (ℕ × ℕ) → Text
unfolding uid_list
move_response tag s [] = Response.ok tag (lit "MOVE completed (no messages)")
move_response tag s (e ∷ moved) =
    Response.ok tag (copyuid_text s (map (λ x. (x.1, x.1)) (e ∷ moved)) ++ lit " MOVE completed")

unfoldable pub move_to :
    Services
    → Text
    → SequenceSet
    → Bool
    → SelectedMailbox
    → Result (Option Mailbox)
    → Imap
    → Handled
unfolding move_from move_response announced expunge_lines mailbox_rows
move_to sv tag sequence uid_mode s (err e) st = failed_destination tag st
move_to sv tag sequence uid_mode s (ok none) st = no_destination tag st
move_to sv tag sequence uid_mode s (ok (some dest)) st =
    let messages = mailbox_rows sv s.id st.table in
    let (moved, table) =
      move_from sv sequence uid_mode dest.id (max_seq messages) 0 messages st.table in
    say (expunge_lines (announced moved) ++ move_response tag s moved) (with_table table st)

unfoldable pub handle_move : Services → Text → SequenceSet → Text → Bool → Imap → Handled
unfolding with_ids with_mailbox find_mailbox move_to
handle_move sv tag sequence name uid_mode st =
    if not (is_selected st.session)
    then say (no tag (lit "No mailbox selected")) st
    else if is_readonly st.session
    then say (no tag (lit "Mailbox is read-only")) st
    else with_ids tag st.session.tenant_id st.session.user_id
        (λ tenant user.
          with_mailbox tag st.session.selected_mailbox
            (λ s.
              move_to sv tag sequence uid_mode s (find_mailbox sv tenant user name st.mailboxes) st)
            st)
        st
