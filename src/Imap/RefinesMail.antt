-- ===== src/Imap/RefinesMail.antt =====
-- The commands on messages are steps, and so is every command; a connection is a sequence of steps.
use mai_rust.Common.{
  ℕ, ltb, length, ◌≡◌, refl, Bool, Bool-cases, inl, inr, true, false, Option, none, some, List,
}
use mai_rust.Common.Text.{Text, Bytes, lit, eq_text}
use mai_rust.Common.Results.{Result, ok, err}
use mai_rust.Smtp.Types.{Mailbox}
use mai_rust.Imap.Types.{
  SessionState, not_authenticated, authenticated, selected, read_only, logged_out, SelectedMailbox,
  SequenceSet, Services, Imap, ImapCommand, capability_cmd, noop_cmd, logout_cmd, starttls_cmd,
  close_cmd, check_cmd, expunge_cmd, idle_cmd, done_cmd, namespace_cmd, login_cmd, authenticate_cmd,
  select_cmd, examine_cmd, create_cmd, delete_cmd, subscribe_cmd, unsubscribe_cmd, rename_cmd,
  list_cmd, lsub_cmd, status_cmd, append_cmd, fetch_cmd, search_cmd, store_cmd, copy_cmd, move_cmd,
  unknown_cmd,
}
use mai_rust.Imap.Session.{
  state_is_authenticated, state_is_selected, is_authenticated, is_selected, is_readonly,
}
use mai_rust.Imap.Rows.{find_mailbox}
use mai_rust.Imap.Mailboxes.{handle_login, handle_status, status_mailbox}
use mai_rust.Imap.Flags.{handle_store}
use mai_rust.Imap.Moves.{handle_expunge, copy_to, handle_copy, move_to, handle_move}
use mai_rust.Imap.Fetch.{handle_fetch, handle_search}
use mai_rust.Imap.Append.{append_to, store_message, insert_message, handle_append, max_append_size}
use mai_rust.Imap.Client.{IsWritable}
use mai_rust.Imap.Steps.{
  IsContext, IsReadable, stays, touches, closes, leaves, draws, stores, expunges, moves, copies,
  files_only, appends, appended_row,
}
use mai_rust.Imap.Refines.{
  StepsTo, with_ids-Step, with_user-Step, with_mailbox-Step, with_writable-Step, with_selected-Step,
  check_account-Step, handle_select-Step, handle_list-Step, status_response-Step,
  handle_create-Step, handle_delete-Step, handle_rename-Step, handle_subscribe-Step,
}
use mai_rust.Imap.Command.{on_close, on_check, on_authenticate, handle_command}

-- A selected mailbox means an authenticated session.
pub selected_authenticated :
    (t : SessionState) → state_is_selected t ≡ true → state_is_authenticated t ≡ true
unfolding state_is_selected state_is_authenticated
selected_authenticated not_authenticated h = cc
selected_authenticated authenticated h = refl
selected_authenticated selected h = refl
selected_authenticated read_only h = refl
selected_authenticated logged_out h = cc

module _ (sv : Services) (st : Imap) where
  copy_to-Step :
      (tag name : Text) (sequence : SequenceSet) (uid_mode : Bool) (s : SelectedMailbox)
      (tenant user : ℕ) (r : Result (Option Mailbox))
      → IsReadable s st
      → IsContext tenant user st
      → find_mailbox sv tenant user name st.mailboxes ≡ r
      → StepsTo sv st (copy_to sv tag sequence uid_mode s r st)
  unfolding copy_to
  copy_to-Step tag name sequence uid_mode s tenant user (err x) w c e = stays
  copy_to-Step tag name sequence uid_mode s tenant user (ok none) w c e = stays
  copy_to-Step tag name sequence uid_mode s tenant user (ok (some dest)) w c e =
      copies tenant user name s dest sequence uid_mode w c e

  selected_inside : is_selected st.session ≡ true → is_authenticated st.session ≡ true
  selected_inside h = selected_authenticated st.session.state h

  handle_copy-Step :
      (tag name : Text) (sequence : SequenceSet) (uid_mode : Bool)
      → StepsTo sv st (handle_copy sv tag sequence name uid_mode st)
  unfolding handle_copy
  handle_copy-Step tag name sequence uid_mode = elim (Bool-cases (is_selected st.session)) [
    | inr out ↦ simp out stays
    | inl chosen ↦ simp chosen (
        with_ids-Step sv st tag st.session.tenant_id st.session.user_id _ (λ tenant user t u.
          with_mailbox-Step sv st tag st.session.selected_mailbox _ (λ s e.
            copy_to-Step tag name sequence uid_mode s tenant user _
              (record { selected = chosen; mailbox = e })
              (record { inside = selected_inside chosen; tenant_of = t; user_of = u }) refl)))
  ]

  move_to-Step :
      (tag name : Text) (sequence : SequenceSet) (uid_mode : Bool) (s : SelectedMailbox)
      (tenant user : ℕ) (r : Result (Option Mailbox))
      → IsWritable s st
      → IsContext tenant user st
      → find_mailbox sv tenant user name st.mailboxes ≡ r
      → StepsTo sv st (move_to sv tag sequence uid_mode s r st)
  unfolding move_to
  move_to-Step tag name sequence uid_mode s tenant user (err x) w c e = stays
  move_to-Step tag name sequence uid_mode s tenant user (ok none) w c e = stays
  move_to-Step tag name sequence uid_mode s tenant user (ok (some dest)) w c e =
      moves tenant user name s dest sequence uid_mode w c e

  handle_move-Step :
      (tag name : Text) (sequence : SequenceSet) (uid_mode : Bool)
      → StepsTo sv st (handle_move sv tag sequence name uid_mode st)
  unfolding handle_move
  handle_move-Step tag name sequence uid_mode = elim (Bool-cases (is_selected st.session)) [
    | inr out ↦ simp out stays
    | inl chosen ↦ elim (Bool-cases (is_readonly st.session)) [
      | inl readonly ↦ simp (chosen, readonly) stays
      | inr writable ↦
          simp (chosen, writable)
            (with_ids-Step sv st tag st.session.tenant_id st.session.user_id _ (λ tenant user t u.
              with_mailbox-Step sv st tag st.session.selected_mailbox _ (λ s e.
                move_to-Step tag name sequence uid_mode s tenant user _
                  (record { selected = chosen; writable = writable; mailbox = e })
                  (record { inside = selected_inside chosen; tenant_of = t; user_of = u }) refl)))
    ]
  ]

  append_to-Step :
      (tag name : Text) (tenant user : ℕ) (flags : List Text) (message : Bytes)
      (r : Result (Option Mailbox))
      → IsContext tenant user st
      → find_mailbox sv tenant user name st.mailboxes ≡ r
      → StepsTo sv st (append_to sv tag tenant flags message r st)
  unfolding append_to store_message insert_message
  append_to-Step tag name tenant user flags message (err x) c e = stays
  append_to-Step tag name tenant user flags message (ok none) c e = stays
  append_to-Step tag name tenant user flags message (ok (some m)) c e =
      let row = appended_row sv tenant m flags message st in
      elim (Bool-cases sv.storage_ready) [
        | inr failed ↦ simp failed draws
        | inl ready ↦ elim (Bool-cases (sv.can_store row.storage_path message)) [
          | inr failed ↦ simp (ready, failed) draws
          | inl stored ↦ elim (Bool-cases (sv.can_write row.id)) [
            | inr failed ↦ simp (ready, stored, failed) (files_only row message)
            | inl written ↦
                simp (ready, stored, written) (appends tenant user name m flags message c e)
          ]
        ]
      ]

  handle_append-Step :
      (tag name : Text) (flags : List Text) (message : Bytes)
      → StepsTo sv st (handle_append sv tag name flags message st)
  unfolding handle_append
  handle_append-Step tag name flags message =
      elim (Bool-cases (ltb max_append_size (length message))) [
        | inl large ↦ simp large stays
        | inr fits ↦ simp fits (
            with_user-Step sv st tag _
              (λ tenant user c. append_to-Step tag name tenant user flags message _ c refl))
      ]

  on_close-Step : (tag : Text) → StepsTo sv st (on_close sv tag st)
  unfolding on_close
  on_close-Step tag = elim (Bool-cases (is_selected st.session)) [
    | inr out ↦ simp out stays
    | inl chosen ↦ simp chosen (closes chosen)
  ]

  on_check-Step : (tag : Text) → StepsTo sv st (on_check tag st)
  unfolding on_check
  on_check-Step tag = elim (Bool-cases (is_selected st.session)) [
    | inr out ↦ simp out stays
    | inl chosen ↦ simp chosen stays
  ]

  on_authenticate-Step : (tag mechanism : Text) → StepsTo sv st (on_authenticate tag mechanism st)
  unfolding on_authenticate
  on_authenticate-Step tag mechanism = elim (Bool-cases (eq_text mechanism (lit "PLAIN"))) [
    | inl plain ↦ simp plain stays
    | inr other ↦ simp other stays
  ]

  -- Every command makes one step.
  pub handle_command-Step :
      (tag : Text) (cmd : ImapCommand) → StepsTo sv st (handle_command sv tag cmd st)
  unfolding handle_command handle_login handle_status handle_store handle_expunge handle_fetch
      handle_search
  handle_command-Step tag capability_cmd = stays
  handle_command-Step tag noop_cmd = touches
  handle_command-Step tag logout_cmd = leaves
  handle_command-Step tag starttls_cmd = stays
  handle_command-Step tag (login_cmd username password) =
      check_account-Step sv st tag username password (sv.find_account username) refl
  handle_command-Step tag (authenticate_cmd mechanism initial) = on_authenticate-Step tag mechanism
  handle_command-Step tag (select_cmd name) = handle_select-Step sv st tag name false
  handle_command-Step tag (examine_cmd name) = handle_select-Step sv st tag name true
  handle_command-Step tag (list_cmd reference pattern) = handle_list-Step sv st tag pattern
  handle_command-Step tag (lsub_cmd reference pattern) = handle_list-Step sv st tag pattern
  handle_command-Step tag (status_cmd name items) = with_user-Step sv st tag _ (λ tenant user c.
      status_response-Step sv st tag name items (status_mailbox sv tenant user name st.mailboxes))
  handle_command-Step tag close_cmd = on_close-Step tag
  handle_command-Step tag check_cmd = on_check-Step tag
  handle_command-Step tag (fetch_cmd sequence items uid) =
      with_selected-Step sv st tag _ (λ s. stays)
  handle_command-Step tag (search_cmd criteria uid) = with_selected-Step sv st tag _ (λ s. stays)
  handle_command-Step tag (create_cmd name) = handle_create-Step sv st tag name
  handle_command-Step tag (delete_cmd name) = handle_delete-Step sv st tag name
  handle_command-Step tag (rename_cmd old new) = handle_rename-Step sv st tag old new
  handle_command-Step tag (subscribe_cmd name) = handle_subscribe-Step sv st tag true
  handle_command-Step tag (unsubscribe_cmd name) = handle_subscribe-Step sv st tag false
  handle_command-Step tag (store_cmd sequence fl uid) =
      with_writable-Step sv st tag _ (λ s w. stores s sequence fl uid w)
  handle_command-Step tag (copy_cmd sequence name uid) = handle_copy-Step tag name sequence uid
  handle_command-Step tag (move_cmd sequence name uid) = handle_move-Step tag name sequence uid
  handle_command-Step tag expunge_cmd = with_writable-Step sv st tag _ (λ s w. expunges s w)
  handle_command-Step tag (append_cmd name flags date message) =
      handle_append-Step tag name flags message
  handle_command-Step tag idle_cmd = stays
  handle_command-Step tag done_cmd = stays
  handle_command-Step tag namespace_cmd = stays
  handle_command-Step tag (unknown_cmd command) = stays
