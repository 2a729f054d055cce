-- ===== src/Imap/Refines.antt =====
-- Every command of `handle_command` is a step.
use mai_rust.Common.{ℕ, ◌≡◌, refl, Bool, Bool-cases, inl, inr, not, Option, none, some, List, keep}
use mai_rust.Common.Text.{Text}
use mai_rust.Common.Results.{Result, ok, err}
use mai_rust.Smtp.Types.{Mailbox}
use mai_rust.Imap.Types.{SelectedMailbox, Account, Services, Imap}
use mai_rust.Imap.Session.{is_authenticated, is_selected, is_readonly}
use mai_rust.Imap.Rows.{
  is_named, Handled, with_ids, with_user, with_mailbox, with_selected, with_writable, find_mailbox,
  is_inbox,
}
use mai_rust.Imap.Mailboxes.{
  check_account, password_valid, open_mailbox, handle_select, handle_list, list_with_tenant,
  status_response, insert_mailbox, create_in, already_there, handle_create, has_named,
  handle_delete, handle_rename, has_address, handle_subscribe,
}
use mai_rust.Imap.Client.{IsWritable}
use mai_rust.Imap.Steps.{Step, IsContext, stays, enters, selects, creates, draws, deletes, renames}

module _ (sv : Services) (st : Imap) where
  abbrev pub StepsTo : Handled → Type 0
  StepsTo h = Step sv st h.1

  pub with_ids-Step :
      (tag : Text) (t u : Option ℕ) (f : ℕ → ℕ → Handled)
      → ((tenant user : ℕ) → t ≡ some tenant → u ≡ some user → StepsTo (f tenant user))
      → StepsTo (with_ids tag t u f st)
  unfolding with_ids
  with_ids-Step tag none u f h = stays
  with_ids-Step tag (some tenant) none f h = stays
  with_ids-Step tag (some tenant) (some user) f h = h tenant user refl refl

  pub with_user-Step :
      (tag : Text) (f : ℕ → ℕ → Handled)
      → ((tenant user : ℕ) → IsContext tenant user st → StepsTo (f tenant user))
      → StepsTo (with_user tag f st)
  unfolding with_user
  with_user-Step tag f h = elim (Bool-cases (is_authenticated st.session)) [
    | inr out ↦ simp out stays
    | inl inside ↦ simp inside (
        with_ids-Step tag st.session.tenant_id st.session.user_id f (λ tenant user t u.
          h tenant user (record { inside = inside; tenant_of = t; user_of = u })))
  ]

  pub with_mailbox-Step :
      (tag : Text) (o : Option SelectedMailbox) (f : SelectedMailbox → Handled)
      → ((s : SelectedMailbox) → o ≡ some s → StepsTo (f s))
      → StepsTo (with_mailbox tag o f st)
  unfolding with_mailbox
  with_mailbox-Step tag none f h = stays
  with_mailbox-Step tag (some s) f h = h s refl

  pub with_writable-Step :
      (tag : Text) (f : SelectedMailbox → Handled)
      → ((s : SelectedMailbox) → IsWritable s st → StepsTo (f s))
      → StepsTo (with_writable tag f st)
  unfolding with_writable
  with_writable-Step tag f h = elim (Bool-cases (is_selected st.session)) [
    | inr out ↦ simp out stays
    | inl chosen ↦ elim (Bool-cases (is_readonly st.session)) [
      | inl readonly ↦ simp (chosen, readonly) stays
      | inr writable ↦
          simp (chosen, writable)
            (with_mailbox-Step tag st.session.selected_mailbox f
              (λ s e. h s (record { selected = chosen; writable = writable; mailbox = e })))
    ]
  ]

  pub with_selected-Step :
      (tag : Text) (f : SelectedMailbox → Handled)
      → ((s : SelectedMailbox) → StepsTo (f s))
      → StepsTo (with_selected tag f st)
  unfolding with_selected
  with_selected-Step tag f h = elim (Bool-cases (is_selected st.session)) [
    | inr out ↦ simp out stays
    | inl chosen ↦ simp chosen (with_mailbox-Step tag st.session.selected_mailbox f (λ s e. h s))
  ]

  pub check_account-Step :
      (tag username password : Text) (o : Option Account)
      → sv.find_account username ≡ o
      → StepsTo (check_account sv tag password o st)
  unfolding check_account
  check_account-Step tag username password none e = stays
  check_account-Step tag username password (some a) e = elim (Bool-cases a.active) [
    | inr disabled ↦ simp disabled stays
    | inl active ↦ elim (Bool-cases (password_valid sv password a.password_hash)) [
      | inr wrong ↦ simp (active, wrong) stays
      | inl right ↦ simp (active, right) (enters username password a e active right)
    ]
  ]

  open_mailbox-Step :
      (tag name : Text) (readonly : Bool) (tenant user : ℕ) (r : Result (Option Mailbox))
      → IsContext tenant user st
      → find_mailbox sv tenant user name st.mailboxes ≡ r
      → StepsTo (open_mailbox sv tag readonly r st)
  unfolding open_mailbox
  open_mailbox-Step tag name readonly tenant user (err x) c e = stays
  open_mailbox-Step tag name readonly tenant user (ok none) c e = stays
  open_mailbox-Step tag name readonly tenant user (ok (some m)) c e =
      selects tenant user name readonly m c e

  pub handle_select-Step :
      (tag name : Text) (readonly : Bool) → StepsTo (handle_select sv tag name readonly st)
  unfolding handle_select
  handle_select-Step tag name readonly =
      with_user-Step tag _
        (λ tenant user c. open_mailbox-Step tag name readonly tenant user _ c refl)

  list_with_tenant-Step :
      (tag pattern : Text) (o : Option ℕ) → StepsTo (list_with_tenant sv tag pattern o st)
  unfolding list_with_tenant
  list_with_tenant-Step tag pattern none = stays
  list_with_tenant-Step tag pattern (some tenant) = stays

  pub handle_list-Step : (tag pattern : Text) → StepsTo (handle_list sv tag pattern st)
  unfolding handle_list
  handle_list-Step tag pattern = elim (Bool-cases (is_authenticated st.session)) [
    | inr out ↦ simp out stays
    | inl inside ↦ simp inside (list_with_tenant-Step tag pattern st.session.tenant_id)
  ]

  pub status_response-Step :
      (tag name : Text) (items : List Text) (o : Option Mailbox)
      → StepsTo (status_response sv tag name items o st)
  unfolding status_response
  status_response-Step tag name items none = stays
  status_response-Step tag name items (some m) = stays

  insert_mailbox-Step :
      (tag : Text) (tenant user : ℕ) (m : Mailbox)
      → IsContext tenant user st
      → m.user_id ≡ some user
      → m.id ≡ sv.new_v4 st.drawn
      → StepsTo (insert_mailbox sv tag m st)
  unfolding insert_mailbox
  insert_mailbox-Step tag tenant user m c u i = elim (Bool-cases (sv.can_write m.id)) [
    | inr failed ↦ simp failed draws
    | inl written ↦ elim (Bool-cases (has_address m.address st.mailboxes)) [
      | inl taken ↦ simp (written, taken) draws
      | inr free ↦ simp (written, free) (creates tenant user m c u i free)
    ]
  ]

  create_in-Step :
      (tag name : Text) (tenant user : ℕ) (domain : Option ℕ)
      → IsContext tenant user st
      → StepsTo (create_in sv tag tenant user name domain st)
  unfolding create_in
  create_in-Step tag name tenant user none c = stays
  create_in-Step tag name tenant user (some domain) c =
      insert_mailbox-Step tag tenant user _ c refl refl

  pub handle_create-Step : (tag name : Text) → StepsTo (handle_create sv tag name st)
  unfolding handle_create
  handle_create-Step tag name = with_user-Step tag _ (λ tenant user c.
      elim (Bool-cases (already_there sv tenant name st.mailboxes)) [
        | inl there ↦ simp there stays
        | inr free ↦ simp free (create_in-Step tag name tenant user (sv.find_domain user) c)
      ])

  pub handle_delete-Step : (tag name : Text) → StepsTo (handle_delete sv tag name st)
  unfolding handle_delete
  handle_delete-Step tag name = with_user-Step tag _ (λ tenant user c.
      elim (Bool-cases (is_inbox sv name)) [
        | inl inbox ↦ simp inbox stays
        | inr other ↦ elim (Bool-cases (sv.can_write user)) [
          | inr failed ↦ simp (other, failed) stays
          | inl written ↦ elim (Bool-cases (has_named tenant user name st.mailboxes)) [
            | inl found ↦ simp (other, written, found) (deletes tenant user name c)
            | inr missing ↦ simp (other, written, missing) stays
          ]
        ]
      ])

  pub handle_rename-Step : (tag old new : Text) → StepsTo (handle_rename sv tag old new st)
  unfolding handle_rename
  handle_rename-Step tag old new = with_user-Step tag _ (λ tenant user c.
      elim (Bool-cases (is_inbox sv old)) [
        | inl inbox ↦ simp inbox stays
        | inr other ↦ elim (Bool-cases (sv.can_write user)) [
          | inr failed ↦ simp (other, failed) stays
          | inl written ↦ elim (Bool-cases (has_named tenant user old st.mailboxes)) [
            | inr missing ↦ simp (other, written, missing) stays
            | inl found ↦
                elim (Bool-cases
                  (has_address new (keep (λ m. not (is_named tenant user old m)) st.mailboxes))) [
                    | inl taken ↦ simp (other, written, found, taken) stays
                    | inr free ↦ simp (other, written, found, free) (renames tenant user old new c)
                  ]
          ]
        ]
      ])

  pub handle_subscribe-Step : (tag : Text) (b : Bool) → StepsTo (handle_subscribe tag b st)
  unfolding handle_subscribe
  handle_subscribe-Step tag b = elim (Bool-cases (is_authenticated st.session)) [
    | inr out ↦ simp out stays
    | inl inside ↦ simp inside stays
  ]
