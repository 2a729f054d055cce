-- ===== src/Imap/Examined.antt =====
-- A mailbox opened by EXAMINE is not changed.
use mai_rust.Common.{
  ℕ, ◌+◌, ◌≡◌, ◌≢◌, refl, sym, ◌∙◌, Bool, Bool-cases, ◌⊎◌, inl, inr, true, false, not, ◌&&◌, List,
  [], ◌∷◌, ◌++◌, append_assoc, append-nil, arith,
}
use mai_rust.Common.Text.{Text}
use mai_rust.Imap.Types.{SelectedMailbox, SequenceSet, ImapCommand, Message, Services, Imap}
use mai_rust.Imap.Session.{is_selected, is_readonly}
use mai_rust.Imap.Rows.{in_set}
use mai_rust.Imap.Mailboxes.{delete_mailboxes}
use mai_rust.Imap.Moves.{copy_rows, copy_from}
use mai_rust.Imap.Client.{IsWritable}
use mai_rust.Imap.Command.{handle_command}
use mai_rust.Imap.Steps.{
  Step, IsContext, stays, touches, enters, selects, closes, leaves, creates, draws, deletes,
  renames, stores, expunges, moves, copies, files_only, appends, appended_row,
}
use mai_rust.Imap.RefinesMail.{handle_command-Step}

-- Rows are added at most.
abbrev pub IsGrown : List Message → List Message → Type 0
IsGrown t t' = (new : List Message) × (t' ≡ t ++ new)

same_IsGrown : (t : List Message) → IsGrown t t
same_IsGrown t = ([], sym (append-nil t))

copy_from-IsGrown :
    (sv : Services) (sequence : SequenceSet) (uid_mode : Bool) (dest top idx : ℕ)
    (ms t : List Message) (drawn : ℕ)
    → IsGrown t (copy_from sv sequence uid_mode dest top idx ms t drawn).1.0
unfolding copy_from
copy_from-IsGrown sv sequence uid_mode dest top idx [] t drawn = same_IsGrown t
copy_from-IsGrown sv sequence uid_mode dest top idx (m ∷ ms) t drawn =
    elim (Bool-cases (in_set sequence uid_mode top idx m)) [
      | inr out ↦ simp out (copy_from-IsGrown sv sequence uid_mode dest top (idx + 1) ms t drawn)
      | inl named ↦ elim (Bool-cases (sv.can_write (sv.new_v4 drawn))) [
        | inr failed ↦
            simp (named, failed)
              (copy_from-IsGrown sv sequence uid_mode dest top (idx + 1) ms t (drawn + 1))
        | inl written ↦
            let made = copy_rows sv.now (sv.new_v4 drawn) dest m.id t in
            let (new, e) =
              copy_from-IsGrown sv sequence uid_mode dest top (idx + 1) ms (t ++ made)
                (drawn + 1) in
            simp (named, written) (made ++ new, e ∙ append_assoc t made new)
      ]
    ]

-- What a command may do to the messages while no mailbox is selected for writing.
abbrev pub IsHarmless : Imap → Imap → Type 0
IsHarmless st st' =
    IsGrown st.table st'.table
    ⊎ ((tenant user : ℕ) × (name : Text) × IsContext tenant user st
        × (st' ≡ delete_mailboxes tenant user name st))

not_both : (a b : Bool) → (a && not b) ≡ false → a ≡ true → b ≢ false
not_both a b h e f = ground (arith, h, e, f)

not_writable :
    (s : SelectedMailbox) (st : Imap)
    → (is_selected st.session && not (is_readonly st.session)) ≡ false
    → IsWritable s st
    → (t : List Message) → IsGrown st.table t
not_writable s st h w t = absurd (not_both _ _ h w.selected w.writable)

Step-IsHarmless :
    (sv : Services) (st st' : Imap)
    → (is_selected st.session && not (is_readonly st.session)) ≡ false
    → Step sv st st'
    → IsHarmless st st'
Step-IsHarmless sv st st' h stays = inl (same_IsGrown st.table)
Step-IsHarmless sv st st' h touches = inl (same_IsGrown st.table)
Step-IsHarmless sv st st' h (enters username password a f b c) = inl (same_IsGrown st.table)
Step-IsHarmless sv st st' h (selects tenant user name readonly m c f) = inl (same_IsGrown st.table)
Step-IsHarmless sv st st' h (closes k) = inl (same_IsGrown st.table)
Step-IsHarmless sv st st' h leaves = inl (same_IsGrown st.table)
Step-IsHarmless sv st st' h (creates tenant user m c u i f) = inl (same_IsGrown st.table)
Step-IsHarmless sv st st' h draws = inl (same_IsGrown st.table)
Step-IsHarmless sv st st' h (deletes tenant user name c) = inr (tenant, user, name, c, refl)
Step-IsHarmless sv st st' h (renames tenant user old name c) = inl (same_IsGrown st.table)
Step-IsHarmless sv st st' h (stores s sequence fl uid_mode w) = inl (not_writable s st h w _)
Step-IsHarmless sv st st' h (expunges s w) = inl (not_writable s st h w _)
Step-IsHarmless sv st st' h (moves tenant user name s dest sequence uid_mode w c f) =
    inl (not_writable s st h w _)
Step-IsHarmless sv st st' h (copies tenant user name s dest sequence uid_mode w c f) =
    inl (copy_from-IsGrown sv sequence uid_mode dest.id _ 0 _ st.table st.drawn)
Step-IsHarmless sv st st' h (files_only r message) = inl (same_IsGrown st.table)
Step-IsHarmless sv st st' h (appends tenant user name m flags message c f) =
    inl (appended_row sv tenant m flags message st ∷ [], refl)

-- While no mailbox is selected for writing, so behind EXAMINE, a command changes and removes no
-- message: it leaves every row of the table as it is and adds some at most, or it deletes one of the
-- mailboxes of the session's user with its messages.
pub handle_command-IsHarmless :
    (sv : Services) (tag : Text) (cmd : ImapCommand) (st : Imap)
    → (is_selected st.session && not (is_readonly st.session)) ≡ false
    → IsHarmless st (handle_command sv tag cmd st).1
handle_command-IsHarmless sv tag cmd st h =
    Step-IsHarmless sv st _ h (handle_command-Step sv st tag cmd)
