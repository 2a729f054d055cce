-- ===== src/Imap/Moving.antt =====
-- MOVE as the client sees it.
use mai_rust.Imap.Client.{client_view, snoc-view, last-view, IsWritable}
use mathlib.Core.List.{reverse-cons}
use mai_rust.Common.{
  ℕ, ◌+◌, ◌<◌, ◌≡◌, refl, ap, sym, false, All, keep, ◌==◌, ◌||◌, ◌∙◌, Bool, Bool-cases, inl, inr,
  ◌&&◌, List, some, [], ◌∷◌, ◌++◌, map, length, length-append, if◌then◌else◌, arith,
}
use mai_rust.Common.Decimal.{u32_limit}
use mai_rust.Common.Text.{Text}
use mai_rust.Smtp.Types.{Mailbox}
use mai_rust.Common.Results.{ok}
use mai_rust.Imap.Types.{SelectedMailbox, Imap, SequenceSet, Message, Services}
use mai_rust.Imap.Rows.{
  say, with_table, max_seq, find_mailbox, with_ids, with_mailbox, mailbox_rows, in_set, seq_at,
}
use mai_rust.Imap.Moves.{
  handle_move, move_to, move_response, expunge_lines, move_from, move_rows, announced,
}

-- The rows of the mailbox that MOVE leaves, those from index `idx` on.
unfoldable pub left_behind : Services → SequenceSet → Bool → ℕ → ℕ → List Message → List Message
left_behind sv sequence uid_mode top idx [] = []
left_behind sv sequence uid_mode top idx (m ∷ ms) =
    let rest = left_behind sv sequence uid_mode top (idx + 1) ms in
    if in_set sequence uid_mode top idx m && sv.can_write m.id then rest else m ∷ rest

module _ (sv : Services) (sequence : SequenceSet) (uid_mode : Bool) (dest top : ℕ) where
  move_from-view :
      (idx : ℕ) (pre ms table : List Message)
      → idx ≡ length pre
      → idx + length ms < u32_limit
      → client_view (announced (move_from sv sequence uid_mode dest top idx ms table).0) (pre ++ ms)
        ≡ pre ++ left_behind sv sequence uid_mode top idx ms
  unfolding move_from client_view announced left_behind
  move_from-view idx pre [] table e h = refl
  move_from-view idx pre (m ∷ ms) table e h =
      let seqs : List Message → List ℕ =
        λ t. announced (move_from sv sequence uid_mode dest top (idx + 1) ms t).0 in
      let later : (t : List Message)
          → client_view (seqs t) ((pre ++ m ∷ []) ++ ms)
            ≡ (pre ++ m ∷ []) ++ left_behind sv sequence uid_mode top (idx + 1) ms =
        λ t.
          move_from-view (idx + 1) (pre ++ m ∷ []) ms t (omega (arith, length-append pre (m ∷ [])))
            (omega arith) in
      elim (Bool-cases (in_set sequence uid_mode top idx m)) [
        | inr other ↦ simp other (snoc-view (seqs table) pre m ms _ (later table))
        | inl named ↦ elim (Bool-cases (sv.can_write m.id)) [
          | inr failed ↦ simp (named, failed) (snoc-view (seqs table) pre m ms _ (later table))
          | inl moved ↦
              simp (named, moved)
                (ap (λ ns. client_view ns (pre ++ m ∷ ms))
                    (reverse-cons (seq_at idx) (
                      map (λ x. x.0)
                        (move_from sv sequence uid_mode dest top (idx + 1) ms
                          (move_rows m.id dest table)).0))
                  ∙ last-view (seqs (move_rows m.id dest table)) (seq_at idx) pre m ms _
                      (omega arith)
                      (snoc-view (seqs (move_rows m.id dest table)) pre m ms _
                        (later (move_rows m.id dest table))))
        ]
      ]

-- Whether an identifier is that of a row of the mailbox that MOVE names and whose update succeeds.
unfoldable pub is_moved : Services → SequenceSet → Bool → ℕ → ℕ → List Message → ℕ → Bool
is_moved sv sequence uid_mode top idx [] id = false
is_moved sv sequence uid_mode top idx (m ∷ ms) id =
    (in_set sequence uid_mode top idx m && sv.can_write m.id && id == m.id)
    || is_moved sv sequence uid_mode top (idx + 1) ms id

abbrev pub relocate : ℕ → Bool → Message → Message
relocate dest b r = if b then record r { mailbox_id = dest } else r

-- The table after MOVE.
abbrev pub relocated : ℕ → (ℕ → Bool) → List Message → List Message
relocated dest moved table = map (λ r. relocate dest (moved r.id) r) table

relocated_again :
    (id dest : ℕ) (later : ℕ → Bool) (table : List Message)
    → relocated dest later (move_rows id dest table)
      ≡ relocated dest (λ x. (x == id) || later x) table
unfolding move_rows
relocated_again id dest later [] = refl
relocated_again id dest later (r ∷ table) = elim (Bool-cases (r.id == id)) [
  | inr other ↦
      rw other (ap (λ t. relocate dest (later r.id) r ∷ t) (relocated_again id dest later table))
  | inl same ↦ rw same (elim (Bool-cases (later r.id)) [
    | inl again ↦
        rw again
          (ap (λ t. record r { mailbox_id = dest } ∷ t) (relocated_again id dest later table))
    | inr once ↦
        rw once (ap (λ t. record r { mailbox_id = dest } ∷ t) (relocated_again id dest later table))
  ])
]

relocated_nothing : (dest : ℕ) (table : List Message) → relocated dest (λ x. false) table ≡ table
relocated_nothing dest [] = refl
relocated_nothing dest (r ∷ table) = ap (◌∷◌ r) (relocated_nothing dest table)

move_from-table :
    (sv : Services) (sequence : SequenceSet) (uid_mode : Bool) (dest top idx : ℕ)
    (ms table : List Message)
    → (move_from sv sequence uid_mode dest top idx ms table).1
      ≡ relocated dest (is_moved sv sequence uid_mode top idx ms) table
unfolding move_from is_moved
move_from-table sv sequence uid_mode dest top idx [] table = sym (relocated_nothing dest table)
move_from-table sv sequence uid_mode dest top idx (m ∷ ms) table =
    elim (Bool-cases (in_set sequence uid_mode top idx m)) [
      | inr other ↦ simp other (move_from-table sv sequence uid_mode dest top (idx + 1) ms table)
      | inl named ↦ elim (Bool-cases (sv.can_write m.id)) [
        | inr failed ↦
            simp (named, failed) (move_from-table sv sequence uid_mode dest top (idx + 1) ms table)
        | inl moved ↦
            simp (named, moved)
              (move_from-table sv sequence uid_mode dest top (idx + 1) ms
                  (move_rows m.id dest table)
                ∙ relocated_again m.id dest (is_moved sv sequence uid_mode top (idx + 1) ms) table)
      ]
    ]

-- None of the rows that have moved is in the mailbox that they left.
relocated_away :
    (source dest : ℕ) (moved : ℕ → Bool) (table : List Message)
    → (dest == source) ≡ false
    → All
        (λ r. moved r.id ≡ false)
        (keep (λ r. r.mailbox_id == source) (relocated dest moved table))
relocated_away source dest moved [] h = tt
relocated_away source dest moved (r ∷ table) h = elim (Bool-cases (moved r.id)) [
  | inl away ↦ rw (away, h) (relocated_away source dest moved table h)
  | inr stays ↦ rw stays (elim (Bool-cases (r.mailbox_id == source)) [
    | inl here ↦ rw here (stays, relocated_away source dest moved table h)
    | inr there ↦ rw there (relocated_away source dest moved table h)
  ])
]

-- What MOVE answers when it has moved the messages of `moved`.
abbrev pub moved_answer : Text → SelectedMailbox → List (ℕ × ℕ) → Text
moved_answer tag s moved = expunge_lines (announced moved) ++ move_response tag s moved

-- MOVE moves the messages that it announces, and announces them as they are, also when the update of
-- some of them fails: with fewer than 2^32 messages in the selected mailbox, a session of a tenant
-- and a user, and a destination that is found and is not the selected mailbox, it answers with
-- EXPUNGE responses for the sequence numbers of the messages it moved, the last first; the rows with
-- the identifier of a message that the set names and whose update succeeds get the destination's
-- mailbox, all other rows stay as they are, and none of these identifiers is left in the selected
-- mailbox; and a client that takes the numbered messages off its list of the mailbox, one response
-- after the other, is left with the messages that are not named by the set or whose update failed.
pub handle_move-client_view :
    (sv : Services) (tag : Text) (sequence : SequenceSet) (name : Text) (uid_mode : Bool)
    (s : SelectedMailbox) (dest : Mailbox) (tenant user : ℕ) (st : Imap)
    → IsWritable s st
    → st.session.tenant_id ≡ some tenant
    → st.session.user_id ≡ some user
    → find_mailbox sv tenant user name st.mailboxes ≡ ok (some dest)
    → (dest.id == s.id) ≡ false
    → length (mailbox_rows sv s.id st.table) < u32_limit
    → let rows = mailbox_rows sv s.id st.table in
      let is_gone = is_moved sv sequence uid_mode (max_seq rows) 0 rows in
      (moved : List (ℕ × ℕ)) × (handle_move sv tag sequence name uid_mode st
        ≡ say (moved_answer tag s moved) (with_table (relocated dest.id is_gone st.table) st))
      × All
          (λ r. is_gone r.id ≡ false)
          (keep (λ r. r.mailbox_id == s.id) (relocated dest.id is_gone st.table))
      × (client_view (announced moved) rows
          ≡ left_behind sv sequence uid_mode (max_seq rows) 0 rows)
unfolding handle_move with_ids with_mailbox move_to
handle_move-client_view sv tag sequence name uid_mode s dest tenant user st w t u found away h =
    let rows = mailbox_rows sv s.id st.table in
    let outcome = move_from sv sequence uid_mode dest.id (max_seq rows) 0 rows st.table in
    let is_gone = is_moved sv sequence uid_mode (max_seq rows) 0 rows in
    (
      outcome.0,
      simp (w.selected, w.writable, t, u, w.mailbox, found)
          (ap (λ table. say (moved_answer tag s outcome.0) (with_table table st))
            (move_from-table sv sequence uid_mode dest.id (max_seq rows) 0 rows st.table)),
      relocated_away s.id dest.id is_gone st.table away,
      move_from-view sv sequence uid_mode dest.id (max_seq rows) 0 [] rows st.table refl
          (omega arith),
    )
