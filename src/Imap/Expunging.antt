-- ===== src/Imap/Expunging.antt =====
-- EXPUNGE as the client and the table see it.
use mai_rust.Imap.Client.{
  remove_at-append, client_view, snoc-view, IsWritable, with_writable-mailbox,
}
use mai_rust.Common.{
  ℕ, suc, ◌+◌, ◌-◌, ◌%◌, ◌<◌, ◌≡◌, refl, sym, ap, ◌∙◌, Bool, Bool-cases, inl, inr, true, false, not,
  ◌&&◌, ◌||◌, List, [], ◌∷◌, ◌++◌, keep, length, length-append, ◌==◌, arith,
}
use mai_rust.Common.Decimal.{u32_limit}
use mai_rust.Common.Text.{Text, lit}
use mai_rust.Imap.Response
use mai_rust.Imap.Types.{SelectedMailbox, Imap, Message, Services}
use mai_rust.Imap.Rows.{say, with_table, mailbox_rows}
use mai_rust.Imap.Moves.{handle_expunge, expunge_lines, expunge_from}

-- The rows that EXPUNGE leaves.
abbrev pub undeleted : List Message → List Message
undeleted ms = keep (λ m. not m.deleted) ms

-- The `n`-th of the rows behind `pre` is announced under its number.
announced_at :
    (idx offset n : ℕ)
    → idx ≡ n + offset
    → idx < u32_limit - 1
    → (idx + 1 - offset) % u32_limit ≡ suc n
announced_at idx offset n e h = omega arith

module _ (sv : Services) (writes : (id : ℕ) → sv.can_write id ≡ true) where
  expunge_from-view :
      (idx offset : ℕ) (pre ms table : List Message)
      → idx ≡ length pre + offset
      → idx + length ms < u32_limit
      → client_view (expunge_from sv idx offset ms table).0 (pre ++ ms) ≡ pre ++ undeleted ms
  unfolding expunge_from client_view
  expunge_from-view idx offset pre [] table e h = refl
  expunge_from-view idx offset pre (m ∷ ms) table e h = elim (Bool-cases m.deleted) [
    | inl gone ↦
        rw
          (
            gone,
            writes m.id,
            announced_at idx offset (length pre) e (omega arith),
            remove_at-append pre _ ms,
          )
          (expunge_from-view (idx + 1) (offset + 1) pre ms _ (omega arith) (omega arith))
    | inr there ↦ simp there (
        snoc-view (expunge_from sv (idx + 1) offset ms table).0 pre m ms _ (
          expunge_from-view (idx + 1) offset (pre ++ m ∷ []) ms table
            (omega (arith, length-append pre (m ∷ []))) (omega arith)))
  ]

keep-all {ℓ} : {A : Type ℓ} (xs : List A) → keep (λ x. true) xs ≡ xs
keep-all [] = refl
keep-all (x ∷ xs) = ap (λ t. x ∷ t) (keep-all xs)

keep-keep {ℓ} :
    {A : Type ℓ} (p q : A → Bool) (xs : List A)
    → keep (λ x. not (q x)) (keep (λ x. not (p x)) xs) ≡ keep (λ x. not (p x || q x)) xs
keep-keep p q [] = refl
keep-keep p q (x ∷ xs) = ground (arith, keep-keep p q xs)

-- Whether a row carries the identifier of a row marked as deleted.
unfoldable pub is_expunged : List Message → Message → Bool
is_expunged [] r = false
is_expunged (m ∷ ms) r = (m.deleted && r.id == m.id) || is_expunged ms r

expunge_from-table :
    (sv : Services) (idx offset : ℕ) (ms table : List Message)
    → ((id : ℕ) → sv.can_write id ≡ true)
    → (expunge_from sv idx offset ms table).1 ≡ keep (λ r. not (is_expunged ms r)) table
unfolding expunge_from is_expunged
expunge_from-table sv idx offset [] table writes = sym (keep-all table)
expunge_from-table sv idx offset (m ∷ ms) table writes = elim (Bool-cases m.deleted) [
  | inl gone ↦
      simp (gone, writes m.id)
        (expunge_from-table sv (idx + 1) (offset + 1) ms _ writes
          ∙ keep-keep (λ r. r.id == m.id) (is_expunged ms) table)
  | inr there ↦ simp there (expunge_from-table sv (idx + 1) offset ms table writes)
]

-- EXPUNGE announces the messages it deletes to the client as they are: with every DELETE succeeding
-- and fewer than 2^32 messages in the selected mailbox, it answers with EXPUNGE responses for some
-- sequence numbers, and a client that takes the numbered messages off its list of the mailbox, one
-- response after the other, is left with the messages that are not marked as deleted; the rows
-- deleted from the table are those that carry the identifier of a marked message.
pub handle_expunge-client_view :
    (sv : Services) (tag : Text) (s : SelectedMailbox) (st : Imap)
    → ((id : ℕ) → sv.can_write id ≡ true)
    → IsWritable s st
    → length (mailbox_rows sv s.id st.table) < u32_limit
    → (seqs : List ℕ) × ((handle_expunge sv tag st
          ≡ say (expunge_lines seqs ++ Response.ok tag (lit "EXPUNGE completed")) (
              with_table
                (keep (λ r. not (is_expunged (mailbox_rows sv s.id st.table) r)) st.table)
                st))
        × (client_view seqs (mailbox_rows sv s.id st.table)
            ≡ undeleted (mailbox_rows sv s.id st.table)))
unfolding handle_expunge
handle_expunge-client_view sv tag s st writes w h =
    let rows = mailbox_rows sv s.id st.table in
    let outcome = expunge_from sv 0 0 rows st.table in
    (
      outcome.0,
      (
        with_writable-mailbox tag _ s st w
            ∙ ap
                (λ t.
                  say (expunge_lines outcome.0 ++ Response.ok tag (lit "EXPUNGE completed"))
                    (with_table t st))
                (expunge_from-table sv 0 0 rows st.table writes),
        expunge_from-view sv writes 0 0 [] rows st.table refl (omega arith),
      ),
    )
