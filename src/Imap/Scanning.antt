-- ===== src/Imap/Scanning.antt =====
-- What SELECT knows of a mailbox: how many messages there are, and which.
use mai_rust.Common.{
  ℕ, zero, suc, ◌+◌, ◌%◌, ◌≤◌, ◌<◌, ◌≡◌, refl, ◌∙◌, Bool-cases, inl, inr, false, Option, none, some,
  List, [], ◌∷◌, length, if◌then◌else◌, ◌==◌, ==_refl, arith,
}
use mai_rust.Common.Decimal.{u32_limit}
use mai_rust.Imap.Types.{SelectedMailbox, Message}
use mai_rust.Imap.Session.{
  get, first_of, scan_message, scan_from, Scan, empty_scan, update_with_messages, get_message_id,
}

-- The identifier of a message by its position, counted from 0.
unfoldable pub id_at : ℕ → List Message → Option ℕ
id_at n [] = none
id_at zero (m ∷ ms) = some m.id
id_at (suc n) (m ∷ ms) = id_at n ms

-- The number of the first unseen message, the first message's being `n`.
unfoldable pub first_unseen_from : ℕ → List Message → Option ℕ
first_unseen_from n [] = none
first_unseen_from n (m ∷ ms) =
    let rest = first_unseen_from (n + 1) ms in if m.seen then rest else some n

module _ (now : ℕ) where
  keeps_first :
      (idx n : ℕ) (ms : List Message) (s : Scan)
      → s.first_unseen ≡ some n
      → (scan_from now idx ms s).first_unseen ≡ some n
  unfolding scan_from scan_message
  keeps_first idx n [] s e = e
  keeps_first idx n (m ∷ ms) s e = keeps_first (idx + 1) n ms _ (unfold first_of in rw e refl)

  scan_from-first :
      (idx : ℕ) (ms : List Message) (s : Scan)
      → s.first_unseen ≡ none
      → idx + length ms < u32_limit
      → (scan_from now idx ms s).first_unseen ≡ first_unseen_from (idx + 1) ms
  unfolding scan_from scan_message first_unseen_from first_of
  scan_from-first idx [] s e h = e
  scan_from-first idx (m ∷ ms) s e h =
      let number : (idx + 1) % u32_limit ≡ idx + 1 = omega arith in
      elim (Bool-cases m.seen) [
        | inl read_before ↦
            simp read_before
              (scan_from-first (idx + 1) ms _ (simp (e, read_before) refl) (omega arith))
        | inr unseen ↦
            simp unseen (keeps_first (idx + 1) (idx + 1) ms _ (simp (e, unseen, number) refl))
      ]

  -- What the scan has read it keeps.
  scan_from-before :
      (idx k : ℕ) (ms : List Message) (s : Scan)
      → k ≤ idx
      → idx + length ms < u32_limit
      → get k (scan_from now idx ms s).seq_to_id ≡ get k s.seq_to_id
  unfolding scan_from scan_message get
  scan_from-before idx k [] s b h = refl
  scan_from-before idx k (m ∷ ms) s b h =
      let other : (k == (idx + 1) % u32_limit) ≡ false = ground arith in
      scan_from-before (idx + 1) k ms _ (omega arith) (omega arith) ∙ rw other refl

  scan_from-get :
      (idx i : ℕ) (ms : List Message) (s : Scan)
      → i < length ms
      → idx + length ms < u32_limit
      → get (idx + 1 + i) (scan_from now idx ms s).seq_to_id ≡ id_at i ms
  unfolding scan_from id_at
  scan_from-get idx i [] s b h = absurd (omega arith)
  scan_from-get idx zero (m ∷ ms) s b h =
      let number : idx + 1 + 0 ≡ (idx + 1) % u32_limit = omega arith in
      scan_from-before (idx + 1) (idx + 1 + 0) ms _ (omega arith) (omega arith)
      ∙ (unfold get scan_message in rw (number, ==_refl) refl)
  scan_from-get idx (suc i) (m ∷ ms) s b h =
      let shifted : idx + 1 + suc i ≡ idx + 1 + 1 + i = omega arith in
      rw shifted (scan_from-get (idx + 1) i ms _ (omega arith) (omega arith))

-- The mailbox that SELECT and EXAMINE open has, with fewer than 2^32 messages, as many messages as
-- the query lists, under the message number `i + 1` the identifier of the message at position `i`,
-- and as the first unseen message the first in the list that is not seen, if there is one.
pub update_with_messages-get :
    (now : ℕ) (ms : List Message) (mb : SelectedMailbox) (i : ℕ)
    → length ms < u32_limit
    → i < length ms
    → ((update_with_messages now ms mb).exists ≡ length ms)
      × (get_message_id (i + 1) (update_with_messages now ms mb) ≡ id_at i ms)
      × ((update_with_messages now ms mb).first_unseen ≡ first_unseen_from 1 ms)
unfolding update_with_messages get_message_id
update_with_messages-get now ms mb i h b =
    let number : i + 1 ≡ 0 + 1 + i = omega arith in
    (
      omega arith,
      rw number (scan_from-get now 0 i ms empty_scan b (omega arith)),
      scan_from-first now 0 ms empty_scan refl (omega arith),
    )
