-- ===== src/Smtp/Stored.antt =====
-- Induction over the deliveries of one message: what the writing of a file and the insertion of a
-- row keep, the loop over the recipients and `process_message` keep.
use mai_rust.Common.{
  ℕ, ◌+◌, ◌++◌, ◌≡◌, refl, Bool-cases, inl, inr, false, Option, none, some, List, [], ◌∷◌,
}
use mai_rust.Common.Text.{Bytes}
use mai_rust.Common.Results.{Result, ok, err, Result-cases}
use mai_rust.Smtp.Types.{Services, EmailAddress, Envelope, MailStore, ParsedMail, Mailbox}
use mai_rust.Smtp.Parse.{address_to_string}
use mai_rust.Smtp.Delivery.{
  Saved, has_id, create_message, store_file, storage_path_of, store_for, message_row, deliver_found,
  deliver_one, deliver_all, with_id, deliver_parsed, process_message,
}

abbrev pub with_file : Services → ℕ → Bytes → Mailbox → MailStore → MailStore
with_file sv id content mb st = record st { files = (storage_path_of sv mb id, content) ∷ st.files }

abbrev pub with_row : Services → ℕ → ParsedMail → Envelope → Bytes → Mailbox → MailStore → MailStore
with_row sv id parsed e content mb st = record st {
  messages = st.messages ++ message_row sv id parsed e content mb ∷ [];
}

module _ (sv : Services) (id : ℕ) (parsed : ParsedMail) (e : Envelope) (content : Bytes)
    (P : MailStore → Type 0)
    (files : (mb : Mailbox) (st : MailStore) → P st → P (with_file sv id content mb st))
    (rows : (mb : Mailbox) (st : MailStore)
      → has_id id st.messages ≡ false
      → P st
      → P (with_row sv id parsed e content mb st)) where
  create_keeps :
      (mb : Mailbox) (st : MailStore)
      → P st
      → P (create_message sv (message_row sv id parsed e content mb) st).1
  unfolding create_message message_row
  create_keeps mb st p = elim (Bool-cases (has_id id st.messages)) [
    | inl taken ↦ rw taken p
    | inr free ↦
        rw free (elim (Bool-cases (sv.can_insert (message_row sv id parsed e content mb))) [
          | inl fits ↦ rw fits (rows mb st free p)
          | inr refused ↦ rw refused p
        ])
  ]

  store_for_keeps :
      (mb : Mailbox) (st : MailStore) → P st → P (store_for sv id parsed e content mb st).1
  unfolding store_for store_file
  store_for_keeps mb st p = elim (Bool-cases (sv.can_store (storage_path_of sv mb id) content)) [
    | inl fits ↦ rw fits (create_keeps mb (with_file sv id content mb st) (files mb st p))
    | inr full ↦ rw full p
  ]

  found_keeps :
      (found : Result (Option Mailbox)) (st : MailStore)
      → P st
      → P (deliver_found sv id parsed e content found st).1
  unfolding deliver_found
  found_keeps (err x) st p = p
  found_keeps (ok none) st p = p
  found_keeps (ok (some mb)) st p = store_for_keeps mb st p

  pub deliver_all_keeps :
      (rs : List EmailAddress) (st : MailStore)
      → P st
      → P (deliver_all sv id parsed e content rs st).1
  unfolding deliver_all deliver_one
  deliver_all_keeps [] st p = p
  deliver_all_keeps (r ∷ rs) st p =
      let one : P (deliver_one sv id parsed e content r st).1 =
        found_keeps (sv.find_mailbox_by_address (address_to_string r)) st p in
      elim (Result-cases (deliver_one sv id parsed e content r st).0) [
        | inl (_, done) ↦ rw (done, deliver_all) (deliver_all_keeps rs _ one)
        | inr (x, failed) ↦ rw (failed, deliver_all) one
      ]

store-with_id : (id : ℕ) (r : Saved) → (with_id id r).1 ≡ r.1
unfolding with_id
store-with_id id (ok _, st) = refl
store-with_id id (err x, st) = refl

module _ (sv : Services) (e : Envelope) (content : Bytes) (st : MailStore) (P : MailStore → Type 0)
    (start : P (record st { next_id = st.next_id + 1 }))
    (files : (mb : Mailbox) (st' : MailStore) → P st' → P (with_file sv st.next_id content mb st'))
    (rows : (parsed : ParsedMail) (mb : Mailbox) (st' : MailStore)
      → has_id st.next_id st'.messages ≡ false
      → P st'
      → P (with_row sv st.next_id parsed e content mb st')) where
  parsed_keeps :
      (parsed : Option ParsedMail)
      → P (deliver_parsed sv st.next_id parsed e content (record st { next_id = st.next_id + 1 })).1
  unfolding deliver_parsed
  parsed_keeps none = start
  parsed_keeps (some parsed) =
      rw store-with_id
        (deliver_all_keeps sv st.next_id parsed e content P files (rows parsed) e.to _ start)

  -- The identifier is taken first, whatever becomes of the message.
  pub process_message_keeps : P (process_message sv e content st).1
  unfolding process_message
  process_message_keeps = parsed_keeps (sv.parse_mail content)
