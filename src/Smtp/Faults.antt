-- ===== src/Smtp/Faults.antt =====
-- Where the SMTP session departs from what it means to do, each for the class of inputs that show it.
use mai_rust.Common.{
  ℕ, ◌+◌, ◌<◌, ◌++◌, ◌≡◌, ◌≢◌, ◌∙◌, refl, Bool, true, false, Option, some, List, [], ◌∷◌, arith,
  length, ap, lt→ltb,
}
use mai_rust.Common.Text.{Text, Bytes, lit, is_empty, trim, eq_text}
use mai_rust.Common.Results.{ok, err}
use mai_rust.Smtp.Types.{
  Services, SmtpConfig, Session, EmailAddress, Envelope, MailStore, Message, ParsedMail, Mailbox,
  Input, line, rcpt_to, greeted, continue,
}
use mai_rust.Smtp.Parse.{address_to_string, parse_mail_from, parse_rcpt_to}
use mai_rust.Smtp.Receive.{max_size, unstuff, read_lines, read_data}
use mai_rust.Smtp.Delivery.{
  Saved, has_id, create_message, store_file, store_for, message_row, deliver_found, deliver_one,
  deliver_all, with_id, deliver_parsed, process_message,
}
use mai_rust.Smtp.Stored.{with_file, with_row}
use mai_rust.Smtp.Accepted.{has_id_last, deliver_all_step, deliver_all_stop}
use mai_rust.Smtp.Command.{on_helo, on_mail, on_rcpt, on_data}

read_data_oversize :
    (config : SmtpConfig) (t : Text) (rest : List Input)
    → is_empty t ≡ false
    → eq_text (trim t) (lit ".") ≡ false
    → max_size config < length (unstuff t)
    → read_data config (line t ∷ rest) ≡ (err (lit "Message too large"), rest)
unfolding read_data read_lines
read_data_oversize config t rest full plain big =
    rw (full, plain, lt→ltb (max_size config) (length (unstuff t)) big)

module _ (sv : Services) (config : SmtpConfig) (tls : Bool) where
  -- HELO in the middle of a transaction keeps the recipients: a sender accepted behind it and one
  -- more recipient go out with the recipients of the transaction before.
  pub helo_keeps_recipients :
      (name mail rcpt : Text) (s : Session) (from : Option EmailAddress) (to : EmailAddress) (d : ℕ)
      → parse_mail_from sv.wide_upper mail ≡ some from
      → parse_rcpt_to sv.wide_upper rcpt ≡ some to
      → sv.find_domain_by_name to.domain ≡ ok (some d)
      → s.authenticated ≡ true
      → let s1 = (on_helo sv config tls name s).1 in
        let s2 = (on_mail sv config tls mail s1).1 in
        let s3 = (on_rcpt sv config tls rcpt s2).1 in
        (s3.state ≡ rcpt_to)
        × (s3.envelope.from ≡ from)
        × (s3.envelope.to ≡ s.envelope.to ++ to ∷ [])
  unfolding on_helo on_mail on_rcpt
  helo_keeps_recipients name mail rcpt s from to d m r f a = ground arith

  -- A message above the limit is refused in the middle: the rest of its lines stays in the input,
  -- and the session, back in Greeted, reads them as commands.
  pub oversize_rest_is_commands :
      (s : Session) (t : Text) (rest : List Input)
      → s.state ≡ rcpt_to
      → s.envelope.to ≢ []
      → s.input ≡ line t ∷ rest
      → is_empty t ≡ false
      → eq_text (trim t) (lit ".") ≡ false
      → max_size config < length (unstuff t)
      → ((on_data sv config tls s).0 ≡ ok continue)
        × ((on_data sv config tls s).1.state ≡ greeted)
        × ((on_data sv config tls s).1.input ≡ rest)
        × ((on_data sv config tls s).1.store ≡ s.store)
  unfolding on_data
  oversize_rest_is_commands s t rest st to input full plain big =
      ground (arith, ap (read_data config) input ∙ read_data_oversize config t rest full plain big)

abbrev stored : Services → ℕ → ParsedMail → Envelope → Bytes → Mailbox → MailStore → MailStore
stored sv id parsed e content mb st =
    with_row sv id parsed e content mb (with_file sv id content mb st)

module _ (sv : Services) (id : ℕ) (parsed : ParsedMail) (e : Envelope) (content : Bytes)
    (stores : (path : Text) → sv.can_store path content ≡ true)
    (inserts : (m : Message) → sv.can_insert m ≡ true) where
  deliver_one_found :
      (r : EmailAddress) (mb : Mailbox) (st : MailStore)
      → sv.find_mailbox_by_address (address_to_string r) ≡ ok (some mb)
      → deliver_one sv id parsed e content r st ≡ store_for sv id parsed e content mb st
  unfolding deliver_one deliver_found
  deliver_one_found r mb st f = rw f

  store_for_free :
      (mb : Mailbox) (st : MailStore)
      → has_id id st.messages ≡ false
      → store_for sv id parsed e content mb st ≡ (ok tt, stored sv id parsed e content mb st)
  unfolding store_for store_file create_message message_row
  store_for_free mb st free = rw (stores, free, inserts)

  store_for_taken :
      (mb : Mailbox) (st : MailStore)
      → has_id id st.messages ≡ true
      → store_for sv id parsed e content mb st ≡ (
        err (lit "duplicate key value violates unique constraint"),
        with_file sv id content mb st,
      )
  unfolding store_for store_file create_message message_row
  store_for_taken mb st taken = rw (stores, taken)

  two_mailboxes :
      (first second : EmailAddress) (others : List EmailAddress) (mb mb' : Mailbox) (st : MailStore)
      → sv.find_mailbox_by_address (address_to_string first) ≡ ok (some mb)
      → sv.find_mailbox_by_address (address_to_string second) ≡ ok (some mb')
      → has_id id st.messages ≡ false
      → deliver_all sv id parsed e content (first ∷ second ∷ others) st ≡ (
        err (lit "duplicate key value violates unique constraint"),
        with_file sv id content mb' (stored sv id parsed e content mb st),
      )
  two_mailboxes first second others mb mb' st f1 f2 free =
      let one : deliver_one sv id parsed e content first st
          ≡ (ok tt, stored sv id parsed e content mb st) =
        deliver_one_found first mb st f1 ∙ store_for_free mb st free in
      let two : deliver_one sv id parsed e content second (stored sv id parsed e content mb st) ≡ (
        err (lit "duplicate key value violates unique constraint"),
        with_file sv id content mb' (stored sv id parsed e content mb st),
      ) =
        deliver_one_found second mb' (stored sv id parsed e content mb st) f2
        ∙ store_for_taken mb' (stored sv id parsed e content mb st) (
            has_id_last id st.messages (message_row sv id parsed e content mb)
              (unfold message_row in refl)) in
      deliver_all_step sv id parsed e content first (second ∷ others) st tt (ap (λ k. k.0) one)
      ∙ ap (λ (k : Saved). deliver_all sv id parsed e content (second ∷ others) k.1) one
      ∙ deliver_all_stop sv id parsed e content second others (stored sv id parsed e content mb st)
          _ (ap (λ k. k.0) two)
      ∙ ap (λ (k : Saved). (err (lit "duplicate key value violates unique constraint"), k.1)) two

-- The identifier of a message is the primary key of its row, and one message has one identifier for
-- all its recipients: if the first two recipients have mailboxes, and nothing else fails, the
-- first has the message, the second is refused by the database, and the message as a whole is an
-- error.
pub second_mailbox_refused :
    (sv : Services) (e : Envelope) (content : Bytes) (st : MailStore) (parsed : ParsedMail)
    (first second : EmailAddress) (others : List EmailAddress) (mb mb' : Mailbox)
    → sv.parse_mail content ≡ some parsed
    → e.to ≡ first ∷ second ∷ others
    → sv.find_mailbox_by_address (address_to_string first) ≡ ok (some mb)
    → sv.find_mailbox_by_address (address_to_string second) ≡ ok (some mb')
    → ((path : Text) → sv.can_store path content ≡ true)
    → ((m : Message) → sv.can_insert m ≡ true)
    → has_id st.next_id st.messages ≡ false
    → ((process_message sv e content st).0
        ≡ err (lit "duplicate key value violates unique constraint"))
      × ((process_message sv e content st).1.messages
          ≡ st.messages ++ message_row sv st.next_id parsed e content mb ∷ [])
second_mailbox_refused sv e content st parsed first second others mb mb' p to f1 f2 store insert
      fresh =
    let loop =
      two_mailboxes sv st.next_id parsed e content store insert first second others mb mb'
        (record st { next_id = st.next_id + 1 }) f1 f2 fresh in
    let start : MailStore = record st { next_id = st.next_id + 1 } in
    let whole : process_message sv e content st
        ≡ with_id st.next_id (
          err (lit "duplicate key value violates unique constraint"),
          with_file sv st.next_id content mb' (stored sv st.next_id parsed e content mb start),
        ) =
      unfold process_message deliver_parsed in
      ap (λ o. deliver_parsed sv st.next_id o e content start) p
      ∙ ap (λ l. with_id st.next_id (deliver_all sv st.next_id parsed e content l start)) to
      ∙ ap (with_id st.next_id) loop in
    unfold with_id in (ap (λ k. k.0) whole, ap (λ k. k.1.messages) whole)
