-- ===== src/Smtp/Delivery.antt =====
-- `process_message` of smtp/handler.rs, with the insertion of DbMessageRepository::create and the
-- primary key of the table `messages` (mairust-storage). A hook that fails is only logged.
use mai_rust.Common.{
  ℕ, ◌++◌, ◌+◌, Bool, false, ◌||◌, Option, none, some, List, [], ◌∷◌, take, length, if◌then◌else◌,
  ◌==◌, ltb,
}
use mathlib.Core.Option
use mai_rust.Common.Text.{Text, Bytes, lit}
use mai_rust.Common.Results.{Result, ok, err}
use mai_rust.Smtp.Parse.{address_to_string}
use mai_rust.Smtp.Types.{Services, MailStore, Message, Mailbox, Envelope, EmailAddress, ParsedMail}

abbrev pub Saved : Type 0
Saved = Result (Unit {0}) × MailStore

-- An address list whose first entry has no address gives the empty text.
from_header : Option (Option Text) → Option Text
from_header none = none
from_header (some none) = some []
from_header (some (some email)) = some email

abbrev pub has_id : ℕ → List Message → Bool
has_id id [] = false
has_id id (m ∷ ms) = m.id == id || has_id id ms

unfoldable pub with_id : ℕ → Saved → Result ℕ × MailStore
with_id id (ok _, st) = (ok id, st)
with_id id (err e, st) = (err e, st)

module _ (sv : Services) where
  -- INSERT INTO messages: refused on a primary key that is there, and where the database fails.
  unfoldable pub create_message : Message → MailStore → Saved
  create_message m st =
      if has_id m.id st.messages
      then (err (lit "duplicate key value violates unique constraint"), st)
      else if sv.can_insert m
      then (ok tt, record st { messages = st.messages ++ m ∷ [] })
      else (err (lit "database error"), st)

  unfoldable pub store_file : Text → Bytes → MailStore → Saved
  store_file path content st =
      if sv.can_store path content
      then (ok tt, record st { files = (path, content) ∷ st.files })
      else (err (lit "storage error"), st)

  unfoldable pub storage_path_of : Mailbox → ℕ → Text
  storage_path_of mb id =
      sv.show_uuid mb.tenant_id
      ++ b'/' ∷ (sv.show_uuid mb.id ++ b'/' ∷ (sv.show_uuid id ++ lit ".eml"))

  unfoldable pub message_row : ℕ → ParsedMail → Envelope → Bytes → Mailbox → Message
  unfolding from_header storage_path_of
  message_row id parsed envelope content mb = record {
    id = id;
    tenant_id = mb.tenant_id;
    mailbox_id = mb.id;
    message_id_header = parsed.message_id;
    subject = parsed.subject;
    from_address = from_header parsed.from;
    to_addresses = envelope.to;
    body_preview = Option.map (take 500) parsed.body_text;
    body_size = length content;
    has_attachments = ltb 0 parsed.attachment_count;
    storage_path = storage_path_of mb id;
    seen = false;
    answered = false;
    flagged = false;
    deleted = false;
    draft = false;
    metadata = sv.verify_email_authentication envelope content;
    received_at = sv.now;
    created_at = sv.now;
  }

  -- The file is written first; a row that cannot be inserted leaves it behind.
  insert_behind : Message → Saved → Saved
  insert_behind m (ok _, st) = create_message m st
  insert_behind m (err e, st) = (err e, st)

  unfoldable pub store_for : ℕ → ParsedMail → Envelope → Bytes → Mailbox → MailStore → Saved
  unfolding insert_behind
  store_for id parsed envelope content mb st =
      insert_behind (message_row id parsed envelope content mb)
        (store_file (storage_path_of mb id) content st)

  -- One round of the loop over the recipients; an unknown mailbox is skipped.
  unfoldable pub deliver_found :
      ℕ → ParsedMail → Envelope → Bytes → Result (Option Mailbox) → MailStore → Saved
  deliver_found id parsed envelope content (err e) st = (err e, st)
  deliver_found id parsed envelope content (ok none) st = (ok tt, st)
  deliver_found id parsed envelope content (ok (some mb)) st =
      store_for id parsed envelope content mb st

  unfoldable pub deliver_one : ℕ → ParsedMail → Envelope → Bytes → EmailAddress → MailStore → Saved
  unfolding deliver_found
  deliver_one id parsed envelope content recipient st =
      deliver_found id parsed envelope content
        (sv.find_mailbox_by_address (address_to_string recipient)) st

  -- The first error ends the loop; what was stored before it stays.
  unfoldable pub deliver_all :
      ℕ → ParsedMail → Envelope → Bytes → List EmailAddress → MailStore → Saved
  deliver_all id parsed envelope content [] st = (ok tt, st)
  deliver_all id parsed envelope content (r ∷ rs) st =
      let (done, st') = deliver_one id parsed envelope content r st in
      elim done [ ok _ ↦ deliver_all id parsed envelope content rs st' | err e ↦ (err e, st') ]

  unfoldable pub deliver_parsed :
      ℕ → Option ParsedMail → Envelope → Bytes → MailStore → Result ℕ × MailStore
  unfolding with_id
  deliver_parsed id none envelope content st = (err (lit "Failed to parse message"), st)
  deliver_parsed id (some parsed) envelope content st =
      with_id id (deliver_all id parsed envelope content envelope.to st)

  -- Every message takes the next identifier, one for all its recipients.
  unfoldable pub process_message : Envelope → Bytes → MailStore → Result ℕ × MailStore
  unfolding deliver_parsed
  process_message envelope content st =
      deliver_parsed st.next_id (sv.parse_mail content) envelope content
        (record st { next_id = st.next_id + 1 })
