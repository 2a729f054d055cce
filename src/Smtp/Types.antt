-- ===== src/Smtp/Types.antt =====
-- The data of an SMTP session: smtp/handler.rs, and the parts of mairust-common's types.rs and
-- config.rs and of mairust-storage's models.rs that it reads. Identifiers and times are numbers.
use mai_rust.Common.{ℕ, ◌++◌, Bool, true, false, Option, List, [], ◌∷◌}
use mai_rust.Common.Text.{Text, Bytes}
use mai_rust.Common.Results.{Result}

pub data SessionState : Type 0 where
  connected greeted mail_from rcpt_to data_state : SessionState

abbrev pub eq_state : SessionState → SessionState → Bool
eq_state connected connected = true
eq_state greeted greeted = true
eq_state mail_from mail_from = true
eq_state rcpt_to rcpt_to = true
eq_state data_state data_state = true
eq_state _ _ = false

pub data CommandResult : Type 0 where
  continue quit start_tls : CommandResult

pub record EmailAddress : Type 0 where
  pub local : Text
  pub domain : Text

pub record Envelope : Type 0 where
  pub from : Option EmailAddress
  pub to : List EmailAddress
  pub client_ip : Option Text
  pub helo : Option Text

pub record SmtpConfig : Type 0 where
  pub hostname : Text
  pub host : Text
  pub port : ℕ
  pub submission_port : ℕ
  pub max_message_size : Option ℕ
  pub max_recipients : ℕ
  pub max_connections : Option ℕ
  pub connection_timeout_secs : ℕ
  pub tls_enabled : Option Bool
  pub auth_required : Option Bool
  pub require_tls_for_auth : Bool

pub record User : Type 0 where
  pub id : ℕ
  pub tenant_id : ℕ
  pub email : Text
  pub password_hash : Text
  pub name : Option Text
  pub role : Text
  pub active : Bool
  pub created_at : ℕ
  pub updated_at : ℕ

pub record Mailbox : Type 0 where
  pub id : ℕ
  pub tenant_id : ℕ
  pub domain_id : ℕ
  pub user_id : Option ℕ
  pub address : Text
  pub display_name : Option Text
  pub quota_bytes : Option ℕ
  pub used_bytes : ℕ
  pub created_at : ℕ
  pub updated_at : ℕ

-- The JSON object that `process_message` writes into `metadata`.
pub record AuthMetadata : Type 0 where
  pub spf : Text
  pub dkim : Text
  pub dmarc : Text
  pub auth_results_header : Text

-- A row of `messages`; the columns that delivery always writes empty (cc_addresses, headers,
-- spam_score, tags) are left out.
pub record Message : Type 0 where
  pub id : ℕ
  pub tenant_id : ℕ
  pub mailbox_id : ℕ
  pub message_id_header : Option Text
  pub subject : Option Text
  pub from_address : Option Text
  pub to_addresses : List EmailAddress
  pub body_preview : Option Text
  pub body_size : ℕ
  pub has_attachments : Bool
  pub storage_path : Text
  pub seen : Bool
  pub answered : Bool
  pub flagged : Bool
  pub deleted : Bool
  pub draft : Bool
  pub metadata : AuthMetadata
  pub received_at : ℕ
  pub created_at : ℕ

-- What the handler takes from a message that `mail_parser` has parsed.
pub record ParsedMail : Type 0 where
  pub subject : Option Text
  pub from : Option (Option Text)
  pub message_id : Option Text
  pub body_text : Option Text
  pub attachment_count : ℕ

-- The outcome of `PasswordHash::new` and `Argon2::verify_password`.
pub data Verification : Type 0 where
  bad_hash verified wrong_password verify_error : Verification

-- What stands outside the source: the character tables, base64, argon2, mail_parser, the tables of
-- the database as the session sees them, whether a write succeeds, the clock, and the SPF, DKIM
-- and DMARC verdicts on a message.
pub record Services : Type 0 where
  pub wide_upper : ℕ → Text
  pub base64_decode : Text → Option Bytes
  pub utf8_lossy : Bytes → Text
  pub argon2_verify : Text → Text → Verification
  pub parse_mail : Bytes → Option ParsedMail
  pub show_uuid : ℕ → Text
  pub get_user_by_email : Text → Result (Option User)
  pub find_domain_by_name : Text → Result (Option ℕ)
  pub find_mailbox_by_address : Text → Result (Option Mailbox)
  pub can_store : Text → Bytes → Bool
  pub can_insert : Message → Bool
  pub verify_email_authentication : Envelope → Bytes → AuthMetadata
  pub now : ℕ

-- The object store, the `messages` table, and the source of fresh identifiers.
pub record MailStore : Type 0 where
  pub files : List (Text × Bytes)
  pub messages : List Message
  pub next_id : ℕ

-- What one call of `read_line` meets; the end of the list is the end of the connection.
pub data Input : Type 0 where
  line : Text → Input
  broken : Input

-- A response line; `more` marks the continuation lines of a multi-line response.
pub record Reply : Type 0 where
  pub code : ℕ
  pub more : Bool
  pub text : Text

-- The variables of `run_session`, the unread input, the responses sent, and the store.
pub record Session : Type 0 where
  pub state : SessionState
  pub envelope : Envelope
  pub authenticated : Bool
  pub authenticated_user : Option User
  pub input : List Input
  pub output : List Reply
  pub store : MailStore

abbrev pub send_response : ℕ → Text → Session → Session
send_response code text s = record s {
  output = s.output ++ record { code = code; more = false; text = text } ∷ [];
}

abbrev pub send_response_continue : ℕ → Text → Session → Session
send_response_continue code text s = record s {
  output = s.output ++ record { code = code; more = true; text = text } ∷ [];
}
