-- ===== src/Imap/Types.antt =====
-- The data of an IMAP session: imap/session.rs and the commands of imap/command.rs, the tables that
-- imap/server.rs queries, and what stands outside the source. Identifiers (128 bits) and times (in
-- seconds) are numbers.
use mai_rust.Common.{ℕ, Bool, Option, List}
use mai_rust.Common.Text.{Text, Bytes}
use mai_rust.Smtp.Types.{Mailbox, Verification}

pub data SessionState : Type 0 where
  not_authenticated authenticated selected read_only logged_out : SessionState

-- `uid_map` and `seq_to_id` are hash maps; only their lookups are used.
pub record SelectedMailbox : Type 0 where
  pub id : ℕ
  pub name : Text
  pub exists : ℕ
  pub recent : ℕ
  pub first_unseen : Option ℕ
  pub uid_validity : ℕ
  pub uid_next : ℕ
  pub flags : List Text
  pub uid_map : List (ℕ × ℕ)
  pub seq_to_id : List (ℕ × ℕ)

-- The identifier of the session itself, which is only logged, is left out.
pub record ImapSession : Type 0 where
  pub state : SessionState
  pub user_id : Option ℕ
  pub tenant_id : Option ℕ
  pub user_email : Option Text
  pub selected_mailbox : Option SelectedMailbox
  pub started_at : ℕ
  pub last_activity : ℕ

mutual
  pub data SequenceSet : Type 0 where
    single : ℕ → SequenceSet
    range : ℕ → ℕ → SequenceSet
    all_messages : SequenceSet
    multiple : SequenceSets → SequenceSet

  pub data SequenceSets : Type 0 where
    no_sets : SequenceSets
    more_sets : SequenceSet → SequenceSets → SequenceSets

-- `partial` of the two body sections is never set.
pub data FetchItem : Type 0 where
  flags_item internal_date_item rfc822_size_item envelope_item : FetchItem
  body_structure_item body_item uid_item all_item fast_item full_item : FetchItem
  body_section_item body_peek_item : Text → FetchItem

mutual
  pub data SearchCriteria : Type 0 where
    all_key answered_key deleted_key draft_key flagged_key new_key old_key : SearchCriteria
    recent_key seen_key unanswered_key undeleted_key undraft_key unflagged_key : SearchCriteria
    unseen_key : SearchCriteria
    bcc_key before_key body_key cc_key from_key on_key since_key : Text → SearchCriteria
    subject_key text_key to_key : Text → SearchCriteria
    header_key : Text → Text → SearchCriteria
    larger_key smaller_key : ℕ → SearchCriteria
    not_key : SearchCriteria → SearchCriteria
    or_key : SearchCriteria → SearchCriteria → SearchCriteria
    uid_key sequence_key : SequenceSet → SearchCriteria
    and_key : Criteria → SearchCriteria

  pub data Criteria : Type 0 where
    no_criteria : Criteria
    more_criteria : SearchCriteria → Criteria → Criteria

pub data StoreOperation : Type 0 where
  replace_flags add_flags remove_flags : StoreOperation

pub record StoreFlags : Type 0 where
  pub operation : StoreOperation
  pub silent : Bool
  pub flags : List Text

pub data ImapCommand : Type 0 where
  capability_cmd noop_cmd logout_cmd starttls_cmd close_cmd check_cmd expunge_cmd : ImapCommand
  idle_cmd done_cmd namespace_cmd : ImapCommand
  login_cmd : Text → Text → ImapCommand
  authenticate_cmd : Text → Option Text → ImapCommand
  select_cmd examine_cmd create_cmd delete_cmd subscribe_cmd unsubscribe_cmd : Text → ImapCommand
  rename_cmd list_cmd lsub_cmd : Text → Text → ImapCommand
  status_cmd : Text → List Text → ImapCommand
  append_cmd : Text → List Text → Option Text → Bytes → ImapCommand
  fetch_cmd : SequenceSet → List FetchItem → Bool → ImapCommand
  search_cmd : SearchCriteria → Bool → ImapCommand
  store_cmd : SequenceSet → StoreFlags → Bool → ImapCommand
  copy_cmd move_cmd : SequenceSet → Text → Bool → ImapCommand
  unknown_cmd : Text → ImapCommand

pub record TaggedCommand : Type 0 where
  pub tag : Text
  pub command : ImapCommand

-- The columns of `messages` that IMAP reads or sets. `to_addresses` is what `as_array` gives of the
-- JSON value, and of each element what `as_str` gives; the three header fields are the string
-- values under "date", "to" and "cc" of the JSON value `headers`.
pub record Message : Type 0 where
  pub id : ℕ
  pub tenant_id : ℕ
  pub mailbox_id : ℕ
  pub message_id_header : Option Text
  pub subject : Option Text
  pub from_address : Option Text
  pub to_addresses : Option (List (Option Text))
  pub header_date : Option Text
  pub header_to : Option Text
  pub header_cc : Option Text
  pub body_preview : Option Text
  pub body_size : ℕ
  pub storage_path : Text
  pub seen : Bool
  pub answered : Bool
  pub flagged : Bool
  pub deleted : Bool
  pub draft : Bool
  pub received_at : ℕ
  pub created_at : ℕ

-- The columns of `users` that LOGIN selects.
pub record Account : Type 0 where
  pub id : ℕ
  pub tenant_id : ℕ
  pub email : Text
  pub password_hash : Text
  pub active : Bool

-- Outside the source: the character tables, argon2, chrono's format, the queries on `users` and
-- `domains` (`none` also when they fail), whether the other queries succeed, which row a query with
-- one result gives and in which order of reception rows are listed, whether a write to a row
-- succeeds, the files, the random identifiers in the order they are drawn, and the clock.
pub record Services : Type 0 where
  pub wide_upper : ℕ → Text
  pub wide_lower : ℕ → Text
  pub utf8_lossy : Bytes → Text
  pub show_uuid : ℕ → Text
  pub show_date : ℕ → Text
  pub argon2_verify : Text → Text → Verification
  pub find_account : Text → Option Account
  pub find_domain : ℕ → Option ℕ
  pub can_select : Bool
  pub fetch_optional : List Mailbox → Option Mailbox
  pub by_received_at : List Message → List Message
  pub can_write : ℕ → Bool
  pub storage_ready : Bool
  pub can_store : Text → Bytes → Bool
  pub read_file : Text → Option Bytes
  pub new_v4 : ℕ → ℕ
  pub now : ℕ

-- A session, the tables `mailboxes` and `messages`, the files written, and the number of
-- identifiers drawn.
pub record Imap : Type 0 where
  pub session : ImapSession
  pub mailboxes : List Mailbox
  pub table : List Message
  pub files : List (Text × Bytes)
  pub drawn : ℕ
