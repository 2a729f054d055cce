-- ===== src/Pop3/Types.antt =====
-- The data of a POP3 session: pop3/session.rs, the commands of pop3/command.rs, and what stands
-- outside the source. Identifiers and times are numbers.
use mai_rust.Common.{ℕ, Bool, Option, List}
use mai_rust.Common.Text.{Text, Bytes}
use mai_rust.Smtp.Types.{Message, Verification}

pub data SessionState : Type 0 where
  authorization transaction update : SessionState

pub record MessageInfo : Type 0 where
  pub id : ℕ
  pub size : ℕ
  pub uid : Text
  pub body_preview : Option Text
  pub storage_path : Text

-- `messages` lists the map's entries in the order of its iteration; nothing but `load_messages`
-- writes the map. The identifier of the session itself, which is only logged, is left out.
pub record Session : Type 0 where
  pub state : SessionState
  pub username : Option Text
  pub user_id : Option ℕ
  pub tenant_id : Option ℕ
  pub mailbox_id : Option ℕ
  pub messages : List (ℕ × MessageInfo)
  pub deleted : List ℕ
  pub started_at : ℕ
  pub last_activity : ℕ

pub data Pop3Command : Type 0 where
  user : Text → Pop3Command
  pass : Text → Pop3Command
  apop : Text → Text → Pop3Command
  stat : Pop3Command
  list_cmd : Option ℕ → Pop3Command
  retr : ℕ → Pop3Command
  dele : ℕ → Pop3Command
  noop : Pop3Command
  rset : Pop3Command
  top : ℕ → ℕ → Pop3Command
  uidl : Option ℕ → Pop3Command
  quit : Pop3Command
  capa : Pop3Command
  stls : Pop3Command
  unknown : Text → Pop3Command

-- The columns of `users` that PASS selects.
pub record Account : Type 0 where
  pub id : ℕ
  pub tenant_id : ℕ
  pub password_hash : Text
  pub active : Bool

-- Outside the source: the character tables, the iteration order of a hash map, argon2, the queries
-- on `users` and `mailboxes` (`none` also when they fail), whether the query on `messages`
-- succeeds and in which order of reception it lists rows, whether a DELETE succeeds, the files, and
-- the clock.
pub record Services : Type 0 where
  pub wide_upper : ℕ → Text
  pub utf8_lossy : Bytes → Text
  pub show_uuid : ℕ → Text
  pub hash_order : List (ℕ × MessageInfo) → List (ℕ × MessageInfo)
  pub argon2_verify : Text → Text → Verification
  pub find_account : Text → Option Account
  pub find_mailbox : ℕ → ℕ → Option ℕ
  pub can_select : Bool
  pub by_received_at : List Message → List Message
  pub can_delete : ℕ → Bool
  pub storage_ready : Bool
  pub read_file : Text → Option Bytes
  pub now : ℕ

-- A session and the `messages` table.
pub record Pop3 : Type 0 where
  pub session : Session
  pub table : List Message
