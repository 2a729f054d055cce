-- ===== src/Lib.antt =====
-- MaiRust, a mail server: its SMTP, POP3 and IMAP protocol engines, its outbound queue, its
-- policy engine, its spam rules, and the limiter of scheduled sending.
--
-- The program. `smtp/handler.rs` runs one SMTP connection, in plaintext and behind STARTTLS; it asks
-- `smtp/auth.rs` for logins, parses addresses with mairust-common's `types.rs`, and writes messages
-- to the file storage and the table `messages`. `pop3/server.rs` runs one POP3 connection over a
-- `Pop3Session` (`pop3/session.rs`), which it loads from the same table, with the parser of
-- `pop3/command.rs` and the responses of `pop3/response.rs`; QUIT deletes rows of the table.
-- `imap/server.rs` runs one IMAP connection over an `ImapSession` (`imap/session.rs`) and the tables
-- `users`, `mailboxes` and `messages`, with the parser of `imap/parser.rs` and `imap/command.rs` and
-- the responses of `imap/response.rs`; it reads the rows of the selected mailbox anew for each command.
-- `queue/manager.rs` polls the table `jobs` and retries failed deliveries. SMTP and POP3 share the row
-- `Message`; IMAP has a row of its own, with the columns that it reads. `scheduled/rate_limiter.rs`
-- counts the sends of each tenant and is asked before each one; `scheduled/template.rs` makes the
-- tokens of the unsubscribe links.
-- `policy/engine.rs` evaluates the rows of the table `policies` on a `PolicyContext`; nothing in the
-- repository calls it. `spam/mod.rs` asks rspamd, and falls back on the rules of `spam/rules.rs`.
--
-- The files. Paths are relative to `crates/mairust-core/src` unless they begin with `crates`.
-- Common, with Tests, Lists, Text, Decimal, Results and Trimming below it: Boolean tests, lists over
--   native numbers, what the program uses of Rust's `str`, decimal numbers, `Result`, and lemmas on
--   `trim`.
-- Smtp.Types: `smtp/handler.rs` (SessionState, CommandResult, the variables of `run_session`),
--   `crates/mairust-common/src/types.rs` and `config.rs`, `crates/mairust-storage/src/models.rs`.
-- Smtp.Auth: `smtp/auth.rs`. Smtp.Parse: `parse_command`, `parse_mail_from` and `parse_rcpt_to`.
-- Smtp.Receive: `read_data`. Smtp.Delivery: `process_message` and `create` of
--   `crates/mairust-storage/src/repository/messages.rs`.
-- Smtp.Dialogue, Smtp.AuthCommand and Smtp.Command: `process_command`, one definition for each arm.
-- Smtp.Run: `run_session`, `handle_with_tls` and the configuration that `smtp/server.rs` gives.
-- Smtp.AuthKeeps and Smtp.Loop: induction over an AUTH exchange and over a session.
-- Smtp.Guards, Stored, Relay, Login, Identity, Submission, Transfer, Accepted, Faults, Connection
--   and Addresses: proofs, named for what they are about.
-- Pop3.Types and Pop3.Session: `pop3/session.rs`. Pop3.Parse: `pop3/command.rs`. Pop3.Response:
--   `pop3/response.rs`. Pop3.Entry and Pop3.Command: `handle_command` and its handlers. Pop3.Run: the
--   loops of `handle_connection` and `handle_tls_connection`.
-- Pop3.Loops and Pop3.Keeps: induction over a POP3 connection. Pop3.Marks, Maildrop, Access,
--   Deletion, Ownership, Stuffing, Retrieval and Words: proofs.
-- Imap.Types: the data of `imap/session.rs` and `imap/command.rs`. Imap.Session: `imap/session.rs`.
--   Imap.Sequence and Imap.Items: `SequenceSet` and `FetchItem` of `imap/command.rs`. Imap.Outcome,
--   Imap.Words, Imap.SearchKeys and Imap.Parser: `imap/parser.rs`, with the panics of its slices.
--   Imap.Response and Imap.Envelope: `imap/response.rs`. Imap.Rows, Mailboxes, Flags, Moves, Fetch,
--   Append and Command: `handle_command` of `imap/server.rs` and its handlers. Imap.Run: the loops of
--   `handle_connection` and `handle_tls_connection`.
-- Imap.Steps: what a command may do, as a step relation with its reachable states; Refines,
--   RefinesMail and Connection: the commands and a connection as steps. Imap.Client, Expunging, Moving,
--   Stored, Ranges, Quoting, Access, Ownership, Spared, Examined, Lines, Fuel and Scanning: proofs.
-- Policy.Types: the data of `policy/engine.rs`, the policies of
--   `crates/mairust-storage/src/models.rs`, and JSON values. Policy.Context: `PolicyContext` and its
--   builders. Policy.Operators, Networks and Conditions: the functions below `evaluate_conditions`.
--   Policy.Engine: `load_policies`, `apply_action` and `evaluate`. Policy.Verdict, Adding, Gathered,
--   Order and Blocks: proofs.
-- Spam.Types, Headers, Defaults and Rules: `spam/rules.rs`. Spam.Filter: `spam/mod.rs`.
--   Spam.Folding and Disabling: proofs.
-- Queue.Manager: `queue/manager.rs`. Queue.Retry, Rounds and Attempts: proofs.
-- Scheduled.RateLimiter: `scheduled/rate_limiter.rs`. Scheduled.Template: the unsubscribe tokens of
--   `scheduled/template.rs`. Scheduled.Counts, Quota, Windows and Tokens: proofs.
-- The modules Examples and MessageExamples run the definitions on concrete servers.
--
-- State. A session is a record of the variables of the loop that runs it, the input that is still
-- unread, as a list of lines and stream errors, and the responses sent. Handlers are functions from a
-- session to an outcome and a session. Tables are lists of rows. Times, identifiers and sizes are
-- numbers; a number that the source casts to 32 or 64 bits has its wrap-around written out.
--
-- Parameters. What stands outside the source is a field of a record `Services`: the Unicode case
-- tables, base64, argon2, mail_parser, the readers of JSON, the parser of IP addresses, regular
-- expressions, operations on doubles, rspamd, DNS, the iteration order of hash maps, the order of
-- ORDER BY, queries on tables that a component only reads, the success of writes, and the clock,
-- which stands still during a connection.
--
-- Fuel. `run_loop` of SMTP runs on fuel, since AUTH and DATA read lines inside a round; fuel above the
-- number of input lines is enough. `digits` takes as fuel one more than the number
-- printed. The search keys of IMAP are parsed on fuel above the length of the line, since NOT parses the
-- rest of its line; it never runs out. All other loops are structural.
--
-- Not modelled: sockets and listeners, TLS handshakes beyond their success, failing writes to a
-- socket, logging, and the interleaving of connections, which share nothing but the tables. Of the
-- message authentication in `process_message`, SPF, DKIM and DMARC are one parameter. Of IMAP the
-- starts of TLS and of the listener are left out, and rows of other tables that go with a mailbox. Of
-- policies the texts for debugging and a negative message size are left out. Plugins, hooks,
-- campaigns, search, the client of rspamd, the HTTP API and the web interface are not part of this
-- library yet.
pub mod Common
pub mod Smtp
pub mod Pop3
pub mod Imap
pub mod Policy
pub mod Spam
pub mod Queue
pub mod Scheduled
