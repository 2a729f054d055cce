-- ===== src/Pop3/Examples.antt =====
-- A maildrop of two messages beside a third that belongs to another mailbox: connections run on
-- it, and the theorems of the POP3 modules at inputs that meet their hypotheses.
use mai_rust.Common.{
  not, ◌&&◌, ℕ, ◌++◌, ◌≡◌, refl, true, false, none, some, List, [], ◌∷◌, arith, map, length, keep,
  if◌then◌else◌,
}
use mai_rust.Common.Text.{
  Text, lit, crlf, eq_text, is_empty, trim, trim_start, trim_end, is_space, split_once,
  to_uppercase, upper_char, lines,
}
use mai_rust.Common.Decimal.{parse_u32}
use mai_rust.Smtp.Types.{Message, verified, wrong_password}
use mai_rust.Pop3.Types.{MessageInfo, Account, Services, update, dele, list_cmd}
use mai_rust.Pop3.Session.{
  contains, get, sum, message_count, total_size, list_messages, load_messages, load_from, insert,
  set_username, authenticate, new, get_deleted_messages, marked_ids, push_id, enter_update,
  mark_deleted, live, reset_deletions, state_is_authorization, state_is_transaction,
}
use mai_rust.Pop3.Parse.{parse, parse_trimmed, command_of, args_of, optional_number}
use mai_rust.Pop3.Command.{
  handle_command, on_stat, on_dele, report_deleted, on_rset, handle_quit, delete_rows, delete_row,
  message_body, retr_response,
}
use mai_rust.Pop3.Entry.{
  mailbox_rows, message_info, password_valid, on_user, handle_pass, check_username, check_account,
  open_maildrop,
}
use mai_rust.Pop3.Run.{
  Input, line, timed_out, Pop3Config, Connection, round, plain_command, after_command, respond,
  run_plain, run_tls, handle_connection, tls_command,
}
use mai_rust.Pop3.Maildrop.{
  IsMaildrop, listed_sizes, message_count-list_messages, handle_connection-IsMaildrop,
}
use mai_rust.Pop3.Access.{IsEntered, handle_connection-IsEntered}
use mai_rust.Pop3.Deletion.{is_marked, handle_quit-marked, handle_connection_untouched}
use mai_rust.Pop3.Ownership.{rows_of, handle_connection-IsForeign}
use mai_rust.Pop3.Stuffing.{read_response}
use mai_rust.Pop3.Retrieval.{retr_response_read}
use mai_rust.Pop3.Words.{number_line, dele_word, parse-number_commands}

abbrev row : ℕ → ℕ → Message
row id mailbox_id = record {
  id = id;
  tenant_id = 1;
  mailbox_id = mailbox_id;
  message_id_header = none;
  subject = none;
  from_address = none;
  to_addresses = [];
  body_preview = some (lit "Hi");
  body_size = 100;
  has_attachments = false;
  storage_path = lit "f";
  seen = false;
  answered = false;
  flagged = false;
  deleted = false;
  draft = false;
  metadata = record { spf = []; dkim = []; dmarc = []; auth_results_header = [] };
  received_at = id;
  created_at = id;
}

abbrev table : List Message
table = row 11 7 ∷ row 12 8 ∷ row 13 7 ∷ []

abbrev ann : Account
ann = record { id = 5; tenant_id = 1; password_hash = lit "h"; active = true }

abbrev server : Services
server = record {
  wide_upper = λ c. c ∷ [];
  utf8_lossy = λ bytes. bytes;
  show_uuid = λ id. b'u' ∷ [];
  hash_order = λ m. m;
  argon2_verify = λ password hash. if eq_text password (lit "pw") then verified else wrong_password;
  find_account = λ name. if eq_text name (lit "ann") then some ann else none;
  find_mailbox = λ tenant_id user_id. some 7;
  can_select = true;
  by_received_at = λ rows. rows;
  can_delete = λ id. true;
  storage_ready = true;
  read_file = λ path. some (lit "A: b" ++ crlf ++ crlf ++ lit ".dot" ++ crlf ++ lit "end");
  now = 0;
}

abbrev config : Pop3Config
config = record { starttls = true; server_name = lit "mx" }

-- What a run computes with.
opened : Unit {0}
unfolding handle_connection run_plain run_tls round plain_command tls_command after_command respond
    handle_command on_user handle_pass check_username check_account open_maildrop on_stat on_dele
    report_deleted on_rset handle_quit delete_rows delete_row mailbox_rows message_info
    password_valid parse parse_trimmed command_of args_of optional_number parse_u32 eq_text is_empty
    trim trim_start trim_end is_space split_once to_uppercase upper_char lit load_messages load_from
    insert set_username authenticate new get_deleted_messages marked_ids push_id enter_update
    mark_deleted contains get state_is_authorization state_is_transaction live reset_deletions
opened = tt

abbrev say : Text → Input
say t = line (t ++ crlf)

abbrev login : List Input
login = say (lit "user ann") ∷ say (lit "PASS pw") ∷ []

abbrev run : List Input → Connection
run input = handle_connection server config false false input [] table

abbrev ids_left : Connection → List ℕ
ids_left c = map (λ r. r.id) c.state.table

-- DELE and QUIT delete, DELE and RSET and QUIT do not, nor does DELE and a timeout.
deleting :
    (ids_left (run (login ++ say (lit "DELE 2") ∷ say (lit "QUIT") ∷ [])) ≡ 11 ∷ 12 ∷ [])
    × (ids_left (run (login ++ say (lit "DELE 2") ∷ say (lit "RSET") ∷ say (lit "QUIT") ∷ []))
        ≡ 11 ∷ 12 ∷ 13 ∷ [])
    × (ids_left (run (login ++ say (lit "DELE 2") ∷ timed_out ∷ [])) ≡ 11 ∷ 12 ∷ 13 ∷ [])
unfolding opened
deleting = (refl, refl, refl)

-- LIST with an argument that is no number lists the whole maildrop.
parse-list_word : parse server.wide_upper (lit "LIST abc" ++ crlf) ≡ list_cmd none
unfolding opened
parse-list_word = refl

abbrev marking : List Input
marking = login ++ say (lit "DELE 1") ∷ []

handle_connection-IsMaildrop_example : IsMaildrop (run marking).state.session
handle_connection-IsMaildrop_example =
    handle_connection-IsMaildrop server config false false marking [] table (λ m k. refl)

message_count-list_messages_example :
    let s = (run marking).state.session in
    (message_count s ≡ length (list_messages s))
    × (total_size s ≡ sum (listed_sizes (list_messages s)))
unfolding opened
message_count-list_messages_example =
    message_count-list_messages (run marking).state.session handle_connection-IsMaildrop_example
      (omega arith)

handle_connection-IsEntered_example : IsEntered server (run login).state.session
unfolding opened
handle_connection-IsEntered_example =
    handle_connection-IsEntered server config false false login [] table refl

handle_quit-marked_example :
    let st = (run marking).state in
    ((handle_quit server st).1.table
      ≡ keep
          (λ r.
            not (is_marked st.session.deleted st.session.messages r.id && server.can_delete r.id))
          st.table)
    × ((handle_quit server st).1.session.state ≡ update)
    × ((handle_quit server st).0.1 ≡ true)
unfolding opened
handle_quit-marked_example =
    handle_quit-marked server (run marking).state refl
      handle_connection-IsMaildrop_example.keys_distinct

-- The client marks a message and says no more.
abbrev silent : List Input
silent = marking ++ timed_out ∷ []

handle_connection_untouched_example :
    (handle_connection server config false false silent [] table).state.table ≡ table
unfolding opened
handle_connection_untouched_example =
    handle_connection_untouched server config false false silent [] table
      ((λ e. cc), ((λ e. cc), ((λ e. cc), (tt, tt)))) tt

abbrev deleting_first : List Input
deleting_first = marking ++ say (lit "QUIT") ∷ []

handle_connection-IsForeign_example : rows_of 12 (run deleting_first).state.table ≡ rows_of 12 table
unfolding opened
handle_connection-IsForeign_example =
    handle_connection-IsForeign 12 server config false false deleting_first [] table 7
      (record { sorts = λ Q t h. h; visits = λ Q m h. h }) refl
      ((λ e f. refl), ((λ e f. ground arith), ((λ e f. refl), tt)))

abbrev info : MessageInfo
info = record { id = 11; size = 100; uid = lit "u"; body_preview = none; storage_path = lit "f" }

retr_response_read_example :
    read_response (lines (retr_response server (some info) ++ lit "+OK"))
    ≡ some (lines (message_body server info), lines (lit "+OK"))
retr_response_read_example = retr_response_read server info (lit "+OK") refl

parse-number_commands_example :
    parse server.wide_upper (number_line b'd' (lit "ele") 4294967295) ≡ dele 4294967295
unfolding opened
parse-number_commands_example =
    parse-number_commands server.wide_upper dele_word b'd' (lit "ele") 4294967295 refl
      (refl, (refl, (refl, (refl, tt)))) refl (omega arith)
