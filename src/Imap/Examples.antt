-- ===== src/Imap/Examples.antt =====
-- A server with two users, and the theorems of the IMAP modules at inputs that meet their
-- hypotheses.
use mathlib.Core.Option.{some-injective}
use mai_rust.Common.{
  ℕ, ◌+◌, ◌≡◌, refl, subst, Bool, true, false, not, Option, none, some, List, [], ◌∷◌, ◌++◌, All,
  map, keep, if◌then◌else◌, ◌==◌, arith,
}
use mai_rust.Common.Text.{
  Text, lit, eq_text, to_uppercase, trim, trim_start, trim_end, split_once, split_whitespace,
  starts_with, is_space, is_empty, words_from, upper_char,
}
use mai_rust.Common.Decimal
use mai_rust.Smtp.Types.{Mailbox, verified}
use mai_rust.Imap.Outcome
use mai_rust.Imap.Session
use mai_rust.Imap.Items
use mai_rust.Imap.Words
use mai_rust.Imap.SearchKeys
use mai_rust.Imap.Rows
use mai_rust.Imap.Mailboxes
use mai_rust.Imap.Flags
use mai_rust.Imap.Moves
use mai_rust.Imap.Command
use mai_rust.Imap.Run
use mai_rust.Imap.Types.{
  SelectedMailbox, Message, Account, Services, Imap, StoreFlags, replace_flags, range, read_only,
  selected, store_cmd, login_cmd,
}
use mai_rust.Imap.Session.{
  state_is_selected, state_is_readonly, new, new_mailbox, get_message_id, update_with_messages,
}
use mai_rust.Imap.Outcome.{parsed}
use mai_rust.Imap.Rows.{
  find_mailbox, is_named, is_users, owned_by, is_inbox, say, with_table, mailbox_rows, max_seq,
}
use mai_rust.Imap.Response
use mai_rust.Imap.Client.{client_view}
use mai_rust.Imap.Expunging.{undeleted, is_expunged, handle_expunge-client_view}
use mai_rust.Imap.Moves.{expunge_from, handle_expunge, expunge_lines, handle_move, announced}
use mai_rust.Imap.Moving.{is_moved, relocated, left_behind, moved_answer, handle_move-client_view}
use mai_rust.Imap.Flags.{apply_flag_changes, lists_flag}
use mai_rust.Imap.Stored.{wanted, apply_flag_changes-wanted}
use mai_rust.Imap.Sequence
use mai_rust.Imap.Ranges.{
  one, between, onwards, IsSpan, print_all, set_of_all, any_names, parse-contains,
}
use mai_rust.Imap.Quoting.{login_line, parse-login_line}
use mai_rust.Imap.Parser
use mai_rust.Imap.SearchKeys.{parse_criteria, parse_search_criteria}
use mai_rust.Imap.Fuel.{parse_criteria-fuel}
use mai_rust.Imap.Scanning.{id_at, first_unseen_from, update_with_messages-get}
use mai_rust.Imap.Run.{Input, line, handle_connection}
use mai_rust.Imap.Steps.{Reach}
use mai_rust.Imap.Connection.{initial, handle_connection-Reach}
use mai_rust.Imap.Access.{IsValid, handle_connection-IsValid}
use mai_rust.Imap.Ownership.{rows_of}
use mai_rust.Imap.Spared.{IsSetting, handle_connection-IsSpared}
use mai_rust.Imap.Command.{handle_command}
use mai_rust.Imap.Examined.{IsHarmless, handle_command-IsHarmless}

abbrev alice : Account
alice = record { id = 1; tenant_id = 9; email = lit "a@x"; password_hash = lit "h"; active = true }

abbrev mailbox : ℕ → ℕ → Text → Mailbox
mailbox id user address = record {
  id = id;
  tenant_id = 9;
  domain_id = 8;
  user_id = some user;
  address = address;
  display_name = none;
  quota_bytes = none;
  used_bytes = 0;
  created_at = 0;
  updated_at = 0;
}

abbrev message : ℕ → ℕ → Bool → Message
message id mailbox_id deleted = record {
  id = id;
  tenant_id = 9;
  mailbox_id = mailbox_id;
  message_id_header = none;
  subject = none;
  from_address = none;
  to_addresses = some [];
  header_date = none;
  header_to = none;
  header_cc = none;
  body_preview = none;
  body_size = 3;
  storage_path = lit "p";
  seen = deleted;
  answered = false;
  flagged = false;
  deleted = deleted;
  draft = false;
  received_at = id;
  created_at = 0;
}

abbrev first : List Mailbox → Option Mailbox
first [] = none
first (m ∷ ms) = some m

abbrev sv : Services
sv = record {
  wide_upper = λ c. c ∷ [];
  wide_lower = λ c. c ∷ [];
  utf8_lossy = λ b. b;
  show_uuid = λ id. [];
  show_date = λ d. [];
  argon2_verify = λ password hash. verified;
  find_account = λ name. some alice;
  find_domain = λ user. some 8;
  can_select = true;
  fetch_optional = first;
  by_received_at = λ t. t;
  can_write = λ id. true;
  storage_ready = true;
  can_store = λ path bytes. true;
  read_file = λ path. none;
  new_v4 = λ n. 100 + n;
  now = 1000000;
}

abbrev table : List Message
table = message 1 10 true ∷ message 2 10 false ∷ message 3 20 true ∷ message 4 10 true ∷ []

abbrev boxes : List Mailbox
boxes = mailbox 10 1 (lit "a@x") ∷ mailbox 11 1 (lit "old@x") ∷ mailbox 20 2 (lit "b@x") ∷ []

abbrev server : Imap
server = record { session = new 0; mailboxes = boxes; table = table; files = []; drawn = 0 }

-- Alice logs in, opens her mailbox, marks a message, moves one and expunges.
abbrev input : List Input
input =
    line (lit "1 LOGIN a pw\r\n")
    ∷ line (lit "2 SELECT INBOX\r\n")
    ∷ line (lit "3 STORE 2 +FLAGS (\\Deleted)\r\n")
    ∷ line (lit "4 COPY 1 old@x\r\n")
    ∷ line (lit "5 EXPUNGE\r\n")
    ∷ line (lit "6 LOGOUT\r\n")
    ∷ []

-- Bob's row is the one with the identifier 3, and his mailbox that with 20.
setting : IsSetting sv 2 3 (λ id. id == 20)
setting = record {
  fetches = head_of;
  sorts = λ Q t h. h;
  fresh_row = λ n. ground arith;
  fresh_mailbox = λ n. ground arith;
  strangers = λ name a e. subst (λ (z : Account). (z.id == 2) ≡ false) (some-injective _ a e) refl;
}
  where
    head_of :
        (Q : Mailbox → Type 0) (l : List Mailbox) (m : Mailbox) → first l ≡ some m → All Q l → Q m
    head_of Q [] m e h = cc
    head_of Q (m' ∷ l) m e (h, hs) = subst Q (some-injective m' m e) h

handle_connection-IsSpared_example :
    rows_of 3 (handle_connection sv false false false input [] server).state.table ≡ rows_of 3 table
handle_connection-IsSpared_example =
    handle_connection-IsSpared sv 2 3 (λ id. id == 20) false false false input [] server setting
      ((λ own. cc), ((λ own. cc), ((λ own. refl), tt)))
      ((λ i. cc), ((λ i. cc), ((λ i. refl), ((λ i. cc), tt))))

handle_connection-IsValid_example :
    IsValid sv (handle_connection sv false false false input [] server).state.session
handle_connection-IsValid_example = handle_connection-IsValid sv false false false input [] server

handle_connection-Reach_example :
    Reach sv (initial sv server) (handle_connection sv false false false input [] server).state
handle_connection-Reach_example = handle_connection-Reach sv false false false input [] server

abbrev inbox : SelectedMailbox
inbox = update_with_messages 1000000 (mailbox_rows sv 10 table) (new_mailbox 10 (lit "a@x"))

abbrev open_session : Bool → Imap
open_session readonly = record server {
  session = record (new 0) {
    state = if readonly then read_only else selected;
    user_id = some 1;
    tenant_id = some 9;
    selected_mailbox = some inbox;
  };
}

handle_expunge-client_view_example :
    (seqs : List ℕ) × ((handle_expunge sv (lit "5") (open_session false)
        ≡ say (expunge_lines seqs ++ Response.ok (lit "5") (lit "EXPUNGE completed")) (
            with_table
              (keep (λ r. not (is_expunged (mailbox_rows sv 10 table) r)) table)
              (open_session false)))
      × (client_view seqs (mailbox_rows sv 10 table) ≡ undeleted (mailbox_rows sv 10 table)))
unfolding update_with_messages new_mailbox
handle_expunge-client_view_example =
    handle_expunge-client_view sv (lit "5") inbox (open_session false) (λ id. refl)
      (record {
        selected = unfold state_is_selected in refl;
        writable = unfold state_is_readonly in refl;
        mailbox = refl;
      })
      (unfold mailbox_rows in omega arith)

handle_move-client_view_example :
    let rows = mailbox_rows sv 10 table in
    let is_gone = is_moved sv (range 2 3) false (max_seq rows) 0 rows in
    (moved : List (ℕ × ℕ)) × (handle_move sv
        (lit "6")
        (range 2 3)
        (lit "old@x")
        false
        (open_session false)
      ≡ say
          (moved_answer (lit "6") inbox moved)
          (with_table (relocated 11 is_gone table) (open_session false)))
    × All (λ r. is_gone r.id ≡ false) (keep (λ r. r.mailbox_id == 10) (relocated 11 is_gone table))
    × (client_view (announced moved) rows ≡ left_behind sv (range 2 3) false (max_seq rows) 0 rows)
unfolding update_with_messages new_mailbox
handle_move-client_view_example =
    handle_move-client_view sv (lit "6") (range 2 3) (lit "old@x") false inbox
      (mailbox 11 1 (lit "old@x")) 9 1 (open_session false)
      (record {
        selected = unfold state_is_selected in refl;
        writable = unfold state_is_readonly in refl;
        mailbox = refl;
      })
      refl refl
      (unfold find_mailbox is_named is_users owned_by is_inbox to_uppercase eq_text lit in refl)
      refl (unfold mailbox_rows in omega arith)

handle_command-IsHarmless_example :
    IsHarmless
      (open_session true)
      (handle_command sv
        (lit "7")
        (store_cmd
          (range 1 2)
          (record { operation = replace_flags; silent = false; flags = [] })
          false)
        (open_session true)).1
handle_command-IsHarmless_example =
    handle_command-IsHarmless sv (lit "7")
      (store_cmd (range 1 2) (record { operation = replace_flags; silent = false; flags = [] })
        false)
      (open_session true) (unfold state_is_selected state_is_readonly in refl)

abbrev upper : Text → Text
upper = to_uppercase (λ c. c ∷ [])

abbrev replacement : StoreFlags
replacement = record {
  operation = replace_flags;
  silent = false;
  flags = lit "\\seen" ∷ lit "\\Draft" ∷ [];
}

apply_flag_changes-wanted_example :
    apply_flag_changes upper (message 1 10 true) replacement ≡ record {
      seen = wanted replace_flags (lists_flag upper (lit "\\SEEN") replacement.flags) true;
      answered = wanted replace_flags (lists_flag upper (lit "\\ANSWERED") replacement.flags) false;
      flagged = wanted replace_flags (lists_flag upper (lit "\\FLAGGED") replacement.flags) false;
      deleted = wanted replace_flags (lists_flag upper (lit "\\DELETED") replacement.flags) true;
      draft = wanted replace_flags (lists_flag upper (lit "\\DRAFT") replacement.flags) false;
    }
apply_flag_changes-wanted_example = apply_flag_changes-wanted upper (message 1 10 true) replacement

parse-contains_example :
    (Sequence.parse (print_all (one 2) (between 4 6 ∷ onwards 9 ∷ []))
      ≡ some (set_of_all (one 2) (between 4 6 ∷ onwards 9 ∷ [])))
    × (Sequence.contains (set_of_all (one 2) (between 4 6 ∷ onwards 9 ∷ [])) 5 12
        ≡ any_names (one 2 ∷ between 4 6 ∷ onwards 9 ∷ []) 5 12)
parse-contains_example =
    parse-contains (one 2) (between 4 6 ∷ onwards 9 ∷ []) 5 12
      (unfold IsSpan in (omega arith, ((omega arith, omega arith), (omega arith, tt))))

parse-login_line_example :
    Parser.parse (λ c. []) (login_line (b'A' ∷ b'1' ∷ []) (b'm' ∷ b'e' ∷ []) (b'"' ∷ b' ' ∷ []))
    ≡ parsed (record {
      tag = b'A' ∷ b'1' ∷ [];
      command = login_cmd (b'm' ∷ b'e' ∷ []) (b'"' ∷ b' ' ∷ []);
    })
parse-login_line_example =
    parse-login_line (λ c. []) b'A' (b'1' ∷ []) (b'm' ∷ b'e' ∷ []) (b'"' ∷ b' ' ∷ [])
      (unfold is_space in (refl, (refl, tt))) (omega arith, (omega arith, tt))
      (omega arith, (omega arith, tt))

parse_criteria-fuel_example :
    parse_criteria (λ c. []) 20 (b'N' ∷ b'O' ∷ b'T' ∷ b' ' ∷ b'1' ∷ [])
    ≡ some (parse_search_criteria (λ c. []) (b'N' ∷ b'O' ∷ b'T' ∷ b' ' ∷ b'1' ∷ []))
parse_criteria-fuel_example =
    parse_criteria-fuel (λ c. []) 20 (b'N' ∷ b'O' ∷ b'T' ∷ b' ' ∷ b'1' ∷ []) (omega arith)

update_with_messages-get_example :
    ((update_with_messages 5 table inbox).exists ≡ 4)
    × (get_message_id 3 (update_with_messages 5 table inbox) ≡ id_at 2 table)
    × ((update_with_messages 5 table inbox).first_unseen ≡ first_unseen_from 1 table)
update_with_messages-get_example =
    update_with_messages-get 5 table inbox 2 (omega arith) (omega arith)

abbrev ended : Imap
ended = (handle_connection sv false false false input [] server).state

abbrev run_ids : List ℕ
run_ids = map (λ r. r.id) ended.table

opened : Unit {0}
unfolding lit eq_text to_uppercase trim trim_start trim_end split_once split_whitespace starts_with
    is_space is_empty words_from upper_char Decimal.parse_u32 Decimal.scan_u32 Outcome.slice_from
    Session.get Session.new_mailbox Session.message_id_to_uid Session.first_of Session.is_recent
    Session.scan_message Session.scan_from Session.update_with_messages Session.get_message_id
    Session.get_at Session.get_message_id_by_uid Session.get_seq_by_uid Session.new
    Session.state_is_authenticated Session.state_is_selected Session.state_is_readonly
    Session.authenticate Session.select Session.close_mailbox Session.logout Session.is_timed_out
    Sequence.has_char Sequence.split_on Sequence.bound Sequence.range_of Sequence.range_parts
    Sequence.single_of Sequence.parse_part Sequence.keep_set Sequence.parse_parts
    Sequence.multiple_of Sequence.parse Sequence.actual Items.strip_last Items.section_of
    Items.item_of Items.parse Items.item_at_end Items.items_from Items.list_content Items.parse_list
    Words.quoted Words.atom Words.with_rest Words.parse_quoted Words.parse_astring Words.ends_with
    Words.between Words.parse_mailbox Words.parse_flags_list Words.trim_char_start
    Words.trim_char_end SearchKeys.simple_key SearchKeys.text_argument SearchKeys.size_argument
    SearchKeys.sequence_or_all SearchKeys.argument_key SearchKeys.negated SearchKeys.or_refused
    SearchKeys.choose_key SearchKeys.parse_criteria SearchKeys.parse_search_criteria
    Parser.two_strings Parser.with_mailbox Parser.parse_authenticate Parser.status_items
    Parser.parse_status Parser.parse_fetch Parser.parse_search Parser.store_operation
    Parser.parse_store_flags Parser.parse_store Parser.sequence_and_mailbox Parser.append_flags
    Parser.append_flags_of Parser.append_of Parser.parse_append Parser.parse_uid_command
    Parser.command_of Parser.parse_command Parser.parse_line Parser.parse Rows.with_ids
    Rows.with_user Rows.with_mailbox Rows.with_selected Rows.with_writable Rows.owned_by
    Rows.is_users Rows.is_inbox Rows.is_named Rows.find_mailbox Rows.mailbox_rows Rows.in_set
    Mailboxes.password_valid Mailboxes.check_account Mailboxes.handle_login Mailboxes.unseen_line
    Mailboxes.select_response Mailboxes.open_mailbox Mailboxes.handle_select Mailboxes.is_listed
    Mailboxes.list_addresses Mailboxes.list_lines Mailboxes.list_with_tenant Mailboxes.handle_list
    Mailboxes.status_item Mailboxes.status_list Mailboxes.status_mailbox Mailboxes.status_response
    Mailboxes.handle_status Mailboxes.has_address Mailboxes.insert_mailbox Mailboxes.create_in
    Mailboxes.already_there Mailboxes.handle_create Mailboxes.has_named Mailboxes.is_deleted_with
    Mailboxes.delete_mailboxes Mailboxes.handle_delete Mailboxes.rename_rows Mailboxes.handle_rename
    Mailboxes.handle_subscribe Flags.is_replace Flags.value_of Flags.lists_flag Flags.new_value
    Flags.apply_flag Flags.apply_flags Flags.reset_unlisted Flags.apply_flag_changes
    Flags.update_flags Flags.store_line Flags.store_from Flags.handle_store Moves.expunge_from
    Moves.expunge_lines Moves.handle_expunge Moves.copied Moves.copy_rows Moves.copy_from
    Moves.uid_list Moves.copy_response Moves.copy_to Moves.handle_copy Moves.move_rows
    Moves.move_from Moves.announced Moves.move_response Moves.move_to Moves.handle_move
    Command.on_close Command.on_check Command.on_authenticate Command.handle_command Run.respond
    Run.is_logged_out Run.after_command Run.plain_command Run.tls_command Run.on_parsed Run.round
    Run.run_tls Run.run_plain Run.handle_connection Sequence.contains
opened = tt

-- Bob's message is left, and Alice's copy of the first.
run_left : run_ids ≡ 3 ∷ 100 ∷ []
unfolding opened
run_left = refl

-- When the deletion of the first message fails, the third is deleted and the second announced.
misnumbered :
    expunge_from
      (record sv { can_write = λ id. not (id == 1) })
      0
      0
      (mailbox_rows sv 10 table)
      table
    ≡ (2 ∷ [], message 1 10 true ∷ message 2 10 false ∷ message 3 20 true ∷ [])
unfolding opened
misnumbered = refl
