-- ===== src/Smtp/Examples.antt =====
-- A server for one domain with one account and two mailboxes: sessions run on it, and the theorems
-- of the SMTP modules at inputs that meet their hypotheses.
use mai_rust.Common.{
  ℕ, ◌++◌, ◌≡◌, refl, Bool, true, false, Option, none, some, List, [], ◌∷◌, arith, if◌then◌else◌,
  map,
}
use mai_rust.Common.Text.{
  Text, lit, eq_text, crlf, trim, is_empty, starts_with, split_whitespace, split_once, to_uppercase,
  trim_start, trim_end, upper_char, is_space, as_bytes,
}
use mai_rust.Common.Results.{ok, err}
use mai_rust.Smtp.Types.{
  Services, SmtpConfig, Session, User, Mailbox, MailStore, ParsedMail, EmailAddress, Input, line,
  verified, wrong_password, greeted, rcpt_to, send_response,
}
use mai_rust.Smtp.Parse.{
  parse_command, extract_email, address_to_string, parse_address, parse_mail_from, parse_rcpt_to,
}
use mai_rust.Smtp.Receive.{get_or, read_data, unstuff}
use mai_rust.Smtp.Delivery.{
  process_message, message_row, deliver_all, deliver_one, deliver_found, deliver_parsed, with_id,
  store_for, store_file, create_message,
}
use mai_rust.Smtp.Auth.{authenticate_plain, split_nul, verify_credentials, verify_password}
use mai_rust.Smtp.AuthCommand.{on_auth}
use mai_rust.Smtp.Dialogue.{Handled, read_line, verb_of}
use mai_rust.Smtp.Command.{
  on_rset, on_starttls, on_ehlo, run_verb, on_data, on_helo, on_mail, on_rcpt, process_command,
}
use mai_rust.Smtp.Run.{
  run_loop, run_line, greet, after_plaintext, new_session, handle_with_tls, handler_config,
  submission,
}
use mai_rust.Smtp.Guards.{IsGuarded, process_command-IsGuarded}
use mai_rust.Smtp.Relay.{AllLocal, handle_with_tls-AllLocal}
use mai_rust.Smtp.Login.{IsProven}
use mai_rust.Smtp.Identity.{run_loop-IsProven}
use mai_rust.Smtp.Submission.{submission_unauthenticated, new_session-IsGuarded}
use mai_rust.Smtp.Connection.{start_tls_guarded, handle_with_tls_ends}

abbrev pub config : SmtpConfig
config = record {
  hostname = lit "mx.b";
  host = lit "::";
  port = 25;
  submission_port = 587;
  max_message_size = some 40;
  max_recipients = 100;
  max_connections = none;
  connection_timeout_secs = 300;
  tls_enabled = some true;
  auth_required = some false;
  require_tls_for_auth = false;
}

abbrev ann : User
ann = record {
  id = 7;
  tenant_id = 1;
  email = lit "ann";
  password_hash = lit "pw";
  name = none;
  role = lit "user";
  active = true;
  created_at = 0;
  updated_at = 0;
}

abbrev pub box : ℕ → Text → Mailbox
box id address = record {
  id = id;
  tenant_id = 1;
  domain_id = 1;
  user_id = none;
  address = address;
  display_name = none;
  quota_bytes = none;
  used_bytes = 0;
  created_at = 0;
  updated_at = 0;
}

abbrev pub parsed : ParsedMail
parsed = record {
  subject = none;
  from = none;
  message_id = none;
  body_text = none;
  attachment_count = 0;
}

abbrev pub server : Services
server = record {
  wide_upper = λ c. c ∷ [];
  base64_decode = λ t. some t;
  utf8_lossy = λ b. b;
  argon2_verify = λ p h. if eq_text p h then verified else wrong_password;
  parse_mail = λ b. some parsed;
  show_uuid = λ n. n ∷ [];
  get_user_by_email = λ e. if eq_text e (lit "ann") then ok (some ann) else ok none;
  find_domain_by_name = λ d. if eq_text d (lit "b") then ok (some 1) else ok none;
  find_mailbox_by_address = λ a.
      if eq_text a (lit "x@b")
      then ok (some (box 1 a))
      else if eq_text a (lit "y@b")
      then ok (some (box 2 a))
      else ok none;
  can_store = λ p c. true;
  can_insert = λ m. true;
  verify_email_authentication =
      λ e c. record { spf = []; dkim = []; dmarc = []; auth_results_header = [] };
  now = 5;
}

abbrev pub empty_store : MailStore
empty_store = record { files = []; messages = []; next_id = 1 }

abbrev pub say : Text → Input
say t = line (t ++ crlf)

abbrev script : List Input
script =
    say (lit "ehlo c")
    ∷ say (lit "MAIL FROM:<q@r>")
    ∷ say (lit "RCPT TO:<x@b>")
    ∷ say (lit "RCPT TO:<z@relay>")
    ∷ say (lit "DATA")
    ∷ say (lit "Hi")
    ∷ say (lit "..")
    ∷ say (lit ".")
    ∷ say (lit "QUIT")
    ∷ []

-- What the codes of the responses are.
abbrev codes_of : Option Handled → List ℕ
codes_of none = []
codes_of (some (r, s)) = map (λ k. k.code) s.output

abbrev stored_of : Option Handled → List (List ℕ)
stored_of none = []
stored_of (some (r, s)) = map (λ m. m.mailbox_id ∷ m.body_size ∷ []) s.store.messages

-- What a run computes with.
unfoldable pub opened : Unit {0}
unfolding handle_with_tls after_plaintext run_loop run_line read_line greet new_session is_empty lit
    process_command run_verb verb_of eq_text to_uppercase parse_command split_once trim is_space
    starts_with on_ehlo on_mail on_rcpt on_data on_helo parse_mail_from parse_rcpt_to extract_email
    parse_address split_whitespace read_data unstuff as_bytes process_message deliver_all
    deliver_one deliver_found deliver_parsed with_id store_for store_file create_message message_row
    address_to_string on_auth authenticate_plain split_nul handler_config trim_start trim_end
    upper_char on_rset on_starttls verify_credentials verify_password
opened = tt

-- The whole dialogue: the second recipient is refused, and seven octets are stored for the first.
dialogue :
    let end = handle_with_tls server config 20 [] true true script [] empty_store in
    (codes_of end
      ≡ 220 ∷ 250 ∷ 250 ∷ 250 ∷ 250 ∷ 250 ∷ 250 ∷ 250 ∷ 250 ∷ 550 ∷ 354 ∷ 250 ∷ 221 ∷ [])
    × (stored_of end ≡ (1 ∷ 7 ∷ []) ∷ [])
unfolding opened
dialogue = (refl, refl)

abbrev final : Option Handled → Handled
final none = (err [], new_session [] [] empty_store)
final (some h) = h

abbrev relay_run : Option Handled
relay_run = handle_with_tls server config 20 [] true true script [] empty_store

abbrev ended : (h : Handled) × (relay_run ≡ some h)
ended =
    handle_with_tls_ends server config 20 [] true true script [] empty_store (omega arith)
      (omega arith)

handle_with_tls-AllLocal_example : AllLocal server ended.0.1.store
handle_with_tls-AllLocal_example =
    handle_with_tls-AllLocal server config 20 [] true true [] script empty_store ended.0 tt ended.1

handle_with_tls_ends_example : (h : Handled) × (relay_run ≡ some h)
handle_with_tls_ends_example =
    handle_with_tls_ends server config 20 [] true true script [] empty_store (omega arith)
      (omega arith)

-- On the submission port, mail without a login.
abbrev mail_first : List Input
mail_first = say (lit "HELO c") ∷ say (lit "MAIL FROM:<q@r>") ∷ []

abbrev refused_run : Option Handled
refused_run =
    run_loop server (handler_config submission true config) false 9
      (new_session [] mail_first empty_store)

submission_unauthenticated_example : (final refused_run).1.store ≡ empty_store
unfolding opened
submission_unauthenticated_example =
    submission_unauthenticated server config true false 9 [] mail_first empty_store
      (final refused_run) refl refl

-- The credentials "\0ann\0pw", which this server's base64 leaves as they are.
abbrev credentials : Text
credentials = 0 ∷ (lit "ann" ++ 0 ∷ lit "pw")

abbrev login : List Input
login = say (lit "HELO c") ∷ say (lit "AUTH PLAIN " ++ credentials) ∷ []

abbrev login_run : Option Handled
login_run = run_loop server config true 9 (new_session [] login empty_store)

run_loop-IsProven_example : IsProven server (final login_run).1.authenticated_user
unfolding opened
run_loop-IsProven_example =
    run_loop-IsProven server config true 9 [] login empty_store (final login_run) refl refl

abbrev fresh : Session
fresh = new_session [] [] empty_store

process_command-IsGuarded_example :
    IsGuarded config false (process_command server config false (lit "HELO") (lit "c") fresh).1
process_command-IsGuarded_example =
    process_command-IsGuarded server config false (lit "HELO") (lit "c") fresh
      (new_session-IsGuarded config false [] [] empty_store)

-- A session with one recipient and a message in its input.
abbrev pub x_at_b : EmailAddress
x_at_b = record { local = lit "x"; domain = lit "b" }

abbrev pub y_at_b : EmailAddress
y_at_b = record { local = lit "y"; domain = lit "b" }

abbrev pub ready : List Input → Session
ready input = record fresh {
  state = rcpt_to;
  input = input;
  authenticated = true;
  envelope = record { from = none; to = x_at_b ∷ []; client_ip = none; helo = none };
}

ready-IsGuarded : (input : List Input) → IsGuarded config true (ready input)
ready-IsGuarded input = ground arith

start_tls_guarded_example :
    let s = record fresh { state = greeted } in
    let s' = (process_command server config false (lit "STARTTLS") [] s).1 in
    (get_or config.tls_enabled false ≡ true)
    × (◌≡◌ {A = Bool} false false)
    × (s.state ≡ greeted)
    × (s' ≡ send_response 220 (lit "2.0.0 Ready to start TLS") s)
unfolding opened
start_tls_guarded_example =
    start_tls_guarded server config false (lit "STARTTLS") [] (record fresh { state = greeted })
      refl
