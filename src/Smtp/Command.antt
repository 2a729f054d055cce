-- ===== src/Smtp/Command.antt =====
-- `process_command` of smtp/handler.rs: one handler for each arm. A failing read ends the session
-- with an error; the responses that were sent stay sent.
use mai_rust.Common.{
  ℕ, ◌++◌, Bool, false, not, ◌&&◌, ◌||◌, Option, none, some, List, [], ◌∷◌, if◌then◌else◌,
}
use mai_rust.Common.Text.{Text, Bytes, lit, to_uppercase}
use mai_rust.Common.Results.{Result, ok, err}
use mai_rust.Smtp.Types.{
  Services, SmtpConfig, Session, connected, greeted, mail_from, rcpt_to, eq_state, continue, quit,
  start_tls, EmailAddress, Input, MailStore, send_response,
}
use mai_rust.Smtp.Parse.{parse_mail_from, parse_rcpt_to}
use mai_rust.Smtp.Receive.{get_or, read_data}
use mai_rust.Smtp.Delivery.{process_message}
use mai_rust.Smtp.AuthCommand.{on_auth}
use mai_rust.Smtp.Dialogue.{
  Verb, helo, ehlo, starttls, auth, mail, rcpt, data_verb, rset, noop, quit_verb, vrfy, expn,
  unrecognized, verb_of, Handled, answer, send_all, clear_envelope,
}

module _ (sv : Services) (config : SmtpConfig) (tls_established : Bool) where
  unfoldable pub on_helo : Text → Session → Handled
  on_helo args s =
      answer 250 (lit "Hello " ++ args)
        (record s { state = greeted; envelope = record s.envelope { helo = some args } })

  unfoldable pub ehlo_lines : Text → Bool → List Text
  ehlo_lines args authenticated =
      (config.hostname ++ lit " Hello " ++ args)
      ∷ lit "SIZE 52428800"
      ∷ lit "8BITMIME"
      ∷ lit "PIPELINING"
      ∷ lit "ENHANCEDSTATUSCODES"
      ∷ ((if get_or config.tls_enabled false && not tls_established
            then lit "STARTTLS" ∷ []
            else [])
          ++ (if get_or config.auth_required false || authenticated
              then lit "AUTH PLAIN LOGIN" ∷ []
              else []))

  unfoldable pub on_ehlo : Text → Session → Handled
  unfolding ehlo_lines send_all
  on_ehlo args s = (
    ok continue,
    send_all (ehlo_lines args s.authenticated)
        (record s { state = greeted; envelope = record s.envelope { helo = some args } }),
  )

  unfoldable pub on_starttls : Session → Handled
  on_starttls s =
      if not (get_or config.tls_enabled false)
      then answer 502 (lit "5.5.1 STARTTLS not supported") s
      else if tls_established
      then answer 503 (lit "5.5.1 TLS already active") s
      else if not (eq_state s.state greeted)
      then answer 503 (lit "5.5.1 Send EHLO/HELO first") s
      else (ok start_tls, send_response 220 (lit "2.0.0 Ready to start TLS") s)

  unfoldable pub set_sender : Option (Option EmailAddress) → Session → Handled
  set_sender none s = answer 501 (lit "5.1.7 Bad sender address syntax") s
  set_sender (some from) s =
      answer 250 (lit "2.1.0 OK")
        (record s { state = mail_from; envelope = record s.envelope { from = from } })

  unfoldable pub on_mail : Text → Session → Handled
  unfolding set_sender
  on_mail args s =
      if not (eq_state s.state greeted)
      then answer 503 (lit "5.5.1 Bad sequence of commands") s
      else if get_or config.auth_required false && not s.authenticated
      then answer 530 (lit "5.7.0 Authentication required") s
      else set_sender (parse_mail_from sv.wide_upper args) s

  unfoldable pub add_recipient : EmailAddress → Result (Option ℕ) → Session → Handled
  add_recipient to_addr (ok (some domain)) s = answer 250 (lit "2.1.5 OK") (record s {
    state = rcpt_to;
    envelope = record s.envelope { to = s.envelope.to ++ to_addr ∷ [] };
  })
  add_recipient to_addr (ok none) s =
      answer 550 (lit "5.1.1 Recipient address rejected: Domain not found") s
  add_recipient to_addr (err e) s = answer 451 (lit "4.3.0 Temporary error") s

  unfoldable pub check_recipient : Option EmailAddress → Session → Handled
  unfolding add_recipient
  check_recipient none s = answer 501 (lit "5.1.3 Bad recipient address syntax") s
  check_recipient (some to_addr) s = add_recipient to_addr (sv.find_domain_by_name to_addr.domain) s

  unfoldable pub on_rcpt : Text → Session → Handled
  unfolding check_recipient
  on_rcpt args s =
      if not (eq_state s.state mail_from) && not (eq_state s.state rcpt_to)
      then answer 503 (lit "5.5.1 Bad sequence of commands") s
      else check_recipient (parse_rcpt_to sv.wide_upper args) s

  -- The response to a message, and the store behind it.
  unfoldable pub report_stored : Session → Result ℕ × MailStore → Session
  report_stored s (ok id, st) =
      send_response 250 (lit "2.0.0 OK: queued as " ++ sv.show_uuid id) (record s { store = st })
  report_stored s (err e, st) =
      send_response 451 (lit "4.3.0 Temporary error") (record s { store = st })

  unfoldable pub report_read : Session → Result Bytes × List Input → Session
  unfolding report_stored
  report_read s (ok content, rest) =
      report_stored (record s { input = rest }) (process_message sv s.envelope content s.store)
  report_read s (err e, rest) =
      send_response 451 (lit "4.3.0 Error reading message") (record s { input = rest })

  -- Whatever became of the message, the next one starts afresh.
  unfoldable pub reset_transaction : Session → Session
  unfolding clear_envelope
  reset_transaction s = record s { state = greeted; envelope = clear_envelope s.envelope }

  unfoldable pub receive_mail : List EmailAddress → Session → Handled
  unfolding report_read reset_transaction
  receive_mail [] s = answer 503 (lit "5.5.1 No recipients specified") s
  receive_mail (r ∷ rs) s = (
    ok continue,
    reset_transaction (
        report_read (send_response 354 (lit "Start mail input; end with <CRLF>.<CRLF>") s)
          (read_data config s.input)),
  )

  unfoldable pub on_data : Session → Handled
  unfolding receive_mail
  on_data s =
      if not (eq_state s.state rcpt_to)
      then answer 503 (lit "5.5.1 Bad sequence of commands") s
      else receive_mail s.envelope.to s

  unfoldable pub on_rset : Session → Handled
  unfolding clear_envelope
  on_rset s = answer 250 (lit "2.0.0 OK") (record s {
    envelope = clear_envelope s.envelope;
    state = if eq_state s.state connected then connected else greeted;
  })

  unfoldable pub run_verb : Verb → Text → Session → Handled
  run_verb helo args s = on_helo args s
  run_verb ehlo args s = on_ehlo args s
  run_verb starttls args s = on_starttls s
  run_verb auth args s = on_auth sv config tls_established args s
  run_verb mail args s = on_mail args s
  run_verb rcpt args s = on_rcpt args s
  run_verb data_verb args s = on_data s
  run_verb rset args s = on_rset s
  run_verb noop args s = answer 250 (lit "2.0.0 OK") s
  run_verb quit_verb args s = (ok quit, send_response 221 (lit "2.0.0 Bye") s)
  run_verb vrfy args s = answer 252 (lit "2.5.2 Cannot VRFY user") s
  run_verb expn args s = answer 502 (lit "5.5.1 EXPN not supported") s
  run_verb unrecognized args s = answer 500 (lit "5.5.2 Command not recognized") s

  unfoldable pub process_command : Text → Text → Session → Handled
  process_command command args s = run_verb (verb_of (to_uppercase sv.wide_upper command)) args s
