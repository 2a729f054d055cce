-- ===== src/Smtp/Relay.antt =====
-- No open relay: what is stored has local recipients only.
use mathlib.Core.Option.{some-injective}
use mai_rust.Common.{
  subst, ℕ, ◌≡◌, refl, Bool-cases, inl, inr, true, false, Option, none, some, List, Bool, [], ◌∷◌,
  arith, All, All-append, not, ◌&&◌,
}
use mai_rust.Common.Text.{Text, Bytes, lit}
use mai_rust.Common.Results.{Result, ok, err}
use mai_rust.Smtp.Types.{
  Services, SmtpConfig, Session, EmailAddress, Envelope, MailStore, Message, Input, send_response,
  eq_state, continue, quit, start_tls, mail_from, rcpt_to,
}
use mai_rust.Smtp.Delivery.{message_row, process_message}
use mai_rust.Smtp.Receive.{read_data}
use mai_rust.Smtp.Dialogue.{
  Verb, helo, ehlo, starttls, auth, mail, rcpt, data_verb, rset, Handled, read_line,
}
use mai_rust.Smtp.AuthKeeps.{on_auth_keeps}
use mai_rust.Smtp.AuthCommand.{on_auth}
use mai_rust.Smtp.Command.{
  ehlo_lines, add_recipient, check_recipient, report_stored, report_read, receive_mail, on_helo,
  on_ehlo, on_starttls, on_mail, on_rcpt, on_data, on_rset, run_verb, process_command,
}
use mai_rust.Smtp.Guards.{send_all_keeps}
use mai_rust.Smtp.Stored.{process_message_keeps}
use mai_rust.Smtp.Loop.{run_loop_keeps}
use mai_rust.Smtp.Run.{run_loop, greet, new_session, upgrade, after_plaintext, handle_with_tls}

module _ (sv : Services) where
  -- The server is responsible for the domain of the address.
  abbrev pub IsLocal : EmailAddress → Type 0
  IsLocal a = (d : ℕ) × (sv.find_domain_by_name a.domain ≡ ok (some d))

  abbrev pub IsLocalMail : Message → Type 0
  IsLocalMail m = All IsLocal m.to_addresses

  abbrev pub AllLocal : MailStore → Type 0
  AllLocal st = All IsLocalMail st.messages

  pub record IsClosed (s : Session) : Type 0 where
    pub recipients : All IsLocal s.envelope.to
    pub stored : AllLocal s.store

  process_message-AllLocal :
      (e : Envelope) (content : Bytes) (st : MailStore)
      → All IsLocal e.to
      → AllLocal st
      → AllLocal (process_message sv e content st).1
  process_message-AllLocal e content st l h =
      process_message_keeps sv e content st AllLocal h (λ mb st' h'. h')
        (λ parsed mb st' _ h'.
          All-append IsLocalMail st'.messages _ h' ((unfold message_row in l), tt))

  module _ (config : SmtpConfig) (tls : Bool) where
    on_mail-IsClosed :
        (args : Text) (s : Session) → IsClosed s → IsClosed (on_mail sv config tls args s).1
    unfolding on_mail
    on_mail-IsClosed args s c = ground arith

    add_recipient-IsClosed :
        (a : EmailAddress) (r : Result (Option ℕ)) (s : Session)
        → sv.find_domain_by_name a.domain ≡ r
        → IsClosed s
        → IsClosed (add_recipient sv config tls a r s).1
    unfolding add_recipient
    add_recipient-IsClosed a (ok (some d)) s e c = record {
      recipients = All-append IsLocal s.envelope.to _ c.recipients ((d, e), tt);
      stored = c.stored;
    }
    add_recipient-IsClosed a (ok none) s e c = ground arith
    add_recipient-IsClosed a (err x) s e c = ground arith

    check_recipient-IsClosed :
        (o : Option EmailAddress) (s : Session)
        → IsClosed s
        → IsClosed (check_recipient sv config tls o s).1
    unfolding check_recipient
    check_recipient-IsClosed none s c = ground arith
    check_recipient-IsClosed (some a) s c = add_recipient-IsClosed a _ s refl c

    on_rcpt-IsClosed :
        (args : Text) (s : Session) → IsClosed s → IsClosed (on_rcpt sv config tls args s).1
    unfolding on_rcpt
    on_rcpt-IsClosed args s c =
        elim (Bool-cases (not (eq_state s.state mail_from) && not (eq_state s.state rcpt_to))) [
          | inl bad ↦ rw bad (ground arith)
          | inr good ↦ rw good (check_recipient-IsClosed _ s c)
        ]

    report_stored-AllLocal :
        (s : Session) (r : Result ℕ × MailStore)
        → AllLocal r.1
        → AllLocal (report_stored sv config tls s r).store
    unfolding report_stored
    report_stored-AllLocal s (ok id, st) h = h
    report_stored-AllLocal s (err e, st) h = h

    report_read-AllLocal :
        (s : Session) (r : Result Bytes × List Input)
        → IsClosed s
        → AllLocal (report_read sv config tls s r).store
    unfolding report_read
    report_read-AllLocal s (ok content, rest) c =
        report_stored-AllLocal (record s { input = rest }) _
          (process_message-AllLocal s.envelope content s.store c.recipients c.stored)
    report_read-AllLocal s (err e, rest) c = c.stored

    receive_mail-IsClosed :
        (rs : List EmailAddress) (s : Session)
        → IsClosed s
        → IsClosed (receive_mail sv config tls rs s).1
    unfolding receive_mail
    receive_mail-IsClosed [] s c = ground arith
    receive_mail-IsClosed (r ∷ rs) s c = record {
      recipients = tt;
      stored =
          report_read-AllLocal
            (send_response 354 (lit "Start mail input; end with <CRLF>.<CRLF>") s)
            (read_data config s.input) (ground arith);
    }

    on_data-IsClosed : (s : Session) → IsClosed s → IsClosed (on_data sv config tls s).1
    unfolding on_data
    on_data-IsClosed s c = elim (Bool-cases (not (eq_state s.state rcpt_to))) [
      | inl bad ↦ rw bad (ground arith)
      | inr good ↦ rw good (receive_mail-IsClosed s.envelope.to s c)
    ]

    on_auth-IsClosed :
        (args : Text) (s : Session) → IsClosed s → IsClosed (on_auth sv config tls args s).1
    on_auth-IsClosed =
        on_auth_keeps sv config tls IsClosed
          (λ s i o c. record { recipients = c.recipients; stored = c.stored })
          (λ r s _ _ c. record { recipients = c.recipients; stored = c.stored })

    on_helo-IsClosed :
        (args : Text) (s : Session) → IsClosed s → IsClosed (on_helo sv config tls args s).1
    unfolding on_helo
    on_helo-IsClosed args s c = ground arith

    on_ehlo-IsClosed :
        (args : Text) (s : Session) → IsClosed s → IsClosed (on_ehlo sv config tls args s).1
    unfolding on_ehlo
    on_ehlo-IsClosed args s c =
        rw (send_all_keeps (ehlo_lines sv config tls args s.authenticated) _) (ground arith)

    on_starttls-IsClosed : (s : Session) → IsClosed s → IsClosed (on_starttls sv config tls s).1
    unfolding on_starttls
    on_starttls-IsClosed s c = ground arith

    on_rset-IsClosed : (s : Session) → IsClosed s → IsClosed (on_rset sv config tls s).1
    unfolding on_rset
    on_rset-IsClosed s c = record { recipients = tt; stored = c.stored }

    run_verb-IsClosed :
        (v : Verb) (args : Text) (s : Session)
        → IsClosed s
        → IsClosed (run_verb sv config tls v args s).1
    unfolding run_verb
    run_verb-IsClosed helo args s c = on_helo-IsClosed args s c
    run_verb-IsClosed ehlo args s c = on_ehlo-IsClosed args s c
    run_verb-IsClosed starttls args s c = on_starttls-IsClosed s c
    run_verb-IsClosed auth args s c = on_auth-IsClosed args s c
    run_verb-IsClosed mail args s c = on_mail-IsClosed args s c
    run_verb-IsClosed rcpt args s c = on_rcpt-IsClosed args s c
    run_verb-IsClosed data_verb args s c = on_data-IsClosed s c
    run_verb-IsClosed rset args s c = on_rset-IsClosed s c
    run_verb-IsClosed _ args s c = ground arith

    pub process_command-IsClosed :
        (command args : Text) (s : Session)
        → IsClosed s
        → IsClosed (process_command sv config tls command args s).1
    unfolding process_command
    process_command-IsClosed command args s c = run_verb-IsClosed _ args s c

    read_line-IsClosed : (s : Session) → IsClosed s → IsClosed (read_line s).1
    unfolding read_line
    read_line-IsClosed s c = ground arith

    pub run_loop-IsClosed :
        (fuel : ℕ) (s : Session) (h : Handled)
        → IsClosed s
        → run_loop sv config tls fuel s ≡ some h
        → IsClosed h.1
    run_loop-IsClosed =
        run_loop_keeps sv config tls IsClosed process_command-IsClosed read_line-IsClosed

pub new_session-IsClosed :
    (sv : Services) (peer_ip : Text) (input : List Input) (st : MailStore)
    → AllLocal sv st
    → IsClosed sv (new_session peer_ip input st)
unfolding new_session
new_session-IsClosed sv peer_ip input st h = record { recipients = tt; stored = h }

upgrade-AllLocal :
    (sv : Services) (config : SmtpConfig) (fuel : ℕ) (peer_ip : Text)
    (has_acceptor handshake : Bool) (tls_input : List Input) (s : Session) (h : Handled)
    → AllLocal sv s.store
    → upgrade sv config fuel peer_ip has_acceptor handshake tls_input s ≡ some h
    → AllLocal sv h.1.store
unfolding upgrade
upgrade-AllLocal sv config fuel peer_ip true true tls_input s h l e =
    (run_loop-IsClosed sv config true fuel _ h (new_session-IsClosed sv peer_ip tls_input s.store l)
      e).stored
upgrade-AllLocal sv config fuel peer_ip true false tls_input s h l e =
    subst (λ k. AllLocal sv k.1.store) (some-injective _ _ e) l
upgrade-AllLocal sv config fuel peer_ip false hs tls_input s h l e =
    subst (λ k. AllLocal sv k.1.store) (some-injective _ _ e) l

-- A connection as a whole: the plaintext phase, and the phase behind STARTTLS.
module _ (sv : Services) (config : SmtpConfig) (fuel : ℕ) (peer_ip : Text)
    (has_acceptor handshake : Bool) (tls_input : List Input) where
  after-AllLocal :
      (r : Option Handled) (h : Handled)
      → ((k : Handled) → r ≡ some k → AllLocal sv k.1.store)
      → after_plaintext sv config fuel peer_ip has_acceptor handshake tls_input r ≡ some h
      → AllLocal sv h.1.store
  unfolding after_plaintext
  after-AllLocal none h l e = cc
  after-AllLocal (some (err x, s)) h l e =
      subst (λ k. AllLocal sv k.1.store) (some-injective _ _ e) (l _ refl)
  after-AllLocal (some (ok start_tls, s)) h l e =
      upgrade-AllLocal sv config fuel peer_ip has_acceptor handshake tls_input s h (l _ refl) e
  after-AllLocal (some (ok continue, s)) h l e =
      subst (λ k. AllLocal sv k.1.store) (some-injective _ _ e) (l _ refl)
  after-AllLocal (some (ok quit, s)) h l e =
      subst (λ k. AllLocal sv k.1.store) (some-injective _ _ e) (l _ refl)

  -- Not an open relay: if every message in the store is addressed to domains that the server is
  -- responsible for, then so is every message in the store when a connection ends, whatever the
  -- client sends in plaintext and behind STARTTLS, and however the connection ends.
  pub handle_with_tls-AllLocal :
      (input : List Input) (st : MailStore) (h : Handled)
      → AllLocal sv st
      → handle_with_tls sv config fuel peer_ip has_acceptor handshake input tls_input st ≡ some h
      → AllLocal sv h.1.store
  unfolding handle_with_tls greet
  handle_with_tls-AllLocal input st h l e =
      after-AllLocal _ h
        (λ k p.
          (run_loop-IsClosed sv config false fuel _ k
            (record {
              recipients = (new_session-IsClosed sv peer_ip input st l).recipients;
              stored = (new_session-IsClosed sv peer_ip input st l).stored;
            })
            p).stored)
        e
