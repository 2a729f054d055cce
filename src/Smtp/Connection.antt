-- ===== src/Smtp/Connection.antt =====
-- A connection from its greeting to its end: STARTTLS, and that it ends.
use mai_rust.Common.{ℕ, ◌<◌, ◌≡◌, ◌≢◌, refl, ap, ◌∙◌, Bool, true, false, some, List, arith, length}
use mai_rust.Common.Text.{Text, lit}
use mai_rust.Common.Results.{ok, err}
use mai_rust.Smtp.Types.{
  Services, SmtpConfig, Session, MailStore, Input, greeted, continue, quit, start_tls,
  send_response,
}
use mai_rust.Smtp.Receive.{get_or}
use mai_rust.Smtp.AuthCommand.{on_auth}
use mai_rust.Smtp.Dialogue.{Verb, starttls, auth, Handled, read_line}
use mai_rust.Smtp.Command.{
  on_helo, on_ehlo, on_starttls, on_mail, on_rcpt, on_data, on_rset, run_verb, process_command,
}
use mai_rust.Smtp.Loop.{run_loop_ends}
use mai_rust.Smtp.Run.{greet, new_session, upgrade, after_plaintext, handle_with_tls}

module _ (sv : Services) (config : SmtpConfig) (tls : Bool) where
  abbrev Upgrades : Session → Session → Type 0
  Upgrades s s' =
      (get_or config.tls_enabled false ≡ true)
      × (tls ≡ false)
      × (s.state ≡ greeted)
      × (s' ≡ send_response 220 (lit "2.0.0 Ready to start TLS") s)

  on_starttls_guarded :
      (s : Session)
      → (on_starttls sv config tls s).0 ≡ ok start_tls
      → Upgrades s (on_starttls sv config tls s).1
  unfolding on_starttls
  on_starttls_guarded s e = ground arith

  on_auth_stays : (args : Text) (s : Session) → (on_auth sv config tls args s).0 ≢ ok start_tls
  unfolding on_auth read_line
  on_auth_stays args s e = ground arith

  run_verb_guarded :
      (v : Verb) (args : Text) (s : Session)
      → (run_verb sv config tls v args s).0 ≡ ok start_tls
      → Upgrades s (run_verb sv config tls v args s).1
  unfolding run_verb on_helo on_ehlo on_mail on_rcpt on_data on_rset
  run_verb_guarded starttls args s e = on_starttls_guarded s e
  run_verb_guarded auth args s e = absurd (on_auth_stays args s e)
  run_verb_guarded _ args s e = absurd (ground arith)

  -- A session asks for the upgrade only if TLS is on offer and not yet there, and after a greeting;
  -- nothing of the session has changed then but the response.
  pub start_tls_guarded :
      (command args : Text) (s : Session)
      → (process_command sv config tls command args s).0 ≡ ok start_tls
      → (get_or config.tls_enabled false ≡ true)
        × (tls ≡ false)
        × (s.state ≡ greeted)
        × ((process_command sv config tls command args s).1
            ≡ send_response 220 (lit "2.0.0 Ready to start TLS") s)
  unfolding process_command
  start_tls_guarded command args s e = run_verb_guarded _ args s e

upgrade_ends :
    (sv : Services) (config : SmtpConfig) (fuel : ℕ) (peer_ip : Text)
    (has_acceptor handshake : Bool) (tls_input : List Input) (s : Session)
    → length tls_input < fuel
    → (h : Handled) × (upgrade sv config fuel peer_ip has_acceptor handshake tls_input s ≡ some h)
unfolding upgrade new_session
upgrade_ends sv config fuel peer_ip true true tls_input s enough =
    run_loop_ends sv config true fuel _ enough
upgrade_ends sv config fuel peer_ip true false tls_input s enough = (_, refl)
upgrade_ends sv config fuel peer_ip false handshake tls_input s enough = (_, refl)

after_plaintext_ends :
    (sv : Services) (config : SmtpConfig) (fuel : ℕ) (peer_ip : Text)
    (has_acceptor handshake : Bool) (tls_input : List Input) (k : Handled)
    → length tls_input < fuel
    → (h : Handled) × (after_plaintext sv config fuel peer_ip has_acceptor handshake tls_input
          (some k)
        ≡ some h)
unfolding after_plaintext
after_plaintext_ends sv config fuel peer_ip a hs tls_input (err x, s) enough = (_, refl)
after_plaintext_ends sv config fuel peer_ip a hs tls_input (ok continue, s) enough = (_, refl)
after_plaintext_ends sv config fuel peer_ip a hs tls_input (ok quit, s) enough = (_, refl)
after_plaintext_ends sv config fuel peer_ip a hs tls_input (ok start_tls, s) enough =
    upgrade_ends sv config fuel peer_ip a hs tls_input s enough

-- A connection ends, by itself or with an error: fuel above the number of lines of each phase is
-- enough.
pub handle_with_tls_ends :
    (sv : Services) (config : SmtpConfig) (fuel : ℕ) (peer_ip : Text)
    (has_acceptor handshake : Bool) (input tls_input : List Input) (st : MailStore)
    → length input < fuel
    → length tls_input < fuel
    → (h : Handled) × (handle_with_tls sv config fuel peer_ip has_acceptor handshake input tls_input
          st
        ≡ some h)
unfolding handle_with_tls greet new_session
handle_with_tls_ends sv config fuel peer_ip a hs input tls_input st enough enough_tls =
    let (k, e) =
      run_loop_ends sv config false fuel (greet config (new_session peer_ip input st)) enough in
    let (h, f) = after_plaintext_ends sv config fuel peer_ip a hs tls_input k enough_tls in
    (h, ap (after_plaintext sv config fuel peer_ip a hs tls_input) e ∙ f)
