-- ===== src/Smtp/Run.antt =====
-- `run_session` and `handle_with_tls` of smtp/handler.rs, and the configuration that
-- `run_service` of smtp/server.rs gives to each connection.
use mai_rust.Common.{
  ℕ, zero, suc, ◌++◌, Bool, true, false, Option, none, some, List, [], if◌then◌else◌,
}
use mai_rust.Common.Text.{Text, lit, is_empty, trim}
use mai_rust.Common.Results.{Result, ok, err}
use mai_rust.Smtp.Types.{
  Services, SmtpConfig, Session, connected, CommandResult, continue, quit, start_tls, Input,
  MailStore, send_response,
}
use mai_rust.Smtp.Parse.{parse_command}
use mai_rust.Smtp.Receive.{get_or}
use mai_rust.Smtp.Dialogue.{Handled, read_line}
use mai_rust.Smtp.Command.{process_command}

unfoldable pub new_session : Text → List Input → MailStore → Session
new_session peer_ip input st = record {
  state = connected;
  envelope = record { from = none; to = []; client_ip = some peer_ip; helo = none };
  authenticated = false;
  authenticated_user = none;
  input = input;
  output = [];
  store = st;
}

unfoldable pub greet : SmtpConfig → Session → Session
greet config s = send_response 220 (config.hostname ++ lit " ESMTP MaiRust") s

module _ (sv : Services) (config : SmtpConfig) (tls_established : Bool) where
  -- One round of the loop behind `read_line`: `none` goes on with the next line.
  unfoldable pub run_line : Result Text × Session → Option (Result CommandResult) × Session
  run_line (err e, s) = (some (err e), s)
  run_line (ok t, s) =
      if is_empty t
      then (some (ok continue), s)
      else let (command, args) = parse_command (trim t) in
        let (r, s') = process_command sv config tls_established command args s in
        (
          elim r [
            | ok c ↦ elim c [
              | continue ↦ none
              | quit ↦ some (ok quit)
              | start_tls ↦ some (ok start_tls)
            ]
            | err e ↦ some (err e)
          ],
          s',
        )

  -- `none` means that the fuel ran out.
  unfoldable pub run_loop : ℕ → Session → Option Handled
  run_loop zero s = none
  run_loop (suc fuel) s =
      let (r, s') = run_line (read_line s) in
      elim r [ some c ↦ some (c, s') | none ↦ run_loop fuel s' ]

-- What the second phase of a connection needs: whether an acceptor is configured, whether the
-- handshake succeeds, and what the client sends inside the tunnel. The plaintext that was read
-- ahead is lost with its reader.
unfoldable pub upgrade :
    Services → SmtpConfig → ℕ → Text → Bool → Bool → List Input → Session → Option Handled
upgrade sv config fuel peer_ip has_acceptor handshake tls_input s =
    if has_acceptor
    then (if handshake
        then run_loop sv config true fuel (new_session peer_ip tls_input s.store)
        else some (err (lit "TLS handshake failed"), s))
    else some (err (lit "STARTTLS requested without configured acceptor"), s)

-- The match on the result of the plaintext phase.
unfoldable pub after_plaintext :
    Services → SmtpConfig → ℕ → Text → Bool → Bool → List Input → Option Handled → Option Handled
after_plaintext sv config fuel peer_ip has_acceptor handshake tls_input none = none
after_plaintext sv config fuel peer_ip has_acceptor handshake tls_input (some (err e, s)) =
    some (err e, s)
after_plaintext sv config fuel peer_ip has_acceptor handshake tls_input (some (ok start_tls, s)) =
    upgrade sv config fuel peer_ip has_acceptor handshake tls_input s
after_plaintext sv config fuel peer_ip has_acceptor handshake tls_input (some (ok c, s)) =
    some (ok c, s)

unfoldable pub handle_with_tls :
    Services
    → SmtpConfig
    → ℕ
    → Text
    → Bool
    → Bool
    → List Input
    → List Input
    → MailStore
    → Option Handled
handle_with_tls sv config fuel peer_ip has_acceptor handshake input tls_input st =
    after_plaintext sv config fuel peer_ip has_acceptor handshake tls_input
      (run_loop sv config false fuel (greet config (new_session peer_ip input st)))

pub data SmtpServiceType : Type 0 where
  smtp submission : SmtpServiceType

-- The port and the configuration of a service's connections.
unfoldable pub service_port : SmtpServiceType → SmtpConfig → ℕ
service_port smtp config = config.port
service_port submission config = config.submission_port

unfoldable pub service_auth_required : SmtpServiceType → SmtpConfig → Bool
service_auth_required smtp config = get_or config.auth_required false
service_auth_required submission config = true

unfoldable pub handler_config : SmtpServiceType → Bool → SmtpConfig → SmtpConfig
unfolding service_auth_required
handler_config service has_acceptor config = record config {
  auth_required = some (service_auth_required service config);
  tls_enabled = some has_acceptor;
}
