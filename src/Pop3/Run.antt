-- ===== src/Pop3/Run.antt =====
-- The loops of `handle_connection` and `handle_tls_connection` (pop3/server.rs).
use mai_rust.Common.{◌++◌, Bool, false, not, ◌&&◌, ◌||◌, List, [], ◌∷◌, if◌then◌else◌}
use mai_rust.Common.Text.{Text, lit, is_empty}
use mai_rust.Smtp.Types.{Message}
use mai_rust.Pop3.Types.{Services, Pop3, Pop3Command, capa, stls}
use mai_rust.Pop3.Session.{new, is_authorization}
use mai_rust.Pop3.Parse.{parse}
use mai_rust.Pop3.Response.{ok, err, greeting, capabilities_with_starttls}
use mai_rust.Pop3.Command.{handle_command}

-- What one read with its timeout gives; the end of the list is the end of the connection.
pub data Input : Type 0 where
  line : Text → Input
  read_error : Input
  timed_out : Input

-- The settings that the loops read.
pub record Pop3Config : Type 0 where
  pub starttls : Bool
  pub server_name : Text

-- The state of the server's side, and the responses sent.
pub record Connection : Type 0 where
  pub state : Pop3
  pub output : List Text

-- A round of the loop ends in the next round, the end of the connection, or the handshake.
pub data Next : Type 0 where
  go stop negotiate : Connection → Next

unfoldable pub respond : Text → Connection → Connection
respond response c = record c { output = c.output ++ response ∷ [] }

unfoldable pub after_command : (Text × Bool) × Pop3 → Connection → Next
unfolding respond
after_command ((response, should_quit), st) c =
    let c' = respond response (record c { state = st }) in if should_quit then stop c' else go c'

unfoldable pub plain_command : Services → Pop3Config → Bool → Pop3Command → Connection → Next
unfolding after_command respond
plain_command sv config has_acceptor stls c =
    if not (is_authorization c.state.session)
    then go (respond (err (lit "STLS only allowed in AUTHORIZATION state")) c)
    else if not config.starttls || not has_acceptor
    then go (respond (err (lit "STLS not available")) c)
    else negotiate (respond (ok (lit "Begin TLS negotiation")) c)
plain_command sv config has_acceptor capa c =
    go (respond (capabilities_with_starttls (config.starttls && has_acceptor)) c)
plain_command sv config has_acceptor other c = after_command (handle_command sv other c.state) c

unfoldable pub tls_command : Services → Pop3Command → Connection → Next
unfolding after_command respond
tls_command sv stls c = go (respond (err (lit "TLS already active")) c)
tls_command sv capa c = go (respond (capabilities_with_starttls false) c)
tls_command sv other c = after_command (handle_command sv other c.state) c

-- The match on the result of a read; `command` handles a parsed line.
unfoldable pub round : Services → (Pop3Command → Connection → Next) → Input → Connection → Next
unfolding respond
round sv command (line t) c = if is_empty t then stop c else command (parse sv.wide_upper t) c
round sv command read_error c = stop c
round sv command timed_out c = stop (respond (err (lit "Session timeout")) c)

-- What follows a round: the rounds behind it, or the handshake.
abbrev pub follow : (Connection → Connection) → (Connection → Connection) → Next → Connection
follow rounds upgraded (go c) = rounds c
follow rounds upgraded (stop c) = c
follow rounds upgraded (negotiate c) = upgraded c

unfoldable pub run_tls : Services → List Input → Connection → Connection
run_tls sv [] c = c
run_tls sv (i ∷ is) c = follow (run_tls sv is) (λ c'. c') (round sv (tls_command sv) i c)

-- `tls_input` is what the client sends behind the handshake; what it sent before and was read ahead
-- is lost with the reader.
abbrev pub upgrade : Services → Bool → List Input → Connection → Connection
upgrade sv handshake tls_input c = if handshake then run_tls sv tls_input c else c

unfoldable pub run_plain :
    Services → Pop3Config → Bool → Bool → List Input → List Input → Connection → Connection
unfolding run_tls
run_plain sv config has_acceptor handshake [] tls_input c = c
run_plain sv config has_acceptor handshake (i ∷ is) tls_input c =
    follow (run_plain sv config has_acceptor handshake is tls_input)
      (upgrade sv handshake tls_input) (round sv (plain_command sv config has_acceptor) i c)

unfoldable pub handle_connection :
    Services → Pop3Config → Bool → Bool → List Input → List Input → List Message → Connection
unfolding run_plain
handle_connection sv config has_acceptor handshake input tls_input table =
    run_plain sv config has_acceptor handshake input tls_input (record {
      state = record { session = new sv.now; table = table };
      output = greeting config.server_name ∷ [];
    })
