-- ===== src/Imap/Run.antt =====
-- The loops of `handle_connection` and `handle_tls_connection` (imap/server.rs).
use mai_rust.Common.{
  ◌++◌, Bool, true, false, not, ◌&&◌, ◌||◌, Option, none, some, List, [], ◌∷◌, if◌then◌else◌,
}
use mai_rust.Common.Text.{Text, lit, is_empty}
use mai_rust.Imap.Types.{
  SessionState, logged_out, ImapCommand, TaggedCommand, Services, Imap, starttls_cmd,
  capability_cmd,
}
use mai_rust.Imap.Session.{is_authenticated, new}
use mai_rust.Imap.Outcome.{Outcome, parsed, refused, panicked}
use mai_rust.Imap.Parser.{parse}
use mai_rust.Imap.Response.{ok, bad, bye, greeting_with_starttls, capability_with_starttls}
use mai_rust.Imap.Command.{handle_command}

-- What one read with its timeout gives; the end of the list is the end of the connection.
pub data Input : Type 0 where
  line : Text → Input
  read_error : Input
  timed_out : Input

-- The state of the server's side, and the responses sent.
pub record Connection : Type 0 where
  pub state : Imap
  pub output : List Text

-- A round of the loop ends in the next round, the end of the connection, or the handshake.
pub data Next : Type 0 where
  go stop negotiate : Connection → Next

unfoldable pub respond : Text → Connection → Connection
respond response c = record c { output = c.output ++ response ∷ [] }

unfoldable pub is_logged_out : SessionState → Bool
is_logged_out logged_out = true
is_logged_out _ = false

-- The response is sent, and LOGOUT ends the loop; a panic ends the task.
unfoldable pub after_command : Option Text × Imap → Connection → Next
unfolding respond is_logged_out
after_command (none, st) c = stop (record c { state = st })
after_command (some response, st) c =
    let c' = respond response (record c { state = st }) in
    if is_logged_out st.session.state then stop c' else go c'

unfoldable pub plain_command : Services → Bool → Bool → Text → ImapCommand → Connection → Next
unfolding after_command respond
plain_command sv starttls has_acceptor tag starttls_cmd c =
    if is_authenticated c.state.session
    then after_command (some (bad tag (lit "STARTTLS not allowed after authentication")), c.state) c
    else if not starttls || not has_acceptor
    then after_command (some (bad tag (lit "STARTTLS not available")), c.state) c
    else negotiate (respond (ok tag (lit "Begin TLS negotiation now")) c)
plain_command sv starttls has_acceptor tag capability_cmd c =
    after_command
      (
        some (
            capability_with_starttls (starttls && has_acceptor)
            ++ ok tag (lit "CAPABILITY completed")),
        c.state,
      )
      c
plain_command sv starttls has_acceptor tag other c =
    after_command (handle_command sv tag other c.state) c

unfoldable pub tls_command : Services → Text → ImapCommand → Connection → Next
unfolding after_command
tls_command sv tag starttls_cmd c =
    after_command (some (bad tag (lit "TLS already active")), c.state) c
tls_command sv tag capability_cmd c =
    after_command
      (some (capability_with_starttls false ++ ok tag (lit "CAPABILITY completed")), c.state) c
tls_command sv tag other c = after_command (handle_command sv tag other c.state) c

unfoldable pub on_parsed :
    (Text → ImapCommand → Connection → Next) → Outcome TaggedCommand → Connection → Next
unfolding after_command
on_parsed command (parsed t) c = command t.tag t.command c
on_parsed command refused c = after_command (some (lit "* BAD Invalid command\r\n"), c.state) c
on_parsed command panicked c = stop c

-- The match on the result of a read; `command` handles a parsed line.
unfoldable pub round :
    Services → (Text → ImapCommand → Connection → Next) → Input → Connection → Next
unfolding respond on_parsed
round sv command (line t) c =
    if is_empty t then stop c else on_parsed command (parse sv.wide_upper t) c
round sv command read_error c = stop c
round sv command timed_out c = stop (respond (bye (lit "Connection timeout")) c)

-- What follows a round: the rounds behind it, or the handshake.
abbrev pub follow : (Connection → Connection) → (Connection → Connection) → Next → Connection
follow rounds upgraded (go c) = rounds c
follow rounds upgraded (stop c) = c
follow rounds upgraded (negotiate c) = upgraded c

unfoldable pub run_tls : Services → List Input → Connection → Connection
run_tls sv [] c = c
run_tls sv (i ∷ is) c = follow (run_tls sv is) (λ c'. c') (round sv (tls_command sv) i c)

-- `tls_input` is what the client sends behind the handshake; what it sent before and was read ahead
-- is lost with the reader.
abbrev pub upgrade : Services → Bool → List Input → Connection → Connection
upgrade sv handshake tls_input c = if handshake then run_tls sv tls_input c else c

unfoldable pub run_plain :
    Services → Bool → Bool → Bool → List Input → List Input → Connection → Connection
unfolding run_tls
run_plain sv starttls has_acceptor handshake [] tls_input c = c
run_plain sv starttls has_acceptor handshake (i ∷ is) tls_input c =
    follow (run_plain sv starttls has_acceptor handshake is tls_input)
      (upgrade sv handshake tls_input) (round sv (plain_command sv starttls has_acceptor) i c)

unfoldable pub handle_connection :
    Services → Bool → Bool → Bool → List Input → List Input → Imap → Connection
unfolding run_plain new
handle_connection sv starttls has_acceptor handshake input tls_input st =
    run_plain sv starttls has_acceptor handshake input tls_input (record {
      state = record st { session = new sv.now };
      output = greeting_with_starttls (starttls && has_acceptor) ∷ [];
    })
