-- ===== src/Smtp/Dialogue.antt =====
-- The verbs of smtp/handler.rs, reading a line, and sending responses.
use mai_rust.Common.{ℕ, none, List, [], ◌∷◌, if◌then◌else◌}
use mai_rust.Common.Text.{Text, lit, eq_text}
use mai_rust.Common.Results.{Result, ok, err}
use mai_rust.Smtp.Types.{
  Session, CommandResult, continue, Envelope, Input, line, broken, send_response,
  send_response_continue,
}

-- The arms of the match on the command in upper case.
pub data Verb : Type 0 where
  helo ehlo starttls auth mail rcpt data_verb rset noop quit_verb vrfy expn unrecognized : Verb

unfoldable pub verb_of : Text → Verb
verb_of c =
    if eq_text c (lit "HELO")
    then helo
    else if eq_text c (lit "EHLO")
    then ehlo
    else if eq_text c (lit "STARTTLS")
    then starttls
    else if eq_text c (lit "AUTH")
    then auth
    else if eq_text c (lit "MAIL")
    then mail
    else if eq_text c (lit "RCPT")
    then rcpt
    else if eq_text c (lit "DATA")
    then data_verb
    else if eq_text c (lit "RSET")
    then rset
    else if eq_text c (lit "NOOP")
    then noop
    else if eq_text c (lit "QUIT")
    then quit_verb
    else if eq_text c (lit "VRFY")
    then vrfy
    else if eq_text c (lit "EXPN")
    then expn
    else unrecognized

abbrev pub Handled : Type 0
Handled = Result CommandResult × Session

unfoldable pub take_line : List Input → Session → Result Text × Session
take_line [] s = (ok [], s)
take_line (broken ∷ rest) s = (err (lit "stream error"), record s { input = rest })
take_line (line t ∷ rest) s = (ok t, record s { input = rest })

-- `reader.read_line`: the text is empty at the end of the connection.
unfoldable pub read_line : Session → Result Text × Session
unfolding take_line
read_line s = take_line s.input s

-- A response, and on with the next command.
abbrev pub answer : ℕ → Text → Session → Handled
answer code text s = (ok continue, send_response code text s)

unfoldable pub send_all : List Text → Session → Session
send_all [] s = s
send_all (r ∷ []) s = send_response 250 r s
send_all (r ∷ q ∷ rs) s = send_all (q ∷ rs) (send_response_continue 250 r s)

unfoldable pub clear_envelope : Envelope → Envelope
clear_envelope e = record e { from = none; to = [] }
