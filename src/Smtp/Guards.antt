-- ===== src/Smtp/Guards.antt =====
-- The order of commands and the authentication guards: what holds of a session between commands.
use mathlib.Core.List.{concat-ne-nil}
use mai_rust.Common.{
  Option-cases, inl, inr, ◌≡◌, ◌≢◌, ◌⊎◌, refl, Bool, true, false, none, some, List, [], ◌∷◌, arith,
}
use mai_rust.Common.Text.{Text}
use mai_rust.Smtp.Types.{
  Services, SmtpConfig, Session, greeted, mail_from, rcpt_to, data_state, send_response_continue,
}
use mai_rust.Smtp.Receive.{get_or, read_data}
use mai_rust.Smtp.Dialogue.{Verb, helo, ehlo, starttls, auth, mail, rcpt, data_verb, rset, send_all}
use mai_rust.Smtp.Parse.{parse_rcpt_to}
use mai_rust.Smtp.AuthKeeps.{on_auth_keeps}
use mai_rust.Smtp.AuthCommand.{on_auth}
use mai_rust.Smtp.Command.{
  ehlo_lines, on_helo, on_ehlo, on_starttls, on_mail, on_rcpt, on_data, on_rset, run_verb,
  process_command,
}

pub record IsGuarded (config : SmtpConfig) (tls : Bool) (s : Session) : Type 0 where
  pub recipients_present : s.state ≡ rcpt_to → s.envelope.to ≢ []
  pub never_data : s.state ≢ data_state
  pub sender_authenticated :
      get_or config.auth_required false ≡ true
      → (s.state ≡ mail_from) ⊎ (s.state ≡ rcpt_to)
      → s.authenticated ≡ true
  pub tls_before_auth : config.require_tls_for_auth ≡ true → tls ≡ false → s.authenticated ≡ false

-- A multi-line response changes nothing but the output.
pub send_all_keeps :
    (ls : List Text) (s : Session) → send_all ls s ≡ record s { output = (send_all ls s).output }
unfolding send_all
send_all_keeps [] s = refl
send_all_keeps (r ∷ []) s = refl
send_all_keeps (r ∷ q ∷ rs) s = send_all_keeps (q ∷ rs) (send_response_continue 250 r s)

module _ (sv : Services) (config : SmtpConfig) (tls : Bool) where
  abbrev Good : Session → Type 0
  Good s = IsGuarded config tls s

  Good-send_all : (ls : List Text) (s : Session) → Good s → Good (send_all ls s)
  Good-send_all ls s g = rw (send_all_keeps ls s) (ground arith)

  on_ehlo-IsGuarded : (args : Text) (s : Session) → Good s → Good (on_ehlo sv config tls args s).1
  unfolding on_ehlo
  on_ehlo-IsGuarded args s g =
      Good-send_all (ehlo_lines sv config tls args s.authenticated)
        (record s { state = greeted; envelope = record s.envelope { helo = some args } })
        (ground arith)

  on_helo-IsGuarded : (args : Text) (s : Session) → Good s → Good (on_helo sv config tls args s).1
  unfolding on_helo
  on_helo-IsGuarded args s g = ground arith

  on_mail-IsGuarded : (args : Text) (s : Session) → Good s → Good (on_mail sv config tls args s).1
  unfolding on_mail
  on_mail-IsGuarded args s g = ground arith

  on_rcpt-IsGuarded : (args : Text) (s : Session) → Good s → Good (on_rcpt sv config tls args s).1
  unfolding on_rcpt
  on_rcpt-IsGuarded args s g = elim (Option-cases (parse_rcpt_to sv.wide_upper args)) [
    | inl e ↦ ground arith
    | inr (a, e) ↦ ground (arith, concat-ne-nil a s.envelope.to)
  ]

  on_data-IsGuarded : (s : Session) → Good s → Good (on_data sv config tls s).1
  unfolding on_data
  on_data-IsGuarded s g = ground arith

  on_rset-IsGuarded : (s : Session) → Good s → Good (on_rset sv config tls s).1
  unfolding on_rset
  on_rset-IsGuarded s g = ground arith

  on_starttls-IsGuarded : (s : Session) → Good s → Good (on_starttls sv config tls s).1
  unfolding on_starttls
  on_starttls-IsGuarded s g = ground arith

  on_auth-IsGuarded : (args : Text) (s : Session) → Good s → Good (on_auth sv config tls args s).1
  on_auth-IsGuarded =
      on_auth_keeps sv config tls (IsGuarded config tls) (λ s i o g. ground arith)
        (λ r s secure proven g. ground arith)

  run_verb-IsGuarded :
      (v : Verb) (args : Text) (s : Session) → Good s → Good (run_verb sv config tls v args s).1
  unfolding run_verb
  run_verb-IsGuarded helo args s g = on_helo-IsGuarded args s g
  run_verb-IsGuarded ehlo args s g = on_ehlo-IsGuarded args s g
  run_verb-IsGuarded starttls args s g = on_starttls-IsGuarded s g
  run_verb-IsGuarded auth args s g = on_auth-IsGuarded args s g
  run_verb-IsGuarded mail args s g = on_mail-IsGuarded args s g
  run_verb-IsGuarded rcpt args s g = on_rcpt-IsGuarded args s g
  run_verb-IsGuarded data_verb args s g = on_data-IsGuarded s g
  run_verb-IsGuarded rset args s g = on_rset-IsGuarded s g
  run_verb-IsGuarded _ args s g = ground arith

  -- Every command, accepted or refused, keeps the guards: a session in RcptTo has a recipient, no
  -- session is ever in Data, under `auth_required` a session past MAIL is authenticated, and under
  -- `require_tls_for_auth` a session without TLS is not.
  pub process_command-IsGuarded :
      (command args : Text) (s : Session)
      → Good s
      → Good (process_command sv config tls command args s).1
  unfolding process_command
  process_command-IsGuarded command args s g = run_verb-IsGuarded _ args s g

  -- In a session that meets the guards, DATA in RcptTo always reads a message, so that the answer "No
  -- recipients specified" is never given, and leaves the session in Greeted without a transaction.
  pub on_data_reads :
      (s : Session)
      → Good s
      → s.state ≡ rcpt_to
      → ((on_data sv config tls s).1.state ≡ greeted)
        × ((on_data sv config tls s).1.envelope.to ≡ [])
        × ((on_data sv config tls s).1.envelope.from ≡ none)
        × ((on_data sv config tls s).1.input ≡ (read_data config s.input).1)
  unfolding on_data
  on_data_reads s g e = ground (arith, g.recipients_present e)
