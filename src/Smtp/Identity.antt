-- ===== src/Smtp/Identity.antt =====
-- Whom an authenticated SMTP session stands for.
use mai_rust.Common.{sym, ◌∙◌, ℕ, ◌≡◌, Bool, true, some, List, arith}
use mai_rust.Common.Text.{Text}
use mai_rust.Smtp.Types.{Services, SmtpConfig, Session, MailStore, Input}
use mai_rust.Smtp.AuthCommand.{on_auth}
use mai_rust.Smtp.Dialogue.{Verb, ehlo, auth, Handled, read_line}
use mai_rust.Smtp.Command.{
  ehlo_lines, on_helo, on_ehlo, on_starttls, on_mail, on_rcpt, on_data, on_rset, run_verb,
  process_command,
}
use mai_rust.Smtp.Guards.{send_all_keeps}
use mai_rust.Smtp.Login.{IsProven}
use mai_rust.Smtp.AuthKeeps.{on_auth_keeps, read_line_keeps}
use mai_rust.Smtp.AuthCommand.{on_auth}
use mai_rust.Smtp.Loop.{run_loop_keeps}
use mai_rust.Smtp.Run.{run_loop, new_session}

module _ (sv : Services) where
  -- An authenticated session is authenticated as a proven account.
  pub record IsIdentified (s : Session) : Type 0 where
    pub account : s.authenticated ≡ true → IsProven sv s.authenticated_user

  keep_identity :
      (s s' : Session)
      → s'.authenticated ≡ s.authenticated
      → s'.authenticated_user ≡ s.authenticated_user
      → IsIdentified s
      → IsIdentified s'
  keep_identity s s' same_flag same_user i = record {
    account = λ h. rw same_user (i.account (sym same_flag ∙ h));
  }

  module _ (config : SmtpConfig) (tls : Bool) where
    on_auth-IsIdentified :
        (args : Text) (s : Session) → IsIdentified s → IsIdentified (on_auth sv config tls args s).1
    on_auth-IsIdentified =
        on_auth_keeps sv config tls IsIdentified (λ s i o k. record { account = k.account })
          (λ r s _ proven _. record { account = λ _. proven })

    read_line-IsIdentified : (s : Session) → IsIdentified s → IsIdentified (read_line s).1
    read_line-IsIdentified =
        read_line_keeps sv config tls IsIdentified (λ s i o k. record { account = k.account })
          (λ r s _ proven _. record { account = λ _. proven })

    run_verb-IsIdentified :
        (v : Verb) (args : Text) (s : Session)
        → IsIdentified s
        → IsIdentified (run_verb sv config tls v args s).1
    unfolding run_verb on_helo on_starttls on_mail on_rcpt on_rset on_data
    run_verb-IsIdentified auth args s i = on_auth-IsIdentified args s i
    run_verb-IsIdentified ehlo args s i =
        unfold on_ehlo in
        rw (send_all_keeps (ehlo_lines sv config tls args s.authenticated) _)
          (record { account = i.account })
    run_verb-IsIdentified _ args s i = keep_identity s _ (ground arith) (ground arith) i

    process_command-IsIdentified :
        (command args : Text) (s : Session)
        → IsIdentified s
        → IsIdentified (process_command sv config tls command args s).1
    unfolding process_command
    process_command-IsIdentified command args s i = run_verb-IsIdentified _ args s i

    -- In a new session and through any sequence of commands, an authenticated session carries an
    -- active account whose password hash was verified.
    pub run_loop-IsProven :
        (fuel : ℕ) (peer_ip : Text) (input : List Input) (st : MailStore) (h : Handled)
        → run_loop sv config tls fuel (new_session peer_ip input st) ≡ some h
        → h.1.authenticated ≡ true
        → IsProven sv h.1.authenticated_user
    run_loop-IsProven fuel peer_ip input st h e =
        (run_loop_keeps sv config tls IsIdentified process_command-IsIdentified
          read_line-IsIdentified fuel (new_session peer_ip input st) h
          (unfold new_session in record { account = λ e. cc }) e).account
