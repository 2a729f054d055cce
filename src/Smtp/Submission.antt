-- ===== src/Smtp/Submission.antt =====
-- A connection that requires authentication, as on the submission port, stores nothing before it.
use mai_rust.Common.{ℕ, ◌≡◌, refl, sym, ◌∙◌, Bool, true, false, some, List, arith}
use mai_rust.Common.Text.{Text}
use mai_rust.Smtp.Types.{Services, SmtpConfig, Session, MailStore, Input}
use mai_rust.Smtp.Receive.{get_or}
use mai_rust.Smtp.AuthKeeps.{on_auth_keeps}
use mai_rust.Smtp.AuthCommand.{on_auth}
use mai_rust.Smtp.Dialogue.{Verb, ehlo, auth, data_verb, Handled, read_line}
use mai_rust.Smtp.Command.{
  ehlo_lines, on_helo, on_ehlo, on_starttls, on_mail, on_rcpt, on_data, on_rset, run_verb,
  process_command,
}
use mai_rust.Smtp.Guards.{IsGuarded, send_all_keeps, process_command-IsGuarded}
use mai_rust.Smtp.Loop.{run_loop_keeps}
use mai_rust.Smtp.Run.{run_loop, new_session, submission, handler_config}

module _ (sv : Services) (config : SmtpConfig) (tls : Bool)
    (required : get_or config.auth_required false ≡ true) (before : MailStore) where
  record IsUntouched (s : Session) : Type 0 where
    pub guarded : IsGuarded config tls s
    pub untouched : s.authenticated ≡ false → s.store ≡ before

  -- The store is that of `old`, and a session that is not authenticated was not so before.
  record IsEffect (old : Session) (s : Session) : Type 0 where
    pub store : s.store ≡ old.store
    pub flag : s.authenticated ≡ false → old.authenticated ≡ false

  on_auth-IsEffect : (args : Text) (s : Session) → IsEffect s (on_auth sv config tls args s).1
  on_auth-IsEffect args s =
      on_auth_keeps sv config tls (IsEffect s)
        (λ t i o e. record { store = e.store; flag = e.flag })
        (λ r t _ _ e. record { store = e.store; flag = λ h. cc }) args s
        (record { store = refl; flag = λ h. h })

  on_ehlo_effect :
      (args : Text) (s : Session)
      → ((on_ehlo sv config tls args s).1.store ≡ s.store)
        × ((on_ehlo sv config tls args s).1.authenticated ≡ s.authenticated)
  unfolding on_ehlo
  on_ehlo_effect args s =
      rw (send_all_keeps (ehlo_lines sv config tls args s.authenticated) _) (refl, refl)

  -- In RcptTo the session is authenticated, and stays so.
  on_data_effect :
      (s : Session)
      → IsUntouched s
      → (on_data sv config tls s).1.authenticated ≡ false
      → (on_data sv config tls s).1.store ≡ before
  unfolding on_data
  on_data_effect s u e = ground (arith, u.untouched, u.guarded.sender_authenticated required)

  untouched-run_verb :
      (v : Verb) (args : Text) (s : Session)
      → IsUntouched s
      → (run_verb sv config tls v args s).1.authenticated ≡ false
      → (run_verb sv config tls v args s).1.store ≡ before
  unfolding run_verb on_helo on_starttls on_mail on_rcpt on_rset
  untouched-run_verb auth args s u e =
      let k = on_auth-IsEffect args s in k.store ∙ u.untouched (k.flag e)
  untouched-run_verb ehlo args s u e =
      let (same, flag) = on_ehlo_effect args s in same ∙ u.untouched (sym flag ∙ e)
  untouched-run_verb data_verb args s u e = on_data_effect s u e
  untouched-run_verb _ args s u e = ground arith

  process_command-IsUntouched :
      (command args : Text) (s : Session)
      → IsUntouched s
      → IsUntouched (process_command sv config tls command args s).1
  process_command-IsUntouched command args s u = record {
    guarded = process_command-IsGuarded sv config tls command args s u.guarded;
    untouched = unfold process_command in untouched-run_verb _ args s u;
  }

  read_line-IsUntouched : (s : Session) → IsUntouched s → IsUntouched (read_line s).1
  unfolding read_line
  read_line-IsUntouched s u = ground arith

  run_loop-IsUntouched :
      (fuel : ℕ) (s : Session) (h : Handled)
      → IsUntouched s
      → run_loop sv config tls fuel s ≡ some h
      → IsUntouched h.1
  run_loop-IsUntouched =
      run_loop_keeps sv config tls IsUntouched process_command-IsUntouched read_line-IsUntouched

pub new_session-IsGuarded :
    (config : SmtpConfig) (tls : Bool) (peer_ip : Text) (input : List Input) (st : MailStore)
    → IsGuarded config tls (new_session peer_ip input st)
unfolding new_session
new_session-IsGuarded config tls peer_ip input st = ground arith

-- On the submission port, whatever the configuration says of authentication: a connection phase
-- that ends without an authenticated session has left the store as it was.
pub submission_unauthenticated :
    (sv : Services) (config : SmtpConfig) (has_acceptor tls : Bool) (fuel : ℕ) (peer_ip : Text)
    (input : List Input) (st : MailStore) (h : Handled)
    → run_loop sv
        (handler_config submission has_acceptor config)
        tls
        fuel
        (new_session peer_ip input st)
      ≡ some h
    → h.1.authenticated ≡ false
    → h.1.store ≡ st
submission_unauthenticated sv config has_acceptor tls fuel peer_ip input st h e =
    (run_loop-IsUntouched sv (handler_config submission has_acceptor config) tls
      (unfold handler_config in refl) st fuel (new_session peer_ip input st) h
      (record {
        guarded = new_session-IsGuarded _ tls peer_ip input st;
        untouched = unfold new_session in λ _. refl;
      })
      e).untouched
