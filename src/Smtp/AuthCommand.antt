-- ===== src/Smtp/AuthCommand.antt =====
-- The AUTH arm of `process_command` in smtp/handler.rs: PLAIN with and without an initial response,
-- and LOGIN with its two challenges.
use mai_rust.Common.{Bool, true, not, ◌&&◌, Option, none, some, [], if◌then◌else◌}
use mai_rust.Common.Text.{Text, lit, is_empty, trim, eq_text, split_once, to_uppercase}
use mai_rust.Common.Results.{Result, ok, err}
use mai_rust.Smtp.Types.{Services, SmtpConfig, Session, greeted, eq_state, quit, send_response}
use mai_rust.Smtp.Auth.{
  AuthResult, authenticate_plain, authenticate_login, login_challenge_username,
  login_challenge_password,
}
use mai_rust.Smtp.Dialogue.{Handled, read_line, answer}

-- The outcome of a credential check; `user` replaces the one of before.
unfoldable pub finish_auth : AuthResult → Session → Handled
finish_auth r s =
    if r.success
    then answer 235 (lit "2.7.0 Authentication successful")
        (record s { authenticated = true; authenticated_user = r.user })
    else answer 535 (lit "5.7.8 Authentication credentials invalid") s

unfoldable pub cancelled : Session → Handled
cancelled s = answer 501 (lit "5.7.0 Authentication cancelled") s

module _ (sv : Services) (config : SmtpConfig) (tls_established : Bool) where
  unfoldable pub plain_credentials : Text → Session → Handled
  unfolding finish_auth cancelled
  plain_credentials credentials s =
      if eq_text credentials (lit "*")
      then cancelled s
      else finish_auth (authenticate_plain sv credentials) s

  unfoldable pub plain_read : Result Text × Session → Handled
  unfolding plain_credentials
  plain_read (err e, s) = (err e, s)
  plain_read (ok t, s) = if is_empty t then (ok quit, s) else plain_credentials (trim t) s

  unfoldable pub auth_plain : Option Text → Session → Handled
  unfolding plain_credentials plain_read read_line
  auth_plain (some initial_response) s = plain_credentials initial_response s
  auth_plain none s = plain_read (read_line (send_response 334 [] s))

  unfoldable pub login_password : Text → Result Text × Session → Handled
  unfolding finish_auth cancelled
  login_password username (err e, s) = (err e, s)
  login_password username (ok t, s) =
      if is_empty t
      then (ok quit, s)
      else if eq_text (trim t) (lit "*")
      then cancelled s
      else finish_auth (authenticate_login sv username (trim t)) s

  unfoldable pub login_username : Result Text × Session → Handled
  unfolding login_password cancelled read_line
  login_username (err e, s) = (err e, s)
  login_username (ok t, s) =
      if is_empty t
      then (ok quit, s)
      else if eq_text (trim t) (lit "*")
      then cancelled s
      else login_password (trim t) (read_line (send_response 334 login_challenge_password s))

  unfoldable pub auth_login : Session → Handled
  unfolding login_username read_line
  auth_login s = login_username (read_line (send_response 334 login_challenge_username s))

  unfoldable pub auth_mechanism : Text × Option Text → Session → Handled
  unfolding auth_plain auth_login
  auth_mechanism (mechanism, initial) s =
      if eq_text (to_uppercase sv.wide_upper mechanism) (lit "PLAIN")
      then auth_plain initial s
      else if eq_text (to_uppercase sv.wide_upper mechanism) (lit "LOGIN")
      then auth_login s
      else answer 504 (lit "5.5.4 Unrecognized authentication mechanism") s

  unfoldable pub on_auth : Text → Session → Handled
  unfolding auth_mechanism
  on_auth args s =
      if not (eq_state s.state greeted)
      then answer 503 (lit "5.5.1 Bad sequence of commands") s
      else if config.require_tls_for_auth && not tls_established
      then answer 538 (lit "5.7.11 Encryption required for requested authentication mechanism") s
      else auth_mechanism (split_once b' ' args) s
