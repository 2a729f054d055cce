-- ===== src/Smtp/AuthKeeps.antt =====
-- Induction over the AUTH exchange: what reading a line and sending a response keep, and a proven
-- login keeps, AUTH keeps.
use mai_rust.Common.{
  ◌≡◌, Bool, Bool-cases, inl, inr, true, false, not, ◌&&◌, Option, none, some, List, [], ◌∷◌,
}
use mai_rust.Common.Text.{Text, lit, is_empty, trim, eq_text, to_uppercase, split_once}
use mai_rust.Common.Results.{Result, ok, err}
use mai_rust.Smtp.Types.{
  Services, SmtpConfig, Session, Input, line, broken, Reply, eq_state, send_response, greeted,
}
use mai_rust.Smtp.Auth.{
  AuthResult, authenticate_plain, authenticate_login, login_challenge_username,
  login_challenge_password,
}
use mai_rust.Smtp.AuthCommand.{
  finish_auth, cancelled, plain_credentials, plain_read, auth_plain, login_password, login_username,
  auth_login, auth_mechanism, on_auth,
}
use mai_rust.Smtp.Dialogue.{take_line, read_line}
use mai_rust.Smtp.Login.{IsProven, authenticate_plain-IsProven, authenticate_login-IsProven}

module _ (sv : Services) (config : SmtpConfig) (tls : Bool) (P : Session → Type 0)
    (io : (s : Session) (input : List Input) (output : List Reply)
      → P s
      → P (record s { input = input; output = output }))
    (login : (r : AuthResult) (s : Session)
      → (config.require_tls_for_auth && not tls) ≡ false
      → IsProven sv r.user
      → P s
      → P (record s { authenticated = true; authenticated_user = r.user })) where
  taken_keeps : (i : List Input) (s : Session) → P s → P (take_line i s).1
  unfolding take_line
  taken_keeps [] s p = p
  taken_keeps (broken ∷ rest) s p = io s rest s.output p
  taken_keeps (line t ∷ rest) s p = io s rest s.output p

  pub read_line_keeps : (s : Session) → P s → P (read_line s).1
  unfolding read_line
  read_line_keeps s p = taken_keeps s.input s p

  module _ (secure : (config.require_tls_for_auth && not tls) ≡ false) where
    finish_auth_keeps :
        (r : AuthResult) (s : Session)
        → (r.success ≡ true → IsProven sv r.user)
        → P s
        → P (finish_auth r s).1
    unfolding finish_auth
    finish_auth_keeps r s proven p = elim (Bool-cases r.success) [
      | inl good ↦ rw good (
          io (record s { authenticated = true; authenticated_user = r.user }) s.input _
            (login r s secure (proven good) p))
      | inr bad ↦ rw bad (io s s.input _ p)
    ]

    plain_credentials_keeps :
        (c : Text) (s : Session) → P s → P (plain_credentials sv config tls c s).1
    unfolding plain_credentials cancelled
    plain_credentials_keeps c s i = elim (Bool-cases (eq_text c (lit "*"))) [
      | inl star ↦ rw star (io s s.input _ i)
      | inr given ↦
          rw given
            (finish_auth_keeps (authenticate_plain sv c) s (authenticate_plain-IsProven sv c) i)
    ]

    plain_read_keeps : (r : Result Text) (s : Session) → P s → P (plain_read sv config tls (r, s)).1
    unfolding plain_read
    plain_read_keeps (err x) s i = i
    plain_read_keeps (ok t) s i = elim (Bool-cases (is_empty t)) [
      | inl closed ↦ rw closed i
      | inr text ↦ rw text (plain_credentials_keeps (trim t) s i)
    ]

    auth_plain_keeps : (o : Option Text) (s : Session) → P s → P (auth_plain sv config tls o s).1
    unfolding auth_plain
    auth_plain_keeps (some t) s i = plain_credentials_keeps t s i
    auth_plain_keeps none s i =
        plain_read_keeps (read_line (send_response 334 [] s)).0
          (read_line (send_response 334 [] s)).1
          (read_line_keeps (send_response 334 [] s) (io s s.input _ i))

    login_password_keeps :
        (u : Text) (r : Result Text) (s : Session)
        → P s
        → P (login_password sv config tls u (r, s)).1
    unfolding login_password cancelled
    login_password_keeps u (err x) s i = i
    login_password_keeps u (ok t) s i = elim (Bool-cases (is_empty t)) [
      | inl closed ↦ rw closed i
      | inr text ↦ rw text (elim (Bool-cases (eq_text (trim t) (lit "*"))) [
        | inl star ↦ rw star (io s s.input _ i)
        | inr given ↦ rw given (
            finish_auth_keeps (authenticate_login sv u (trim t)) s
              (authenticate_login-IsProven sv u (trim t)) i)
      ])
    ]

    login_username_keeps :
        (r : Result Text) (s : Session) → P s → P (login_username sv config tls (r, s)).1
    unfolding login_username cancelled
    login_username_keeps (err x) s i = i
    login_username_keeps (ok t) s i = elim (Bool-cases (is_empty t)) [
      | inl closed ↦ rw closed i
      | inr text ↦ rw text (elim (Bool-cases (eq_text (trim t) (lit "*"))) [
        | inl star ↦ rw star (io s s.input _ i)
        | inr given ↦
            let asked = send_response 334 login_challenge_password s in
            rw given (
              login_password_keeps (trim t) (read_line asked).0 (read_line asked).1
                (read_line_keeps asked (io s s.input _ i)))
      ])
    ]

    auth_mechanism_keeps :
        (m : Text) (o : Option Text) (s : Session)
        → P s
        → P (auth_mechanism sv config tls (m, o) s).1
    unfolding auth_mechanism auth_login
    auth_mechanism_keeps m o s i =
        let asked = send_response 334 login_challenge_username s in
        elim (Bool-cases (eq_text (to_uppercase sv.wide_upper m) (lit "PLAIN"))) [
          | inl plain ↦ rw plain (auth_plain_keeps o s i)
          | inr other ↦
              rw other (elim (Bool-cases (eq_text (to_uppercase sv.wide_upper m) (lit "LOGIN"))) [
                | inl login ↦ rw login (
                    login_username_keeps (read_line asked).0 (read_line asked).1
                      (read_line_keeps asked (io s s.input _ i)))
                | inr unknown ↦ rw unknown (io s s.input _ i)
              ])
        ]

  pub on_auth_keeps : (args : Text) (s : Session) → P s → P (on_auth sv config tls args s).1
  unfolding on_auth
  on_auth_keeps args s i = elim (Bool-cases (not (eq_state s.state greeted))) [
    | inl bad ↦ rw bad (io s s.input _ i)
    | inr good ↦ rw good (elim (Bool-cases (config.require_tls_for_auth && not tls)) [
      | inl plain ↦ rw plain (io s s.input _ i)
      | inr secure ↦
          rw secure
            (auth_mechanism_keeps secure (split_once b' ' args).0 (split_once b' ' args).1 s i)
    ])
  ]
