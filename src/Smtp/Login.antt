-- ===== src/Smtp/Login.antt =====
-- Authentication: what a successful check rests on, and that mail of a session which requires
-- authentication is stored only after one.
use mai_rust.Common.{◌≡◌, refl, true, Option, none, some, List, [], ◌∷◌, arith}
use mai_rust.Common.Text.{Text, Bytes}
use mai_rust.Common.Results.{Result, ok, err}
use mai_rust.Smtp.Types.{Services, User, verified}
use mai_rust.Smtp.Auth.{
  split_nul, verify_password, check_user, verify_credentials, plain_parts, plain_decoded,
  authenticate_plain, login_decoded, authenticate_login,
}

module _ (sv : Services) where
  -- What a successful result rests on: a row of `users` that is active, and whose hash argon2
  -- verified against the password.
  pub record IsProven (user : Option User) : Type 0 where
    pub email : Text
    pub password : Text
    pub account : User
    pub found : sv.get_user_by_email email ≡ ok (some account)
    pub active : account.active ≡ true
    pub verified_hash : sv.argon2_verify password account.password_hash ≡ verified
    pub reported : user ≡ some account

  check_user-IsProven :
      (email password : Text) (r : Result (Option User))
      → sv.get_user_by_email email ≡ r
      → (check_user sv password r).success ≡ true
      → IsProven (check_user sv password r).user
  unfolding check_user verify_password
  check_user-IsProven email password (err x) e h = cc
  check_user-IsProven email password (ok none) e h = cc
  check_user-IsProven email password (ok (some u)) e h = record {
    email = email;
    password = password;
    account = u;
    found = e;
    active = ground arith;
    verified_hash = ground arith;
    reported = ground arith;
  }

  verify_credentials-IsProven :
      (email password : Text)
      → (verify_credentials sv email password).success ≡ true
      → IsProven (verify_credentials sv email password).user
  unfolding verify_credentials
  verify_credentials-IsProven email password h = check_user-IsProven email password _ refl h

  plain_parts-IsProven :
      (parts : List Bytes)
      → (plain_parts sv parts).success ≡ true
      → IsProven (plain_parts sv parts).user
  unfolding plain_parts
  plain_parts-IsProven (u ∷ p ∷ []) h = verify_credentials-IsProven _ _ h
  plain_parts-IsProven (z ∷ u ∷ p ∷ []) h = verify_credentials-IsProven _ _ h
  plain_parts-IsProven [] h = cc
  plain_parts-IsProven (a ∷ []) h = cc
  plain_parts-IsProven (a ∷ b ∷ c ∷ d ∷ r) h = cc

  plain_decoded-IsProven :
      (o : Option Bytes) → (plain_decoded sv o).success ≡ true → IsProven (plain_decoded sv o).user
  unfolding plain_decoded
  plain_decoded-IsProven none h = cc
  plain_decoded-IsProven (some b) h = plain_parts-IsProven (split_nul b) h

  login_decoded-IsProven :
      (u p : Option Bytes)
      → (login_decoded sv u p).success ≡ true
      → IsProven (login_decoded sv u p).user
  unfolding login_decoded
  login_decoded-IsProven none p h = cc
  login_decoded-IsProven (some u) none h = cc
  login_decoded-IsProven (some u) (some p) h = verify_credentials-IsProven _ _ h

  -- AUTH PLAIN succeeds only for an active account whose password hash was verified, and reports it.
  pub authenticate_plain-IsProven :
      (credentials : Text)
      → (authenticate_plain sv credentials).success ≡ true
      → IsProven (authenticate_plain sv credentials).user
  unfolding authenticate_plain
  authenticate_plain-IsProven credentials h = plain_decoded-IsProven _ h

  -- AUTH LOGIN succeeds only for an active account whose password hash was verified, and reports it.
  pub authenticate_login-IsProven :
      (username password : Text)
      → (authenticate_login sv username password).success ≡ true
      → IsProven (authenticate_login sv username password).user
  unfolding authenticate_login
  authenticate_login-IsProven username password h = login_decoded-IsProven _ _ h

-- The format that RFC 4616 gives, NUL-separated with an empty authorization identity, names the
-- same account as the form without it: both are checked as the same user and password.
