-- ===== src/Smtp/Auth.antt =====
-- smtp/auth.rs: the PLAIN and LOGIN mechanisms and the check of credentials.
use mai_rust.Common.{
  ℕ, Bool, true, false, not, Option, none, some, List, [], ◌∷◌, if◌then◌else◌, ◌==◌,
}
use mai_rust.Common.Text.{Text, Bytes, lit, trim}
use mai_rust.Common.Results.{Result, ok, err}
use mai_rust.Smtp.Types.{User, Services, bad_hash, verified, wrong_password, verify_error}

pub record AuthResult : Type 0 where
  pub success : Bool
  pub user : Option User
  pub error : Option Text

abbrev pub success : User → AuthResult
success user = record { success = true; user = some user; error = none }

abbrev pub failure : Text → AuthResult
failure error = record { success = false; user = none; error = some error }

extend : ℕ → List Bytes → List Bytes
extend b [] = (b ∷ []) ∷ []
extend b (p ∷ ps) = (b ∷ p) ∷ ps

-- `decoded.split(|&b| b == 0)`: always at least one part.
unfoldable pub split_nul : Bytes → List Bytes
unfolding extend
split_nul [] = [] ∷ []
split_nul (b ∷ s) = let rest = split_nul s in if b == 0 then [] ∷ rest else extend b rest

module _ (sv : Services) where
  -- `Err` covers a hash that does not parse and any other failure of argon2.
  unfoldable pub verify_password : Text → Text → Result Bool
  verify_password password hash = elim (sv.argon2_verify password hash) [
    | bad_hash ↦ err (lit "Invalid password hash format")
    | verified ↦ ok true
    | wrong_password ↦ ok false
    | verify_error ↦ err (lit "Password verification error")
  ]

  unfoldable pub accept_password : User → Result Bool → AuthResult
  accept_password user (ok true) = success user
  accept_password user (ok false) = failure (lit "Authentication failed")
  accept_password user (err e) = failure (lit "Authentication failed")

  unfoldable pub check_user : Text → Result (Option User) → AuthResult
  unfolding accept_password
  check_user password (ok (some user)) =
      if not user.active
      then failure (lit "Authentication failed")
      else accept_password user (verify_password password user.password_hash)
  check_user password (ok none) = failure (lit "Authentication failed")
  check_user password (err e) = failure (lit "Temporary authentication error")

  unfoldable pub verify_credentials : Text → Text → AuthResult
  unfolding check_user
  verify_credentials email password = check_user password (sv.get_user_by_email email)

  -- `authcid NUL password`, or `authzid NUL authcid NUL password`.
  unfoldable pub plain_parts : List Bytes → AuthResult
  plain_parts (user ∷ password ∷ []) =
      verify_credentials (sv.utf8_lossy user) (sv.utf8_lossy password)
  plain_parts (authzid ∷ user ∷ password ∷ []) =
      verify_credentials (sv.utf8_lossy user) (sv.utf8_lossy password)
  plain_parts _ = failure (lit "Invalid credential format")

  unfoldable pub plain_decoded : Option Bytes → AuthResult
  unfolding plain_parts
  plain_decoded none = failure (lit "Invalid credentials encoding")
  plain_decoded (some decoded) = plain_parts (split_nul decoded)

  unfoldable pub authenticate_plain : Text → AuthResult
  unfolding plain_decoded
  authenticate_plain credentials = plain_decoded (sv.base64_decode (trim credentials))

  unfoldable pub login_decoded : Option Bytes → Option Bytes → AuthResult
  login_decoded none p = failure (lit "Invalid credentials encoding")
  login_decoded (some u) none = failure (lit "Invalid credentials encoding")
  login_decoded (some u) (some p) = verify_credentials (sv.utf8_lossy u) (sv.utf8_lossy p)

  unfoldable pub authenticate_login : Text → Text → AuthResult
  unfolding login_decoded
  authenticate_login username password =
      login_decoded (sv.base64_decode (trim username)) (sv.base64_decode (trim password))

unfoldable pub login_challenge_username : Text
login_challenge_username = lit "VXNlcm5hbWU6"

unfoldable pub login_challenge_password : Text
login_challenge_password = lit "UGFzc3dvcmQ6"
