-- ===== src/Smtp/Parse.antt =====
-- `parse_command`, `parse_mail_from` and `parse_rcpt_to` of smtp/handler.rs, and
-- `EmailAddress::parse` and `to_string` of mairust-common's types.rs. A prefix that matches in upper
-- case consists of ASCII letters, so the byte slices `[5..]` and `[3..]` drop that many characters.
use mai_rust.Common.{ℕ, ◌++◌, not, ◌&&◌, Option, none, some, List, [], ◌∷◌, drop, if◌then◌else◌}
use mai_rust.Common.Text.{
  Text, lit, is_empty, trim, starts_with, split_once, split_whitespace, to_uppercase, eq_text,
}
use mai_rust.Smtp.Types.{EmailAddress}

abbrev pub get_or_empty : Option Text → Text
get_or_empty none = []
get_or_empty (some t) = t

unfoldable pub parse_command : Text → Text × Text
parse_command line = let (command, args) = split_once b' ' line in (command, get_or_empty args)

unfoldable pub make_address : Text → Option Text → Option EmailAddress
make_address local none = none
make_address local (some domain) =
    if not (is_empty local) && not (is_empty domain)
    then some (record { local = local; domain = domain })
    else none

unfoldable pub parse_address : Text → Option EmailAddress
unfolding make_address
parse_address s = let (local, domain) = split_once b'@' s in make_address local domain

unfoldable pub address_to_string : EmailAddress → Text
address_to_string a = a.local ++ b'@' ∷ a.domain

abbrev pub first_of_list : List Text → Option Text
first_of_list [] = none
first_of_list (w ∷ ws) = some w

-- The text between angle brackets, or the first word; `none` is the early return of `?`.
unfoldable pub bracketed : Text → Text × Option Text → Option Text
bracketed addr (before, none) = first_of_list (split_whitespace addr)
bracketed addr (before, some behind) =
    if starts_with addr (lit "<")
    then some (drop 1 before)
    else first_of_list (split_whitespace addr)

unfoldable pub extract_email : Text → Option Text
unfolding bracketed
extract_email addr = bracketed addr (split_once b'>' addr)

unfoldable pub sender_of : Option Text → Option (Option EmailAddress)
sender_of none = none
sender_of (some email) = if is_empty email then some none else some (parse_address email)

-- `none` is a syntax error, `some none` the null sender.
unfoldable pub parse_mail_from : (ℕ → Text) → Text → Option (Option EmailAddress)
unfolding sender_of
parse_mail_from wide args =
    let args = trim args in
    let addr_part = trim (drop 5 args) in
    if starts_with (to_uppercase wide args) (lit "FROM:")
    then (if eq_text addr_part (lit "<>") then some none else sender_of (extract_email addr_part))
    else none

unfoldable pub recipient_of : Option Text → Option EmailAddress
recipient_of none = none
recipient_of (some email) = parse_address email

unfoldable pub parse_rcpt_to : (ℕ → Text) → Text → Option EmailAddress
unfolding recipient_of
parse_rcpt_to wide args =
    let args = trim args in
    if starts_with (to_uppercase wide args) (lit "TO:")
    then recipient_of (extract_email (trim (drop 3 args)))
    else none
