-- ===== src/Smtp/Addresses.antt =====
-- Addresses in MAIL and RCPT: print and parse.
use mathlib.Core.List.{reverse, reverse-append, reverse-reverse}
use mai_rust.Common.{
  ℕ, ◌++◌, ◌≡◌, ◌≢◌, ◌∙◌, refl, sym, ap, true, false, none, some, [], ◌∷◌, All, ◌==◌, ==_refl,
}
use mai_rust.Common.Text.{
  Text, lit, is_empty, is_space, trim, trim_start, trim_end, starts_with, split_once, to_uppercase,
  eq_text,
}
use mai_rust.Smtp.Types.{EmailAddress}
use mai_rust.Smtp.Parse.{
  make_address, parse_address, address_to_string, bracketed, extract_email, parse_mail_from,
  parse_rcpt_to,
}

abbrev pub Lacks : ℕ → Text → Type 0
Lacks b = All (λ c. (c == b) ≡ false)

pub split_once-join :
    (sep : ℕ) (s t : Text) → Lacks sep s → split_once sep (s ++ sep ∷ t) ≡ (s, some t)
unfolding split_once
split_once-join sep [] t h = rw ==_refl refl
split_once-join sep (c ∷ s) t h = rw (h.0, split_once-join sep s t h.1) refl

pub split_once-Lacks : (sep : ℕ) (s : Text) → Lacks sep s → split_once sep s ≡ (s, none)
unfolding split_once
split_once-Lacks sep [] h = refl
split_once-Lacks sep (c ∷ s) h = rw (h.0, split_once-Lacks sep s h.1) refl

pub is_empty_ne : (s : Text) → s ≢ [] → is_empty s ≡ false
unfolding is_empty
is_empty_ne [] h = absurd (h refl)
is_empty_ne (c ∷ s) h = refl

append_cons_ne : (s : Text) (c : ℕ) (t : Text) → s ++ c ∷ t ≢ []
append_cons_ne [] c t e = cc
append_cons_ne (d ∷ s) c t e = cc

-- An address that prints as text parses back: its local part is not empty and has no `@`, and its
-- domain is not empty.
pub parse_address-to_string :
    (a : EmailAddress)
    → Lacks b'@' a.local
    → a.local ≢ []
    → a.domain ≢ []
    → parse_address (address_to_string a) ≡ some a
unfolding parse_address address_to_string
parse_address-to_string a l n d =
    ap (λ p. make_address p.0 p.1) (split_once-join b'@' a.local a.domain l)
    ∙ rw (is_empty_ne a.local n, is_empty_ne a.domain d) refl

pub trim_start-solid : (c : ℕ) (s : Text) → is_space c ≡ false → trim_start (c ∷ s) ≡ c ∷ s
unfolding trim_start
trim_start-solid c s h = rw h

-- A text that starts and ends with other characters than white space is trimmed to itself.
trim-solid :
    (c d : ℕ) (s : Text)
    → is_space c ≡ false
    → is_space d ≡ false
    → trim (c ∷ (s ++ d ∷ [])) ≡ c ∷ (s ++ d ∷ [])
unfolding trim
trim-solid c d s h k =
    let t : Text = c ∷ (s ++ d ∷ []) in
    let back : reverse t ≡ d ∷ reverse (c ∷ s) = reverse-append (c ∷ s) (d ∷ []) in
    ap trim_end (trim_start-solid c (s ++ d ∷ []) h)
    ∙ ap reverse (ap trim_start back ∙ trim_start-solid d (reverse (c ∷ s)) k ∙ sym back)
    ∙ reverse-reverse t

-- A bracketed address behind `FROM:` or `TO:`.
abbrev from_arg : Text → Text
from_arg x = b'F' ∷ b'R' ∷ b'O' ∷ b'M' ∷ b':' ∷ b'<' ∷ (x ++ b'>' ∷ [])

abbrev to_arg : Text → Text
to_arg x = b'T' ∷ b'O' ∷ b':' ∷ b'<' ∷ (x ++ b'>' ∷ [])

trim-from_arg : (x : Text) → trim (from_arg x) ≡ from_arg x
unfolding is_space
trim-from_arg x = trim-solid b'F' b'>' (b'R' ∷ b'O' ∷ b'M' ∷ b':' ∷ b'<' ∷ x) refl refl

trim-to_arg : (x : Text) → trim (to_arg x) ≡ to_arg x
unfolding is_space
trim-to_arg x = trim-solid b'T' b'>' (b'O' ∷ b':' ∷ b'<' ∷ x) refl refl

trim-angle : (x : Text) → trim (b'<' ∷ (x ++ b'>' ∷ [])) ≡ b'<' ∷ (x ++ b'>' ∷ [])
unfolding is_space
trim-angle x = trim-solid b'<' b'>' x refl refl

from_prefix :
    (wide : ℕ → Text) (x : Text) → starts_with (to_uppercase wide (from_arg x)) (lit "FROM:") ≡ true
unfolding starts_with to_uppercase lit
from_prefix wide x = refl

to_prefix :
    (wide : ℕ → Text) (x : Text) → starts_with (to_uppercase wide (to_arg x)) (lit "TO:") ≡ true
unfolding starts_with to_uppercase lit
to_prefix wide x = refl

not_null : (x : Text) → Lacks b'>' x → x ≢ [] → eq_text (b'<' ∷ (x ++ b'>' ∷ [])) (lit "<>") ≡ false
unfolding eq_text lit
not_null [] l n = absurd (n refl)
not_null (c ∷ x) l n = rw l.0

extract-angle : (x : Text) → Lacks b'>' x → extract_email (b'<' ∷ (x ++ b'>' ∷ [])) ≡ some x
unfolding extract_email starts_with lit
extract-angle x l =
    ap (bracketed (b'<' ∷ (x ++ b'>' ∷ []))) (split_once-join b'>' (b'<' ∷ x) [] (refl, l))

-- `MAIL FROM:<x>` has the sender that `x` parses to. A text that is no address, one with no `@` for
-- instance, is not refused: it stands for the null sender, as `<>` does.
parse_mail_from-brackets :
    (wide : ℕ → Text) (x : Text)
    → Lacks b'>' x
    → x ≢ []
    → parse_mail_from wide (from_arg x) ≡ some (parse_address x)
unfolding parse_mail_from
parse_mail_from-brackets wide x l n =
    rw (trim-from_arg, from_prefix, trim-angle, not_null x l n, extract-angle x l, is_empty_ne x n)

-- `RCPT TO:<x>` has the recipient that `x` parses to, and is refused if there is none.
pub parse_rcpt_to-brackets :
    (wide : ℕ → Text) (x : Text) → Lacks b'>' x → parse_rcpt_to wide (to_arg x) ≡ parse_address x
unfolding parse_rcpt_to
parse_rcpt_to-brackets wide x l = rw (trim-to_arg, to_prefix, trim-angle, extract-angle x l)

-- An address round trip through MAIL: what prints as text comes back as the sender.
pub parse_mail_from-to_string :
    (wide : ℕ → Text) (a : EmailAddress)
    → Lacks b'@' a.local
    → Lacks b'>' (address_to_string a)
    → a.local ≢ []
    → a.domain ≢ []
    → parse_mail_from wide (from_arg (address_to_string a)) ≡ some (some a)
parse_mail_from-to_string wide a l g n d =
    parse_mail_from-brackets wide (address_to_string a) g
      (unfold address_to_string in append_cons_ne a.local b'@' a.domain)
    ∙ ap some (parse_address-to_string a l n d)
