-- ===== src/Imap/Quoting.antt =====
-- Quoted strings: what a client writes in quotes is what the server reads.
use mai_rust.Common.{
  ℕ, suc, ◌+◌, ◌-◌, ◌<◌, ◌++◌, ◌≡◌, ◌∙◌, refl, sym, ap, Bool-cases, inl, inr, true, false, some, [],
  ◌∷◌, All, All-append, append_assoc, append-nil, length, length-append, ◌==◌, ltb, leb, arith,
}
use mai_rust.Common.Text.{
  Text, lit, eq_text, is_empty, is_space, trim, trim_start, trim_end, starts_with, split_once,
  to_uppercase, utf8_char, crlf,
}
use mai_rust.Common.Trimming.{IsSolid, trim_end-keeps}
use mai_rust.Smtp.Addresses.{Lacks, split_once-join, trim_start-solid}
use mai_rust.Imap.Types.{login_cmd}
use mai_rust.Imap.Outcome.{parsed, slice_from}
use mai_rust.Imap.Response.{quote_string}
use mai_rust.Imap.Words.{quote, escape, quoted, with_rest, parse_quoted, parse_astring}
use mai_rust.Imap.Parser.{two_strings, command_of, parse_command, parse_line, parse}

abbrev pub IsAscii : Text → Type 0
IsAscii = All (λ c. c < 0x80)

-- A string in quotes.
unfoldable pub in_quotes : Text → Text
in_quotes s = quote ∷ (quote_string s ++ quote ∷ [])

abbrev Read : Type 0
Read = Text × ℕ

abbrev reading : ℕ → Text → ℕ → Read
reading c s n = (c ∷ s, n)

read_pair : (c d : ℕ) (s : Text) (n k : ℕ) → c ≡ d → n ≡ k → reading c s n ≡ reading d s k
read_pair c d s n k e f = cc

quoted-quote_string :
    (pos : ℕ) (s rest : Text)
    → quoted false pos (quote_string s ++ quote ∷ rest) ≡ (s, pos + length (quote_string s) + 1)
unfolding quoted quote_string
quoted-quote_string pos [] rest = ap (λ n. ([], n)) (omega arith)
quoted-quote_string pos (c ∷ s) rest = elim (Bool-cases (c == escape)) [
  | inl escaped ↦ rw escaped (
      rw (quoted-quote_string (pos + 1 + 1) s rest)
        (read_pair escape c s _ _ (ground arith) (omega arith)))
  | inr other ↦ elim (Bool-cases (c == quote)) [
    | inl end ↦
        rw (other, end)
          (rw (quoted-quote_string (pos + 1 + 1) s rest)
            (read_pair quote c s _ _ (ground arith) (omega arith)))
    | inr plain ↦
        rw (other, plain)
          (rw (other, plain, quoted-quote_string (pos + 1) s rest)
            (read_pair c c s _ _ refl (omega arith)))
  ]
]

IsAscii-quote_string : (s : Text) → IsAscii s → IsAscii (quote_string s)
unfolding quote_string
IsAscii-quote_string [] h = tt
IsAscii-quote_string (c ∷ s) (k, h) = elim (Bool-cases (c == escape)) [
  | inl escaped ↦ rw escaped (omega arith, (omega arith, IsAscii-quote_string s h))
  | inr other ↦ rw other (elim (Bool-cases (c == quote)) [
    | inl end ↦ rw end (omega arith, (omega arith, IsAscii-quote_string s h))
    | inr plain ↦ rw plain (k, IsAscii-quote_string s h)
  ])
]

one_byte : (c : ℕ) → c < 0x80 → utf8_char c ≡ c ∷ []
unfolding utf8_char
one_byte c h = let small : ltb c 0x80 ≡ true = ground arith in simp small refl

slice_from-char : (c n : ℕ) (s : Text) → c < 0x80 → slice_from (suc n) (c ∷ s) ≡ slice_from n s
unfolding slice_from
slice_from-char c n s h =
    let fits : leb 1 (suc n) ≡ true = ground arith in
    let left : suc n - 1 ≡ n = omega arith in rw (one_byte c h, fits, left) refl

slice_from-length : (s rest : Text) → IsAscii s → slice_from (length s) (s ++ rest) ≡ some rest
slice_from-length [] rest h = unfold slice_from in refl
slice_from-length (c ∷ s) rest (k, h) =
    slice_from-char c (length s) (s ++ rest) k ∙ slice_from-length s rest h

starts_with-quote : (s : Text) → starts_with (quote ∷ s) (quote ∷ []) ≡ true
unfolding starts_with
starts_with-quote s = refl

parse_quoted-quote_string :
    (s rest : Text)
    → IsAscii s
    → parse_quoted (quote ∷ (quote_string s ++ quote ∷ rest)) ≡ parsed (s, rest)
unfolding parse_quoted with_rest
parse_quoted-quote_string s rest h =
    let p = quote ∷ (quote_string s ++ quote ∷ []) in
    let n : 1 + length (quote_string s) + 1 ≡ length p =
      omega (arith, length-append (quote_string s) (quote ∷ [])) in
    let ascii : IsAscii p =
      (omega arith, All-append _ (quote_string s) _ (IsAscii-quote_string s h) (omega arith, tt)) in
    let behind : slice_from (length p) (quote ∷ (quote_string s ++ quote ∷ rest)) ≡ some rest =
      ap (λ t. slice_from (length p) (quote ∷ t))
        (sym (append_assoc (quote_string s) (quote ∷ []) rest))
      ∙ slice_from-length p rest ascii in
    rw (quoted-quote_string 1 s rest, n, behind) refl

-- A string in quotes is read as itself, up to what stands behind it.
pub parse_astring-quote_string :
    (s rest : Text)
    → IsAscii s
    → trim_end (quote ∷ rest) ≡ quote ∷ rest
    → parse_astring (quote ∷ (quote_string s ++ quote ∷ rest)) ≡ parsed (s, rest)
unfolding parse_astring trim
parse_astring-quote_string s rest h e =
    let trimmed : trim (quote ∷ (quote_string s ++ quote ∷ rest))
        ≡ quote ∷ (quote_string s ++ quote ∷ rest) =
      ap trim_end (trim_start-solid quote _ (unfold is_space in refl))
      ∙ trim_end-keeps (quote ∷ quote_string s) quote rest (unfold is_space in refl)
      ∙ ap (λ t. quote ∷ (quote_string s ++ t)) e in
    rw (trimmed, starts_with-quote) (parse_quoted-quote_string s rest h)

-- A LOGIN line, with the name and the password in quotes.
unfoldable pub login_line : Text → Text → Text → Text
unfolding in_quotes
login_line tag username password =
    tag
    ++ b' ' ∷ (lit "LOGIN" ++ b' ' ∷ (in_quotes username ++ b' ' ∷ (in_quotes password ++ crlf)))

-- `trim` from the first character that is no white space to the last.
trim-between :
    (c d : ℕ) (s t : Text)
    → is_space c ≡ false
    → is_space d ≡ false
    → trim_end (d ∷ t) ≡ d ∷ []
    → trim (c ∷ (s ++ d ∷ t)) ≡ c ∷ (s ++ d ∷ [])
unfolding trim
trim-between c d s t h k e =
    ap trim_end (trim_start-solid c (s ++ d ∷ t) h)
    ∙ trim_end-keeps (c ∷ s) d t k
    ∙ ap (λ x. c ∷ (s ++ x)) e

quote_end : trim_end (quote ∷ []) ≡ quote ∷ []
unfolding trim_end trim_start is_space
quote_end = refl

crlf_trimmed : trim_end (quote ∷ crlf) ≡ quote ∷ []
unfolding trim_end trim_start is_space
crlf_trimmed = refl

quote_solid : is_space quote ≡ false
unfolding is_space
quote_solid = refl

trim-in_quotes : (s : Text) → trim (b' ' ∷ in_quotes s) ≡ in_quotes s
unfolding in_quotes trim trim_start is_space
trim-in_quotes s = trim-between quote quote (quote_string s) [] quote_solid quote_solid quote_end

in_quotes-append : (s t : Text) → in_quotes s ++ t ≡ quote ∷ (quote_string s ++ quote ∷ t)
unfolding in_quotes
in_quotes-append s t = ap (λ x. quote ∷ x) (append_assoc (quote_string s) (quote ∷ []) t)

trim_end-in_quotes : (s : Text) → trim_end (quote ∷ b' ' ∷ in_quotes s) ≡ quote ∷ b' ' ∷ in_quotes s
unfolding in_quotes
trim_end-in_quotes s =
    trim_end-keeps (quote ∷ b' ' ∷ quote ∷ quote_string s) quote [] quote_solid
    ∙ ap (λ t. quote ∷ b' ' ∷ quote ∷ (quote_string s ++ t)) quote_end

-- The arguments of LOGIN.
abbrev arguments : Text → Text → Text
arguments username password = in_quotes username ++ b' ' ∷ in_quotes password

two_strings-in_quotes :
    (u p : Text)
    → IsAscii u
    → IsAscii p
    → two_strings login_cmd (arguments u p) ≡ parsed (login_cmd u p)
unfolding two_strings
two_strings-in_quotes u p h k =
    let first : parse_astring (arguments u p) ≡ parsed (u, b' ' ∷ in_quotes p) =
      ap parse_astring (in_quotes-append u (b' ' ∷ in_quotes p))
      ∙ parse_astring-quote_string u (b' ' ∷ in_quotes p) h (trim_end-in_quotes p) in
    let second : parse_astring (in_quotes p) ≡ parsed (p, []) =
      unfold in_quotes in parse_astring-quote_string p [] k quote_end in
    rw (first, trim-in_quotes p, second) refl

-- The command behind the tag.
abbrev login_text : Text → Text → Text
login_text username password = lit "LOGIN" ++ b' ' ∷ arguments username password

-- What stands between the first character of a text and the last quote of a LOGIN behind it.
abbrev front : Text → Text → Text → Text
front pre u p = pre ++ b' ' ∷ (in_quotes u ++ b' ' ∷ quote ∷ quote_string p)

front-append :
    (pre u p t : Text)
    → front pre u p ++ quote ∷ t ≡ pre ++ b' ' ∷ (in_quotes u ++ b' ' ∷ (in_quotes p ++ t))
front-append pre u p t = simp (append_assoc, in_quotes-append p t) refl

front-end : (pre u p : Text) → front pre u p ++ quote ∷ [] ≡ pre ++ b' ' ∷ arguments u p
front-end pre u p =
    front-append pre u p []
    ∙ ap (λ x. pre ++ b' ' ∷ (in_quotes u ++ b' ' ∷ x)) (append-nil (in_quotes p))

trim-login_text : (u p : Text) → trim (login_text u p) ≡ login_text u p
unfolding lit is_space
trim-login_text u p =
    let rest : Text = b'O' ∷ b'G' ∷ b'I' ∷ b'N' ∷ [] in
    ap (λ x. trim (b'L' ∷ x)) (sym (front-end rest u p))
    ∙ trim-between b'L' quote (front rest u p) [] refl quote_solid quote_end
    ∙ ap (λ x. b'L' ∷ x) (front-end rest u p)

-- The line without its end.
trim-login_line :
    (c : ℕ) (tag u p : Text)
    → is_space c ≡ false
    → trim (login_line (c ∷ tag) u p) ≡ c ∷ (tag ++ b' ' ∷ login_text u p)
unfolding login_line
trim-login_line c tag u p h =
    let pre = tag ++ b' ' ∷ lit "LOGIN" in
    let whole : (x : Text)
        → pre ++ b' ' ∷ (in_quotes u ++ b' ' ∷ x)
          ≡ tag ++ b' ' ∷ (lit "LOGIN" ++ b' ' ∷ (in_quotes u ++ b' ' ∷ x)) =
      λ x. append_assoc tag (b' ' ∷ lit "LOGIN") (b' ' ∷ (in_quotes u ++ b' ' ∷ x)) in
    ap (λ x. trim (c ∷ x)) (sym (front-append pre u p crlf ∙ whole (in_quotes p ++ crlf)))
    ∙ trim-between c quote (front pre u p) crlf h quote_solid crlf_trimmed
    ∙ ap (λ x. c ∷ x) (front-end pre u p ∙ whole (in_quotes p))

parse_command-login_text :
    (wide : ℕ → Text) (u p : Text)
    → IsAscii u
    → IsAscii p
    → parse_command wide (login_text u p) ≡ parsed (login_cmd u p)
unfolding parse_command
parse_command-login_text wide u p h k =
    let split : split_once b' ' (login_text u p) ≡ (lit "LOGIN", some (arguments u p)) =
      split_once-join b' ' (lit "LOGIN") (arguments u p)
        (unfold lit in (refl, (refl, (refl, (refl, (refl, tt)))))) in
    let upper : to_uppercase wide (lit "LOGIN") ≡ lit "LOGIN" = unfold to_uppercase lit in refl in
    let chosen : command_of wide (lit "LOGIN") (arguments u p)
        ≡ two_strings login_cmd (arguments u p) =
      unfold command_of lit eq_text in refl in
    rw (split, upper, chosen) (two_strings-in_quotes u p h k)

pub IsSolid-Lacks : (s : Text) → IsSolid s → Lacks b' ' s
IsSolid-Lacks [] h = tt
IsSolid-Lacks (c ∷ s) (k, h) = ((unfold is_space in ground arith), IsSolid-Lacks s h)

-- A line `tag LOGIN "name" "password"`, whose tag has no space and whose name and password are of
-- ASCII characters, each of their quotes and backslashes behind a backslash, is parsed as LOGIN with
-- that name and that password.
pub parse-login_line :
    (wide : ℕ → Text) (c : ℕ) (tag username password : Text)
    → IsSolid (c ∷ tag)
    → IsAscii username
    → IsAscii password
    → parse wide (login_line (c ∷ tag) username password)
      ≡ parsed (record { tag = c ∷ tag; command = login_cmd username password })
unfolding parse parse_line login_line is_empty
parse-login_line wide c tag u p (t, ts) h k =
    rw
      (
        trim-login_line c tag u p t,
        split_once-join b' ' (c ∷ tag) (login_text u p) (IsSolid-Lacks (c ∷ tag) (t, ts)),
        trim-login_text u p,
        parse_command-login_text wide u p h k,
      )
      refl
