-- ===== src/Pop3/Words.antt =====
-- Commands with a message number: written by a client and parsed.
use mathlib.Core.List.{reverse, reverse-append, reverse-reverse}
use mai_rust.Common.{
  ℕ, suc, ◌<◌, ◌++◌, ◌≡◌, ◌≢◌, ◌∙◌, refl, sym, ap, subst, false, some, [], ◌∷◌, All, All-append,
  append_assoc, append-nil, arith,
}
use mai_rust.Common.Text.{
  Text, lit, is_empty, is_space, trim, trim_start, trim_end, to_uppercase, eq_text, crlf,
}
use mai_rust.Common.Decimal.{
  display, IsDigit, digits-IsDigit, display-ne-nil, parse_u32, parse_u32-display, u32_limit,
}
use mai_rust.Smtp.Addresses.{Lacks, split_once-join, trim_start-solid, is_empty_ne}
use mai_rust.Pop3.Types.{Pop3Command, dele, retr, list_cmd, uidl}
use mai_rust.Pop3.Parse.{parse, parse_trimmed, args_of, command_of, optional_number}

digit_not_space : (c : ℕ) → IsDigit c → is_space c ≡ false
unfolding is_space
digit_not_space c d = ground arith

All-reverse : (P : ℕ → Type 0) (s : Text) → All P s → All P (reverse s)
All-reverse P [] h = tt
All-reverse P (c ∷ s) (p, h) =
    subst (All P) (sym (reverse-append (c ∷ []) s))
      (All-append P (reverse s) (c ∷ []) (All-reverse P s h) (p, tt))

-- A text that starts with a digit has no white space in front.
trim_start-digits : (s t : Text) → All IsDigit s → s ≢ [] → trim_start (s ++ t) ≡ s ++ t
trim_start-digits [] t h n = absurd (n refl)
trim_start-digits (c ∷ s) t (d, h) n = trim_start-solid c (s ++ t) (digit_not_space c d)

reverse-ne-nil : (s : Text) → s ≢ [] → reverse s ≢ []
reverse-ne-nil s n e = n (sym (reverse-reverse s) ∙ ap reverse e)

display-IsDigit : (n : ℕ) → All IsDigit (display n)
unfolding display
display-IsDigit n = digits-IsDigit (suc n) n

skip_crlf : (x : Text) → trim_start (10 ∷ 13 ∷ x) ≡ trim_start x
unfolding trim_start is_space
skip_crlf x = refl

-- White space behind a number is taken off.
trim_end-display : (s : Text) (n : ℕ) → trim_end (s ++ display n ++ crlf) ≡ s ++ display n
unfolding trim_end
trim_end-display s n =
    let t = s ++ display n in
    let r = reverse (display n) in
    let behind : trim_start (r ++ reverse s) ≡ r ++ reverse s =
      trim_start-digits r (reverse s) (All-reverse IsDigit (display n) (display-IsDigit n))
        (reverse-ne-nil (display n) (display-ne-nil n)) in
    ap (λ x. reverse (trim_start x)) (reverse-append t crlf)
    ∙ ap reverse (
        skip_crlf (reverse t)
        ∙ ap trim_start (reverse-append s (display n))
        ∙ behind
        ∙ sym (reverse-append s (display n)))
    ∙ reverse-reverse t

trim-display : (n : ℕ) → trim (display n) ≡ display n
unfolding trim trim_end
trim-display n =
    let r = reverse (display n) in
    ap trim_end (
      ap trim_start (sym (append-nil _))
      ∙ trim_start-digits (display n) [] (display-IsDigit n) (display-ne-nil n)
      ∙ append-nil _)
    ∙ ap reverse (
        ap trim_start (sym (append-nil r))
        ∙ trim_start-digits r [] (All-reverse IsDigit (display n) (display-IsDigit n))
            (reverse-ne-nil (display n) (display-ne-nil n))
        ∙ append-nil r)
    ∙ reverse-reverse (display n)

module _ (n : ℕ) (back : parse_u32 (display n) ≡ some n) where
  command_retr : command_of (lit "RETR") (display n) ≡ retr n
  unfolding command_of lit eq_text
  command_retr = rw back refl

  command_dele : command_of (lit "DELE") (display n) ≡ dele n
  unfolding command_of lit eq_text
  command_dele = rw back refl

  module _ (full : is_empty (display n) ≡ false) where
    command_list : command_of (lit "LIST") (display n) ≡ list_cmd (some n)
    unfolding command_of lit eq_text optional_number
    command_list = rw (full, back) refl

    command_uidl : command_of (lit "UIDL") (display n) ≡ uidl (some n)
    unfolding command_of lit eq_text optional_number
    command_uidl = rw (full, back) refl

-- A line of a word and a number.
abbrev pub number_line : ℕ → Text → ℕ → Text
number_line c word n = (c ∷ word) ++ b' ' ∷ [] ++ display n ++ crlf

parse-number_line :
    (wide : ℕ → Text) (c : ℕ) (word : Text) (n : ℕ)
    → is_space c ≡ false
    → Lacks b' ' (c ∷ word)
    → parse wide (number_line c word n) ≡ command_of (to_uppercase wide (c ∷ word)) (display n)
unfolding parse parse_trimmed trim args_of is_empty
parse-number_line wide c word n solid lacks =
    ap (parse_trimmed wide) (
      ap trim_end (trim_start-solid c _ solid)
      ∙ trim_end-display ((c ∷ word) ++ b' ' ∷ []) n
      ∙ append_assoc (c ∷ word) (b' ' ∷ []) (display n))
    ∙ split_at_space
  where
    split_at_space :
        parse_trimmed wide ((c ∷ word) ++ b' ' ∷ display n)
        ≡ command_of (to_uppercase wide (c ∷ word)) (display n)
    split_at_space =
        ap (λ p. command_of (to_uppercase wide p.0) (args_of p.1))
          (split_once-join b' ' (c ∷ word) (display n) lacks)
        ∙ ap (command_of (to_uppercase wide (c ∷ word))) (trim-display n)

-- The commands that take one message number, as words and as parsed.
pub data NumberWord : Type 0 where
  list_word retr_word dele_word uidl_word : NumberWord

abbrev pub keyword : NumberWord → Text
keyword list_word = lit "LIST"
keyword retr_word = lit "RETR"
keyword dele_word = lit "DELE"
keyword uidl_word = lit "UIDL"

abbrev pub numbered : NumberWord → ℕ → Pop3Command
numbered list_word n = list_cmd (some n)
numbered retr_word n = retr n
numbered dele_word n = dele n
numbered uidl_word n = uidl (some n)

command_of-number :
    (w : NumberWord) (n : ℕ) → n < u32_limit → command_of (keyword w) (display n) ≡ numbered w n
command_of-number list_word n small =
    command_list n (parse_u32-display n small) (is_empty_ne (display n) (display-ne-nil n))
command_of-number retr_word n small = command_retr n (parse_u32-display n small)
command_of-number dele_word n small = command_dele n (parse_u32-display n small)
command_of-number uidl_word n small =
    command_uidl n (parse_u32-display n small) (is_empty_ne (display n) (display-ne-nil n))

-- The number commands in any letter case: a word that reads as LIST, RETR, DELE or UIDL in upper
-- case, a space, a 32-bit number in decimal, and the line's end are parsed as that command with
-- that number.
pub parse-number_commands :
    (wide : ℕ → Text) (w : NumberWord) (c : ℕ) (word : Text) (n : ℕ)
    → is_space c ≡ false
    → Lacks b' ' (c ∷ word)
    → to_uppercase wide (c ∷ word) ≡ keyword w
    → n < u32_limit
    → parse wide (number_line c word n) ≡ numbered w n
parse-number_commands wide w c word n solid lacks upper small =
    parse-number_line wide c word n solid lacks
    ∙ ap (λ u. command_of u (display n)) upper
    ∙ command_of-number w n small
