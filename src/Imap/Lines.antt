-- ===== src/Imap/Lines.antt =====
-- Lines that the parser treats otherwise than a client expects.
use mai_rust.Common.{ℕ, ◌≡◌, refl, Bool-cases, inl, inr, Option, none, some, List, [], ◌∷◌}
use mai_rust.Common.Text.{
  Text, lit, starts_with, eq_text, is_empty, trim, trim_start, trim_end, split_once, to_uppercase,
}
use mai_rust.Common.Trimming.{IsSolid, trim-IsSolid}
use mai_rust.Smtp.Addresses.{split_once-Lacks}
use mai_rust.Imap.Types.{ImapCommand, append_cmd, unknown_cmd}
use mai_rust.Imap.Outcome.{Outcome, parsed, refused, panicked, ◌>>=◌}
use mai_rust.Imap.Words.{parse_astring, quote}
use mai_rust.Imap.Quoting.{IsSolid-Lacks}
use mai_rust.Imap.Parser.{
  append_of, append_flags_of, parse_append, command_of, parse_command, parse_line, parse,
}

-- The message of an APPEND is empty.
abbrev pub IsEmptyAppend : ImapCommand → Type 0
IsEmptyAppend cmd =
    (mailbox : Text) × (flags : List Text) × (date : Option Text) × (cmd
      ≡ append_cmd mailbox flags date [])

abbrev pub Gives : (ImapCommand → Type 0) → Outcome ImapCommand → Type 0
Gives P (parsed c) = P c
Gives P refused = Unit {0}
Gives P panicked = Unit {0}

date_of :
    (mailbox : Text) (flags : List Text) (o : Outcome (Text × Text))
    → Gives IsEmptyAppend (o >>= (λ d. parsed (append_cmd mailbox flags (some d.0) [])))
date_of mailbox flags (parsed d) = (mailbox, flags, some d.0, refl)
date_of mailbox flags refused = tt
date_of mailbox flags panicked = tt

append_of-empty :
    (mailbox : Text) (e : List Text × Text) → Gives IsEmptyAppend (append_of mailbox e)
unfolding append_of
append_of-empty mailbox (flags, rest) = elim (Bool-cases (starts_with rest (quote ∷ []))) [
  | inl dated ↦ simp dated (date_of mailbox flags (parse_astring rest))
  | inr undated ↦ simp undated (mailbox, flags, none, refl)
]

-- Whatever stands in an APPEND line, the command that is parsed carries an empty message: the
-- announced literal is never read, and its lines are taken for commands.
pub parse_append-empty : (args : Text) → Gives IsEmptyAppend (parse_append args)
unfolding parse_append
parse_append-empty args = continued (parse_astring args)
  where
    continued :
        (o : Outcome (Text × Text))
        → Gives IsEmptyAppend (o >>= (λ a. append_of a.0 (append_flags_of (trim a.1))))
    continued (parsed a) = append_of-empty a.0 (append_flags_of (trim a.1))
    continued refused = tt
    continued panicked = tt

-- A line of one word, as the DONE that ends IDLE, is taken for a tag: it is the unknown command
-- with an empty name.
pub parse-one_word :
    (wide : ℕ → Text) (c : ℕ) (word : Text)
    → IsSolid (c ∷ word)
    → parse wide (c ∷ word) ≡ parsed (record { tag = c ∷ word; command = unknown_cmd [] })
unfolding parse parse_line parse_command is_empty
parse-one_word wide c word h =
    rw (trim-IsSolid (c ∷ word) h, split_once-Lacks b' ' (c ∷ word) (IsSolid-Lacks (c ∷ word) h))
      (unfold command_of trim trim_start trim_end split_once to_uppercase eq_text lit in refl)
