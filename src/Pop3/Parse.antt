-- ===== src/Pop3/Parse.antt =====
-- `Pop3Parser::parse` (pop3/command.rs).
use mai_rust.Common.{ℕ, Option, none, some, List, [], ◌∷◌, if◌then◌else◌}
use mai_rust.Common.Text.{
  Text, lit, is_empty, trim, split_once, split_whitespace, to_uppercase, eq_text,
}
use mai_rust.Common.Decimal.{parse_u32}
use mai_rust.Pop3.Types.{
  Pop3Command, user, pass, apop, stat, list_cmd, retr, dele, noop, rset, top, uidl, quit, capa,
  stls, unknown,
}

-- The second part of `splitn(2, ' ')`, trimmed, or the empty text.
unfoldable pub args_of : Option Text → Text
args_of none = []
args_of (some args) = trim args

unfoldable pub apop_args : Text → Text × Option Text → Pop3Command
apop_args cmd (name, none) = unknown cmd
apop_args cmd (name, some digest) = apop name digest

-- `None` for no argument and for an argument that is no number.
unfoldable pub optional_number : Text → Option ℕ
optional_number args = if is_empty args then none else parse_u32 args

abbrev pub with_number : (ℕ → Pop3Command) → Text → Option ℕ → Pop3Command
with_number command cmd none = unknown cmd
with_number command cmd (some n) = command n

abbrev pub with_numbers : Text → Option ℕ → Option ℕ → Pop3Command
with_numbers cmd (some msg) (some lines) = top msg lines
with_numbers cmd _ _ = unknown cmd

unfoldable pub top_args : Text → List Text → Pop3Command
top_args cmd (a ∷ b ∷ rest) = with_numbers cmd (parse_u32 a) (parse_u32 b)
top_args cmd _ = unknown cmd

-- The match on the command word.
unfoldable pub command_of : Text → Text → Pop3Command
unfolding apop_args optional_number top_args
command_of cmd args =
    if eq_text cmd (lit "USER")
    then user args
    else if eq_text cmd (lit "PASS")
    then pass args
    else if eq_text cmd (lit "APOP")
    then apop_args cmd (split_once b' ' args)
    else if eq_text cmd (lit "STAT")
    then stat
    else if eq_text cmd (lit "LIST")
    then list_cmd (optional_number args)
    else if eq_text cmd (lit "RETR")
    then with_number retr cmd (parse_u32 args)
    else if eq_text cmd (lit "DELE")
    then with_number dele cmd (parse_u32 args)
    else if eq_text cmd (lit "NOOP")
    then noop
    else if eq_text cmd (lit "RSET")
    then rset
    else if eq_text cmd (lit "TOP")
    then top_args cmd (split_whitespace args)
    else if eq_text cmd (lit "UIDL")
    then uidl (optional_number args)
    else if eq_text cmd (lit "QUIT")
    then quit
    else if eq_text cmd (lit "CAPA")
    then capa
    else if eq_text cmd (lit "STLS")
    then stls
    else unknown cmd

unfoldable pub parse_trimmed : (ℕ → Text) → Text → Pop3Command
unfolding args_of command_of
parse_trimmed wide line =
    let (word, args) = split_once b' ' line in
    if is_empty line then unknown [] else command_of (to_uppercase wide word) (args_of args)

unfoldable pub parse : (ℕ → Text) → Text → Pop3Command
unfolding parse_trimmed
parse wide line = parse_trimmed wide (trim line)
