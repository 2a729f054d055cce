-- ===== src/Smtp/Receive.antt =====
-- `read_data` of smtp/handler.rs: the lines of a message up to the line with a single dot.
use mai_rust.Common.{ℕ, ◌++◌, Option, none, some, List, [], ◌∷◌, drop, length, if◌then◌else◌, ltb}
use mai_rust.Common.Text.{Text, Bytes, lit, is_empty, trim, starts_with, eq_text, as_bytes}
use mai_rust.Common.Results.{Result, ok, err}
use mai_rust.Smtp.Types.{Input, line, broken, SmtpConfig}

abbrev pub get_or {ℓ} : {A : Type ℓ} → Option A → A → A
get_or none d = d
get_or (some a) d = a

-- The default of 50 MB.
unfoldable pub max_size : SmtpConfig → ℕ
max_size config = get_or config.max_message_size 52_428_800

-- One leading dot is removed if another follows it.
unfoldable pub unstuff : Text → Bytes
unstuff t = if starts_with t (lit "..") then drop 1 (as_bytes t) else as_bytes t

-- The result, and the input that is left behind it. `acc` is the loop's `data`.
unfoldable pub read_lines : ℕ → List Input → Bytes → Result Bytes × List Input
read_lines limit [] acc = (err (lit "Connection closed during DATA"), [])
read_lines limit (broken ∷ rest) acc = (err (lit "stream error"), rest)
read_lines limit (line t ∷ rest) acc =
    let more = read_lines limit rest (acc ++ unstuff t) in
    if is_empty t
    then (err (lit "Connection closed during DATA"), rest)
    else if eq_text (trim t) (lit ".")
    then (ok acc, rest)
    else if ltb limit (length (acc ++ unstuff t))
    then (err (lit "Message too large"), rest)
    else more

unfoldable pub read_data : SmtpConfig → List Input → Result Bytes × List Input
unfolding read_lines max_size
read_data config input = read_lines (max_size config) input []
