-- ===== src/Pop3/Response.antt =====
-- `Pop3Response` (pop3/response.rs).
use mai_rust.Common.{ℕ, ◌++◌, Bool, List, [], ◌∷◌, if◌then◌else◌}
use mai_rust.Common.Text.{Text, lit, starts_with, crlf}
use mai_rust.Common.Decimal.{display}

unfoldable pub greeting : Text → Text
greeting server_name = lit "+OK " ++ server_name ++ lit " POP3 server ready" ++ crlf

unfoldable pub ok : Text → Text
ok message = lit "+OK " ++ message ++ crlf

unfoldable pub ok_simple : Text
ok_simple = lit "+OK" ++ crlf

unfoldable pub err : Text → Text
err message = lit "-ERR " ++ message ++ crlf

unfoldable pub stat_line : ℕ → ℕ → Text
stat_line count size = lit "+OK " ++ display count ++ b' ' ∷ (display size ++ crlf)

unfoldable pub list_header : ℕ → ℕ → Text
list_header count size =
    lit "+OK " ++ display count ++ lit " messages (" ++ display size ++ lit " octets)" ++ crlf

unfoldable pub list_single : ℕ → ℕ → Text
list_single msg size = lit "+OK " ++ display msg ++ b' ' ∷ (display size ++ crlf)

unfoldable pub list_line : ℕ → ℕ → Text
list_line msg size = display msg ++ b' ' ∷ (display size ++ crlf)

unfoldable pub uidl_header : Text
uidl_header = lit "+OK" ++ crlf

unfoldable pub uidl_single : ℕ → Text → Text
uidl_single msg uid = lit "+OK " ++ display msg ++ b' ' ∷ (uid ++ crlf)

unfoldable pub uidl_line : ℕ → Text → Text
uidl_line msg uid = display msg ++ b' ' ∷ (uid ++ crlf)

unfoldable pub retr_header : ℕ → Text
retr_header size = lit "+OK " ++ display size ++ lit " octets" ++ crlf

unfoldable pub top_header : Text
top_header = lit "+OK" ++ crlf

-- `join("\r\n")`, and the line end behind it.
unfoldable pub join_crlf : List Text → Text
join_crlf [] = []
join_crlf (l ∷ []) = l
join_crlf (l ∷ m ∷ ls) = l ++ crlf ++ join_crlf (m ∷ ls)

unfoldable pub capability_lines : Bool → List Text
capability_lines starttls_enabled =
    (lit "+OK Capability list follows" ∷ lit "USER" ∷ lit "TOP" ∷ lit "UIDL" ∷ [])
    ++ (if starttls_enabled then lit "STLS" ∷ [] else [])
    ++ lit "IMPLEMENTATION MaiRust-POP3" ∷ lit "." ∷ []

unfoldable pub capabilities_with_starttls : Bool → Text
unfolding capability_lines join_crlf
capabilities_with_starttls starttls_enabled = join_crlf (capability_lines starttls_enabled) ++ crlf

unfoldable pub terminator : Text
terminator = lit "." ++ crlf

unfoldable pub byte_stuff_line : Text → Text
byte_stuff_line line = if starts_with line (lit ".") then b'.' ∷ line else line
