-- ===== src/Smtp/MessageExamples.antt =====
-- The theorems on messages and addresses at inputs that meet their hypotheses, on the server of
-- the sessions.
use mai_rust.Common.{ℕ, ◌++◌, ◌≡◌, refl, none, some, List, [], ◌∷◌, arith, ◌≤◌, length, All}
use mai_rust.Common.Text.{Text, lit, crlf, as_bytes}
use mai_rust.Common.Results.{ok}
use mai_rust.Smtp.Types.{Envelope, line}
use mai_rust.Smtp.Parse.{address_to_string, parse_address}
use mai_rust.Smtp.Receive.{read_data, max_size}
use mai_rust.Smtp.Delivery.{process_message}
use mai_rust.Smtp.Transfer.{read_data-stuffed, read_data_bounded, stuff, wire, IsPlain}
use mai_rust.Smtp.Accepted.{IsServed, process_message_serves}
use mai_rust.Smtp.Addresses.{parse_address-to_string}
use mai_rust.Smtp.Examples.{config, server, empty_store, say, opened, x_at_b, y_at_b}

abbrev to_both : Envelope
to_both = record { from = none; to = x_at_b ∷ y_at_b ∷ []; client_ip = none; helo = none }

abbrev to_one : Envelope
to_one = record { from = none; to = x_at_b ∷ []; client_ip = none; helo = none }

process_message_serves_example :
    (◌≡◌ {A = ℕ} 1 empty_store.next_id)
    × All (IsServed server 1 (process_message server to_one [] empty_store).1) to_one.to
unfolding opened
process_message_serves_example = process_message_serves server to_one [] empty_store 1 refl

-- A line of 41 octets, one above the limit of this configuration.
abbrev long_line : Text
long_line = lit "01234567890123456789012345678901234567890"

-- A message with a line that begins with a dot, and a command behind it.
abbrev body : List Text
body = lit "Hi" ∷ lit ".x" ∷ []

body-IsPlain : All IsPlain body
unfolding opened
body-IsPlain = (refl, (refl, tt))

read_data-stuffed_example :
    read_data config
      (line (stuff (lit "Hi")) ∷ line (stuff (lit ".x")) ∷ say (lit ".") ∷ say (lit "NOOP") ∷ [])
    ≡ (ok (wire body), say (lit "NOOP") ∷ [])
unfolding opened max_size wire
read_data-stuffed_example =
    read_data-stuffed config body (say (lit "NOOP") ∷ []) (refl, (refl, tt)) (omega arith)

read_data_bounded_example : length (as_bytes (lit "Hi" ++ crlf)) ≤ max_size config
unfolding opened
read_data_bounded_example =
    read_data_bounded config (say (lit "Hi") ∷ say (lit ".") ∷ []) (as_bytes (lit "Hi" ++ crlf))
      refl

parse_address-to_string_example : parse_address (address_to_string x_at_b) ≡ some x_at_b
unfolding lit
parse_address-to_string_example = parse_address-to_string x_at_b (refl, tt) (λ e. cc) (λ e. cc)
