-- ===== src/Pop3/Retrieval.antt =====
-- RETR and TOP (pop3/server.rs) as a client reads them.
use mai_rust.Common.{
  ℕ, zero, suc, ◌+◌, ◌≡◌, ◌≢◌, refl, sym, ap, Bool, Bool-cases, inl, inr, true, false, some, List,
  [], ◌∷◌, ◌++◌, take, All, All-append, if◌then◌else◌, leb, arith,
}
use mai_rust.Common.Text.{Text, lit, is_empty, lines}
use mai_rust.Common.Decimal.{display, digits, IsDigit, digits-IsDigit}
use mai_rust.Pop3.Types.{Services, MessageInfo}
use mai_rust.Pop3.Response.{retr_header, top_header}
use mai_rust.Pop3.Command.{body_content, retr_response, message_body, top_lines, top_response}
use mai_rust.Pop3.Stuffing.{IsOneLine, lines_from-IsOneLine, read_response, response-read}

digit_ne_lf : (c : ℕ) → IsDigit c → c ≢ 10
digit_ne_lf c d e = omega arith

All-map : (P Q : ℕ → Type 0) (f : (c : ℕ) → P c → Q c) (xs : List ℕ) → All P xs → All Q xs
All-map P Q f [] h = tt
All-map P Q f (x ∷ xs) (p, h) = (f x p, All-map P Q f xs h)

display-IsOneLine : (n : ℕ) → IsOneLine (display n)
unfolding display
display-IsOneLine n =
    All-map IsDigit (λ c. c ≢ 10) digit_ne_lf (digits (suc n) n) (digits-IsDigit (suc n) n)

-- The status line of RETR.
retr_status : ℕ → Text
retr_status size = lit "+OK " ++ display size ++ lit " octets"

retr_status-IsOneLine : (size : ℕ) → IsOneLine (retr_status size)
unfolding retr_status lit
retr_status-IsOneLine size =
    All-append (λ c. c ≢ 10) (lit "+OK " ++ display size) (lit " octets")
      (All-append (λ c. c ≢ 10) (lit "+OK ") (display size) (ground arith) (display-IsOneLine size))
      (ground arith)

-- What a client reads from the answer to RETR is the message, line by line, whatever dots it has;
-- what is sent behind it is left to be read, provided that the storage opens.
pub retr_response_read :
    (sv : Services) (m : MessageInfo) (rest : Text)
    → sv.storage_ready ≡ true
    → read_response (lines (retr_response sv (some m) ++ rest))
      ≡ some (lines (message_body sv m), lines rest)
unfolding retr_response retr_header body_content lines retr_status read_response
retr_response_read sv m rest ready = rw ready (
    response-read (retr_status _) (lines (message_body sv m)) rest (retr_status-IsOneLine _)
      (lines_from-IsOneLine [] (message_body sv m) tt))

-- The lines up to the first empty one, and those behind it.
unfoldable pub headers : List Text → List Text
headers [] = []
headers (l ∷ ls) = let rest = headers ls in if is_empty l then l ∷ [] else l ∷ rest

unfoldable pub body_lines : List Text → List Text
body_lines [] = []
body_lines (l ∷ ls) = let rest = body_lines ls in if is_empty l then ls else rest

-- `n` more lines are shown if the limit is `n` above the count.
top_lines-body :
    (n limit count : ℕ) (ls : List Text)
    → limit ≡ count + n
    → top_lines limit true count ls ≡ take n ls
unfolding top_lines
top_lines-body zero limit count [] h = refl
top_lines-body (suc n) limit count [] h = refl
top_lines-body zero limit count (l ∷ ls) h = ground arith
top_lines-body (suc n) limit count (l ∷ ls) h =
    let below : leb limit count ≡ false = ground arith in
    rw below (ap (◌∷◌ l) (top_lines-body n limit (count + 1) ls (omega arith)))

take_nothing : (n : ℕ) → take {A = Text} n [] ≡ []
take_nothing zero = refl
take_nothing (suc n) = refl

top_lines-headers :
    (limit : ℕ) (ls : List Text)
    → top_lines limit false 0 ls ≡ headers ls ++ take limit (body_lines ls)
unfolding top_lines headers body_lines
top_lines-headers limit [] = sym (take_nothing limit)
top_lines-headers limit (l ∷ ls) = elim (Bool-cases (is_empty l)) [
  | inl blank ↦ rw blank (ap (◌∷◌ l) (top_lines-body limit limit 0 ls (omega arith)))
  | inr text ↦ rw text (ap (◌∷◌ l) (top_lines-headers limit ls))
]

top_lines-IsOneLine :
    (limit : ℕ) (in_body : Bool) (count : ℕ) (ls : List Text)
    → All IsOneLine ls
    → All IsOneLine (top_lines limit in_body count ls)
unfolding top_lines
top_lines-IsOneLine limit in_body count [] h = tt
top_lines-IsOneLine limit false count (l ∷ ls) (p, h) =
    (p, top_lines-IsOneLine limit (is_empty l) count ls h)
top_lines-IsOneLine limit true count (l ∷ ls) (p, h) = elim (Bool-cases (leb limit count)) [
  | inl full ↦ rw full tt
  | inr space ↦ rw space (p, top_lines-IsOneLine limit true (count + 1) ls h)
]

-- What a client reads from the answer to TOP are the message's lines up to the first empty one, and
-- the first `limit` lines behind it; what is sent behind the answer is left to be read, provided
-- that the storage opens.
pub top_response_read :
    (sv : Services) (limit : ℕ) (m : MessageInfo) (rest : Text)
    → sv.storage_ready ≡ true
    → read_response (lines (top_response sv limit (some m) ++ rest))
      ≡ some (
        headers (lines (message_body sv m)) ++ take limit (body_lines (lines (message_body sv m))),
        lines rest,
      )
unfolding top_response top_header lines read_response
top_response_read sv limit m rest ready =
    let ls = lines (message_body sv m) in
    rw (ready, sym (top_lines-headers limit ls))
      (response-read (lit "+OK") (top_lines limit false 0 ls) rest (unfold lit in ground arith)
        (top_lines-IsOneLine limit false 0 ls (lines_from-IsOneLine [] (message_body sv m) tt)))
