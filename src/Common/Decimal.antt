-- ===== src/Common/Decimal.antt =====
-- Unsigned numbers in decimal: `Display` and `parse::<u32>`, and that they are inverse.
use Prim.Native.Nat.{ℕ, zero, suc, ◌+◌, ◌-◌, ◌*◌, ◌/◌, ◌%◌, ◌^◌, ◌≤◌, ◌<◌}
use mathlib.Core.Path.{◌≡◌, refl, sym, ap, ◌∙◌}
use mathlib.Core.Bool.{◌&&◌}
use mathlib.Core.Logic.{◌≢◌, inl, inr}
use mathlib.Core.Option.{Option, none, some}
use mathlib.Core.List.{[], ◌∷◌, ◌++◌, append_assoc, append-nil, concat-ne-nil}
use native.Mathlib.Omega.{arith}
use mai_rust.Common.Tests.{ltb, leb, ◌==◌, if◌then◌else◌, Bool-cases}
use mai_rust.Common.Lists.{All, All-append}
use mai_rust.Common.Text.{Text}

-- `fuel` above the number of digits is enough; `display` gives more than the number itself.
unfoldable pub digits : ℕ → ℕ → Text
digits zero n = []
digits (suc fuel) n =
    let upper = digits fuel (n / 10) in
    if ltb n 10 then (b'0' + n) ∷ [] else upper ++ (b'0' + n % 10) ∷ []

unfoldable pub display : ℕ → Text
unfolding digits
display n = digits (suc n) n

abbrev pub u32_limit : ℕ
u32_limit = 2 ^ 32

-- The digit loop with its checked multiplication and addition.
unfoldable pub scan_u32 : ℕ → Text → Option ℕ
scan_u32 acc [] = some acc
scan_u32 acc (c ∷ s) =
    let v = acc * 10 + (c - b'0') in
    let rest = scan_u32 v s in
    if leb b'0' c && leb c b'9' then (if ltb v u32_limit then rest else none) else none

-- A leading plus sign is allowed before at least one digit.
unfoldable pub parse_u32 : Text → Option ℕ
unfolding scan_u32
parse_u32 [] = none
parse_u32 (c ∷ []) = scan_u32 0 (c ∷ [])
parse_u32 (c ∷ d ∷ s) = if c == b'+' then scan_u32 0 (d ∷ s) else scan_u32 0 (c ∷ d ∷ s)

-- The last digit read gives the number back.
scan-last :
    (n : ℕ) (rest : Text)
    → n < u32_limit
    → scan_u32 (n / 10) ((b'0' + n % 10) ∷ rest) ≡ scan_u32 n rest
unfolding scan_u32
scan-last n rest k =
    let e : n / 10 * 10 + (b'0' + n % 10 - b'0') ≡ n = omega arith in rw e (ground arith)

pub scan-digits :
    (fuel n : ℕ) (rest : Text)
    → n < fuel
    → n < u32_limit
    → scan_u32 0 (digits fuel n ++ rest) ≡ scan_u32 n rest
unfolding digits
scan-digits zero n rest h k = absurd (omega arith)
scan-digits (suc fuel) n rest h k = elim (Bool-cases (ltb n 10)) [
  | inl small ↦ rw small (unfold scan_u32 in ground arith)
  | inr large ↦
      rw (large, append_assoc)
        (scan-digits fuel (n / 10) _ (ground arith) (omega arith) ∙ scan-last n rest k)
]

abbrev pub IsDigit : ℕ → Type 0
IsDigit c = (b'0' ≤ c) × (c ≤ b'9')

pub digits-IsDigit : (fuel n : ℕ) → All IsDigit (digits fuel n)
unfolding digits
digits-IsDigit zero n = tt
digits-IsDigit (suc fuel) n = elim (Bool-cases (ltb n 10)) [
  | inl small ↦ rw small ((ground arith), tt)
  | inr large ↦ rw large (All-append IsDigit _ _ (digits-IsDigit fuel (n / 10)) (omega arith))
]

parse-scan : (s : Text) → All IsDigit s → s ≢ [] → parse_u32 s ≡ scan_u32 0 s
unfolding parse_u32
parse-scan [] h k = absurd (k refl)
parse-scan (c ∷ []) h k = refl
parse-scan (c ∷ d ∷ s) h k = ground arith

pub display-ne-nil : (n : ℕ) → display n ≢ []
unfolding display digits
display-ne-nil n e = elim (Bool-cases (ltb n 10)) [
  | inl small ↦ cc (rw small at e)
  | inr large ↦ concat-ne-nil _ _ (rw large at e)
]

pub parse_u32-display : (n : ℕ) → n < u32_limit → parse_u32 (display n) ≡ some n
unfolding display
parse_u32-display n h =
    parse-scan (display n) (digits-IsDigit (suc n) n) (display-ne-nil n)
    ∙ ap (scan_u32 0) (sym (append-nil _))
    ∙ scan-digits (suc n) n [] (omega arith) h
    ∙ (unfold scan_u32 in refl)
