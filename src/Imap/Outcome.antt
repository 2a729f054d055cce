-- ===== src/Imap/Outcome.antt =====
-- What a parser of imap/parser.rs comes to: a value, `None`, or the panic of a slice that splits a
-- character or ends before it begins.
use mai_rust.Common.{ℕ, zero, suc, ◌-◌, Option, none, some, length, [], ◌∷◌, if◌then◌else◌, leb}
use mai_rust.Common.Text.{Text, utf8_char}

pub data Outcome {ℓ} (A : Type ℓ) : Type ℓ where
  parsed : A → Outcome A
  refused : Outcome A
  panicked : Outcome A

infixl 5 ◌>>=◌
abbrev pub ◌>>=◌ {ℓ κ} : {A : Type ℓ} {B : Type κ} → Outcome A → (A → Outcome B) → Outcome B
parsed a >>= f = f a
refused >>= f = refused
panicked >>= f = panicked

-- The operator `?` on an `Option`.
abbrev pub require {ℓ} : {A : Type ℓ} → Option A → Outcome A
require none = refused
require (some a) = parsed a

abbrev pub require_slice {ℓ} : {A : Type ℓ} → Option A → Outcome A
require_slice none = panicked
require_slice (some a) = parsed a

-- `&s[n..]`, where `n` counts the bytes of the encoding; `none` is the panic.
unfoldable pub slice_from : ℕ → Text → Option Text
unfolding utf8_char
slice_from zero s = some s
slice_from (suc n) [] = none
slice_from (suc n) (c ∷ s) =
    let w = length (utf8_char c) in
    let rest = slice_from (suc n - w) s in if leb w (suc n) then rest else none
