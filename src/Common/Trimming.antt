-- ===== src/Common/Trimming.antt =====
-- Texts that `trim` leaves as they are.
use mathlib.Core.List.{
  List, [], ◌∷◌, ◌++◌, reverse, reverse-append, reverse-cons, reverse-reverse, append_assoc,
}
use Prim.Native.Nat.{ℕ}
use mathlib.Core.Path.{◌≡◌, refl, sym, ap, subst, ◌∙◌}
use mathlib.Core.Bool.{false}
use mathlib.Core.Logic.{inl, inr}
use mai_rust.Common.Tests.{Bool-cases}
use mai_rust.Common.Lists.{All, All-append}
use mai_rust.Common.Text.{Text, is_space, trim, trim_start, trim_end}

-- The text has no white space.
abbrev pub IsSolid : Text → Type 0
IsSolid = All (λ c. is_space c ≡ false)

pub All-reverse {ℓ κ} : {A : Type ℓ} (P : A → Type κ) (s : List A) → All P s → All P (reverse s)
All-reverse P [] h = tt
All-reverse P (c ∷ s) (p, h) =
    subst (All P) (sym (reverse-append (c ∷ []) s))
      (All-append P (reverse s) (c ∷ []) (All-reverse P s h) (p, tt))

pub trim_start-IsSolid : (s : Text) → IsSolid s → trim_start s ≡ s
unfolding trim_start
trim_start-IsSolid [] h = refl
trim_start-IsSolid (c ∷ s) (k, h) = rw k refl

pub trim-IsSolid : (s : Text) → IsSolid s → trim s ≡ s
unfolding trim trim_end
trim-IsSolid s h =
    ap (λ t. reverse (trim_start (reverse t))) (trim_start-IsSolid s h)
    ∙ ap reverse (trim_start-IsSolid (reverse s) (All-reverse (λ c. is_space c ≡ false) s h))
    ∙ reverse-reverse s

trim_start-keeps :
    (s : Text) (c : ℕ) (t : Text)
    → is_space c ≡ false
    → trim_start (s ++ c ∷ t) ≡ trim_start (s ++ c ∷ []) ++ t
unfolding trim_start
trim_start-keeps [] c t h = rw h refl
trim_start-keeps (d ∷ s) c t h = elim (Bool-cases (is_space d)) [
  | inl space ↦ rw space (trim_start-keeps s c t h)
  | inr solid ↦ rw solid (sym (append_assoc (d ∷ s) (c ∷ []) t))
]

-- White space is taken off behind a character that is none.
pub trim_end-keeps :
    (s : Text) (c : ℕ) (t : Text)
    → is_space c ≡ false
    → trim_end (s ++ c ∷ t) ≡ s ++ trim_end (c ∷ t)
unfolding trim_end
trim_end-keeps s c t h =
    ap (λ x. reverse (trim_start x))
      (reverse-append s (c ∷ t)
        ∙ ap (λ x. x ++ reverse s) (reverse-cons c t)
        ∙ append_assoc (reverse t) (c ∷ []) (reverse s))
    ∙ ap reverse (trim_start-keeps (reverse t) c (reverse s) h)
    ∙ reverse-append (trim_start (reverse t ++ c ∷ [])) (reverse s)
    ∙ ap (λ x. x ++ reverse (trim_start (reverse t ++ c ∷ []))) (reverse-reverse s)
    ∙ ap (λ x. s ++ reverse (trim_start x)) (sym (reverse-cons c t))
