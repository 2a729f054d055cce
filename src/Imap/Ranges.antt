-- ===== src/Imap/Ranges.antt =====
-- Sequence sets: what a client writes, and which messages it names.
use mai_rust.Common.{
  append_assoc, Bool-cases, inl, inr, ℕ, suc, ◌<◌, ◌++◌, ◌≡◌, ◌≢◌, ◌∙◌, refl, sym, ap, Bool, true,
  false, ◌&&◌, ◌||◌, List, [], ◌∷◌, All, All-append, append-nil, map, some, ◌==◌, ==_refl, leb,
  arith,
}
use mai_rust.Common.Text.{Text, eq_text, is_space}
use mai_rust.Common.Decimal.{display, IsDigit, digits-IsDigit, display-ne-nil, parse_u32-display}
use mai_rust.Common.Trimming.{IsSolid, trim-IsSolid}
use mai_rust.Smtp.Addresses.{Lacks, split_once-join}
use mai_rust.Imap.Types.{SequenceSet, single, range, multiple, SequenceSets, no_sets, more_sets}
use mai_rust.Imap.Sequence.{
  u32_max, star, has_char, split_on, bound, range_of, range_parts, single_of, parse_part, keep_set,
  parse_parts, multiple_of, parse, actual, contains, any_contains,
}

-- A number, the numbers from one to another, and those from one on.
pub data Span : Type 0 where
  one : ℕ → Span
  between : ℕ → ℕ → Span
  onwards : ℕ → Span

-- The numbers are below the one that stands for `*`.
unfoldable pub IsSpan : Span → Type 0
IsSpan (one n) = n < u32_max
IsSpan (between a b) = (a < u32_max) × (b < u32_max)
IsSpan (onwards a) = a < u32_max

unfoldable pub print : Span → Text
print (one n) = display n
print (between a b) = display a ++ b':' ∷ display b
print (onwards a) = display a ++ b':' ∷ star

-- The spans with commas between them.
unfoldable pub print_all : Span → List Span → Text
unfolding print
print_all s [] = print s
print_all s (t ∷ ss) = print s ++ b',' ∷ print_all t ss

-- Whether a span names a number, where the greatest is `top`.
unfoldable pub names : Span → ℕ → ℕ → Bool
names (one n) seq top = seq == n
names (between a b) seq top = leb a seq && leb seq b
names (onwards a) seq top = leb a seq && leb seq top

unfoldable pub any_names : List Span → ℕ → ℕ → Bool
unfolding names
any_names [] seq top = false
any_names (s ∷ ss) seq top = names s seq top || any_names ss seq top

unfoldable pub set_of : Span → SequenceSet
set_of (one n) = single n
set_of (between a b) = range a b
set_of (onwards a) = range a u32_max

unfoldable pub sets_of : List Span → SequenceSets
unfolding set_of
sets_of [] = no_sets
sets_of (s ∷ ss) = more_sets (set_of s) (sets_of ss)

unfoldable pub set_of_all : Span → List Span → SequenceSet
unfolding set_of sets_of
set_of_all s [] = set_of s
set_of_all s (t ∷ ss) = multiple (sets_of (s ∷ t ∷ ss))

display-IsDigit : (n : ℕ) → All IsDigit (display n)
unfolding display
display-IsDigit n = digits-IsDigit (suc n) n

module _ (P : ℕ → Type 0) (of_digit : (c : ℕ) → IsDigit c → P c) where
  of_digits : (s : Text) → All IsDigit s → All P s
  of_digits [] h = tt
  of_digits (c ∷ s) (d, h) = (of_digit c d, of_digits s h)

display-Lacks_colon : (n : ℕ) → Lacks b':' (display n)
display-Lacks_colon n = of_digits _ (λ c d. ground arith) (display n) (display-IsDigit n)

digit_is_solid : (c : ℕ) → IsDigit c → is_space c ≡ false
unfolding is_space
digit_is_solid c d = ground arith

display-IsSolid : (n : ℕ) → IsSolid (display n)
display-IsSolid n = of_digits _ digit_is_solid (display n) (display-IsDigit n)

lacking_digits : (n : ℕ) → Lacks b',' (display n)
lacking_digits n = of_digits _ (λ c d. ground arith) (display n) (display-IsDigit n)

has_char-Lacks : (x : ℕ) (s : Text) → Lacks x s → has_char x s ≡ false
unfolding has_char
has_char-Lacks x [] h = refl
has_char-Lacks x (c ∷ s) (k, h) = rw (k, has_char-Lacks x s h) refl

has_char-here : (x : ℕ) (s t : Text) → has_char x (s ++ x ∷ t) ≡ true
unfolding has_char
has_char-here x [] t = rw ==_refl refl
has_char-here x (c ∷ s) t = ground (arith, has_char-here x s t)

star-digits : (s t : Text) → All IsDigit s → s ≢ [] → eq_text (s ++ t) star ≡ false
unfolding eq_text
star-digits [] t h n = absurd (n refl)
star-digits (c ∷ s) t ((l, u), h) n = ground arith

eq_star : (n : ℕ) (t : Text) → eq_text (display n ++ t) star ≡ false
eq_star n t = star-digits (display n) t (display-IsDigit n) (display-ne-nil n)

eq_star_alone : (n : ℕ) → eq_text (display n) star ≡ false
eq_star_alone n = ap (λ s. eq_text s star) (sym (append-nil (display n))) ∙ eq_star n []

bound-display : (n : ℕ) → n < u32_max → bound (display n) ≡ some n
unfolding bound
bound-display n h = rw (eq_star_alone n) (parse_u32-display n (omega arith))

bound-star : bound star ≡ some u32_max
unfolding bound eq_text
bound-star = refl

parse_part-print : (s : Span) → IsSpan s → parse_part (print s) ≡ some (set_of s)
unfolding parse_part print set_of IsSpan range_parts range_of single_of
parse_part-print (one n) h =
    simp
      (
        eq_star_alone n,
        has_char-Lacks b':' (display n) (display-Lacks_colon n),
        parse_u32-display n (omega arith),
      )
      refl
parse_part-print (between a b) (h, k) =
    simp
      (
        eq_star a,
        has_char-here b':' (display a),
        split_once-join b':' (display a) (display b) (display-Lacks_colon a),
        bound-display a h,
        bound-display b k,
      )
      refl
parse_part-print (onwards a) h =
    simp
      (
        eq_star a,
        has_char-here b':' (display a),
        split_once-join b':' (display a) star (display-Lacks_colon a),
        bound-display a h,
        bound-star,
      )
      refl

contains-set_of :
    (s : Span) (seq top : ℕ) → IsSpan s → contains (set_of s) seq top ≡ names s seq top
unfolding contains set_of names IsSpan actual
contains-set_of (one n) seq top h = ground arith
contains-set_of (between a b) seq top (h, k) = ground arith
contains-set_of (onwards a) seq top h = ground arith

IsSolid-print : (s : Span) → IsSolid (print s)
unfolding print
IsSolid-print (one n) = display-IsSolid n
IsSolid-print (between a b) =
    All-append _ (display a) _ (display-IsSolid a) ((unfold is_space in refl), display-IsSolid b)
IsSolid-print (onwards a) =
    All-append _ (display a) _ (display-IsSolid a)
      ((unfold is_space in refl), ((unfold is_space in refl), tt))

print-Lacks : (s : Span) → Lacks b',' (print s)
unfolding print
print-Lacks (one n) = lacking_digits n
print-Lacks (between a b) = All-append _ (display a) _ (lacking_digits a) (refl, lacking_digits b)
print-Lacks (onwards a) = All-append _ (display a) _ (lacking_digits a) (refl, (refl, tt))

split_on-some : (sep : ℕ) (s : Text) → (p : Text) × (ps : List Text) × (split_on sep s ≡ p ∷ ps)
unfolding split_on
split_on-some sep [] = ([], [], refl)
split_on-some sep (c ∷ s) =
    let (p, ps, e) = split_on-some sep s in
    elim (Bool-cases (c == sep)) [
      | inl here ↦ ([], p ∷ ps, rw (e, here) refl)
      | inr other ↦ (c ∷ p, ps, rw (e, other) refl)
    ]

split_on-join :
    (sep : ℕ) (s t : Text) → Lacks sep s → split_on sep (s ++ sep ∷ t) ≡ s ∷ split_on sep t
unfolding split_on
split_on-join sep [] t h = let (p, ps, e) = split_on-some sep t in rw (e, ==_refl) refl
split_on-join sep (c ∷ s) t (k, h) = rw (split_on-join sep s t h, k) refl

split_on-Lacks : (sep : ℕ) (s : Text) → Lacks sep s → split_on sep s ≡ s ∷ []
unfolding split_on
split_on-Lacks sep [] h = refl
split_on-Lacks sep (c ∷ s) (k, h) = rw (split_on-Lacks sep s h, k) refl

split_on-print_all :
    (s : Span) (ss : List Span) → split_on b',' (print_all s ss) ≡ map print (s ∷ ss)
unfolding print_all
split_on-print_all s [] = split_on-Lacks b',' (print s) (print-Lacks s)
split_on-print_all s (t ∷ ss) =
    split_on-join b',' (print s) (print_all t ss) (print-Lacks s)
    ∙ ap (λ ps. print s ∷ ps) (split_on-print_all t ss)

parse_parts-print : (ss : List Span) → All IsSpan ss → parse_parts (map print ss) ≡ sets_of ss
unfolding parse_parts sets_of keep_set
parse_parts-print [] h = refl
parse_parts-print (s ∷ ss) (k, h) =
    simp (trim-IsSolid (print s) (IsSolid-print s), parse_part-print s k, parse_parts-print ss h)
      refl

eq_star-print : (s : Span) (t : Text) → eq_text (print s ++ t) star ≡ false
unfolding print
eq_star-print (one n) t = eq_star n t
eq_star-print (between a b) t = rw (append_assoc (display a) (b':' ∷ display b) t) (eq_star a _)
eq_star-print (onwards a) t = rw (append_assoc (display a) (b':' ∷ star) t) (eq_star a _)

parse_unsplit :
    (x : Text) → eq_text x star ≡ false → has_char b',' x ≡ false → parse x ≡ parse_part x
unfolding parse
parse_unsplit x h k = rw (h, k) refl

parse-print_all :
    (s : Span) (ss : List Span)
    → All IsSpan (s ∷ ss)
    → parse (print_all s ss) ≡ some (set_of_all s ss)
unfolding parse print_all set_of_all multiple_of
parse-print_all s [] (k, h) =
    parse_unsplit (print s)
      (ap (λ x. eq_text x star) (sym (append-nil (print s))) ∙ eq_star-print s [])
      (has_char-Lacks b',' (print s) (print-Lacks s))
    ∙ parse_part-print s k
parse-print_all s (t ∷ ss) h =
    simp
      (
        eq_star-print s (b',' ∷ print_all t ss),
        has_char-here b',' (print s) (print_all t ss),
        split_on-join b',' (print s) (print_all t ss) (print-Lacks s),
        split_on-print_all t ss,
      )
      (ap multiple_of (parse_parts-print (s ∷ t ∷ ss) h) ∙ (unfold sets_of in refl))

or_false : (b : Bool) → (b || false) ≡ b
or_false true = refl
or_false false = refl

any_contains-sets_of :
    (ss : List Span) (seq top : ℕ)
    → All IsSpan ss
    → any_contains (sets_of ss) seq top ≡ any_names ss seq top
unfolding sets_of any_names contains
any_contains-sets_of [] seq top h = refl
any_contains-sets_of (s ∷ ss) seq top (k, h) =
    simp (contains-set_of s seq top k, any_contains-sets_of ss seq top h) refl

contains-set_of_all :
    (s : Span) (ss : List Span) (seq top : ℕ)
    → All IsSpan (s ∷ ss)
    → contains (set_of_all s ss) seq top ≡ any_names (s ∷ ss) seq top
unfolding set_of_all any_names contains sets_of
contains-set_of_all s [] seq top (k, h) =
    contains-set_of s seq top k ∙ sym (or_false (names s seq top))
contains-set_of_all s (t ∷ ss) seq top h = any_contains-sets_of (s ∷ t ∷ ss) seq top h

-- A sequence set that a client writes as numbers `n`, ranges `a:b` and open ranges `a:*` between
-- commas, all below 2^32 - 1, is parsed, and contains a number exactly if one of them names it: `n`
-- itself, the numbers from `a` to `b`, and those from `a` to the greatest. (So `5:3` names nothing.)
pub parse-contains :
    (s : Span) (ss : List Span) (seq top : ℕ)
    → All IsSpan (s ∷ ss)
    → (parse (print_all s ss) ≡ some (set_of_all s ss))
      × (contains (set_of_all s ss) seq top ≡ any_names (s ∷ ss) seq top)
parse-contains s ss seq top h = (parse-print_all s ss h, contains-set_of_all s ss seq top h)
