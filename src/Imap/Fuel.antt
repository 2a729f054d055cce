-- ===== src/Imap/Fuel.antt =====
-- The fuel of the parser of search keys is enough.
use mathlib.Core.List.{reverse, reverse-cons}
use mai_rust.Common.{
  ℕ, zero, suc, Option, none, some, sym, ◌-◌, ◌≤◌, ◌<◌, ◌≡◌, refl, ap, ◌∙◌, Bool-cases, inl, inr,
  false, [], ◌∷◌, length, length-append, ◌==◌, arith,
}
use mai_rust.Common.Text.{
  Text, lit, eq_text, is_empty, is_space, trim, trim_start, trim_end, split_once, to_uppercase,
}
use mai_rust.Smtp.Parse.{get_or_empty}
use mai_rust.Imap.Types.{SearchCriteria, all_key, not_key}
use mai_rust.Imap.Outcome.{Outcome, parsed, ◌>>=◌}
use mai_rust.Imap.SearchKeys.{
  simple_key, argument_key, negated, choose_key, or_refused, parse_criteria, parse_search_criteria,
}

length-trim_start : (s : Text) → length (trim_start s) ≤ length s
unfolding trim_start
length-trim_start [] = omega arith
length-trim_start (c ∷ s) = elim (Bool-cases (is_space c)) [
  | inl space ↦ rw space (omega (arith, length-trim_start s))
  | inr solid ↦ rw solid (omega arith)
]

length-reverse : (s : Text) → length (reverse s) ≡ length s
length-reverse [] = refl
length-reverse (c ∷ s) =
    ap length (reverse-cons c s)
    ∙ omega (arith, length-append (reverse s) (c ∷ []), length-reverse s)

length-trim : (s : Text) → length (trim s) ≤ length s
unfolding trim trim_end
length-trim s = omega (
  arith,
  length-trim_start s,
  length-reverse (trim_start s),
  length-trim_start (reverse (trim_start s)),
  length-reverse (trim_start (reverse (trim_start s))),
)

length-behind : (sep : ℕ) (s : Text) → length (get_or_empty (split_once sep s).1) ≤ length s - 1
unfolding split_once
length-behind sep [] = omega arith
length-behind sep (c ∷ s) = elim (Bool-cases (c == sep)) [
  | inl here ↦ rw here (omega arith)
  | inr later ↦ rw later (omega (arith, length-behind sep s))
]

not_empty : (s : Text) → is_empty s ≡ false → 0 < length s
unfolding is_empty
not_empty [] h = cc
not_empty (c ∷ s) h = omega arith

-- A key has an outcome if the value of a NOT has one.
choose_key-some :
    (o : Option SearchCriteria) (key value : Text) (inner : Outcome SearchCriteria)
    → (r : Outcome SearchCriteria) × (choose_key o key value (some inner) ≡ some r)
unfolding choose_key negated
choose_key-some (some simple) key value inner = (parsed simple, refl)
choose_key-some none key value inner = elim (Bool-cases (eq_text key (lit "NOT"))) [
  | inl negation ↦ (inner >>= (λ c. parsed (not_key c)), rw negation refl)
  | inr other ↦ (argument_key key value, rw other refl)
]

module _ (wide : ℕ → Text) where
  -- Any two amounts of fuel above the length give the same outcome.
  agree :
      (n m : ℕ) (args : Text)
      → length args < n
      → length args < m
      → (r : Outcome SearchCriteria) × (parse_criteria wide n args ≡ some r)
        × (parse_criteria wide m args ≡ some r)
  unfolding parse_criteria
  agree zero m args h k = absurd (omega arith)
  agree (suc n) zero args h k = absurd (omega arith)
  agree (suc n) (suc m) args h k = elim (Bool-cases (is_empty (trim args))) [
    | inl empty ↦ (parsed all_key, rw empty refl, rw empty refl)
    | inr some_text ↦
        let value = get_or_empty (split_once b' ' (trim args)).1 in
        let short : length value < length args = omega (
          arith,
          length-behind b' ' (trim args),
          length-trim args,
          not_empty (trim args) some_text,
        ) in
        let (inner, e, f) = agree n m value (omega arith) (omega arith) in
        let (r, g) =
          choose_key-some (simple_key (to_uppercase wide (trim args)))
            (to_uppercase wide (split_once b' ' (trim args)).0) value inner in
        (r, rw (some_text, e) g, rw (some_text, f) g)
  ]

  -- The search keys of a line are parsed to the end: with any fuel above the length of the line, the
  -- recursion through NOT does not run out, and it comes to the outcome of the parser.
  pub parse_criteria-fuel :
      (fuel : ℕ) (args : Text)
      → length args < fuel
      → parse_criteria wide fuel args ≡ some (parse_search_criteria wide args)
  unfolding parse_search_criteria or_refused
  parse_criteria-fuel fuel args h =
      let (r, e, f) = agree fuel (suc (length args)) args h (omega arith) in
      e ∙ sym (ap (λ o. some (or_refused o)) f)
