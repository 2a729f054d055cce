-- ===== src/Policy/Order.antt =====
-- Which policies match, and in which order they stand.
use mathlib.Core.List.Permᴰ
use mathlib.Core.List.{Permᴰ}
use mai_rust.Common.{
  ℕ, ◌≤◌, ◌≡◌, refl, ap, sym, subst, ◌∙◌, Bool, Bool-cases, inl, inr, true, false, some, not, ◌&&◌,
  ◌||◌, List, [], ◌∷◌, All, keep, map, if◌then◌else◌, ltb, ltb→lt, arith,
}
use mai_rust.Common.Text.{eq_text, lit}
use mai_rust.Common.Results.{ok}
use mai_rust.Policy.Types.{PolicyRule, PolicyContext, PolicyMatch, PolicyEvaluationResult, Services}
use mai_rust.Policy.Conditions.{evaluate_conditions}
use mai_rust.Policy.Engine.{
  evaluate, evaluate_policies, insert_match, sort_matches, is_match, matches_of, is_applicable,
  null_or, or_empty, match_of,
}
use mai_rust.Policy.Verdict.{evaluate-evaluate_policies}

-- The conditions of a policy hold.
abbrev pub holds : Services → PolicyContext → PolicyRule → Bool
holds sv c p = evaluate_conditions sv (or_empty (sv.read_conditions p.conditions)) c

-- The matches stand in descending priority.
abbrev pub IsSorted : List PolicyMatch → Type 0
IsSorted [] = Unit
IsSorted (m ∷ ms) = All (λ n. n.priority ≤ m.priority) ms × IsSorted ms

module _ {ℓ} {A : Type ℓ} (p : A → Bool) where
  kept_cons-Permᴰ :
      (a b : A) (xs ys : List A) (c d : Bool)
      → a ≡ b
      → c ≡ d
      → Permᴰ xs ys
      → Permᴰ (if c then a ∷ xs else xs) (if d then b ∷ ys else ys)
  kept_cons-Permᴰ a b xs ys true true e f h = Permᴰ.cons e h
  kept_cons-Permᴰ a b xs ys true false e f h = cc
  kept_cons-Permᴰ a b xs ys false true e f h = cc
  kept_cons-Permᴰ a b xs ys false false e f h = h

  kept_swap-Permᴰ :
      (a b : A) (xs : List A) (c d : Bool)
      → Permᴰ
          (if c then a ∷ (if d then b ∷ xs else xs) else (if d then b ∷ xs else xs))
          (if d then b ∷ (if c then a ∷ xs else xs) else (if c then a ∷ xs else xs))
  kept_swap-Permᴰ a b xs true true = Permᴰ.swap refl refl
  kept_swap-Permᴰ a b xs true false = Permᴰ.refl (a ∷ xs)
  kept_swap-Permᴰ a b xs false true = Permᴰ.refl (b ∷ xs)
  kept_swap-Permᴰ a b xs false false = Permᴰ.refl xs

  keep-Permᴰ : (xs ys : List A) → Permᴰ xs ys → Permᴰ (keep p xs) (keep p ys)
  keep-Permᴰ _ _ Permᴰ.nil = Permᴰ.nil
  keep-Permᴰ _ _ (Permᴰ.cons {a} {b} {l₁} {l₂} e d) =
      kept_cons-Permᴰ a b (keep p l₁) (keep p l₂) (p a) (p b) e (ap p e) (keep-Permᴰ l₁ l₂ d)
  keep-Permᴰ _ _ (Permᴰ.swap {a} {b} {a'} {b'} {l} e f) =
      subst (λ x. Permᴰ (keep p (a ∷ b ∷ l)) (keep p (x ∷ b' ∷ l))) f
        (subst (λ x. Permᴰ (keep p (a ∷ b ∷ l)) (keep p (b ∷ x ∷ l))) e
          (kept_swap-Permᴰ a b (keep p l) (p a) (p b)))
  keep-Permᴰ xs zs (Permᴰ.trans {l₂ = ys} d e) =
      Permᴰ.trans (keep-Permᴰ xs ys d) (keep-Permᴰ ys zs e)

insert_match-Permᴰ : (m : PolicyMatch) (ns : List PolicyMatch) → Permᴰ (insert_match m ns) (m ∷ ns)
unfolding insert_match
insert_match-Permᴰ m [] = Permᴰ.refl (m ∷ [])
insert_match-Permᴰ m (n ∷ ns) = elim (Bool-cases (ltb m.priority n.priority)) [
  | inl e ↦ rw e (Permᴰ.trans (Permᴰ.cons refl (insert_match-Permᴰ m ns)) (Permᴰ.swap refl refl))
  | inr e ↦ rw e (Permᴰ.refl (m ∷ n ∷ ns))
]

sort_matches-Permᴰ : (ms : List PolicyMatch) → Permᴰ (sort_matches ms) ms
unfolding sort_matches
sort_matches-Permᴰ [] = Permᴰ.nil
sort_matches-Permᴰ (m ∷ ms) =
    Permᴰ.trans (insert_match-Permᴰ m (sort_matches ms)) (Permᴰ.cons refl (sort_matches-Permᴰ ms))

not_less : (a b : ℕ) → ltb a b ≡ false → b ≤ a
not_less a b h = ground arith

below_all : (a b c : ℕ) → a ≤ b → b ≤ c → a ≤ c
below_all a b c h k = omega arith

abbrev IsBelow : ℕ → List PolicyMatch → Type 0
IsBelow k ms = All (λ n. n.priority ≤ k) ms

insert_match-IsBelow :
    (k : ℕ) (m : PolicyMatch) (ns : List PolicyMatch)
    → m.priority ≤ k
    → IsBelow k ns
    → IsBelow k (insert_match m ns)
unfolding insert_match
insert_match-IsBelow k m [] h hs = (h, hs)
insert_match-IsBelow k m (n ∷ ns) h hs = elim (Bool-cases (ltb m.priority n.priority)) [
  | inl e ↦ rw e (hs.0, insert_match-IsBelow k m ns h hs.1)
  | inr e ↦ rw e (h, hs)
]

IsBelow-mono : (j k : ℕ) (ms : List PolicyMatch) → j ≤ k → IsBelow j ms → IsBelow k ms
IsBelow-mono j k [] le h = h
IsBelow-mono j k (m ∷ ms) le h = (below_all m.priority j k h.0 le, IsBelow-mono j k ms le h.1)

insert_match-IsSorted :
    (m : PolicyMatch) (ns : List PolicyMatch) → IsSorted ns → IsSorted (insert_match m ns)
unfolding insert_match
insert_match-IsSorted m [] h = (tt, tt)
insert_match-IsSorted m (n ∷ ns) h = elim (Bool-cases (ltb m.priority n.priority)) [
  | inl e ↦ rw e (
    insert_match-IsBelow n.priority m ns (omega (arith, ltb→lt m.priority n.priority e)) h.0,
    insert_match-IsSorted m ns h.1,
  )
  | inr e ↦
      let le = not_less m.priority n.priority e in
      rw e ((le, IsBelow-mono n.priority m.priority ns le h.0), h)
]

sort_matches-IsSorted : (ms : List PolicyMatch) → IsSorted (sort_matches ms)
unfolding sort_matches
sort_matches-IsSorted [] = tt
sort_matches-IsSorted (m ∷ ms) =
    insert_match-IsSorted m (sort_matches ms) (sort_matches-IsSorted ms)

-- The policies that are both listed by the query and kept by the loop.
keep-keep {ℓ} :
    {A : Type ℓ} (p q s : A → Bool) (xs : List A)
    → ((x : A) → (p x && q x) ≡ s x)
    → keep q (keep p xs) ≡ keep s xs
keep-keep p q s [] h = refl
keep-keep p q s (x ∷ xs) h = elim (Bool-cases (p x)) [
  | inl e ↦
      let eq : q x ≡ s x = ap (λ b. b && q x) (sym e) ∙ h x in
      rw e (rw eq (ap (λ l. if s x then x ∷ l else l) (keep-keep p q s xs h)))
  | inr e ↦
      let eq : false ≡ s x = ap (λ b. b && q x) (sym e) ∙ h x in
      rw e (rw (sym eq) (keep-keep p q s xs h))
]

-- The loop's tests of a row that the query lists leave only its conditions.
tests_again :
    (e t d i b h : Bool)
    → ((e && t && d && (i || b)) && (if not e then false else if not i && not b then false else h))
      ≡ ((e && t && d && (i || b)) && h)
tests_again true t d true b h = refl
tests_again true t d false true h = refl
tests_again true true true false false h = refl
tests_again true true false false false h = refl
tests_again true false d false false h = refl
tests_again false t d i b h = refl

is_applicable-is_match :
    (sv : Services) (c : PolicyContext) (p : PolicyRule)
    → (is_applicable c p && is_match sv c p) ≡ (is_applicable c p && holds sv c p)
unfolding is_applicable is_match
is_applicable-is_match sv c p =
    tests_again p.enabled (null_or p.tenant_id (some c.tenant_id)) (null_or p.domain_id c.domain_id)
      (eq_text p.policy_type c.policy_type) (eq_text p.policy_type (lit "both")) (holds sv c p)

-- Policies that apply to a message: enabled, of its tenant or of none, of its domain or of none, for
-- its direction or for both, and with conditions that all hold.
abbrev pub applies : Services → PolicyContext → PolicyRule → Bool
applies sv c p = is_applicable c p && holds sv c p

matches_of-keep :
    (sv : Services) (c : PolicyContext) (table : List PolicyRule)
    → matches_of sv c (keep (is_applicable c) table) ≡ map (match_of sv) (keep (applies sv c) table)
unfolding matches_of
matches_of-keep sv c table =
    ap (map (match_of sv)) (
      keep-keep (is_applicable c) (is_match sv c) (applies sv c) table
        (is_applicable-is_match sv c))

matches_of-Permᴰ :
    (sv : Services) (c : PolicyContext) (ps qs : List PolicyRule)
    → Permᴰ ps qs
    → Permᴰ (matches_of sv c ps) (matches_of sv c qs)
unfolding matches_of
matches_of-Permᴰ sv c ps qs h = Permᴰ.map (match_of sv) (keep-Permᴰ (is_match sv c) ps qs h)

-- What the result lists, empty or not.
evaluate_policies-matches :
    (sv : Services) (c : PolicyContext) (ps : List PolicyRule)
    → (evaluate_policies sv c ps).matches ≡ sort_matches (matches_of sv c ps)
unfolding evaluate_policies matches_of sort_matches
evaluate_policies-matches sv c [] = refl
evaluate_policies-matches sv c (p ∷ ps) = refl

-- If the query's ORDER BY only reorders the rows, then the matches of a successful evaluation stand
-- in descending priority and are, up to their order, one for each policy of the table that is
-- enabled, of the message's tenant or of none, of its domain or of none, for its direction or for
-- both, and whose conditions all hold, and no others.
pub evaluate-IsSorted :
    (sv : Services) (c : PolicyContext) (table : List PolicyRule) (r : PolicyEvaluationResult)
    → ((ps : List PolicyRule) → Permᴰ (sv.by_priority ps) ps)
    → evaluate sv c table ≡ ok r
    → IsSorted r.matches × Permᴰ r.matches (map (match_of sv) (keep (applies sv c) table))
evaluate-IsSorted sv c table r reorders h =
    let ps = sv.by_priority (keep (is_applicable c) table) in
    let ms = matches_of sv c ps in
    let e : sort_matches ms ≡ r.matches =
      sym (evaluate_policies-matches sv c ps)
      ∙ ap (λ x. x.matches) (evaluate-evaluate_policies sv c table r h) in
    rw (sym e) (
      sort_matches-IsSorted ms,
      Permᴰ.trans (sort_matches-Permᴰ ms) (
          subst (Permᴰ ms) (matches_of-keep sv c table) (
            matches_of-Permᴰ sv c ps (keep (is_applicable c) table)
              (reorders (keep (is_applicable c) table)))),
    )
