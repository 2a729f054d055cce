-- ===== src/Policy/Verdict.antt =====
-- What the policies decide of a message: the last decision in the order of the matches.
use mai_rust.Common.{
  ◌≡◌, refl, ap, sym, ◌∙◌, Bool, Bool-cases, inl, inr, keep, subst, true, false, not, Option, none,
  some, List, [], ◌∷◌, ◌++◌, if◌then◌else◌,
}
use mai_rust.Common.Text.{Text, lit, is_empty}
use mai_rust.Common.Results.{ok, err, ◌>>=◌}
use mai_rust.Policy.Types.{
  Json, get, PolicyActionType, allow_action, reject_action, tempfail_action, quarantine_action,
  tag_action, redirect_action, add_header_action, modify_subject_action, rate_limit_action,
  require_tls_action, PolicyAction, PolicyRule, PolicyContext, PolicyMatch, PolicyEvaluationResult,
  Services,
}
use mai_rust.Smtp.Parse.{get_or_empty}
use mai_rust.Policy.Operators.{text_of}
use mai_rust.Policy.Engine.{
  default_result, sort_matches, matches_of, apply_type, apply_actions, apply_matches, add_header,
  evaluate, evaluate_policies, load_policies, is_applicable,
}

-- Whether an action refuses the message (`some true`), lets it pass (`some false`) or decides nothing.
abbrev pub decision : PolicyActionType → Option Bool
decision allow_action = some false
decision reject_action = some true
decision tempfail_action = some true
decision _ = none

abbrev pub overridden_by : Option Bool → Option Bool → Option Bool
overridden_by earlier none = earlier
overridden_by earlier (some d) = some d

abbrev pub last_decision : List PolicyAction → Option Bool
last_decision [] = none
last_decision (a ∷ rest) = overridden_by (decision a.action_type) (last_decision rest)

abbrev pub actions_of : List PolicyMatch → List PolicyAction
actions_of [] = []
actions_of (m ∷ ms) = m.actions ++ actions_of ms

-- A message is refused if the last decision refuses it.
abbrev pub refuses : Option Bool → Bool
refuses none = false
refuses (some d) = d

abbrev refused_after : Bool → Option Bool → Bool
refused_after b none = b
refused_after b (some d) = d

refused_after-overridden_by :
    (b : Bool) (o p : Option Bool)
    → refused_after b (overridden_by o p) ≡ refused_after (refused_after b o) p
refused_after-overridden_by b o none = refl
refused_after-overridden_by b o (some d) = refl

-- The two flags of a result are those of `b`.
abbrev IsDecided : Bool → PolicyEvaluationResult → Type 0
IsDecided b r = (r.allow ≡ not b) × (r.reject ≡ b)

add_header-IsDecided :
    (b : Bool) (name value : Text) (r : PolicyEvaluationResult)
    → IsDecided b r
    → IsDecided b (add_header name value r)
add_header-IsDecided b name value r h = elim (Bool-cases (is_empty name)) [
  | inl e ↦ rw e h
  | inr e ↦ rw e h
]

apply_type-IsDecided :
    (b : Bool) (t : PolicyActionType) (params : Json) (r : PolicyEvaluationResult)
    → IsDecided b r
    → IsDecided (refused_after b (decision t)) (apply_type t params r)
unfolding apply_type
apply_type-IsDecided b allow_action params r h = (refl, refl)
apply_type-IsDecided b reject_action params r h = (refl, refl)
apply_type-IsDecided b tempfail_action params r h = (refl, refl)
apply_type-IsDecided b quarantine_action params r h = h
apply_type-IsDecided b tag_action params r h = h
apply_type-IsDecided b redirect_action params r h = h
apply_type-IsDecided b add_header_action params r h =
    add_header-IsDecided b (get_or_empty (text_of (get (lit "name") params)))
      (get_or_empty (text_of (get (lit "value") params))) r h
apply_type-IsDecided b modify_subject_action params r h =
    elim (Bool-cases (is_empty (get_or_empty (text_of (get (lit "prefix") params))))) [
      | inl e ↦ rw e h
      | inr e ↦ rw e h
    ]
apply_type-IsDecided b rate_limit_action params r h = h
apply_type-IsDecided b require_tls_action params r h = h

apply_actions-IsDecided :
    (b : Bool) (xs : List PolicyAction) (r : PolicyEvaluationResult)
    → IsDecided b r
    → IsDecided (refused_after b (last_decision xs)) (apply_actions xs r)
unfolding apply_actions
apply_actions-IsDecided b [] r h = h
apply_actions-IsDecided b (a ∷ xs) r h =
    rw (refused_after-overridden_by b (decision a.action_type) (last_decision xs)) (
      apply_actions-IsDecided (refused_after b (decision a.action_type)) xs
        (apply_type a.action_type a.parameters r)
        (apply_type-IsDecided b a.action_type a.parameters r h))

-- The two loops are one over all the actions.
apply_actions-append :
    (xs ys : List PolicyAction) (r : PolicyEvaluationResult)
    → apply_actions (xs ++ ys) r ≡ apply_actions ys (apply_actions xs r)
unfolding apply_actions
apply_actions-append [] ys r = refl
apply_actions-append (a ∷ xs) ys r =
    apply_actions-append xs ys (apply_type a.action_type a.parameters r)

pub apply_matches-actions_of :
    (ms : List PolicyMatch) (r : PolicyEvaluationResult)
    → apply_matches ms r ≡ apply_actions (actions_of ms) r
unfolding apply_matches
apply_matches-actions_of [] r = refl
apply_matches-actions_of (m ∷ ms) r =
    apply_matches-actions_of ms (apply_actions m.actions r)
    ∙ sym (apply_actions-append m.actions (actions_of ms) r)

refused_after-refuses : (o : Option Bool) → refused_after false o ≡ refuses o
refused_after-refuses none = refl
refused_after-refuses (some d) = refl

apply_matches-IsDecided :
    (ms : List PolicyMatch)
    → IsDecided (refuses (last_decision (actions_of ms))) (apply_matches ms default_result)
apply_matches-IsDecided ms = rw (apply_matches-actions_of ms default_result) (
    rw (sym (refused_after-refuses (last_decision (actions_of ms))))
      (apply_actions-IsDecided false (actions_of ms) default_result (refl, refl)))

evaluate_policies-IsDecided :
    (sv : Services) (c : PolicyContext) (ps : List PolicyRule)
    → IsDecided
        (refuses (last_decision (actions_of (evaluate_policies sv c ps).matches)))
        (evaluate_policies sv c ps)
unfolding evaluate_policies
evaluate_policies-IsDecided sv c [] = (refl, refl)
evaluate_policies-IsDecided sv c (p ∷ ps) =
    apply_matches-IsDecided (sort_matches (matches_of sv c (p ∷ ps)))

selected_rows {ℓ κ} :
    {A : Type ℓ} {B : Type κ} (f : A → B) (b : Bool) (a : A) (e : Text) (r : B)
    → ((if b then ok a else err e) >>= λ x. ok (f x)) ≡ ok r
    → f a ≡ r
selected_rows f true a e r h = cc
selected_rows f false a e r h = cc

-- What a successful evaluation returns.
pub evaluate-evaluate_policies :
    (sv : Services) (c : PolicyContext) (table : List PolicyRule) (r : PolicyEvaluationResult)
    → evaluate sv c table ≡ ok r
    → evaluate_policies sv c (sv.by_priority (keep (is_applicable c) table)) ≡ r
unfolding evaluate load_policies
evaluate-evaluate_policies sv c table r h =
    selected_rows (evaluate_policies sv c) sv.can_select
      (sv.by_priority (keep (is_applicable c) table)) (lit "database") r h

-- When the policies load, the message is refused exactly if the last of the actions of the matches,
-- in their order, that allows, rejects or fails temporarily does not allow it, and the two flags of
-- the result are opposite: of two matches that decide, the later one wins.
pub evaluate-last_decision :
    (sv : Services) (c : PolicyContext) (table : List PolicyRule) (r : PolicyEvaluationResult)
    → evaluate sv c table ≡ ok r
    → (r.reject ≡ refuses (last_decision (actions_of r.matches))) × (r.allow ≡ not r.reject)
evaluate-last_decision sv c table r h =
    let decided =
      subst (λ x. IsDecided (refuses (last_decision (actions_of x.matches))) x)
        (evaluate-evaluate_policies sv c table r h)
        (evaluate_policies-IsDecided sv c (sv.by_priority (keep (is_applicable c) table))) in
    (decided.1, decided.0 ∙ ap not (sym decided.1))
