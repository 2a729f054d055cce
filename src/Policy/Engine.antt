-- ===== src/Policy/Engine.antt =====
-- The actions of policies and `evaluate` (policy/engine.rs).
use mai_rust.Common.{
  ℕ, ◌++◌, Bool, true, false, not, ◌&&◌, ◌||◌, Option, none, some, List, [], ◌∷◌, keep, map,
  if◌then◌else◌, ◌==◌, ltb, ◌%◌, ◌^◌,
}
use mai_rust.Common.Text.{Text, lit, eq_text, is_empty}
use mai_rust.Common.Results.{Result, ok, err, ◌>>=◌}
use mai_rust.Smtp.Parse.{get_or_empty}
use mai_rust.Policy.Types.{
  Json, Values, no_values, more_values, as_str, as_array, get, PolicyActionType, allow_action,
  reject_action, tempfail_action, quarantine_action, tag_action, redirect_action, add_header_action,
  modify_subject_action, rate_limit_action, require_tls_action, PolicyAction, PolicyRule,
  PolicyContext, PolicyMatch, PolicyEvaluationResult, Services,
}
use mai_rust.Policy.Operators.{text_of, number_of, or_else}
use mai_rust.Policy.Conditions.{evaluate_conditions}

abbrev pub default_result : PolicyEvaluationResult
default_result = record {
  matches = [];
  final_action = none;
  allow = true;
  reject = false;
  smtp_code = none;
  smtp_message = none;
  tags = [];
  headers_to_add = [];
  quarantine = false;
  redirect_to = none;
}

-- `code as u16`.
abbrev pub code_of : Json → Option ℕ
code_of params = elim (number_of (get (lit "code") params)) [
  | none ↦ none
  | some c ↦ some (c % 2 ^ 16)
]

unfoldable pub array_texts : Values → List Text
array_texts no_values = []
array_texts (more_values v vs) = elim (as_str v) [
  | none ↦ array_texts vs
  | some t ↦ t ∷ array_texts vs
]

abbrev pub array_of : Option Json → Option Values
array_of none = none
array_of (some v) = as_array v

abbrev pub texts_of : Option Values → List Text
texts_of none = []
texts_of (some vs) = array_texts vs

abbrev pub to_list {ℓ} : {A : Type ℓ} → Option A → List A
to_list none = []
to_list (some a) = a ∷ []

abbrev pub add_header : Text → Text → PolicyEvaluationResult → PolicyEvaluationResult
add_header name value r =
    if not (is_empty name)
    then record r { headers_to_add = r.headers_to_add ++ (name, value) ∷ [] }
    else r

unfoldable pub apply_type :
    PolicyActionType → Json → PolicyEvaluationResult → PolicyEvaluationResult
unfolding array_texts
apply_type allow_action params r = record r { allow = true; reject = false }
apply_type reject_action params r = record r {
  allow = false;
  reject = true;
  smtp_code = code_of params;
  smtp_message = text_of (get (lit "message") params);
}
apply_type tempfail_action params r = record r {
  allow = false;
  reject = true;
  smtp_code = some (or_else (code_of params) 451);
  smtp_message = some (
      or_else (text_of (get (lit "message") params))
        (lit "Temporary failure, please try again later"));
}
apply_type quarantine_action params r = record r { quarantine = true }
apply_type tag_action params r = record r {
  tags =
      r.tags
      ++ texts_of (array_of (get (lit "tags") params))
      ++ to_list (text_of (get (lit "tag") params));
}
apply_type redirect_action params r = record r {
  redirect_to = text_of (get (lit "address") params);
}
apply_type add_header_action params r =
    add_header (get_or_empty (text_of (get (lit "name") params)))
      (get_or_empty (text_of (get (lit "value") params))) r
apply_type modify_subject_action params r =
    let prefix = get_or_empty (text_of (get (lit "prefix") params)) in
    if not (is_empty prefix)
    then record r { headers_to_add = r.headers_to_add ++ (lit "X-Subject-Prefix", prefix) ∷ [] }
    else r
apply_type rate_limit_action params r = record r { tags = r.tags ++ lit "rate_limited" ∷ [] }
apply_type require_tls_action params r = record r {
  headers_to_add = r.headers_to_add ++ (lit "X-Require-TLS", lit "true") ∷ [];
}

abbrev pub apply_action : PolicyAction → PolicyEvaluationResult → PolicyEvaluationResult
apply_action a r = apply_type a.action_type a.parameters r

unfoldable pub apply_actions : List PolicyAction → PolicyEvaluationResult → PolicyEvaluationResult
unfolding apply_type
apply_actions [] r = r
apply_actions (a ∷ rest) r = apply_actions rest (apply_action a r)

-- The two loops over the matches and their actions.
unfoldable pub apply_matches : List PolicyMatch → PolicyEvaluationResult → PolicyEvaluationResult
unfolding apply_actions
apply_matches [] r = r
apply_matches (m ∷ ms) r = apply_matches ms (apply_actions m.actions r)

-- `column IS NULL OR column = $n`, where a parameter that is NULL equals nothing.
unfoldable pub null_or : Option ℕ → Option ℕ → Bool
null_or none parameter = true
null_or (some a) none = false
null_or (some a) (some b) = a == b

unfoldable pub is_applicable : PolicyContext → PolicyRule → Bool
unfolding null_or
is_applicable c p =
    p.enabled
    && null_or p.tenant_id (some c.tenant_id)
    && null_or p.domain_id c.domain_id
    && (eq_text p.policy_type c.policy_type || eq_text p.policy_type (lit "both"))

unfoldable pub load_policies : Services → PolicyContext → List PolicyRule → Result (List PolicyRule)
unfolding is_applicable
load_policies sv c table =
    if sv.can_select
    then ok (sv.by_priority (keep (is_applicable c) table))
    else err (lit "database")

unfoldable pub or_empty {ℓ} : {A : Type ℓ} → Option (List A) → List A
or_empty none = []
or_empty (some xs) = xs

abbrev pub match_of : Services → PolicyRule → PolicyMatch
match_of sv p = record {
  policy_id = p.id;
  policy_name = p.name;
  priority = p.priority;
  actions = or_empty (sv.read_actions p.actions);
}

-- The tests of the loop.
unfoldable pub is_match : Services → PolicyContext → PolicyRule → Bool
unfolding evaluate_conditions or_empty
is_match sv c p =
    if not p.enabled
    then false
    else if not (eq_text p.policy_type c.policy_type) && not (eq_text p.policy_type (lit "both"))
    then false
    else evaluate_conditions sv (or_empty (sv.read_conditions p.conditions)) c

unfoldable pub matches_of : Services → PolicyContext → List PolicyRule → List PolicyMatch
unfolding is_match or_empty
matches_of sv c ps = map (match_of sv) (keep (is_match sv c) ps)

-- `sort_by`, a stable sort, by descending priority.
unfoldable pub insert_match : PolicyMatch → List PolicyMatch → List PolicyMatch
insert_match m [] = m ∷ []
insert_match m (n ∷ ns) =
    let rest = insert_match m ns in if ltb m.priority n.priority then n ∷ rest else m ∷ n ∷ ns

unfoldable pub sort_matches : List PolicyMatch → List PolicyMatch
unfolding insert_match
sort_matches [] = []
sort_matches (m ∷ ms) = insert_match m (sort_matches ms)

abbrev pub first {ℓ} : {A : Type ℓ} → List A → Option A
first [] = none
first (a ∷ rest) = some a

unfoldable pub first_action : Option PolicyMatch → Option PolicyAction
first_action none = none
first_action (some m) = first m.actions

unfoldable pub evaluate_policies :
    Services → PolicyContext → List PolicyRule → PolicyEvaluationResult
unfolding matches_of sort_matches apply_matches first_action
evaluate_policies sv c [] = default_result
evaluate_policies sv c (p ∷ ps) =
    let matches = sort_matches (matches_of sv c (p ∷ ps)) in
    record (apply_matches matches default_result) {
      matches = matches;
      final_action = first_action (first matches);
    }

unfoldable pub evaluate : Services → PolicyContext → List PolicyRule → Result PolicyEvaluationResult
unfolding load_policies evaluate_policies
evaluate sv c table = load_policies sv c table >>= λ ps. ok (evaluate_policies sv c ps)
