-- ===== src/Policy/Examples.antt =====
-- Two policies that disagree, and the theorems of the policy engine at them.
use mathlib.Core.List.Permᴰ
use mathlib.Core.List.{Permᴰ, reverse}
use mai_rust.Common.{
  ℕ, ◌≡◌, refl, Bool, true, false, not, Option, none, some, List, [], ◌∷◌, ◌++◌, map, keep,
  if◌then◌else◌, ◌==◌, arith,
}
use mai_rust.Common.Text.{Text, lit, eq_text, split_once, to_lowercase}
use mai_rust.Common.Decimal.{display}
use mai_rust.Common.Results.{ok}
use mai_rust.Policy.Types.{
  Json, null, boolean, string, PolicyCondition, PolicyAction, PolicyRule, PolicyContext,
  PolicyEvaluationResult, IpAddr, v4, sender_domain, allow_action, reject_action, Services,
}
use mai_rust.Policy.Conditions
use mai_rust.Policy.Networks.{ip_in_cidr}
use mai_rust.Policy.Operators
use mai_rust.Policy.Engine
use mai_rust.Policy.Context
use mai_rust.Policy.Context.{for_inbound}
use mai_rust.Policy.Engine.{evaluate, evaluate_policies, is_applicable, match_of}
use mai_rust.Policy.Verdict.{actions_of}
use mai_rust.Policy.Adding.{
  gathered, tags_of, headers_of, any_action, quarantines, is_refusal, is_allow,
}
use mai_rust.Policy.Gathered.{is_founded, evaluate-gathered}
use mai_rust.Policy.Order.{IsSorted, applies, evaluate-IsSorted}
use mai_rust.Policy.Blocks.{ip_in_cidr-in_block}

-- A text stands for the condition that it is the sender's domain.
abbrev conditions_of : Json → Option (List PolicyCondition)
conditions_of (string d) = some (
    record { condition_type = sender_domain; operator = lit "eq"; value = string d; negate = false }
    ∷ [])
conditions_of _ = none

-- A Boolean stands for the action that refuses a message or allows it.
abbrev actions_from : Json → Option (List PolicyAction)
actions_from (boolean b) =
    some
      (record { action_type = if b then reject_action else allow_action; parameters = null } ∷ [])
actions_from _ = none

abbrev address_of : Text → Option IpAddr
address_of s =
    if eq_text s (lit "10.0.0.7")
    then some (v4 167772167)
    else if eq_text s (lit "10.0.0.0")
    then some (v4 167772160)
    else none

abbrev services : Services
services = record {
  wide_lower = λ c. c ∷ [];
  f64_of = λ n. n;
  f64_lt = λ a b. false;
  f64_le = λ a b. false;
  f64_near = λ a b. a == b;
  f64_far = λ a b. not (a == b);
  f64_zero = 0;
  parse_ip = address_of;
  regex_match = λ re s. false;
  read_conditions = conditions_of;
  read_actions = actions_from;
  can_select = true;
  by_priority = reverse;
}

abbrev policy : ℕ → Option ℕ → ℕ → Json → Bool → PolicyRule
policy id tenant priority conditions refused = record {
  id = id;
  tenant_id = tenant;
  domain_id = none;
  name = lit "policy";
  policy_type = lit "both";
  priority = priority;
  enabled = true;
  conditions = conditions;
  actions = boolean refused;
}

-- A tenant's policy that allows a domain, a stronger one of all tenants that refuses everything, and
-- one of another tenant.
abbrev policies : List PolicyRule
policies =
    policy 1 (some 4) 10 (string (lit "a.b")) false
    ∷ policy 2 none 20 null true
    ∷ policy 3 (some 5) 30 null true
    ∷ []

abbrev message : PolicyContext
message = for_inbound (λ c. c ∷ []) 9 0 4 none (some (lit "x@A.b")) (lit "y@c.d" ∷ [])

abbrev result : PolicyEvaluationResult
result = evaluate_policies services message (reverse (keep (is_applicable message) policies))

loads : evaluate services message policies ≡ ok result
unfolding evaluate Engine.load_policies
loads = refl

-- The weaker of the two matches wins: the message is let through, though the stronger refuses it.
not_refused : (result.reject ≡ false) × (map (λ m. m.policy_id) result.matches ≡ 2 ∷ 1 ∷ [])
unfolding evaluate_policies Engine.matches_of Engine.sort_matches Engine.insert_match
    Engine.apply_matches Engine.apply_actions Engine.apply_type Engine.first_action Engine.is_match
    Engine.or_empty is_applicable Engine.null_or for_inbound Context.sender_domain_of
    Context.domains_of Context.second_part Conditions.evaluate_conditions Conditions.evaluate_type
    Operators.evaluate_string_condition Operators.string_operator eq_text lit split_once
    to_lowercase
not_refused = (refl, refl)

evaluate-gathered_example :
    let actions = actions_of result.matches in
    (result.tags ≡ gathered tags_of actions)
    × (result.headers_to_add ≡ gathered headers_of actions)
    × (result.quarantine ≡ any_action quarantines actions)
    × (is_founded result.reject (any_action is_refusal actions) (any_action is_allow actions)
        ≡ true)
    × (result.allow ≡ not result.reject)
evaluate-gathered_example = evaluate-gathered services message policies result loads

evaluate-IsSorted_example :
    IsSorted result.matches
    × Permᴰ result.matches (map (match_of services) (keep (applies services message) policies))
evaluate-IsSorted_example = evaluate-IsSorted services message policies result Permᴰ.reverse loads

ip_in_cidr-in_block_example :
    ip_in_cidr services (lit "10.0.0.7") (lit "10.0.0.0" ++ b'/' ∷ display 24) ≡ true
unfolding lit eq_text
ip_in_cidr-in_block_example =
    ip_in_cidr-in_block services (lit "10.0.0.7") (lit "10.0.0.0") (v4 167772167) (v4 167772160) 24
      refl refl (refl, (refl, (refl, (refl, (refl, (refl, (refl, (refl, tt)))))))) (omega arith)
