-- ===== src/Policy/Gathered.antt =====
-- What a message gets from the policies that match it: the tags, the headers, the quarantine and the
-- decision of all their actions.
use mai_rust.Common.{
  ◌≡◌, refl, sym, subst, ◌∙◌, Bool, true, false, not, ◌||◌, Option, none, some, List, [], ◌∷◌, keep,
  if◌then◌else◌, arith,
}
use mai_rust.Common.Results.{ok}
use mai_rust.Policy.Types.{
  PolicyActionType, allow_action, reject_action, tempfail_action, PolicyAction, PolicyRule,
  PolicyContext, PolicyEvaluationResult, Services,
}
use mai_rust.Policy.Engine.{
  default_result, apply_matches, evaluate, evaluate_policies, is_applicable, matches_of,
  sort_matches,
}
use mai_rust.Policy.Verdict.{
  decision, last_decision, overridden_by, actions_of, refuses, evaluate-last_decision,
  evaluate-evaluate_policies, apply_matches-actions_of,
}
use mai_rust.Policy.Adding.{
  tags_of, headers_of, quarantines, is_allow, is_refusal, gathered, any_action, Adds, Adds-nothing,
  or_false, apply_actions-Adds,
}

evaluate_policies-Adds :
    (sv : Services) (c : PolicyContext) (ps : List PolicyRule)
    → let r = evaluate_policies sv c ps in
      Adds
        (gathered tags_of (actions_of r.matches))
        (gathered headers_of (actions_of r.matches))
        (any_action quarantines (actions_of r.matches))
        default_result
        r
unfolding evaluate_policies
evaluate_policies-Adds sv c [] = Adds-nothing default_result default_result refl refl refl
evaluate_policies-Adds sv c (p ∷ ps) =
    let ms = sort_matches (matches_of sv c (p ∷ ps)) in
    let added : Adds (gathered tags_of (actions_of ms)) (gathered headers_of (actions_of ms))
        (any_action quarantines (actions_of ms)) default_result (apply_matches ms default_result) =
      subst
        (Adds (gathered tags_of (actions_of ms)) (gathered headers_of (actions_of ms))
          (any_action quarantines (actions_of ms)) default_result)
        (sym (apply_matches-actions_of ms default_result))
        (apply_actions-Adds (actions_of ms) default_result) in
    record { tags = added.tags; headers = added.headers; quarantine = added.quarantine }

-- How the last decision fits with whether there is a refusal and whether there is an Allow.
abbrev Fits : Option Bool → Bool → Bool → Type 0
Fits none refusal allows = refusal ≡ false
Fits (some true) refusal allows = refusal ≡ true
Fits (some false) refusal allows = allows ≡ true

Fits-step :
    (t : PolicyActionType) (o : Option Bool) (refusal allows : Bool)
    → Fits o refusal allows
    → Fits (overridden_by (decision t) o) (is_refusal t || refusal) (is_allow t || allows)
Fits-step allow_action none b a h = refl
Fits-step allow_action (some true) b a h = h
Fits-step allow_action (some false) b a h = refl
Fits-step reject_action none b a h = refl
Fits-step reject_action (some true) b a h = refl
Fits-step reject_action (some false) b a h = h
Fits-step tempfail_action none b a h = refl
Fits-step tempfail_action (some true) b a h = refl
Fits-step tempfail_action (some false) b a h = h
Fits-step t none b a h = h
Fits-step t (some true) b a h = h
Fits-step t (some false) b a h = h

last_decision-Fits :
    (xs : List PolicyAction)
    → Fits (last_decision xs) (any_action is_refusal xs) (any_action is_allow xs)
last_decision-Fits [] = refl
last_decision-Fits (a ∷ xs) =
    Fits-step a.action_type (last_decision xs) (any_action is_refusal xs) (any_action is_allow xs)
      (last_decision-Fits xs)

-- The message is refused only by a refusal, and let pass against one only by an Allow.
abbrev pub is_founded : Bool → Bool → Bool → Bool
is_founded reject refusal allows = if reject then refusal else not refusal || allows

Fits-is_founded : (o : Option Bool) (b a : Bool) → Fits o b a → is_founded (refuses o) b a ≡ true
Fits-is_founded none b a h = rw h refl
Fits-is_founded (some true) b a h = h
Fits-is_founded (some false) b a h = ground arith

-- What a message gets when the policies load: the tags and the headers that the actions of the matches
-- add, in the order of the matches and of their actions; the quarantine if one of the actions asks
-- for it; it is refused only if one of the actions refuses it or fails it temporarily, and if one
-- does, it is let pass only if another one allows it; and the two flags of the result are opposite.
pub evaluate-gathered :
    (sv : Services) (c : PolicyContext) (table : List PolicyRule) (r : PolicyEvaluationResult)
    → evaluate sv c table ≡ ok r
    → let actions = actions_of r.matches in
      (r.tags ≡ gathered tags_of actions)
      × (r.headers_to_add ≡ gathered headers_of actions)
      × (r.quarantine ≡ any_action quarantines actions)
      × (is_founded r.reject (any_action is_refusal actions) (any_action is_allow actions) ≡ true)
      × (r.allow ≡ not r.reject)
evaluate-gathered sv c table r h =
    let ps = sv.by_priority (keep (is_applicable c) table) in
    let added =
      subst
        (λ x.
          Adds (gathered tags_of (actions_of x.matches))
            (gathered headers_of (actions_of x.matches))
            (any_action quarantines (actions_of x.matches)) default_result x)
        (evaluate-evaluate_policies sv c table r h) (evaluate_policies-Adds sv c ps) in
    let (reject, allow) = evaluate-last_decision sv c table r h in
    let actions = actions_of r.matches in
    (
      added.tags,
      added.headers,
      added.quarantine ∙ or_false (any_action quarantines actions),
      rw reject (
          Fits-is_founded (last_decision actions) (any_action is_refusal actions)
            (any_action is_allow actions) (last_decision-Fits actions)),
      allow,
    )
