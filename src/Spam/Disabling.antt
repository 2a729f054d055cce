-- ===== src/Spam/Disabling.antt =====
-- What it is to disable a spam rule.
use mai_rust.Common.{
  ◌≡◌, refl, Bool, Bool-cases, inl, inr, false, ◌||◌, List, [], ◌∷◌, if◌then◌else◌,
}
use mai_rust.Common.Text.{Text, Bytes, eq_text}
use mai_rust.Spam.Types.{SpamRule, RuleResult, RuleBasedFilter, Services}
use mai_rust.Spam.Rules.{
  Parts, parts_of, matched_by, check_rules, check, enable_first, set_rule_enabled,
}

-- The rules without the first of that name.
abbrev pub remove_first : Text → List SpamRule → List SpamRule
remove_first name [] = []
remove_first name (rule ∷ rest) =
    let removed = remove_first name rest in if eq_text rule.name name then rest else rule ∷ removed

abbrev pub has_rule : Text → List SpamRule → Bool
has_rule name [] = false
has_rule name (rule ∷ rest) = eq_text rule.name name || has_rule name rest

enable_first-has_rule :
    (name : Text) (enabled : Bool) (rules : List SpamRule)
    → (enable_first name enabled rules).1 ≡ has_rule name rules
unfolding enable_first
enable_first-has_rule name enabled [] = refl
enable_first-has_rule name enabled (rule ∷ rest) = elim (Bool-cases (eq_text rule.name name)) [
  | inl e ↦ rw e refl
  | inr e ↦ rw e (enable_first-has_rule name enabled rest)
]

check_rules-remove_first :
    (sv : Services) (patterns : List (Text × Text)) (m : Parts) (name : Text)
    (rules : List SpamRule) (r : RuleResult)
    → check_rules sv patterns m (enable_first name false rules).0 r
      ≡ check_rules sv patterns m (remove_first name rules) r
unfolding check_rules enable_first matched_by
check_rules-remove_first sv patterns m name [] r = refl
check_rules-remove_first sv patterns m name (rule ∷ rest) r =
    elim (Bool-cases (eq_text rule.name name)) [
      | inl e ↦ rw e refl
      | inr e ↦ rw e (check_rules-remove_first sv patterns m name rest _)
    ]

-- Disabling a rule by its name is answered by whether there is a rule of that name, and from then on
-- every message is judged as if the first rule of that name were not there: the same score, the same
-- names of rules and the same matches.
pub check-remove_first :
    (sv : Services) (f : RuleBasedFilter) (name : Text) (raw_message : Bytes)
    → ((set_rule_enabled name false f).1 ≡ has_rule name f.rules)
      × (check sv (set_rule_enabled name false f).0 raw_message
          ≡ check sv (record f { rules = remove_first name f.rules }) raw_message)
unfolding check set_rule_enabled
check-remove_first sv f name raw_message = (
  enable_first-has_rule name false f.rules,
  check_rules-remove_first sv f.compiled_patterns (parts_of sv raw_message) name f.rules
      (record { score = sv.f64_tenths 0; matched_rules = []; matches = [] }),
)
