-- ===== src/Policy/Conditions.antt =====
-- Conditions on the time of the message, and the conditions of a policy (policy/engine.rs).
use mai_rust.Common.{
  ℕ, ◌%◌, Bool, true, false, not, ◌&&◌, ◌||◌, Option, none, some, List, [], ◌∷◌, if◌then◌else◌, ltb,
  leb,
}
use mai_rust.Common.Text.{Text, lit, eq_text}
use mai_rust.Common.Decimal.{u32_limit}
use mai_rust.Policy.Types.{
  Json, get, PolicyConditionType, sender_domain, sender_address, recipient_domain,
  recipient_address, subject_contains, header_exists, header_value, message_size, attachment_type,
  spam_score, client_ip, time_of_day, PolicyCondition, PolicyContext, Services,
}
use mai_rust.Policy.Operators.{
  or_else, number_of, evaluate_string_condition, evaluate_list_condition,
  evaluate_contains_condition, evaluate_header_exists, evaluate_header_value,
  evaluate_numeric_condition,
}
use mai_rust.Policy.Networks.{evaluate_ip_condition}

module _ (sv : Services) where
  unfoldable pub hour_between : ℕ → ℕ → ℕ → Bool
  hour_between hour start end =
      if leb start end then leb start hour && ltb hour end else leb start hour || ltb hour end

  abbrev pub is_weekend : ℕ → Bool
  is_weekend weekday = leb 5 weekday

  unfoldable pub evaluate_time_condition : Text → ℕ → ℕ → Json → Bool
  unfolding hour_between
  evaluate_time_condition operator hour weekday expected =
      if eq_text operator (lit "between")
      then hour_between hour (or_else (number_of (get (lit "start") expected)) 0 % u32_limit)
          (or_else (number_of (get (lit "end") expected)) 24 % u32_limit)
      else if eq_text operator (lit "business_hours")
      then not (is_weekend weekday) && leb 9 hour && ltb hour 17
      else if eq_text operator (lit "weekend")
      then is_weekend weekday
      else false

  unfoldable pub evaluate_spam_score : Text → Option ℕ → Json → Bool
  unfolding evaluate_numeric_condition
  evaluate_spam_score operator none expected = false
  evaluate_spam_score operator (some score) expected =
      evaluate_numeric_condition sv operator score expected

  unfoldable pub evaluate_type : PolicyConditionType → Text → Json → PolicyContext → Bool
  unfolding evaluate_string_condition evaluate_list_condition evaluate_contains_condition
      evaluate_header_exists evaluate_header_value evaluate_numeric_condition evaluate_spam_score
      evaluate_ip_condition evaluate_time_condition
  evaluate_type sender_domain o v c = evaluate_string_condition sv o c.sender_domain v
  evaluate_type sender_address o v c = evaluate_string_condition sv o c.sender_address v
  evaluate_type recipient_domain o v c = evaluate_list_condition sv o c.recipient_domains v
  evaluate_type recipient_address o v c = evaluate_list_condition sv o c.recipient_addresses v
  evaluate_type subject_contains o v c = evaluate_contains_condition sv c.subject v
  evaluate_type header_exists o v c = evaluate_header_exists sv c.headers v
  evaluate_type header_value o v c = evaluate_header_value sv o c.headers v
  evaluate_type message_size o v c = evaluate_numeric_condition sv o (sv.f64_of c.message_size) v
  evaluate_type attachment_type o v c = evaluate_list_condition sv o c.attachment_types v
  evaluate_type spam_score o v c = evaluate_spam_score o c.spam_score v
  evaluate_type client_ip o v c = evaluate_ip_condition sv o c.client_ip v
  evaluate_type time_of_day o v c = evaluate_time_condition o c.hour c.weekday v

  abbrev pub evaluate_condition : PolicyCondition → PolicyContext → Bool
  evaluate_condition p c = evaluate_type p.condition_type p.operator p.value c

  unfoldable pub evaluate_conditions : List PolicyCondition → PolicyContext → Bool
  unfolding evaluate_type
  evaluate_conditions [] c = true
  evaluate_conditions (p ∷ ps) c =
      let rest = evaluate_conditions ps c in
      let matched = if p.negate then not (evaluate_condition p c) else evaluate_condition p c in
      if not matched then false else rest
