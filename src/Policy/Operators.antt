-- ===== src/Policy/Operators.antt =====
-- The operators of conditions on texts, lists, headers and numbers (policy/engine.rs). What a
-- condition says for debugging is left out.
use mai_rust.Common.{
  ℕ, Bool, true, false, not, ◌&&◌, ◌||◌, Option, none, some, List, [], ◌∷◌, if◌then◌else◌,
}
use mathlib.Core.List.{reverse}
use mai_rust.Common.Text.{Text, lit, eq_text, starts_with, to_lowercase, has_text}
use mai_rust.Smtp.Parse.{get_or_empty}
use mai_rust.Policy.Types.{
  Json, string, object, Values, no_values, more_values, Fields, no_fields, more_fields, as_str,
  as_u64, as_f64, as_array, get, Services,
}

-- Whether a text is one of two names.
abbrev pub named : Text → Text → Text → Bool
named operator a b = eq_text operator a || eq_text operator b

abbrev pub text_of : Option Json → Option Text
text_of none = none
text_of (some v) = as_str v

abbrev pub number_of : Option Json → Option ℕ
number_of none = none
number_of (some v) = as_u64 v

abbrev pub or_else {ℓ} : {A : Type ℓ} → Option A → A → A
or_else none d = d
or_else (some a) d = a

module _ (sv : Services) where
  abbrev pub lower : Text → Text
  lower = to_lowercase sv.wide_lower

  unfoldable pub any_lower : Text → Values → Bool
  any_lower value no_values = false
  any_lower value (more_values v vs) =
      (elim (as_str v) [ none ↦ false | some s ↦ eq_text (lower s) value ]) || any_lower value vs

  unfoldable pub in_array : Text → Option Values → Bool
  unfolding any_lower
  in_array value none = false
  in_array value (some vs) = any_lower value vs

  unfoldable pub ends_with : Text → Text → Bool
  ends_with value suffix = starts_with (reverse value) (reverse suffix)

  -- The operators on texts; `value` is in lower case.
  unfoldable pub string_operator : Text → Text → Json → Bool
  unfolding in_array ends_with
  string_operator operator value expected =
      let want = lower (get_or_empty (as_str expected)) in
      if named operator (lit "eq") (lit "equals")
      then eq_text value want
      else if named operator (lit "ne") (lit "not_equals")
      then not (eq_text value want)
      else if eq_text operator (lit "contains")
      then has_text want value
      else if eq_text operator (lit "starts_with")
      then starts_with value want
      else if eq_text operator (lit "ends_with")
      then ends_with value want
      else if eq_text operator (lit "regex")
      then sv.regex_match want value
      else if eq_text operator (lit "in")
      then in_array value (as_array expected)
      else false

  unfoldable pub evaluate_string_condition : Text → Option Text → Json → Bool
  unfolding string_operator
  evaluate_string_condition operator none expected = false
  evaluate_string_condition operator (some value) expected =
      string_operator operator (lower value) expected

  unfoldable pub any_value : (Text → Bool) → List Text → Bool
  any_value p [] = false
  any_value p (v ∷ vs) = p (lower v) || any_value p vs

  unfoldable pub all_values : (Text → Bool) → List Text → Bool
  all_values p [] = true
  all_values p (v ∷ vs) = p (lower v) && all_values p vs

  unfoldable pub list_operator : Text → List Text → Json → Bool
  unfolding any_value all_values in_array ends_with
  list_operator operator values expected =
      let want = lower (get_or_empty (as_str expected)) in
      if named operator (lit "any_eq") (lit "contains")
      then any_value (λ v. eq_text v want) values
      else if eq_text operator (lit "all_eq")
      then all_values (λ v. eq_text v want) values
      else if named operator (lit "any_in") (lit "in")
      then any_value (λ v. in_array v (as_array expected)) values
      else if named operator (lit "any_ends_with") (lit "ends_with")
      then any_value (λ v. ends_with v want) values
      else if named operator (lit "any_starts_with") (lit "starts_with")
      then any_value (λ v. starts_with v want) values
      else if named operator (lit "any_regex") (lit "regex")
      then any_value (λ v. sv.regex_match want v) values
      else false

  unfoldable pub evaluate_list_condition : Text → List Text → Json → Bool
  unfolding list_operator
  evaluate_list_condition operator [] expected = false
  evaluate_list_condition operator (v ∷ vs) expected = list_operator operator (v ∷ vs) expected

  unfoldable pub evaluate_contains_condition : Option Text → Json → Bool
  evaluate_contains_condition none expected = false
  evaluate_contains_condition (some value) expected =
      has_text (lower (get_or_empty (as_str expected))) (lower value)

  -- The value of the first field whose name is `name` in lower case.
  unfoldable pub find_field : Text → Fields → Option Json
  find_field name no_fields = none
  find_field name (more_fields k v fs) =
      let rest = find_field name fs in if eq_text (lower k) name then some v else rest

  abbrev pub is_some {ℓ} : {A : Type ℓ} → Option A → Bool
  is_some none = false
  is_some (some a) = true

  unfoldable pub find_header : Text → Json → Option Json
  unfolding find_field
  find_header name (object fs) = find_field name fs
  find_header name _ = none

  unfoldable pub evaluate_header_exists : Json → Json → Bool
  unfolding find_header
  evaluate_header_exists headers expected =
      is_some (find_header (lower (get_or_empty (as_str expected))) headers)

  abbrev pub lower_option : Option Text → Option Text
  lower_option none = none
  lower_option (some s) = some (lower s)

  unfoldable pub evaluate_header_value : Text → Json → Json → Bool
  unfolding find_header evaluate_string_condition
  evaluate_header_value operator headers expected =
      let name = lower (get_or_empty (text_of (get (lit "header") expected))) in
      let want = lower (get_or_empty (text_of (get (lit "value") expected))) in
      evaluate_string_condition operator (lower_option (text_of (find_header name headers)))
        (string want)

  abbrev pub double_of : Json → ℕ
  double_of v = or_else (as_f64 v) sv.f64_zero

  unfoldable pub is_between : ℕ → Option Values → Bool
  is_between value (some (more_values a (more_values b no_values))) =
      sv.f64_le (double_of a) value && sv.f64_le value (double_of b)
  is_between value _ = false

  unfoldable pub evaluate_numeric_condition : Text → ℕ → Json → Bool
  unfolding is_between
  evaluate_numeric_condition operator value expected =
      let want = double_of expected in
      if named operator (lit "eq") (lit "equals")
      then sv.f64_near value want
      else if named operator (lit "ne") (lit "not_equals")
      then sv.f64_far value want
      else if named operator (lit "gt") (lit "greater_than")
      then sv.f64_lt want value
      else if named operator (lit "gte") (lit "greater_than_or_equal")
      then sv.f64_le want value
      else if named operator (lit "lt") (lit "less_than")
      then sv.f64_lt value want
      else if named operator (lit "lte") (lit "less_than_or_equal")
      then sv.f64_le value want
      else if eq_text operator (lit "between")
      then is_between value (as_array expected)
      else false
