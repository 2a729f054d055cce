-- ===== src/Spam/Examples.antt =====
-- A filter with three rules and a folded header, and the theorems of the spam filter at them.
use mai_rust.Common.{ℕ, ◌+◌, ◌≡◌, refl, true, false, none, some, [], ◌∷◌, ◌++◌, leb, arith}
use mai_rust.Common.Text
use mai_rust.Common.Text.{Text, Bytes, lit, has_text}
use mai_rust.Common.Results.{err}
use mai_rust.Spam.Types.{
  RuleType, body_rule, subject_rule, missing_header_rule, SpamRule, RuleBasedFilter, Services,
}
use mai_rust.Spam.Headers
use mai_rust.Spam.Headers.{look_up, parse_headers}
use mai_rust.Spam.Rules
use mai_rust.Spam.Rules.{add_rules, check, set_rule_enabled}
use mai_rust.Spam.Filter
use mai_rust.Spam.Disabling.{has_rule, remove_first, check-remove_first}
use mai_rust.Spam.Folding.{Field, field_lines, in_crlf, IsField, look_up-parse_headers}

abbrev services : Services
services = record {
  wide_lower = λ c. c ∷ [];
  from_utf8_lossy = λ s. s;
  f64_tenths = λ n. n;
  f64_add = λ a b. a + b;
  f64_le = leb;
  compiles = λ s. true;
  is_match = has_text;
  rspamd_check = λ raw from rcpt ip helo. err (lit "refused");
}

abbrev a_rule : Text → RuleType → Text → ℕ → SpamRule
a_rule name rule_type pattern score = record {
  name = name;
  description = [];
  rule_type = rule_type;
  pattern = pattern;
  score = score;
  enabled = true;
}

abbrev filter : RuleBasedFilter
filter =
    add_rules services
      (a_rule (lit "PRIZE") subject_rule (lit "prize") 20
        ∷ a_rule (lit "CLICK") body_rule (lit "click") 40
        ∷ a_rule (lit "NO_DATE") missing_header_rule (lit "Date") 15
        ∷ [])
      (record { rules = []; compiled_patterns = [] })

abbrev prize : Field
prize = record { name = lit "Subject"; value = lit "a"; folded = lit "prize" ∷ [] }

-- "Subject: a", " prize", an empty line, and "click".
abbrev message : Bytes
message = in_crlf (field_lines (prize ∷ []) ++ [] ∷ lit "click" ∷ [])

-- All three rules match, through the folded subject, the body and the missing date.
judged :
    (Filter.check services
      (record { rspamd = true; rules = filter })
      message
      none
      []
      none
      none).score
    ≡ 75
unfolding Filter.check Filter.or_rules Filter.rules_result check Rules.check_rules Rules.parts_of
    Rules.matched_by Rules.is_matched Rules.matches_pattern add_rules Rules.add_rule Rules.compiled
    parse_headers Headers.find_text Headers.scan_lines Headers.scan_line Headers.new_header
    Headers.save_header look_up lit Text.eq_text Text.is_empty Text.starts_with Text.split_once
    Text.trim Text.trim_start Text.trim_end Text.is_space Text.lines Text.lines_from Text.strip_cr
    Text.to_lowercase has_text
judged = refl

check-remove_first_example :
    ((set_rule_enabled (lit "CLICK") false filter).1 ≡ has_rule (lit "CLICK") filter.rules)
    × (check services (set_rule_enabled (lit "CLICK") false filter).0 message
        ≡ check services
            (record filter { rules = remove_first (lit "CLICK") filter.rules })
            message)
check-remove_first_example = check-remove_first services filter (lit "CLICK") message

prize-IsField : IsField prize
unfolding lit Text.is_space Text.trim Text.trim_start Text.trim_end Text.is_empty
prize-IsField = record {
  named = refl;
  solid = (refl, (refl, (refl, (refl, (refl, (refl, (refl, tt)))))));
  lacks = (refl, (refl, (refl, (refl, (refl, (refl, (refl, tt)))))));
  value = record { one_line = ((λ e. ground arith), tt); trimmed = refl };
  folded = (
    record {
      one_line = (
        (λ e. ground arith),
        (
          (λ e. ground arith),
          ((λ e. ground arith), ((λ e. ground arith), ((λ e. ground arith), tt))),
        ),
      );
      trimmed = refl;
    },
    tt,
  );
}

look_up-parse_headers_example :
    look_up (lit "subject") (parse_headers services.wide_lower (in_crlf (field_lines (prize ∷ []))))
    ≡ some (lit "a prize")
unfolding lit Text.to_lowercase Text.eq_text
look_up-parse_headers_example =
    look_up-parse_headers services.wide_lower (lit "subject") (prize ∷ []) (prize-IsField, tt)
