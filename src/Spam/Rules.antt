-- ===== src/Spam/Rules.antt =====
-- The rules of the spam filter: `RuleBasedFilter` of spam/rules.rs.
use mai_rust.Common.{
  ℕ, Bool, true, false, not, Option, none, some, List, [], ◌∷◌, ◌++◌, ◌*◌, ◌+◌, ◌-◌, ◌&&◌, ◌==◌,
  drop, length, if◌then◌else◌, leb, ltb,
}
use mai_rust.Common.Text.{Text, Bytes, eq_text, as_bytes, to_lowercase, crlf, lit}
use mai_rust.Smtp.Parse.{get_or_empty}
use mai_rust.Pop3.Session.{u64_limit}
use mai_rust.Spam.Types.{
  RuleType, header_rule, body_rule, from_rule, subject_rule, has_header_rule, missing_header_rule,
  body_length_rule, url_rule, SpamRule, RuleResult, RuleBasedFilter, Services,
}
use mai_rust.Spam.Headers.{Headers, look_up, find_text, parse_headers}
use mai_rust.Spam.Defaults.{default_rules}

abbrev pub has_pattern : RuleType → Bool
has_pattern header_rule = true
has_pattern body_rule = true
has_pattern from_rule = true
has_pattern subject_rule = true
has_pattern url_rule = true
has_pattern _ = false

unfoldable pub compiled : Services → SpamRule → List (Text × Text) → List (Text × Text)
compiled sv rule patterns =
    if has_pattern rule.rule_type
    then (if sv.compiles rule.pattern then (rule.name, rule.pattern) ∷ patterns else patterns)
    else patterns

unfoldable pub add_rule : Services → SpamRule → RuleBasedFilter → RuleBasedFilter
unfolding compiled
add_rule sv rule f = record {
  rules = f.rules ++ rule ∷ [];
  compiled_patterns = compiled sv rule f.compiled_patterns;
}

unfoldable pub add_rules : Services → List SpamRule → RuleBasedFilter → RuleBasedFilter
unfolding add_rule
add_rules sv [] f = f
add_rules sv (rule ∷ rest) f = add_rules sv rest (add_rule sv rule f)

unfoldable pub new : Services → RuleBasedFilter
unfolding add_rules default_rules
new sv = add_rules sv (default_rules sv.f64_tenths) (record { rules = []; compiled_patterns = [] })

-- The parts of a message that the rules read.
pub record Parts : Type 0 where
  pub message_str : Text
  pub headers_str : Text
  pub body_str : Text
  pub headers : Headers

abbrev pub behind : ℕ → Text × Text → Text × Text
behind n (before, found) = (before, drop n found)

abbrev pub headers_and_body : Text → Option (Text × Text) → Option (Text × Text) → Text × Text
headers_and_body s (some p) q = behind 4 p
headers_and_body s none (some q) = behind 2 q
headers_and_body s none none = (s, [])

unfoldable pub parts_of : Services → Bytes → Parts
unfolding find_text parse_headers
parts_of sv raw_message =
    let s = sv.from_utf8_lossy raw_message in
    let (headers_str, body_str) =
      headers_and_body s (find_text (crlf ++ crlf) s) (find_text (10 ∷ 10 ∷ []) s) in
    record {
      message_str = s;
      headers_str = headers_str;
      body_str = body_str;
      headers = parse_headers sv.wide_lower headers_str;
    }

-- `parse::<usize>`: a plus sign is allowed before at least one digit.
unfoldable pub scan_usize : ℕ → Text → Option ℕ
scan_usize acc [] = some acc
scan_usize acc (c ∷ s) =
    let v = acc * 10 + (c - b'0') in
    let rest = scan_usize v s in
    if leb b'0' c && leb c b'9' then (if ltb v u64_limit then rest else none) else none

unfoldable pub parse_usize : Text → Option ℕ
unfolding scan_usize
parse_usize [] = none
parse_usize (c ∷ []) = scan_usize 0 (c ∷ [])
parse_usize (c ∷ d ∷ s) = if c == b'+' then scan_usize 0 (d ∷ s) else scan_usize 0 (c ∷ d ∷ s)

module _ (sv : Services) where
  unfoldable pub matches_pattern : Option Text → Text → Bool
  matches_pattern none s = false
  matches_pattern (some re) s = sv.is_match re s

  abbrev pub has_header : Headers → Text → Bool
  has_header headers name = elim (look_up (to_lowercase sv.wide_lower name) headers) [
    | none ↦ false
    | some _ ↦ true
  ]

  unfoldable pub is_short : Text → Text → Bool
  unfolding parse_usize
  is_short pattern body = elim (parse_usize pattern) [
    | none ↦ false
    | some max_len ↦ leb (length (as_bytes body)) max_len
  ]

  unfoldable pub is_matched : RuleType → Text → Option Text → Parts → Bool
  unfolding matches_pattern is_short
  is_matched subject_rule pattern re m =
      matches_pattern re (get_or_empty (look_up (lit "subject") m.headers))
  is_matched body_rule pattern re m = matches_pattern re m.body_str
  is_matched from_rule pattern re m =
      matches_pattern re (get_or_empty (look_up (lit "from") m.headers))
  is_matched header_rule pattern re m = matches_pattern re m.headers_str
  is_matched url_rule pattern re m = matches_pattern re m.message_str
  is_matched has_header_rule pattern re m = has_header m.headers pattern
  is_matched missing_header_rule pattern re m = not (has_header m.headers pattern)
  is_matched body_length_rule pattern re m = is_short pattern m.body_str

  unfoldable pub matched_by : List (Text × Text) → Parts → SpamRule → Bool
  unfolding is_matched
  matched_by patterns m rule =
      if not rule.enabled
      then false
      else is_matched rule.rule_type rule.pattern (look_up rule.name patterns) m

  abbrev pub add_match : SpamRule → RuleResult → RuleResult
  add_match rule r = record {
    score = sv.f64_add r.score rule.score;
    matched_rules = r.matched_rules ++ rule.name ∷ [];
    matches =
        r.matches
        ++ record { rule_name = rule.name; score = rule.score; description = rule.description }
          ∷ [];
  }

  unfoldable pub check_rules : List (Text × Text) → Parts → List SpamRule → RuleResult → RuleResult
  unfolding matched_by
  check_rules patterns m [] r = r
  check_rules patterns m (rule ∷ rest) r =
      check_rules patterns m rest (if matched_by patterns m rule then add_match rule r else r)

  unfoldable pub check : RuleBasedFilter → Bytes → RuleResult
  unfolding check_rules parts_of
  check f raw_message =
      check_rules f.compiled_patterns (parts_of sv raw_message) f.rules
        (record { score = sv.f64_tenths 0; matched_rules = []; matches = [] })

-- The loop of `set_rule_enabled`, with its answer.
unfoldable pub enable_first : Text → Bool → List SpamRule → List SpamRule × Bool
enable_first name enabled [] = ([], false)
enable_first name enabled (rule ∷ rest) =
    let (changed, found) = enable_first name enabled rest in
    if eq_text rule.name name
    then (record rule { enabled = enabled } ∷ rest, true)
    else (rule ∷ changed, found)

unfoldable pub set_rule_enabled : Text → Bool → RuleBasedFilter → RuleBasedFilter × Bool
unfolding enable_first
set_rule_enabled name enabled f =
    let (rules, found) = enable_first name enabled f.rules in (record f { rules = rules }, found)
