-- ===== src/Spam/Filter.antt =====
-- rspamd with the rules to fall back on: `SpamFilter` of spam/mod.rs.
use mai_rust.Common.{false, Bool, Option, List, [], if◌then◌else◌}
use mai_rust.Common.Text.{Text, Bytes, eq_text, lit}
use mai_rust.Common.Results.{Result, ok, err}
use mai_rust.Spam.Types.{
  SpamRule, RuleResult, RuleBasedFilter, SpamAction, accept, add_header, rewrite_subject,
  soft_reject, reject, unknown, from_rspamd, from_rules, SpamCheckResult, RspamdResult, Services,
}
use mai_rust.Spam.Rules
use mai_rust.Spam.Rules.{new}

-- Whether there is a client of rspamd, and the rules.
pub record SpamFilter : Type 0 where
  pub rspamd : Bool
  pub rules : RuleBasedFilter

abbrev pub new_filter : Services → Bool → SpamFilter
new_filter sv has_config = record { rspamd = has_config; rules = new sv }

abbrev pub rules_only : Services → SpamFilter
rules_only sv = record { rspamd = false; rules = new sv }

abbrev pub has_rspamd : SpamFilter → Bool
has_rspamd f = f.rspamd

abbrev pub add_custom_rule : Services → SpamRule → SpamFilter → SpamFilter
add_custom_rule sv rule f = record f { rules = Rules.add_rule sv rule f.rules }

unfoldable pub default_check_result : Services → SpamCheckResult
default_check_result sv = record {
  score = sv.f64_tenths 0;
  threshold = sv.f64_tenths 50;
  is_spam = false;
  is_reject = false;
  symbols = [];
  action = accept;
  source = unknown;
}

unfoldable pub action_of : Text → SpamAction
action_of action =
    if eq_text action (lit "reject")
    then reject
    else if eq_text action (lit "soft reject")
    then soft_reject
    else if eq_text action (lit "greylist")
    then soft_reject
    else if eq_text action (lit "rewrite subject")
    then rewrite_subject
    else if eq_text action (lit "add header")
    then add_header
    else accept

unfoldable pub rspamd_result : RspamdResult → SpamCheckResult
unfolding action_of
rspamd_result r = record {
  score = r.score;
  threshold = r.required_score;
  is_spam = r.is_spam;
  is_reject = eq_text r.action (lit "reject");
  symbols = r.symbols;
  action = action_of r.action;
  source = from_rspamd;
}

unfoldable pub rules_result : Services → RuleResult → SpamCheckResult
rules_result sv r = record {
  score = r.score;
  threshold = sv.f64_tenths 50;
  is_spam = sv.f64_le (sv.f64_tenths 50) r.score;
  is_reject = sv.f64_le (sv.f64_tenths 100) r.score;
  symbols = r.matched_rules;
  action =
      if sv.f64_le (sv.f64_tenths 100) r.score
      then reject
      else if sv.f64_le (sv.f64_tenths 50) r.score
      then add_header
      else accept;
  source = from_rules;
}

unfoldable pub or_rules : Services → RuleBasedFilter → Bytes → Result RspamdResult → SpamCheckResult
unfolding rspamd_result rules_result Rules.check
or_rules sv rules raw_message (ok r) = rspamd_result r
or_rules sv rules raw_message (err e) = rules_result sv (Rules.check sv rules raw_message)

unfoldable pub check :
    Services
    → SpamFilter
    → Bytes
    → Option Text
    → List Text
    → Option Text
    → Option Text
    → SpamCheckResult
unfolding or_rules rules_result Rules.check
check sv f raw_message from rcpt client_ip helo =
    if f.rspamd
    then or_rules sv f.rules raw_message (sv.rspamd_check raw_message from rcpt client_ip helo)
    else rules_result sv (Rules.check sv f.rules raw_message)
