-- ===== src/Spam/Types.antt =====
-- The data of the spam filter (spam/rules.rs and spam/mod.rs). A score is the bit pattern of a double.
use mai_rust.Common.{ℕ, Bool, Option, List}
use mai_rust.Common.Text.{Text, Bytes}
use mai_rust.Common.Results.{Result}

pub data RuleType : Type 0 where
  header_rule body_rule from_rule subject_rule : RuleType
  has_header_rule missing_header_rule body_length_rule url_rule : RuleType

pub record SpamRule : Type 0 where
  pub name : Text
  pub description : Text
  pub rule_type : RuleType
  pub pattern : Text
  pub score : ℕ
  pub enabled : Bool

pub record RuleMatch : Type 0 where
  pub rule_name : Text
  pub score : ℕ
  pub description : Text

pub record RuleResult : Type 0 where
  pub score : ℕ
  pub matched_rules : List Text
  pub matches : List RuleMatch

-- The compiled patterns are their texts under the names of the rules, the latest first.
pub record RuleBasedFilter : Type 0 where
  pub rules : List SpamRule
  pub compiled_patterns : List (Text × Text)

pub data SpamAction : Type 0 where
  accept add_header rewrite_subject soft_reject reject : SpamAction

-- Where the metadata of a result say that it comes from.
pub data Source : Type 0 where
  unknown from_rspamd from_rules : Source

pub record SpamCheckResult : Type 0 where
  pub score : ℕ
  pub threshold : ℕ
  pub is_spam : Bool
  pub is_reject : Bool
  pub symbols : List Text
  pub action : SpamAction
  pub source : Source

-- The columns of an answer of rspamd that the filter reads.
pub record RspamdResult : Type 0 where
  pub score : ℕ
  pub required_score : ℕ
  pub is_spam : Bool
  pub action : Text
  pub symbols : List Text

-- Outside the source: the case table, lossy decoding, doubles, regular expressions by their patterns,
-- and the answer of rspamd to a message and its envelope.
pub record Services : Type 0 where
  pub wide_lower : ℕ → Text
  pub from_utf8_lossy : Bytes → Text
  pub f64_tenths : ℕ → ℕ
  pub f64_add : ℕ → ℕ → ℕ
  pub f64_le : ℕ → ℕ → Bool
  pub compiles : Text → Bool
  pub is_match : Text → Text → Bool
  pub rspamd_check :
      Bytes → Option Text → List Text → Option Text → Option Text → Result RspamdResult
