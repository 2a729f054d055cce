-- ===== src/Spam/Defaults.antt =====
-- The rules that a spam filter starts with (spam/rules.rs). A score is given by its tenths.
use mai_rust.Common.{ℕ, true, List, [], ◌∷◌}
use mai_rust.Common.Text.{Text, lit}
use mai_rust.Spam.Types.{
  SpamRule, RuleType, subject_rule, body_rule, url_rule, missing_header_rule, from_rule,
  body_length_rule,
}

abbrev rule_of : (ℕ → ℕ) → Text → Text → RuleType → Text → ℕ → SpamRule
rule_of f64_tenths name description rule_type pattern tenths = record {
  name = name;
  description = description;
  rule_type = rule_type;
  pattern = pattern;
  score = f64_tenths tenths;
  enabled = true;
}

unfoldable pub default_rules : (ℕ → ℕ) → List SpamRule
default_rules f64_tenths =
    rule_of f64_tenths (lit "SUBJECT_ALL_CAPS") (lit "Subject line is all uppercase") subject_rule
      (lit "^[A-Z\\s\\d!?.,]+$") 20
    ∷ rule_of f64_tenths (lit "SUBJECT_URGENCY") (lit "Subject contains urgency words") subject_rule
        (lit "(?i)(urgent|immediate|action required|act now|limited time|expire)") 15
    ∷ rule_of f64_tenths (lit "SUBJECT_FREE") (lit "Subject contains 'free' spam words")
        subject_rule (lit "(?i)\\b(free|gratis|costless)\\b") 10
    ∷ rule_of f64_tenths (lit "SUBJECT_MONEY") (lit "Subject mentions money/prizes") subject_rule
        (lit "(?i)(win|prize|lottery|million|cash|money|bitcoin|crypto)") 20
    ∷ rule_of f64_tenths (lit "SUBJECT_ADULT") (lit "Subject contains adult content words")
        subject_rule (lit "(?i)(viagra|cialis|porn|xxx|nude|sex)") 50
    ∷ rule_of f64_tenths (lit "BODY_BIG_MONEY") (lit "Body mentions large sums of money") body_rule
        (lit "(?i)\\$\\s*\\d{1,3}(?:,\\d{3})*(?:\\.\\d{2})?\\s*(million|billion)?") 20
    ∷ rule_of f64_tenths (lit "BODY_CLICK_HERE") (lit "Body contains 'click here' links") body_rule
        (lit "(?i)(click here|click below|click this link|click to)") 10
    ∷ rule_of f64_tenths (lit "BODY_UNSUBSCRIBE_FAKE") (lit "Body has suspicious unsubscribe text")
        body_rule (lit "(?i)(to stop receiving|unsubscribe from this list|opt.?out)") 5
    ∷ rule_of f64_tenths (lit "BODY_NIGERIAN_PRINCE")
        (lit "Body matches Nigerian prince scam patterns") body_rule
        (lit "(?i)(prince|inheritance|beneficiary|next of kin|dying wish)") 40
    ∷ rule_of f64_tenths (lit "BODY_PHISHING") (lit "Body contains phishing patterns") body_rule
        (lit
          "(?i)(verify your account|confirm your identity|update your (password|details)|suspend.*(account|access))")
        30
    ∷ rule_of f64_tenths (lit "URL_SHORTENER") (lit "Contains URL shortener links") url_rule
        (lit "(?i)(bit\\.ly|tinyurl\\.com|goo\\.gl|t\\.co|ow\\.ly|is\\.gd|buff\\.ly)") 15
    ∷ rule_of f64_tenths (lit "URL_IP_ADDRESS") (lit "Contains URL with IP address") url_rule
        (lit "https?://\\d{1,3}\\.\\d{1,3}\\.\\d{1,3}\\.\\d{1,3}") 30
    ∷ rule_of f64_tenths (lit "MISSING_DATE") (lit "Missing Date header") missing_header_rule
        (lit "Date") 15
    ∷ rule_of f64_tenths (lit "MISSING_MESSAGE_ID") (lit "Missing Message-ID header")
        missing_header_rule (lit "Message-ID") 10
    ∷ rule_of f64_tenths (lit "FROM_FREEMAIL")
        (lit "From free email provider (not necessarily spam)") from_rule
        (lit "(?i)@(gmail\\.com|yahoo\\.com|hotmail\\.com|outlook\\.com|aol\\.com)$") 1
    ∷ rule_of f64_tenths (lit "FROM_SUSPICIOUS_TLD") (lit "From suspicious top-level domain")
        from_rule (lit "(?i)\\.(xyz|top|wang|gq|ml|cf|tk|work|click|link|loan|racing)$") 20
    ∷ rule_of f64_tenths (lit "BODY_EMPTY") (lit "Message body is empty") body_length_rule (lit "0")
        20
    ∷ []
