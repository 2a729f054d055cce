-- ===== src/Policy/Context.antt =====
-- What policies are evaluated for: `PolicyContext` and its builders (policy/engine.rs).
use mai_rust.Common.{ℕ, Option, none, some, List, [], ◌∷◌}
use mai_rust.Common.Text.{Text, lit, split_once, to_lowercase}
use mai_rust.Policy.Types.{Json, object, no_fields, PolicyContext}

-- What stands between the first and the second `@`.
unfoldable pub second_part : Text × Option Text → Option Text
second_part (local, none) = none
second_part (local, some rest) = some (split_once b'@' rest).0

abbrev pub domain_of : (ℕ → Text) → Text → Option Text
domain_of wide s = elim (second_part (split_once b'@' s)) [
  | none ↦ none
  | some d ↦ some (to_lowercase wide d)
]

unfoldable pub domains_of : (ℕ → Text) → List Text → List Text
unfolding second_part
domains_of wide [] = []
domains_of wide (r ∷ rs) = elim (domain_of wide r) [
  | none ↦ domains_of wide rs
  | some d ↦ d ∷ domains_of wide rs
]

-- The sender's domain.
unfoldable pub sender_domain_of : (ℕ → Text) → Option Text → Option Text
unfolding second_part
sender_domain_of wide none = none
sender_domain_of wide (some s) = domain_of wide s

unfoldable pub for_inbound :
    (ℕ → Text) → ℕ → ℕ → ℕ → Option ℕ → Option Text → List Text → PolicyContext
unfolding sender_domain_of domains_of
for_inbound wide hour weekday tenant domain sender recipients = record {
  tenant_id = tenant;
  domain_id = domain;
  policy_type = lit "inbound";
  sender_address = sender;
  sender_domain = sender_domain_of wide sender;
  recipient_addresses = recipients;
  recipient_domains = domains_of wide recipients;
  subject = none;
  headers = object no_fields;
  message_size = 0;
  attachment_types = [];
  spam_score = none;
  client_ip = none;
  hour = hour;
  weekday = weekday;
}

unfoldable pub for_outbound :
    (ℕ → Text) → ℕ → ℕ → ℕ → Option ℕ → Option Text → List Text → PolicyContext
unfolding for_inbound
for_outbound wide hour weekday tenant domain sender recipients =
    record (for_inbound wide hour weekday tenant domain sender recipients) {
      policy_type = lit "outbound";
    }

abbrev pub with_subject : Option Text → PolicyContext → PolicyContext
with_subject s c = record c { subject = s }

abbrev pub with_headers : Json → PolicyContext → PolicyContext
with_headers h c = record c { headers = h }

abbrev pub with_message_size : ℕ → PolicyContext → PolicyContext
with_message_size n c = record c { message_size = n }

abbrev pub with_attachment_types : List Text → PolicyContext → PolicyContext
with_attachment_types ts c = record c { attachment_types = ts }

abbrev pub with_spam_score : Option ℕ → PolicyContext → PolicyContext
with_spam_score n c = record c { spam_score = n }

abbrev pub with_client_ip : Option Text → PolicyContext → PolicyContext
with_client_ip ip c = record c { client_ip = ip }
