-- ===== src/Scheduled/Template.antt =====
-- The unsubscribe tokens of `TemplateRenderer` (scheduled/template.rs).
use mai_rust.Common.{ℕ, ◌++◌, Option, none, some, [], ◌∷◌, take, if◌then◌else◌, ◌==◌}
use mai_rust.Common.Text.{Text, Bytes, lit, as_bytes, split_once}

-- Outside the source: base64 and UTF-8, SHA-256, hexadecimal, and the text of a UUID.
pub record Encodings : Type 0 where
  pub base64_encode : Bytes → Text
  pub base64_decode : Text → Option Bytes
  pub from_utf8 : Bytes → Option Text
  pub sha256 : Bytes → Bytes
  pub hex : Bytes → Text
  pub show_uuid : ℕ → Text
  pub parse_uuid : Text → Option ℕ

-- The two parts of `rsplitn(2, sep)`, in the order of the text, if there are two.
unfoldable pub rsplit_once : ℕ → Text → Option (Text × Text)
rsplit_once sep [] = none
rsplit_once sep (c ∷ s) = elim (rsplit_once sep s) [
  | some (before, behind) ↦ some (c ∷ before, behind)
  | none ↦ if c == sep then some ([], s) else none
]

module _ (en : Encodings) where
  unfoldable pub token_payload : Text → Option ℕ → Text
  token_payload email (some id) = email ++ b':' ∷ en.show_uuid id
  token_payload email none = email

  unfoldable pub token_hash : Text → Text
  token_hash payload = en.hex (take 8 (en.sha256 (as_bytes payload)))

  unfoldable pub generate_unsubscribe_token : Text → Option ℕ → Text
  unfolding token_payload token_hash
  generate_unsubscribe_token email campaign_id =
      let payload = token_payload email campaign_id in
      en.base64_encode (as_bytes (payload ++ b':' ∷ token_hash payload))

  unfoldable pub payload_parts : Text × Option Text → Text × Option ℕ
  payload_parts (email, some campaign) = (email, en.parse_uuid campaign)
  payload_parts (email, none) = (email, none)

  unfoldable pub token_parts : Option (Text × Text) → Option (Text × Option ℕ)
  unfolding payload_parts
  token_parts none = none
  token_parts (some (payload, hash)) = some (payload_parts (split_once b':' payload))

  unfoldable pub token_text : Option Text → Option (Text × Option ℕ)
  unfolding token_parts rsplit_once
  token_text none = none
  token_text (some token_data) = token_parts (rsplit_once b':' token_data)

  unfoldable pub token_bytes : Option Bytes → Option (Text × Option ℕ)
  unfolding token_text
  token_bytes none = none
  token_bytes (some decoded) = token_text (en.from_utf8 decoded)

  unfoldable pub parse_unsubscribe_token : Text → Option (Text × Option ℕ)
  unfolding token_bytes
  parse_unsubscribe_token token = token_bytes (en.base64_decode token)

  -- `base` is the renderer's `unsubscribe_base_url`.
  unfoldable pub generate_list_unsubscribe_header : Text → Text → Option ℕ → Option Text → Text
  unfolding generate_unsubscribe_token
  generate_list_unsubscribe_header base email campaign_id (some mailto) =
      lit "<mailto:"
      ++ mailto
      ++ lit "?subject=unsubscribe>, <"
      ++ base
      ++ b'/' ∷ (generate_unsubscribe_token email campaign_id ++ lit ">")
  generate_list_unsubscribe_header base email campaign_id none =
      lit "<" ++ base ++ b'/' ∷ (generate_unsubscribe_token email campaign_id ++ lit ">")
