-- ===== src/Scheduled/Tokens.antt =====
-- Unsubscribe tokens: made and parsed, and made without the renderer.
use mai_rust.Common.{ℕ, ◌++◌, ◌≡◌, ◌∙◌, refl, sym, ap, Option, none, some, [], ◌∷◌, ==_refl}
use mai_rust.Common.Text.{Text, Bytes, as_bytes, split_once}
use mai_rust.Smtp.Addresses.{Lacks, split_once-join, split_once-Lacks}
use mai_rust.Scheduled.Template.{
  Encodings, rsplit_once, token_payload, token_hash, generate_unsubscribe_token, payload_parts,
  token_parts, token_text, token_bytes, parse_unsubscribe_token,
}

-- Decoding inverts encoding, hexadecimal has no colon, and a UUID that is printed parses back.
pub record IsCoding (en : Encodings) : Type 0 where
  pub base64 : (b : Bytes) → en.base64_decode (en.base64_encode b) ≡ some b
  pub utf8 : (t : Text) → en.from_utf8 (as_bytes t) ≡ some t
  pub hex : (b : Bytes) → Lacks b':' (en.hex b)
  pub uuid : (id : ℕ) → en.parse_uuid (en.show_uuid id) ≡ some id

rsplit_once-Lacks : (sep : ℕ) (s : Text) → Lacks sep s → rsplit_once sep s ≡ none
unfolding rsplit_once
rsplit_once-Lacks sep [] h = refl
rsplit_once-Lacks sep (c ∷ s) h = rw (rsplit_once-Lacks sep s h.1, h.0) refl

rsplit_once-join :
    (sep : ℕ) (s t : Text) → Lacks sep t → rsplit_once sep (s ++ sep ∷ t) ≡ some (s, t)
unfolding rsplit_once
rsplit_once-join sep [] t h = rw (rsplit_once-Lacks sep t h, ==_refl sep) refl
rsplit_once-join sep (c ∷ s) t h = rw (rsplit_once-join sep s t h) refl

module _ (en : Encodings) (coding : IsCoding en) where
  -- Whatever stands in the place of the hash.
  parse-hashed :
      (payload hash : Text)
      → Lacks b':' hash
      → parse_unsubscribe_token en (en.base64_encode (as_bytes (payload ++ b':' ∷ hash)))
        ≡ some (payload_parts en (split_once b':' payload))
  unfolding parse_unsubscribe_token token_bytes token_text token_parts
  parse-hashed payload hash h =
      ap (token_bytes en) (coding.base64 _)
      ∙ ap (token_text en) (coding.utf8 _)
      ∙ ap (token_parts en) (rsplit_once-join b':' payload hash h)

  payload_parts-payload :
      (email : Text) (campaign_id : Option ℕ)
      → Lacks b':' email
      → payload_parts en (split_once b':' (token_payload en email campaign_id))
        ≡ (email, campaign_id)
  unfolding payload_parts token_payload
  payload_parts-payload email none h = ap (payload_parts en) (split_once-Lacks b':' email h)
  payload_parts-payload email (some id) h =
      ap (payload_parts en) (split_once-join b':' email (en.show_uuid id) h)
      ∙ ap (λ c. (email, c)) (coding.uuid id)

  -- The token of a mail parses back to its recipient and campaign, for an address without a colon,
  -- provided that decoding inverts encoding, hexadecimal has no colon, and UUIDs parse back.
  pub parse-generate_unsubscribe_token :
      (email : Text) (campaign_id : Option ℕ)
      → Lacks b':' email
      → parse_unsubscribe_token en (generate_unsubscribe_token en email campaign_id)
        ≡ some (email, campaign_id)
  unfolding generate_unsubscribe_token token_hash
  parse-generate_unsubscribe_token email campaign_id h =
      parse-hashed (token_payload en email campaign_id) _ (coding.hex _)
      ∙ ap some (payload_parts-payload email campaign_id h)

  -- A token can be made without the renderer: any text without a colon in the place of the hash, the
  -- empty one too, gives a token that is parsed as one for the address and the campaign, under the
  -- same conditions on the encodings.
  pub parse-forged_token :
      (email : Text) (campaign_id : Option ℕ) (hash : Text)
      → Lacks b':' email
      → Lacks b':' hash
      → parse_unsubscribe_token en
          (en.base64_encode (as_bytes (token_payload en email campaign_id ++ b':' ∷ hash)))
        ≡ parse_unsubscribe_token en (generate_unsubscribe_token en email campaign_id)
  parse-forged_token email campaign_id hash h k =
      parse-hashed (token_payload en email campaign_id) hash k
      ∙ ap some (payload_parts-payload email campaign_id h)
      ∙ sym (parse-generate_unsubscribe_token email campaign_id h)
