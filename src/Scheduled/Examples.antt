-- ===== src/Scheduled/Examples.antt =====
-- A tenant with two sends in a minute, encodings for tokens, and the theorems on scheduled sending at
-- inputs that meet their hypotheses.
use mai_rust.Common.{
  ◌&&◌, false, ℕ, Option, ◌≡◌, refl, true, none, some, [], ◌∷◌, arith, zero, suc, ◌+◌, ◌-◌, ◌*◌,
  ◌++◌, ◌∙◌, ap, Bool-cases, inl, inr, ltb, if◌then◌else◌,
}
use mai_rust.Common.Text.{Text, Bytes, as_bytes, utf8_char, lit, eq_text}
use mai_rust.Common.Results.{ok}
use mai_rust.Scheduled.RateLimiter.{
  TenantRateLimit, Limiter, cached, fetch, from_cache, get_rate_limits, same_key, count_of,
  minute_start, hour_start, day_start, window_count, get_window_count, below, check_windows,
  check_limits, check_allowed, upsert, upsert_counter, and_then, increment_windows,
  increment_limits, increment, get_remaining, or_default, default_limit,
}
use mai_rust.Scheduled.Quota.{Agrees, check_allowed-get_remaining}
use mai_rust.Scheduled.Template.{Encodings, generate_unsubscribe_token, parse_unsubscribe_token}
use mai_rust.Scheduled.Tokens.{IsCoding, parse-generate_unsubscribe_token}
use mai_rust.Scheduled.Windows.{increments, sent_in, check_allowed-increments}

abbrev two_a_minute : TenantRateLimit
two_a_minute = record {
  tenant_id = 1;
  per_minute = 2;
  per_hour = 100;
  per_day = 1000;
  enabled = true;
}

abbrev fresh : Limiter
fresh = record {
  cache = (1, two_a_minute) ∷ [];
  limits = λ t. none;
  counters = [];
  can_fetch = λ t. true;
  can_count = λ t w. true;
  can_upsert = λ t w. true;
  can_delete = true;
}

opened : Unit {0}
unfolding check_allowed check_limits check_windows get_window_count window_count below increment
    increment_limits increment_windows upsert_counter and_then upsert get_rate_limits from_cache
    fetch cached same_key count_of minute_start hour_start day_start eq_text lit or_default
    default_limit
opened = tt

-- After two sends in one minute a third one is refused, and one in the next minute is allowed.
refused_then_allowed :
    ((check_allowed 62 1 (increments (60 ∷ 61 ∷ []) 1 fresh)).0 ≡ ok false)
    × ((check_allowed 125 1 (increments (60 ∷ 61 ∷ []) 1 fresh)).0 ≡ ok true)
unfolding opened
refused_then_allowed = (refl, refl)

check_allowed-get_remaining_example :
    Agrees (check_allowed 60 1 fresh).0 (get_remaining 60 1 fresh).0
check_allowed-get_remaining_example = check_allowed-get_remaining 60 1 fresh

check_allowed-increments_example :
    (check_allowed 62 1 (increments (60 ∷ 61 ∷ []) 1 fresh)).0
    ≡ ok (
        ltb (sent_in 60 62 (60 ∷ 61 ∷ [])) 2
        && ltb (sent_in 3600 62 (60 ∷ 61 ∷ [])) 100
        && ltb (sent_in 86_400 62 (60 ∷ 61 ∷ [])) 1000)
unfolding opened
check_allowed-increments_example =
    check_allowed-increments 62 1 (60 ∷ 61 ∷ []) two_a_minute fresh
      (record { known = refl; on = refl; counts = λ w. refl; upserts = λ w. refl }) (λ w s'. refl)

-- A decoder of UTF-8: `more` bytes follow, and `acc` is what the bytes before them gave.
utf8_from : ℕ → ℕ → Bytes → Text
utf8_from more acc [] = []
utf8_from zero acc (a ∷ s) =
    let one = utf8_from 0 0 s in
    let two = utf8_from 1 (a - 192) s in
    let three = utf8_from 2 (a - 224) s in
    let four = utf8_from 3 (a - 240) s in
    if ltb a 128 then a ∷ one else if ltb a 224 then two else if ltb a 240 then three else four
utf8_from (suc zero) acc (b ∷ s) = (acc * 64 + (b - 128)) ∷ utf8_from 0 0 s
utf8_from (suc (suc more)) acc (b ∷ s) = utf8_from (suc more) (acc * 64 + (b - 128)) s

utf8_from-utf8_char : (c : ℕ) (s : Bytes) → utf8_from 0 0 (utf8_char c ++ s) ≡ c ∷ utf8_from 0 0 s
unfolding utf8_from utf8_char
utf8_from-utf8_char c s = elim (Bool-cases (ltb c 0x80)) [
  | inl one ↦ rw one (ground arith)
  | inr wide ↦ rw wide (elim (Bool-cases (ltb c 0x800)) [
    | inl two ↦ rw two (ground arith)
    | inr wider ↦ rw wider (elim (Bool-cases (ltb c 0x10000)) [
      | inl three ↦ rw three (ground arith)
      | inr four ↦ rw four (ground arith)
    ])
  ])
]

utf8_from-as_bytes : (t : Text) → utf8_from 0 0 (as_bytes t) ≡ t
unfolding utf8_from as_bytes
utf8_from-as_bytes [] = refl
utf8_from-as_bytes (c ∷ t) = utf8_from-utf8_char c (as_bytes t) ∙ ap (◌∷◌ c) (utf8_from-as_bytes t)

abbrev first_code : Text → Option ℕ
first_code [] = none
first_code (c ∷ s) = some c

abbrev encodings : Encodings
encodings = record {
  base64_encode = λ b. b;
  base64_decode = λ t. some t;
  from_utf8 = λ b. some (utf8_from 0 0 b);
  sha256 = λ b. b;
  hex = λ b. b'0' ∷ [];
  show_uuid = λ id. id ∷ [];
  parse_uuid = first_code;
}

encodings-IsCoding : IsCoding encodings
encodings-IsCoding = record {
  base64 = λ b. refl;
  utf8 = λ t. ap some (utf8_from-as_bytes t);
  hex = λ b. (refl, tt);
  uuid = λ id. refl;
}

parse-generate_unsubscribe_token_example :
    parse_unsubscribe_token encodings (generate_unsubscribe_token encodings (lit "a@b") (some 7))
    ≡ some (lit "a@b", some 7)
unfolding opened
parse-generate_unsubscribe_token_example =
    parse-generate_unsubscribe_token encodings encodings-IsCoding (lit "a@b") (some 7)
      (refl, (refl, (refl, tt)))
