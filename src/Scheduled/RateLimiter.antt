-- ===== src/Scheduled/RateLimiter.antt =====
-- `RateLimiter` (scheduled/rate_limiter.rs) over its cache and the tables `tenant_rate_limits` and
-- `rate_limit_counters`. Times are seconds since the epoch; limits and counts are not negative.
use mai_rust.Common.{
  ℕ, ◌+◌, ◌-◌, ◌*◌, ◌/◌, min, Bool, true, false, not, ◌&&◌, Option, none, some, List, [], ◌∷◌, keep,
  length, if◌then◌else◌, ◌==◌, leb, ltb,
}
use mai_rust.Common.Text.{Text, lit, eq_text}
use mai_rust.Common.Results.{Result, ok, err, ◌>>=◌}

pub record TenantRateLimit : Type 0 where
  pub tenant_id : ℕ
  pub per_minute : ℕ
  pub per_hour : ℕ
  pub per_day : ℕ
  pub enabled : Bool

pub record Counter : Type 0 where
  pub tenant_id : ℕ
  pub window_type : Text
  pub window_start : ℕ
  pub count : ℕ
  pub limit_value : ℕ

pub record RemainingQuota : Type 0 where
  pub per_minute : ℕ
  pub per_hour : ℕ
  pub per_day : ℕ

-- The limiter's cache and the tables. `limits` is written elsewhere. Each statement succeeds or fails
-- on its own: the query for limits by the tenant, the query for a count and the update of a counter
-- by the tenant and the kind of window, and the deletion of old counters.
pub record Limiter : Type 0 where
  pub cache : List (ℕ × TenantRateLimit)
  pub limits : ℕ → Option TenantRateLimit
  pub counters : List Counter
  pub can_fetch : ℕ → Bool
  pub can_count : ℕ → Text → Bool
  pub can_upsert : ℕ → Text → Bool
  pub can_delete : Bool

unfoldable pub default_limit : ℕ → TenantRateLimit
default_limit tenant_id = record {
  tenant_id = tenant_id;
  per_minute = 100;
  per_hour = 5000;
  per_day = 50_000;
  enabled = true;
}

unfoldable pub cached : ℕ → List (ℕ × TenantRateLimit) → Option TenantRateLimit
cached tenant_id [] = none
cached tenant_id (e ∷ es) =
    let rest = cached tenant_id es in if tenant_id == e.0 then some e.1 else rest

unfoldable pub or_default : ℕ → Option TenantRateLimit → TenantRateLimit
unfolding default_limit
or_default tenant_id none = default_limit tenant_id
or_default tenant_id (some l) = l

-- An entry in front of the cache hides one of the same tenant behind it.
unfoldable pub fetch : ℕ → Limiter → Result TenantRateLimit × Limiter
unfolding or_default
fetch tenant_id st =
    let l = or_default tenant_id (st.limits tenant_id) in
    if st.can_fetch tenant_id
    then (ok l, record st { cache = (tenant_id, l) ∷ st.cache })
    else (err (lit "database error"), st)

unfoldable pub from_cache : ℕ → Limiter → Option TenantRateLimit → Result TenantRateLimit × Limiter
unfolding fetch
from_cache tenant_id st (some l) = (ok l, st)
from_cache tenant_id st none = fetch tenant_id st

unfoldable pub get_rate_limits : ℕ → Limiter → Result TenantRateLimit × Limiter
unfolding from_cache cached
get_rate_limits tenant_id st = from_cache tenant_id st (cached tenant_id st.cache)

unfoldable pub clear_cache : ℕ → Limiter → Limiter
clear_cache tenant_id st = record st { cache = keep (λ e. not (tenant_id == e.0)) st.cache }

-- The unique key of a counter.
unfoldable pub same_key : ℕ → Text → ℕ → ℕ → Text → ℕ → Bool
same_key t w s t' w' s' = t == t' && eq_text w w' && s == s'

unfoldable pub count_of : ℕ → Text → ℕ → List Counter → ℕ
count_of t w s [] = 0
count_of t w s (c ∷ cs) =
    let rest = count_of t w s cs in
    if same_key c.tenant_id c.window_type c.window_start t w s then c.count else rest

-- The start of the window that holds `now`.
unfoldable pub minute_start : ℕ → ℕ
minute_start now = now / 60 * 60

unfoldable pub hour_start : ℕ → ℕ
hour_start now = now / 3600 * 3600

unfoldable pub day_start : ℕ → ℕ
day_start now = now / 86_400 * 86_400

unfoldable pub window_count : ℕ → Text → ℕ → Limiter → Result ℕ
window_count t w start st =
    if st.can_count t w then ok (count_of t w start st.counters) else err (lit "database error")

unfoldable pub get_window_count : ℕ → ℕ → Text → Limiter → Result ℕ
unfolding window_count
get_window_count now tenant_id window_type st =
    if eq_text window_type (lit "minute")
    then window_count tenant_id window_type (minute_start now) st
    else if eq_text window_type (lit "hour")
    then window_count tenant_id window_type (hour_start now) st
    else if eq_text window_type (lit "day")
    then window_count tenant_id window_type (day_start now) st
    else ok 0

-- The early returns of `check_allowed`.
unfoldable pub below : ℕ → Result Bool → ℕ → Result Bool
below limit rest count = if leb limit count then ok false else rest

unfoldable pub check_windows : ℕ → TenantRateLimit → ℕ → Limiter → Result Bool
unfolding get_window_count below
check_windows now l tenant_id st =
    get_window_count now tenant_id (lit "minute") st
    >>= below l.per_minute (
        get_window_count now tenant_id (lit "hour") st
        >>= below l.per_hour
            (get_window_count now tenant_id (lit "day") st >>= below l.per_day (ok true)))

unfoldable pub check_limits : ℕ → ℕ → Result TenantRateLimit × Limiter → Result Bool × Limiter
unfolding check_windows
check_limits now tenant_id (err e, st) = (err e, st)
check_limits now tenant_id (ok l, st) =
    if not l.enabled then (ok true, st) else (check_windows now l tenant_id st, st)

unfoldable pub check_allowed : ℕ → ℕ → Limiter → Result Bool × Limiter
unfolding check_limits get_rate_limits
check_allowed now tenant_id st = check_limits now tenant_id (get_rate_limits tenant_id st)

-- INSERT … ON CONFLICT DO UPDATE.
unfoldable pub upsert : ℕ → Text → ℕ → ℕ → List Counter → List Counter
upsert t w s limit_value [] =
    record {
      tenant_id = t;
      window_type = w;
      window_start = s;
      count = 1;
      limit_value = limit_value;
    }
    ∷ []
upsert t w s limit_value (c ∷ cs) =
    let rest = upsert t w s limit_value cs in
    if same_key c.tenant_id c.window_type c.window_start t w s
    then record c { count = c.count + 1 } ∷ cs
    else c ∷ rest

unfoldable pub upsert_counter : ℕ → Text → ℕ → ℕ → Limiter → Result (Unit {0}) × Limiter
unfolding upsert
upsert_counter t w start limit_value st =
    if st.can_upsert t w
    then (ok tt, record st { counters = upsert t w start limit_value st.counters })
    else (err (lit "database error"), st)

-- A statement behind another one, which ends them if it fails.
unfoldable pub and_then :
    Result (Unit {0}) × Limiter
    → (Limiter → Result (Unit {0}) × Limiter)
    → Result (Unit {0}) × Limiter
and_then (ok _, st) next = next st
and_then (err e, st) next = (err e, st)

-- The three statements of `increment`.
unfoldable pub increment_windows : ℕ → TenantRateLimit → ℕ → Limiter → Result (Unit {0}) × Limiter
unfolding upsert_counter and_then
increment_windows now l tenant_id st =
    and_then
      (and_then (upsert_counter tenant_id (lit "minute") (minute_start now) l.per_minute st)
        (upsert_counter tenant_id (lit "hour") (hour_start now) l.per_hour))
      (upsert_counter tenant_id (lit "day") (day_start now) l.per_day)

unfoldable pub increment_limits :
    ℕ → ℕ → Result TenantRateLimit × Limiter → Result (Unit {0}) × Limiter
unfolding increment_windows
increment_limits now tenant_id (err e, st) = (err e, st)
increment_limits now tenant_id (ok l, st) =
    if not l.enabled then (ok tt, st) else increment_windows now l tenant_id st

unfoldable pub increment : ℕ → ℕ → Limiter → Result (Unit {0}) × Limiter
unfolding increment_limits get_rate_limits
increment now tenant_id st = increment_limits now tenant_id (get_rate_limits tenant_id st)

abbrev pub i32_max : ℕ
i32_max = 2_147_483_647

-- `(limit - count).max(0)` is the difference that stops at 0.
unfoldable pub remaining_windows : ℕ → TenantRateLimit → ℕ → Limiter → Result RemainingQuota
unfolding get_window_count
remaining_windows now l tenant_id st =
    get_window_count now tenant_id (lit "minute") st >>= λ minutes.
    get_window_count now tenant_id (lit "hour") st >>= λ hours.
    get_window_count now tenant_id (lit "day") st >>= λ days. ok (record {
      per_minute = l.per_minute - minutes;
      per_hour = l.per_hour - hours;
      per_day = l.per_day - days;
    })

unfoldable pub remaining_limits :
    ℕ → ℕ → Result TenantRateLimit × Limiter → Result RemainingQuota × Limiter
unfolding remaining_windows
remaining_limits now tenant_id (err e, st) = (err e, st)
remaining_limits now tenant_id (ok l, st) =
    if not l.enabled
    then (ok (record { per_minute = i32_max; per_hour = i32_max; per_day = i32_max }), st)
    else (remaining_windows now l tenant_id st, st)

unfoldable pub get_remaining : ℕ → ℕ → Limiter → Result RemainingQuota × Limiter
unfolding remaining_limits get_rate_limits
get_remaining now tenant_id st = remaining_limits now tenant_id (get_rate_limits tenant_id st)

-- `RemainingQuota::min`.
unfoldable pub minimum : RemainingQuota → ℕ
minimum q = min (min q.per_minute q.per_hour) q.per_day

-- Counters that began before the cutoff, two days ago, go; the result is their number.
unfoldable pub cleanup_old_counters : ℕ → Limiter → Result ℕ × Limiter
cleanup_old_counters now st =
    let kept = keep (λ c. not (ltb c.window_start (now - 172_800))) st.counters in
    if st.can_delete
    then (ok (length st.counters - length kept), record st { counters = kept })
    else (err (lit "database error"), st)
