-- ===== src/Scheduled/Windows.antt =====
-- What counting allows, window by window, and that limits are read once.
use mai_rust.Common.{
  ℕ, sym, subst, ◌+◌, ◌/◌, ◌≡◌, refl, ap, ◌∙◌, Bool-cases, inl, inr, true, ◌&&◌, Option, none, some,
  List, [], ◌∷◌, if◌then◌else◌, ◌==◌, ltb, ==_refl, arith,
}
use mai_rust.Common.Text.{Text, lit, eq_text}
use mai_rust.Common.Results.{ok, ◌>>=◌}
use mai_rust.Scheduled.RateLimiter.{
  TenantRateLimit, Counter, Limiter, cached, fetch, from_cache, get_rate_limits, same_key, count_of,
  minute_start, hour_start, day_start, window_count, get_window_count, below, check_windows,
  check_limits, check_allowed, upsert, upsert_counter, and_then, increment_windows,
  increment_limits, increment, or_default,
}
use mai_rust.Scheduled.Counts.{err_ne_ok, count_of-windows}

-- The limits of the tenant are known and in force, and its statements succeed.
pub record IsServed (t : ℕ) (l : TenantRateLimit) (st : Limiter) : Type 0 where
  pub known : cached t st.cache ≡ some l
  pub on : l.enabled ≡ true
  pub counts : (w : Text) → st.can_count t w ≡ true
  pub upserts : (w : Text) → st.can_upsert t w ≡ true

-- The limiter after sends at the times of a list, each of which it has counted.
abbrev pub increments : List ℕ → ℕ → Limiter → Limiter
increments [] t st = st
increments (a ∷ times) t st = increments times t (increment a t st).1

-- How many of the times lie in the window of `size` seconds that `now` lies in.
abbrev pub sent_in : ℕ → ℕ → List ℕ → ℕ
sent_in size now [] = 0
sent_in size now (a ∷ times) = (if a / size == now / size then 1 else 0) + sent_in size now times

-- What a successful counting does.
abbrev counted : ℕ → TenantRateLimit → ℕ → List Counter → List Counter
counted now l t cs = upsert t (lit "day") (day_start now) l.per_day (
    upsert t (lit "hour") (hour_start now) l.per_hour
      (upsert t (lit "minute") (minute_start now) l.per_minute cs))

increment-counted :
    (now t : ℕ) (l : TenantRateLimit) (st : Limiter)
    → IsServed t l st
    → (increment now t st).1 ≡ record st { counters = counted now l t st.counters }
unfolding increment increment_limits increment_windows upsert_counter and_then get_rate_limits
    from_cache
increment-counted now t l st h =
    simp (h.known, h.on, h.upserts (lit "minute"), h.upserts (lit "hour"), h.upserts (lit "day"))
      refl

-- The counters that a limiter is left with after the sends, in each kind of window.
record IsCounted (now t : ℕ) (times : List ℕ) (before : List Counter) (l : TenantRateLimit)
    (st : Limiter) : Type 0 where
  served : IsServed t l st
  minutes :
      count_of t (lit "minute") (minute_start now) st.counters
      ≡ sent_in 60 now times + count_of t (lit "minute") (minute_start now) before
  hours :
      count_of t (lit "hour") (hour_start now) st.counters
      ≡ sent_in 3600 now times + count_of t (lit "hour") (hour_start now) before
  days :
      count_of t (lit "day") (day_start now) st.counters
      ≡ sent_in 86_400 now times + count_of t (lit "day") (day_start now) before

-- A counting counts in the windows that hold its time.
minute_counted :
    (a now t : ℕ) (l : TenantRateLimit) (cs : List Counter)
    → count_of t (lit "minute") (minute_start now) (counted a l t cs)
      ≡ (if a / 60 == now / 60 then 1 else 0) + count_of t (lit "minute") (minute_start now) cs
unfolding same_key minute_start eq_text lit
minute_counted a now t l cs =
    count_of-windows a l t (lit "minute") (minute_start now) cs ∙ ground arith

hour_counted :
    (a now t : ℕ) (l : TenantRateLimit) (cs : List Counter)
    → count_of t (lit "hour") (hour_start now) (counted a l t cs)
      ≡ (if a / 3600 == now / 3600 then 1 else 0) + count_of t (lit "hour") (hour_start now) cs
unfolding same_key hour_start eq_text lit
hour_counted a now t l cs = count_of-windows a l t (lit "hour") (hour_start now) cs ∙ ground arith

day_counted :
    (a now t : ℕ) (l : TenantRateLimit) (cs : List Counter)
    → count_of t (lit "day") (day_start now) (counted a l t cs)
      ≡ (if a / 86_400 == now / 86_400 then 1 else 0) + count_of t (lit "day") (day_start now) cs
unfolding same_key day_start eq_text lit
day_counted a now t l cs = count_of-windows a l t (lit "day") (day_start now) cs ∙ ground arith

increments-IsCounted :
    (now t : ℕ) (times : List ℕ) (l : TenantRateLimit) (st : Limiter)
    → IsServed t l st
    → IsCounted now t times st.counters l (increments times t st)
increments-IsCounted now t [] l st h = record {
  served = h;
  minutes = omega arith;
  hours = omega arith;
  days = omega arith;
}
increments-IsCounted now t (a ∷ times) l st h =
    let after : Limiter = record st { counters = counted a l t st.counters } in
    let later =
      increments-IsCounted now t times l after
        (record { known = h.known; on = h.on; counts = h.counts; upserts = h.upserts }) in
    subst (λ x. IsCounted now t (a ∷ times) st.counters l (increments times t x))
      (sym (increment-counted a t l st h))
      (record {
        served = later.served;
        minutes = omega (arith, later.minutes, minute_counted a now t l st.counters);
        hours = omega (arith, later.hours, hour_counted a now t l st.counters);
        days = omega (arith, later.days, day_counted a now t l st.counters);
      })

reads_minute :
    (now t : ℕ) (st : Limiter)
    → st.can_count t (lit "minute") ≡ true
    → get_window_count now t (lit "minute") st
      ≡ ok (count_of t (lit "minute") (minute_start now) st.counters)
unfolding get_window_count window_count eq_text lit
reads_minute now t st h = rw h refl

reads_hour :
    (now t : ℕ) (st : Limiter)
    → st.can_count t (lit "hour") ≡ true
    → get_window_count now t (lit "hour") st
      ≡ ok (count_of t (lit "hour") (hour_start now) st.counters)
unfolding get_window_count window_count eq_text lit
reads_hour now t st h = rw h refl

reads_day :
    (now t : ℕ) (st : Limiter)
    → st.can_count t (lit "day") ≡ true
    → get_window_count now t (lit "day") st
      ≡ ok (count_of t (lit "day") (day_start now) st.counters)
unfolding get_window_count window_count eq_text lit
reads_day now t st h = rw h refl

all_below :
    (x y z i j k : ℕ)
    → (ok x >>= below i (ok y >>= below j (ok z >>= below k (ok true))))
      ≡ ok (ltb x i && ltb y j && ltb z k)
unfolding below
all_below x y z i j k = ground arith

below_limits :
    (now t : ℕ) (l : TenantRateLimit) (st : Limiter)
    → IsServed t l st
    → (check_allowed now t st).0
      ≡ ok (
          ltb (count_of t (lit "minute") (minute_start now) st.counters) l.per_minute
          && ltb (count_of t (lit "hour") (hour_start now) st.counters) l.per_hour
          && ltb (count_of t (lit "day") (day_start now) st.counters) l.per_day)
unfolding check_allowed check_limits check_windows get_rate_limits from_cache
below_limits now t l st h =
    simp
      (
        h.known,
        h.on,
        reads_minute now t st (h.counts (lit "minute")),
        reads_hour now t st (h.counts (lit "hour")),
        reads_day now t st (h.counts (lit "day")),
      )
      (all_below _ _ _ l.per_minute l.per_hour l.per_day)

agreeing :
    {a a' b b' c c' : ℕ} (i j k : ℕ)
    → a ≡ a'
    → b ≡ b'
    → c ≡ c'
    → ok (ltb a i && ltb b j && ltb c k) ≡ ok (ltb a' i && ltb b' j && ltb c' k)
agreeing i j k e f g = rw (e, f, g) refl

-- What the limiter allows is bound to the clock: if the limits of a tenant are known and in force, its
-- statements succeed, and nothing was counted before, then after countings at any times, in any
-- order, sending is allowed at a time exactly if fewer of them than the limits say fell in the same
-- minute, the same hour and the same day as that time.
pub check_allowed-increments :
    (now t : ℕ) (times : List ℕ) (l : TenantRateLimit) (st : Limiter)
    → IsServed t l st
    → ((w : Text) (s : ℕ) → count_of t w s st.counters ≡ 0)
    → (check_allowed now t (increments times t st)).0
      ≡ ok (
          ltb (sent_in 60 now times) l.per_minute
          && ltb (sent_in 3600 now times) l.per_hour
          && ltb (sent_in 86_400 now times) l.per_day)
check_allowed-increments now t times l st h fresh =
    let k = increments-IsCounted now t times l st h in
    let minutes = fresh (lit "minute") (minute_start now) in
    let hours = fresh (lit "hour") (hour_start now) in
    let days = fresh (lit "day") (day_start now) in
    let m : count_of t (lit "minute") (minute_start now) (increments times t st).counters
        ≡ sent_in 60 now times =
      omega (arith, k.minutes, minutes) in
    let n : count_of t (lit "hour") (hour_start now) (increments times t st).counters
        ≡ sent_in 3600 now times =
      omega (arith, k.hours, hours) in
    let d : count_of t (lit "day") (day_start now) (increments times t st).counters
        ≡ sent_in 86_400 now times =
      omega (arith, k.days, days) in
    below_limits now t l (increments times t st) k.served
    ∙ agreeing l.per_minute l.per_hour l.per_day m n d

from_cache-stale :
    (t : ℕ) (l : TenantRateLimit) (st st' : Limiter) (o : Option TenantRateLimit)
    → cached t st.cache ≡ o
    → (from_cache t st o).0 ≡ ok l
    → st'.cache ≡ (from_cache t st o).1.cache
    → (get_rate_limits t st').0 ≡ ok l
unfolding from_cache get_rate_limits fetch cached
from_cache-stale t l st st' (some m) c e h =
    let known : cached t st'.cache ≡ some m = ap (cached t) h ∙ c in simp known e
from_cache-stale t l st st' none c e h = elim (Bool-cases (st.can_fetch t)) [
  | inr down ↦ absurd (err_ne_ok (simp down at e))
  | inl up ↦
      let known : cached t st'.cache ≡ some (or_default t (st.limits t)) =
        ap (cached t) (simp up at h) ∙ rw (==_refl t) refl in
      simp known (simp up at e)
]

-- Limits are read once: after a successful reading, and as long as the cache is not cleared, every
-- further reading gives the same limits, whatever the table of limits has become.
pub get_rate_limits-stale :
    (t : ℕ) (l : TenantRateLimit) (st st' : Limiter)
    → (get_rate_limits t st).0 ≡ ok l
    → st'.cache ≡ (get_rate_limits t st).1.cache
    → (get_rate_limits t st').0 ≡ ok l
get_rate_limits-stale t l st st' e h =
    from_cache-stale t l st st' (cached t st.cache) refl (unfold get_rate_limits in e)
      (unfold get_rate_limits in h)
