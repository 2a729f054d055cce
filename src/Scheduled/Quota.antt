-- ===== src/Scheduled/Quota.antt =====
-- The quota of a tenant that is remaining, and what is allowed.
use mai_rust.Common.{
  ℕ, sym, leb, ◌-◌, ◌<◌, ◌≡◌, refl, ap, Bool, Bool-cases, inl, inr, true, false, arith, ◌∙◌,
}
use mai_rust.Common.Text.{lit}
use mai_rust.Common.Results.{Result, ok, err, ◌>>=◌}
use mai_rust.Scheduled.RateLimiter.{
  TenantRateLimit, RemainingQuota, Limiter, get_rate_limits, get_window_count, below, check_windows,
  check_limits, check_allowed, remaining_windows, remaining_limits, get_remaining, minimum, i32_max,
}

-- What the answer to whether sending is allowed says of the answer on what is remaining: `true` that
-- something is left, and an error that it is the same error.
abbrev pub Agrees : Result Bool → Result RemainingQuota → Type 0
Agrees (ok true) r = (q : RemainingQuota) × (r ≡ ok q) × (0 < minimum q)
Agrees (ok false) r = (q : RemainingQuota) → r ≡ ok q → minimum q ≡ 0
Agrees (err e) r = r ≡ err e

abbrev quota : ℕ → ℕ → ℕ → RemainingQuota
quota minutes hours days = record { per_minute = minutes; per_hour = hours; per_day = days }

-- What a reading has left, or nothing.
abbrev left_in : Result RemainingQuota → ℕ
left_in (ok q) = minimum q
left_in (err e) = 0

nothing_left :
    (r : Result RemainingQuota) → left_in r ≡ 0 → (q : RemainingQuota) → r ≡ ok q → minimum q ≡ 0
nothing_left r h q e = sym (ap left_in e) ∙ h

-- The check and the reading over the three counts, which may each fail, from the last one on.
day-Agrees :
    (l m n x y : ℕ) (c : Result ℕ)
    → leb l x ≡ false
    → leb m y ≡ false
    → Agrees (c >>= below n (ok true)) (c >>= λ z. ok (quota (l - x) (m - y) (n - z)))
unfolding below minimum
day-Agrees l m n x y (err e) h k = refl
day-Agrees l m n x y (ok z) h k = elim (Bool-cases (leb n z)) [
  | inl full ↦ rw full (nothing_left (ok (quota (l - x) (m - y) (n - z))) (ground arith))
  | inr room ↦ rw room (quota (l - x) (m - y) (n - z), refl, ground arith)
]

-- Nothing is left if one of the windows read before is full.
hour_full :
    (a y m n : ℕ) (c : Result ℕ)
    → leb m y ≡ true
    → left_in (c >>= λ z. ok (quota a (m - y) (n - z))) ≡ 0
unfolding minimum
hour_full a y m n (err e) h = refl
hour_full a y m n (ok z) h = ground arith

hour-Agrees :
    (l m n x : ℕ) (b c : Result ℕ)
    → leb l x ≡ false
    → Agrees
        (b >>= below m (c >>= below n (ok true)))
        (b >>= λ y. c >>= λ z. ok (quota (l - x) (m - y) (n - z)))
unfolding below
hour-Agrees l m n x (err e) c h = refl
hour-Agrees l m n x (ok y) c h = elim (Bool-cases (leb m y)) [
  | inl full ↦ rw full (
      nothing_left (c >>= λ z. ok (quota (l - x) (m - y) (n - z))) (hour_full (l - x) y m n c full))
  | inr room ↦ rw room (day-Agrees l m n x y c h room)
]

minute_full :
    (x l m n : ℕ) (b c : Result ℕ)
    → leb l x ≡ true
    → left_in (b >>= λ y. c >>= λ z. ok (quota (l - x) (m - y) (n - z))) ≡ 0
unfolding minimum
minute_full x l m n (err e) c h = refl
minute_full x l m n (ok y) (err e) h = refl
minute_full x l m n (ok y) (ok z) h = ground arith

minute-Agrees :
    (l m n : ℕ) (a b c : Result ℕ)
    → Agrees
        (a >>= below l (b >>= below m (c >>= below n (ok true))))
        (a >>= λ x. b >>= λ y. c >>= λ z. ok (quota (l - x) (m - y) (n - z)))
unfolding below
minute-Agrees l m n (err e) b c = refl
minute-Agrees l m n (ok x) b c = elim (Bool-cases (leb l x)) [
  | inl full ↦ rw full (
      nothing_left (b >>= λ y. c >>= λ z. ok (quota (l - x) (m - y) (n - z)))
        (minute_full x l m n b c full))
  | inr room ↦ rw room (hour-Agrees l m n x b c room)
]

check_windows-Agrees :
    (now : ℕ) (l : TenantRateLimit) (t : ℕ) (st : Limiter)
    → Agrees (check_windows now l t st) (remaining_windows now l t st)
unfolding check_windows remaining_windows
check_windows-Agrees now l t st =
    minute-Agrees l.per_minute l.per_hour l.per_day (get_window_count now t (lit "minute") st)
      (get_window_count now t (lit "hour") st) (get_window_count now t (lit "day") st)

check_limits-Agrees :
    (now t : ℕ) (r : Result TenantRateLimit) (st : Limiter)
    → Agrees (check_limits now t (r, st)).0 (remaining_limits now t (r, st)).0
unfolding check_limits remaining_limits minimum
check_limits-Agrees now t (err e) st = refl
check_limits-Agrees now t (ok l) st = elim (Bool-cases l.enabled) [
  | inr off ↦ rw off (quota i32_max i32_max i32_max, refl, omega arith)
  | inl on ↦ rw on (check_windows-Agrees now l t st)
]

-- Sending is allowed only if the remaining quota can be read and has something left in each of its
-- windows, also for a tenant without limits; it is not allowed only if the quota has nothing left in
-- some window or cannot be read; and an error of the check is the error of the reading.
pub check_allowed-get_remaining :
    (now t : ℕ) (st : Limiter) → Agrees (check_allowed now t st).0 (get_remaining now t st).0
unfolding check_allowed get_remaining
check_allowed-get_remaining now t st =
    check_limits-Agrees now t (get_rate_limits t st).0 (get_rate_limits t st).1
