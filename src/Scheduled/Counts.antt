-- ===== src/Scheduled/Counts.antt =====
-- How the counters of a tenant count.
use mai_rust.Common.{
  ℕ, ◌+◌, ◌≡◌, ◌≢◌, refl, sym, ◌∙◌, Bool-cases, inl, inr, true, false, List, [], ◌∷◌, if◌then◌else◌,
  ==_refl, arith,
}
use mai_rust.Common.Text.{Text, lit, eq_text, eq_text_sound, eq_text_refl}
use mai_rust.Common.Results.{ok, err}
use mai_rust.Scheduled.RateLimiter.{
  TenantRateLimit, Counter, same_key, count_of, minute_start, hour_start, day_start, upsert,
}

pub err_ne_ok : {A : Type 0} {e : Text} {a : A} → err e ≢ ok a
err_ne_ok h = cc

pub true_ne_false : true ≢ false
true_ne_false h = cc

pub same_key_sound :
    (t : ℕ) (w : Text) (s t' : ℕ) (w' : Text) (s' : ℕ) (u : ℕ) (v : Text) (r : ℕ)
    → same_key t w s t' w' s' ≡ true
    → same_key t w s u v r ≡ same_key t' w' s' u v r
unfolding same_key
same_key_sound t w s t' w' s' u v r h = elim (Bool-cases (eq_text w w')) [
  | inr other ↦ ground arith
  | inl same ↦ rw (eq_text_sound w w' same) (ground arith)
]

pub same_key_refl : (t : ℕ) (w : Text) (s : ℕ) → same_key t w s t w s ≡ true
unfolding same_key
same_key_refl t w s = rw (==_refl t, eq_text_refl w, ==_refl s) refl

-- Of two keys, a third is the one and not the other: so they differ.
pub same_key_other :
    (a : ℕ) (b : Text) (c t : ℕ) (w : Text) (s t' : ℕ) (w' : Text) (s' : ℕ)
    → same_key a b c t w s ≡ false
    → same_key a b c t' w' s' ≡ true
    → same_key t w s t' w' s' ≡ false
same_key_other a b c t w s t' w' s' h k = elim (Bool-cases (same_key t w s t' w' s')) [
  | inr other ↦ other
  | inl same ↦
      let e = same_key_sound t w s t' w' s' t w s same in
      let f = same_key_sound a b c t' w' s' t w s k in
      let yes_ = same_key_refl t w s in absurd (true_ne_false (sym yes_ ∙ e ∙ sym f ∙ h))
]

-- An increment counts one in its window and nothing in any other.
pub count_of-upsert :
    (t : ℕ) (w : Text) (s limit t' : ℕ) (w' : Text) (s' : ℕ) (cs : List Counter)
    → count_of t' w' s' (upsert t w s limit cs)
      ≡ (if same_key t w s t' w' s' then 1 else 0) + count_of t' w' s' cs
unfolding count_of upsert
count_of-upsert t w s limit t' w' s' [] = ground arith
count_of-upsert t w s limit t' w' s' (c ∷ cs) =
    elim (Bool-cases (same_key c.tenant_id c.window_type c.window_start t w s)) [
      | inr other ↦
          rw other (elim (Bool-cases (same_key c.tenant_id c.window_type c.window_start t' w' s')) [
            | inr behind ↦ rw behind (count_of-upsert t w s limit t' w' s' cs)
            | inl found ↦
                rw
                  (
                    found,
                    same_key_other c.tenant_id c.window_type c.window_start t w s t' w' s' other
                        found,
                  )
                  (omega arith)
          ])
      | inl same ↦
          rw (same, same_key_sound c.tenant_id c.window_type c.window_start t w s t' w' s' same)
            (ground arith)
    ]

-- A window's count after the three statements of an increment.
pub count_of-windows :
    (now : ℕ) (l : TenantRateLimit) (t : ℕ) (w : Text) (s : ℕ) (cs : List Counter)
    → count_of t w s (
        upsert t (lit "day") (day_start now) l.per_day (
          upsert t
            (lit "hour")
            (hour_start now)
            l.per_hour
            (upsert t (lit "minute") (minute_start now) l.per_minute cs)))
      ≡ (if same_key t (lit "day") (day_start now) t w s then 1 else 0)
        + ((if same_key t (lit "hour") (hour_start now) t w s then 1 else 0)
            + ((if same_key t (lit "minute") (minute_start now) t w s then 1 else 0)
                + count_of t w s cs))
count_of-windows now l t w s cs = omega (
  arith,
  count_of-upsert t (lit "minute") (minute_start now) l.per_minute t w s cs,
  count_of-upsert t (lit "hour") (hour_start now) l.per_hour t w s
      (upsert t (lit "minute") (minute_start now) l.per_minute cs),
  count_of-upsert t (lit "day") (day_start now) l.per_day t w s (
      upsert t (lit "hour") (hour_start now) l.per_hour
        (upsert t (lit "minute") (minute_start now) l.per_minute cs)),
)

-- Windows of different kinds have different keys.
pub other_kind : (t s r : ℕ) (w v : Text) → eq_text w v ≡ false → same_key t w s t v r ≡ false
unfolding same_key
other_kind t s r w v h = rw h (ground arith)
