-- ===== src/Smtp/Loop.antt =====
-- The loop of `run_session`: induction over its rounds, and that it ends.
use mathlib.Core.Option.{some-injective}
use mai_rust.Common.{
  ℕ, Bool, ◌++◌, ◌⊎◌, subst, Option-cases, zero, suc, ◌≤◌, ◌<◌, ◌≡◌, refl, Bool-cases, inl, inr,
  true, false, none, some, List, [], ◌∷◌, arith, length,
}
use mai_rust.Common.Text.{Text, is_empty, trim}
use mai_rust.Common.Results.{Result, ok, err}
use mai_rust.Smtp.Types.{Services, SmtpConfig, Session, Input, line, broken, send_response}
use mai_rust.Smtp.Receive.{unstuff, read_lines, max_size, read_data}
use mai_rust.Smtp.Parse.{parse_command}
use mai_rust.Smtp.Dialogue.{
  Verb, helo, ehlo, starttls, auth, mail, rcpt, data_verb, rset, Handled, take_line, read_line,
}
use mai_rust.Smtp.Auth.{login_challenge_username, login_challenge_password}
use mai_rust.Smtp.AuthCommand.{on_auth}
use mai_rust.Smtp.Command.{
  ehlo_lines, on_helo, on_ehlo, on_starttls, on_mail, on_rcpt, on_data, on_rset, run_verb,
  process_command,
}
use mai_rust.Smtp.Guards.{send_all_keeps}
use mai_rust.Smtp.Run.{run_line, run_loop}

pub length-read_lines :
    (limit : ℕ) (input : List Input) (acc : List ℕ)
    → length (read_lines limit input acc).1 ≤ length input
unfolding read_lines
length-read_lines limit [] acc = omega arith
length-read_lines limit (broken ∷ rest) acc = omega arith
length-read_lines limit (line t ∷ rest) acc =
    ground (arith, length-read_lines limit rest (acc ++ unstuff t))

pub length-read_line : (s : Session) → length (read_line s).1.input ≤ length s.input
unfolding read_line
length-read_line s = ground arith

-- A line that is not the end of the connection is taken off the input.
length-read_line_lt :
    (s : Session)
    → ((t : Text) → (read_line s).0 ≡ ok t → is_empty t ≡ true)
      ⊎ (length (read_line s).1.input < length s.input)
unfolding read_line is_empty
length-read_line_lt s = from_input s.input
  where
    from_input :
        (i : List Input)
        → ((t : Text) → (take_line i s).0 ≡ ok t → is_empty t ≡ true)
          ⊎ (length (take_line i s).1.input < length i)
    from_input [] = inl (λ t e. ground arith)
    from_input (broken ∷ rest) = inr (omega arith)
    from_input (line t ∷ rest) = inr (omega arith)

module _ (sv : Services) (config : SmtpConfig) (tls : Bool) where
  length-on_auth :
      (args : Text) (s : Session) → length (on_auth sv config tls args s).1.input ≤ length s.input
  unfolding on_auth
  length-on_auth args s =
      let asked = (read_line (send_response 334 login_challenge_username s)).1 in
      ground (
        arith,
        length-read_line (send_response 334 [] s),
        length-read_line (send_response 334 login_challenge_username s),
        length-read_line (send_response 334 login_challenge_password asked),
      )

  length-run_verb :
      (v : Verb) (args : Text) (s : Session)
      → length (run_verb sv config tls v args s).1.input ≤ length s.input
  unfolding run_verb on_helo on_starttls on_mail on_rcpt on_rset on_ehlo on_data read_data
  length-run_verb helo args s = ground arith
  length-run_verb ehlo args s =
      rw (send_all_keeps (ehlo_lines sv config tls args s.authenticated) _) (omega arith)
  length-run_verb starttls args s = ground arith
  length-run_verb auth args s = length-on_auth args s
  length-run_verb mail args s = ground arith
  length-run_verb rcpt args s = ground arith
  length-run_verb data_verb args s = ground (arith, length-read_lines (max_size config) s.input [])
  length-run_verb rset args s = ground arith
  length-run_verb _ args s = ground arith

  pub length-process_command :
      (command args : Text) (s : Session)
      → length (process_command sv config tls command args s).1.input ≤ length s.input
  unfolding process_command
  length-process_command command args s = length-run_verb _ args s

  -- A round that goes on has read a line that is not empty, and no command gives input back.
  run_line_goes_on :
      (r : Result Text) (s : Session)
      → (run_line sv config tls (r, s)).0 ≡ none
      → (t : Text) × (r ≡ ok t)
        × (is_empty t ≡ false)
        × (length (run_line sv config tls (r, s)).1.input ≤ length s.input)
  unfolding run_line
  run_line_goes_on (err x) s e = cc
  run_line_goes_on (ok t) s e =
      let (command, args) = parse_command (trim t) in
      (t, refl, ground arith, ground (arith, length-process_command command args s))

  run_line_shrinks :
      (s : Session)
      → (run_line sv config tls (read_line s)).0 ≡ none
      → length (run_line sv config tls (read_line s)).1.input < length s.input
  run_line_shrinks s e =
      let (t, read, full, shorter) = run_line_goes_on (read_line s).0 (read_line s).1 e in
      elim (length-read_line_lt s) [ inl closed ↦ cc (closed t read) | inr taken ↦ omega arith ]

  -- With more fuel than lines of input the loop ends by itself.
  pub run_loop_ends :
      (fuel : ℕ) (s : Session)
      → length s.input < fuel
      → (h : Handled) × (run_loop sv config tls fuel s ≡ some h)
  unfolding run_loop
  run_loop_ends zero s h = absurd (omega arith)
  run_loop_ends (suc fuel) s h = elim (Option-cases (run_line sv config tls (read_line s)).0) [
    | inl on ↦ rw (on, run_loop) (run_loop_ends fuel _ (omega (arith, run_line_shrinks s on)))
    | inr (c, over) ↦ ((c, (run_line sv config tls (read_line s)).1), rw (over, run_loop))
  ]

  -- What every command keeps, and no reading of input disturbs, holds when the loop ends.
  module _ (P : Session → Type 0)
      (keeps : (command args : Text) (s : Session)
        → P s
        → P (process_command sv config tls command args s).1)
      (reads : (s : Session) → P s → P (read_line s).1) where
    run_line_keeps : (r : Result Text) (s : Session) → P s → P (run_line sv config tls (r, s)).1
    unfolding run_line
    run_line_keeps (err x) s p = p
    run_line_keeps (ok t) s p = elim (Bool-cases (is_empty t)) [
      | inl closed ↦ rw closed p
      | inr text ↦ rw text (keeps (parse_command (trim t)).0 (parse_command (trim t)).1 s p)
    ]

    pub run_loop_keeps :
        (fuel : ℕ) (s : Session) (h : Handled)
        → P s
        → run_loop sv config tls fuel s ≡ some h
        → P h.1
    unfolding run_loop
    run_loop_keeps zero s h p e = cc
    run_loop_keeps (suc fuel) s h p e =
        elim (Option-cases (run_line sv config tls (read_line s)).0) [
          | inl on ↦
              run_loop_keeps fuel _ h (run_line_keeps (read_line s).0 (read_line s).1 (reads s p))
                (rw (on, run_loop) at e)
          | inr (c, over) ↦
              subst (λ (k : Handled). P k.1) (some-injective _ _ (rw (over, run_loop) at e))
                (run_line_keeps (read_line s).0 (read_line s).1 (reads s p))
        ]
