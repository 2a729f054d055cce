-- ===== src/Pop3/Loops.antt =====
-- Induction over the loops of a POP3 connection: what every command of a kind keeps, a connection on
-- which the client sends only such commands keeps.
use mai_rust.Common.{All, Bool, Bool-cases, inl, inr, true, false, not, List, [], ◌∷◌, ◌||◌}
use mai_rust.Common.Text.{is_empty}
use mai_rust.Pop3.Types.{Services, Pop3, Pop3Command, capa, stls}
use mai_rust.Pop3.Session.{is_authorization}
use mai_rust.Pop3.Parse.{parse}
use mai_rust.Pop3.Command.{handle_command}
use mai_rust.Pop3.Entry.{Handled}
use mai_rust.Pop3.Run.{
  Input, line, read_error, timed_out, Pop3Config, Connection, Next, go, stop, negotiate, respond,
  after_command, plain_command, tls_command, round, run_tls, run_plain, follow, upgrade,
}

-- A line that is read as a command of the kind `Q`.
abbrev pub Sends : Services → (Pop3Command → Type 0) → Input → Type 0
Sends sv Q (line t) = Q (parse sv.wide_upper t)
Sends sv Q read_error = Unit
Sends sv Q timed_out = Unit

module _ (sv : Services) (Q : Pop3Command → Type 0) (P : Pop3 → Type 0)
    (keeps : (c : Pop3Command) (st : Pop3) → Q c → P st → P (handle_command sv c st).1) where
  abbrev After : Next → Type 0
  After (go c) = P c.state
  After (stop c) = P c.state
  After (negotiate c) = P c.state

  after_command_keeps : (h : Handled) (c : Connection) → P h.1 → After (after_command h c)
  unfolding after_command respond
  after_command_keeps ((r, true), st) c p = p
  after_command_keeps ((r, false), st) c p = p

  tls_command_keeps :
      (k : Pop3Command) (c : Connection) → Q k → P c.state → After (tls_command sv k c)
  unfolding tls_command respond
  tls_command_keeps stls c q p = p
  tls_command_keeps capa c q p = p
  tls_command_keeps k c q p =
      after_command_keeps (handle_command sv _ c.state) c (keeps _ c.state q p)

  module _ (config : Pop3Config) (has_acceptor : Bool) where
    plain_stls_keeps :
        (c : Connection) → P c.state → After (plain_command sv config has_acceptor stls c)
    unfolding plain_command respond
    plain_stls_keeps c p = elim (Bool-cases (is_authorization c.state.session)) [
      | inr late ↦ rw late p
      | inl auth ↦ rw auth (elim (Bool-cases (not config.starttls || not has_acceptor)) [
        | inl off ↦ rw off p
        | inr on ↦ rw on p
      ])
    ]

    plain_command_keeps :
        (k : Pop3Command) (c : Connection)
        → Q k
        → P c.state
        → After (plain_command sv config has_acceptor k c)
    unfolding plain_command respond
    plain_command_keeps stls c q p = plain_stls_keeps c p
    plain_command_keeps capa c q p = p
    plain_command_keeps k c q p =
        after_command_keeps (handle_command sv _ c.state) c (keeps _ c.state q p)

  round_keeps :
      (command : Pop3Command → Connection → Next)
      → ((k : Pop3Command) (c : Connection) → Q k → P c.state → After (command k c))
      → (i : Input) (c : Connection) → Sends sv Q i
      → P c.state
      → After (round sv command i c)
  unfolding round respond
  round_keeps command h (line t) c q p = elim (Bool-cases (is_empty t)) [
    | inl eof ↦ rw eof p
    | inr text ↦ rw text (h (parse sv.wide_upper t) c q p)
  ]
  round_keeps command h read_error c q p = p
  round_keeps command h timed_out c q p = p

  -- What follows a round keeps what the next rounds and the handshake keep.
  next_keeps :
      (on upgraded : Connection → Connection)
      → ((c : Connection) → P c.state → P (on c).state)
      → ((c : Connection) → P c.state → P (upgraded c).state)
      → (n : Next) → After n
      → P (follow on upgraded n).state
  next_keeps on upgraded f g (go c) q = f c q
  next_keeps on upgraded f g (stop c) q = q
  next_keeps on upgraded f g (negotiate c) q = g c q

  pub run_tls_keeps :
      (is : List Input) (c : Connection)
      → All (Sends sv Q) is
      → P c.state
      → P (run_tls sv is c).state
  unfolding run_tls
  run_tls_keeps [] c a p = p
  run_tls_keeps (i ∷ is) c (q, a) p =
      next_keeps (run_tls sv is) (λ c'. c') (λ c'. run_tls_keeps is c' a) (λ c' r. r)
        (round sv (tls_command sv) i c) (round_keeps (tls_command sv) tls_command_keeps i c q p)

  upgraded_keeps :
      (handshake : Bool) (tls_input : List Input) (c : Connection)
      → All (Sends sv Q) tls_input
      → P c.state
      → P (upgrade sv handshake tls_input c).state
  upgraded_keeps true tls_input c a p = run_tls_keeps tls_input c a p
  upgraded_keeps false tls_input c a p = p

  pub loop_keeps :
      (config : Pop3Config) (has_acceptor handshake : Bool) (is tls_input : List Input)
      (c : Connection)
      → All (Sends sv Q) is
      → All (Sends sv Q) tls_input
      → P c.state
      → P (run_plain sv config has_acceptor handshake is tls_input c).state
  unfolding run_plain
  loop_keeps config has_acceptor handshake [] tls_input c a b p = p
  loop_keeps config has_acceptor handshake (i ∷ is) tls_input c (q, a) b p =
      next_keeps (run_plain sv config has_acceptor handshake is tls_input)
        (upgrade sv handshake tls_input)
        (λ c'. loop_keeps config has_acceptor handshake is tls_input c' a b)
        (λ c'. upgraded_keeps handshake tls_input c' b)
        (round sv (plain_command sv config has_acceptor) i c)
        (round_keeps (plain_command sv config has_acceptor)
          (plain_command_keeps config has_acceptor) i c q p)
