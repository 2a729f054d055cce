-- ===== src/Imap/Connection.antt =====
-- A connection is a sequence of steps of the session.
use mai_rust.Common.{
  subst, sym, ◌≡◌, refl, Bool, Bool-cases, inl, inr, true, false, not, ◌&&◌, ◌||◌, Option, none,
  some, List, ◌++◌, [], ◌∷◌,
}
use mai_rust.Common.Text.{Text, lit, is_empty}
use mai_rust.Imap.Types.{Services, Imap, ImapCommand, TaggedCommand, starttls_cmd, capability_cmd}
use mai_rust.Imap.Session.{new, is_authenticated}
use mai_rust.Imap.Outcome.{Outcome, parsed, refused, panicked}
use mai_rust.Imap.Response.{ok, bad, capability_with_starttls}
use mai_rust.Imap.Parser.{parse}
use mai_rust.Imap.Command.{handle_command}
use mai_rust.Imap.Run.{
  Input, line, read_error, timed_out, Connection, Next, go, stop, negotiate, respond, is_logged_out,
  after_command, plain_command, tls_command, on_parsed, round, follow, run_tls, upgrade, run_plain,
  handle_connection,
}
use mai_rust.Imap.Steps.{Step, stays, Reach, here, further}
use mai_rust.Imap.RefinesMail.{handle_command-Step}

abbrev state_of : Next → Imap
state_of (go c) = c.state
state_of (stop c) = c.state
state_of (negotiate c) = c.state

module _ (sv : Services) where
  after_command-state :
      (h : Option Text × Imap) (c : Connection) → state_of (after_command h c) ≡ h.1
  unfolding after_command respond
  after_command-state (none, st) c = refl
  after_command-state (some r, st) c = elim (Bool-cases (is_logged_out st.session.state)) [
    | inl gone ↦ simp gone refl
    | inr there ↦ simp there refl
  ]

  -- A round makes one step.
  abbrev Round : Connection → Next → Type 0
  Round c n = Step sv c.state (state_of n)

  after_command-Step :
      (h : Option Text × Imap) (c : Connection) → Step sv c.state h.1 → Round c (after_command h c)
  after_command-Step h c s = subst (Step sv c.state) (sym (after_command-state h c)) s

  answer-Step : (r : Text) (c : Connection) → Round c (after_command (some r, c.state) c)
  answer-Step r c = after_command-Step (some r, c.state) c stays

  tls_command-Step :
      (tag : Text) (k : ImapCommand) (c : Connection) → Round c (tls_command sv tag k c)
  unfolding tls_command
  tls_command-Step tag starttls_cmd c = answer-Step (bad tag (lit "TLS already active")) c
  tls_command-Step tag capability_cmd c =
      answer-Step (capability_with_starttls false ++ ok tag (lit "CAPABILITY completed")) c
  tls_command-Step tag k c =
      after_command-Step (handle_command sv tag _ c.state) c (handle_command-Step sv c.state tag _)

  module _ (starttls has_acceptor : Bool) where
    plain_starttls-Step :
        (tag : Text) (c : Connection)
        → Round c (plain_command sv starttls has_acceptor tag starttls_cmd c)
    unfolding plain_command respond
    plain_starttls-Step tag c = elim (Bool-cases (is_authenticated c.state.session)) [
      | inl late ↦
          simp late (answer-Step (bad tag (lit "STARTTLS not allowed after authentication")) c)
      | inr early ↦ elim (Bool-cases (not starttls || not has_acceptor)) [
        | inl off ↦ simp (early, off) (answer-Step (bad tag (lit "STARTTLS not available")) c)
        | inr on ↦ simp (early, on) stays
      ]
    ]

    plain_command-Step :
        (tag : Text) (k : ImapCommand) (c : Connection)
        → Round c (plain_command sv starttls has_acceptor tag k c)
    unfolding plain_command
    plain_command-Step tag starttls_cmd c = plain_starttls-Step tag c
    plain_command-Step tag capability_cmd c =
        answer-Step
          (capability_with_starttls (starttls && has_acceptor)
            ++ ok tag (lit "CAPABILITY completed"))
          c
    plain_command-Step tag k c =
        after_command-Step (handle_command sv tag _ c.state) c
          (handle_command-Step sv c.state tag _)

  on_parsed-Step :
      (command : Text → ImapCommand → Connection → Next)
      → ((tag : Text) (k : ImapCommand) (c : Connection) → Round c (command tag k c))
      → (o : Outcome TaggedCommand) (c : Connection) → Round c (on_parsed command o c)
  unfolding on_parsed
  on_parsed-Step command h (parsed t) c = h t.tag t.command c
  on_parsed-Step command h refused c = answer-Step (lit "* BAD Invalid command\r\n") c
  on_parsed-Step command h panicked c = stays

  round-Step :
      (command : Text → ImapCommand → Connection → Next)
      → ((tag : Text) (k : ImapCommand) (c : Connection) → Round c (command tag k c))
      → (i : Input) (c : Connection) → Round c (round sv command i c)
  unfolding round respond
  round-Step command h (line t) c = elim (Bool-cases (is_empty t)) [
    | inl eof ↦ simp eof stays
    | inr text ↦ simp text (on_parsed-Step command h (parse sv.wide_upper t) c)
  ]
  round-Step command h read_error c = stays
  round-Step command h timed_out c = stays

  abbrev Leads : Connection → Connection → Type 0
  Leads c c' = Reach sv c.state c'.state

  follow-Reach :
      (on upgraded : Connection → Connection)
      → ((c : Connection) → Leads c (on c))
      → ((c : Connection) → Leads c (upgraded c))
      → (c : Connection) (n : Next) → Round c n
      → Leads c (follow on upgraded n)
  follow-Reach on upgraded f g c (go c') s = further s (f c')
  follow-Reach on upgraded f g c (stop c') s = further s here
  follow-Reach on upgraded f g c (negotiate c') s = further s (g c')

  run_tls-Reach : (is : List Input) (c : Connection) → Leads c (run_tls sv is c)
  unfolding run_tls
  run_tls-Reach [] c = here
  run_tls-Reach (i ∷ is) c =
      follow-Reach (run_tls sv is) (λ c'. c') (run_tls-Reach is) (λ c'. here) c
        (round sv (tls_command sv) i c) (round-Step (tls_command sv) tls_command-Step i c)

  upgrade-Reach :
      (handshake : Bool) (tls_input : List Input) (c : Connection)
      → Leads c (upgrade sv handshake tls_input c)
  upgrade-Reach true tls_input c = run_tls-Reach tls_input c
  upgrade-Reach false tls_input c = here

  run_plain-Reach :
      (starttls has_acceptor handshake : Bool) (is tls_input : List Input) (c : Connection)
      → Leads c (run_plain sv starttls has_acceptor handshake is tls_input c)
  unfolding run_plain
  run_plain-Reach starttls has_acceptor handshake [] tls_input c = here
  run_plain-Reach starttls has_acceptor handshake (i ∷ is) tls_input c =
      follow-Reach (run_plain sv starttls has_acceptor handshake is tls_input)
        (upgrade sv handshake tls_input)
        (run_plain-Reach starttls has_acceptor handshake is tls_input)
        (upgrade-Reach handshake tls_input) c
        (round sv (plain_command sv starttls has_acceptor) i c)
        (round-Step (plain_command sv starttls has_acceptor)
          (plain_command-Step starttls has_acceptor) i c)

  -- The state that a connection starts in.
  abbrev pub initial : Imap → Imap
  initial st = record st { session = new sv.now }

  -- The server implements the step relation: whatever a client sends, in plaintext and behind
  -- STARTTLS, the state at the end of a connection is reached from a new session by steps, each of
  -- which has the guards that the relation states: STORE, MOVE and EXPUNGE with a mailbox selected
  -- for writing, a mailbox and a destination that the query for the session's user gives, a login
  -- with a verified password.
  pub handle_connection-Reach :
      (starttls has_acceptor handshake : Bool) (input tls_input : List Input) (st : Imap)
      → Reach sv
          (initial st)
          (handle_connection sv starttls has_acceptor handshake input tls_input st).state
  unfolding handle_connection
  handle_connection-Reach starttls has_acceptor handshake input tls_input st =
      run_plain-Reach starttls has_acceptor handshake input tls_input _
