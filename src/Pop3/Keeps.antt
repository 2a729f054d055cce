-- ===== src/Pop3/Keeps.antt =====
-- Induction over a POP3 connection: what the five commands that change the state keep, every
-- command keeps, and so does the connection.
use mai_rust.Common.{
  ℕ, All, [], ◌∷◌, ◌≡◌, refl, Bool, Bool-cases, Option-cases, inl, inr, true, false, Option, none,
  some, List, map, arith,
}
use mai_rust.Common.Text.{Text}
use mai_rust.Pop3.Types.{
  Session, Account, Services, Pop3, Pop3Command, user, pass, apop, stat, list_cmd, retr, dele, noop,
  rset, top, uidl, quit, capa, stls, unknown,
}
use mai_rust.Pop3.Session.{
  is_authorization, is_transaction, set_username, authenticate, load_messages, mark_deleted,
  reset_deletions, get_deleted_messages, enter_update,
}
use mai_rust.Pop3.Command.{
  handle_command, on_stat, handle_list, handle_retr, on_dele, report_deleted, on_noop, on_rset,
  handle_top, handle_uidl, handle_quit, delete_rows,
}
use mai_rust.Pop3.Entry.{
  with_session, mailbox_rows, message_info, password_valid, on_user, handle_pass, check_username,
  check_account, open_maildrop, Handled,
}
use mai_rust.Pop3.Loops.{Sends, loop_keeps}
use mai_rust.Pop3.Run.{Input, line, read_error, timed_out, Pop3Config, Connection, run_plain}

-- The state after a successful PASS.
abbrev pub entered : Services → Account → ℕ → Pop3 → Pop3
entered sv account mailbox_id st =
    with_session
      (load_messages sv (map (message_info sv) (mailbox_rows sv mailbox_id st.table))
        (authenticate sv.now account.id account.tenant_id mailbox_id st.session))
      st

-- The state after QUIT.
abbrev pub closed : Services → Pop3 → Pop3
closed sv st = record {
  session = enter_update st.session;
  table = delete_rows sv (get_deleted_messages (enter_update st.session)) st.table;
}

-- What PASS checks before it enters.
pub record IsLogin (sv : Services) (account : Account) (mailbox_id : ℕ) (s : Session) : Type 0 where
  pub username : Text
  pub password : Text
  pub named : s.username ≡ some username
  pub found : sv.find_account username ≡ some account
  pub active : account.active ≡ true
  pub valid : password_valid sv password account.password_hash ≡ true
  pub mailbox : sv.find_mailbox account.tenant_id account.id ≡ some mailbox_id

module _ (sv : Services) (Q : Pop3Command → Type 0) (P : Pop3 → Type 0)
    (naming : (u : Text) (st : Pop3)
      → is_authorization st.session ≡ true
      → P st
      → P (with_session (set_username sv.now u st.session) st))
    (entering : (account : Account) (mailbox_id : ℕ) (st : Pop3)
      → is_authorization st.session ≡ true
      → IsLogin sv account mailbox_id st.session
      → P st
      → P (entered sv account mailbox_id st))
    (marking : (n : ℕ) (st : Pop3)
      → is_transaction st.session ≡ true
      → P st
      → P (with_session (mark_deleted sv.now n st.session).1 st))
    (clearing : (st : Pop3)
      → is_transaction st.session ≡ true
      → P st
      → P (with_session (reset_deletions sv.now st.session) st))
    (closing : (st : Pop3)
      → Q quit
      → is_transaction st.session ≡ true
      → P st
      → P (closed sv st)) where
  check_keeps :
      (password : Text) (st : Pop3) (account : Account) (username : Text)
      → P st
      → is_authorization st.session ≡ true
      → st.session.username ≡ some username
      → sv.find_account username ≡ some account
      → P (check_account sv password (some account) st).1
  unfolding check_account
  check_keeps password st account username p auth named found = elim (Bool-cases account.active) [
    | inr disabled ↦ rw disabled p
    | inl active ↦ rw active (elim (Bool-cases (password_valid sv password account.password_hash)) [
      | inr wrong ↦ rw wrong p
      | inl valid ↦ rw valid (elim (Option-cases (sv.find_mailbox account.tenant_id account.id)) [
        | inl missing ↦ unfold open_maildrop in rw missing p
        | inr (mailbox_id, mailbox) ↦
            unfold open_maildrop in
            rw mailbox (
              entering account mailbox_id st auth
                (record {
                  username = username;
                  password = password;
                  named = named;
                  found = found;
                  active = active;
                  valid = valid;
                  mailbox = mailbox;
                })
                p)
      ])
    ])
  ]

  check_username_keeps :
      (password : Text) (st : Pop3) (name : Option Text)
      → is_authorization st.session ≡ true
      → st.session.username ≡ name
      → P st
      → P (check_username sv password name st).1
  unfolding check_username
  check_username_keeps password st none auth named p = p
  check_username_keeps password st (some username) auth named p =
      elim (Option-cases (sv.find_account username)) [
        | inl unfound ↦ unfold check_account in rw unfound p
        | inr (account, found) ↦
            rw found (check_keeps password st account username p auth named found)
      ]

  handle_pass_keeps : (password : Text) (st : Pop3) → P st → P (handle_pass sv password st).1
  unfolding handle_pass
  handle_pass_keeps password st p = elim (Bool-cases (is_authorization st.session)) [
    | inr late ↦ rw late p
    | inl auth ↦ rw auth (check_username_keeps password st st.session.username auth refl p)
  ]

  reported_keeps :
      (n : ℕ) (st : Pop3) (r : Bool × Session)
      → P (with_session r.1 st)
      → P (report_deleted n r st).1
  unfolding report_deleted
  reported_keeps n st (true, s) q = q
  reported_keeps n st (false, s) q = q

  on_dele_keeps : (n : ℕ) (st : Pop3) → P st → P (on_dele sv n st).1
  unfolding on_dele
  on_dele_keeps n st p = elim (Bool-cases (is_transaction st.session)) [
    | inr early ↦ rw early p
    | inl inside ↦
        rw inside (reported_keeps n st (mark_deleted sv.now n st.session) (marking n st inside p))
  ]

  -- `command` changes nothing of the state.
  abbrev IsReader : (Pop3 → Handled) → Type 0
  IsReader command = (st : Pop3) → (command st).1 ≡ st

  handle_list_reads : (m : Option ℕ) → IsReader (handle_list m)
  unfolding handle_list
  handle_list_reads none st = ground arith
  handle_list_reads (some n) st = ground arith

  handle_uidl_reads : (m : Option ℕ) → IsReader (handle_uidl m)
  unfolding handle_uidl
  handle_uidl_reads none st = ground arith
  handle_uidl_reads (some n) st = ground arith

  pub handle_command_keeps :
      (c : Pop3Command) (st : Pop3) → Q c → P st → P (handle_command sv c st).1
  unfolding handle_command on_user on_stat handle_retr on_noop on_rset handle_top handle_quit
  handle_command_keeps (user u) st q p = elim (Bool-cases (is_authorization st.session)) [
    | inl auth ↦ rw auth (naming u st auth p)
    | inr late ↦ rw late p
  ]
  handle_command_keeps (pass password) st q p = handle_pass_keeps password st p
  handle_command_keeps (apop name digest) st q p = p
  handle_command_keeps stat st q p = elim (Bool-cases (is_transaction st.session)) [
    | inl inside ↦ rw inside p
    | inr early ↦ rw early p
  ]
  handle_command_keeps (list_cmd m) st q p = rw (handle_list_reads m st) p
  handle_command_keeps (retr n) st q p = elim (Bool-cases (is_transaction st.session)) [
    | inl inside ↦ rw inside p
    | inr early ↦ rw early p
  ]
  handle_command_keeps (dele n) st q p = on_dele_keeps n st p
  handle_command_keeps noop st q p = elim (Bool-cases (is_transaction st.session)) [
    | inl inside ↦ rw inside p
    | inr early ↦ rw early p
  ]
  handle_command_keeps rset st q p = elim (Bool-cases (is_transaction st.session)) [
    | inl inside ↦ rw inside (clearing st inside p)
    | inr early ↦ rw early p
  ]
  handle_command_keeps (top n l) st q p = elim (Bool-cases (is_transaction st.session)) [
    | inl inside ↦ rw inside p
    | inr early ↦ rw early p
  ]
  handle_command_keeps (uidl m) st q p = rw (handle_uidl_reads m st) p
  handle_command_keeps quit st q p = elim (Bool-cases (is_transaction st.session)) [
    | inl inside ↦ rw inside (closing st q inside p)
    | inr early ↦ rw early p
  ]
  handle_command_keeps capa st q p = p
  handle_command_keeps stls st q p = p
  handle_command_keeps (unknown c) st q p = p

  -- Hence a whole connection on which the client sends only commands of the kind `Q` keeps `P`.
  pub run_plain_sends_keeps :
      (config : Pop3Config) (has_acceptor handshake : Bool) (is tls_input : List Input)
      (c : Connection)
      → All (Sends sv Q) is
      → All (Sends sv Q) tls_input
      → P c.state
      → P (run_plain sv config has_acceptor handshake is tls_input c).state
  run_plain_sends_keeps = loop_keeps sv Q P handle_command_keeps

Sends-anything : (sv : Services) (is : List Input) → All (Sends sv (λ c. Unit)) is
Sends-anything sv [] = tt
Sends-anything sv (line t ∷ is) = (tt, Sends-anything sv is)
Sends-anything sv (read_error ∷ is) = (tt, Sends-anything sv is)
Sends-anything sv (timed_out ∷ is) = (tt, Sends-anything sv is)

module _ (sv : Services) (P : Pop3 → Type 0)
    (naming : (u : Text) (st : Pop3)
      → is_authorization st.session ≡ true
      → P st
      → P (with_session (set_username sv.now u st.session) st))
    (entering : (account : Account) (mailbox_id : ℕ) (st : Pop3)
      → is_authorization st.session ≡ true
      → IsLogin sv account mailbox_id st.session
      → P st
      → P (entered sv account mailbox_id st))
    (marking : (n : ℕ) (st : Pop3)
      → is_transaction st.session ≡ true
      → P st
      → P (with_session (mark_deleted sv.now n st.session).1 st))
    (clearing : (st : Pop3)
      → is_transaction st.session ≡ true
      → P st
      → P (with_session (reset_deletions sv.now st.session) st))
    (closing : (st : Pop3) → is_transaction st.session ≡ true → P st → P (closed sv st)) where
  -- Whatever the client sends, a whole connection keeps `P`.
  pub run_plain_keeps :
      (config : Pop3Config) (has_acceptor handshake : Bool) (is tls_input : List Input)
      (c : Connection)
      → P c.state
      → P (run_plain sv config has_acceptor handshake is tls_input c).state
  run_plain_keeps config has_acceptor handshake is tls_input c =
      run_plain_sends_keeps sv (λ c'. Unit) P naming entering marking clearing (λ st q. closing st)
        config has_acceptor handshake is tls_input c (Sends-anything sv is)
        (Sends-anything sv tls_input)
