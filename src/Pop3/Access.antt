-- ===== src/Pop3/Access.antt =====
-- Who may enter a maildrop.
use mai_rust.Common.{
  ℕ, ◌≡◌, ◌≢◌, refl, Bool, Bool-cases, inl, inr, true, false, not, ◌&&◌, some, List, ◌∙◌,
}
use mai_rust.Smtp.Types.{Message}
use mai_rust.Pop3.Types.{
  Session, Account, Services, authorization, transaction, update, SessionState,
}
use mai_rust.Pop3.Session.{
  is_authorization, state_is_authorization, state_is_transaction, set_username, authenticate,
  load_messages, mark_deleted, reset_deletions, enter_update, get, contains, is_some, new,
}
use mai_rust.Pop3.Keeps.{IsLogin, run_plain_keeps}
use mai_rust.Pop3.Run.{Input, Pop3Config, handle_connection}

-- The session belongs to an account whose password was verified, and shows that account's mailbox.
pub record IsEntered (sv : Services) (s : Session) : Type 0 where
  pub account : Account
  pub mailbox : ℕ
  pub login : IsLogin sv account mailbox s
  pub user : s.user_id ≡ some account.id
  pub tenant : s.tenant_id ≡ some account.tenant_id
  pub shown : s.mailbox_id ≡ some mailbox

-- Marking changes the marks and the time of the last activity.
pub mark_deleted-fields :
    (now n : ℕ) (s : Session)
    → (mark_deleted now n s).1 ≡ record s {
      deleted = (mark_deleted now n s).1.deleted;
      last_activity = (mark_deleted now n s).1.last_activity;
    }
unfolding mark_deleted
mark_deleted-fields now n s =
    elim (Bool-cases (is_some (get n s.messages) && not (contains n s.deleted))) [
      | inl marked ↦ rw marked refl
      | inr refused ↦ rw refused refl
    ]

-- `s'` differs from `s` in nothing that a login fixes.
keep-IsEntered :
    (sv : Services) (s s' : Session)
    → s'.username ≡ s.username
    → s'.user_id ≡ s.user_id
    → s'.tenant_id ≡ s.tenant_id
    → s'.mailbox_id ≡ s.mailbox_id
    → IsEntered sv s
    → IsEntered sv s'
keep-IsEntered sv s s' name user tenant mailbox e = record {
  account = e.account;
  mailbox = e.mailbox;
  login = record {
    username = e.login.username;
    password = e.login.password;
    named = name ∙ e.login.named;
    found = e.login.found;
    active = e.login.active;
    valid = e.login.valid;
    mailbox = e.login.mailbox;
  };
  user = user ∙ e.user;
  tenant = tenant ∙ e.tenant;
  shown = mailbox ∙ e.shown;
}

true_ne_false : (b : Bool) → b ≡ true → b ≢ false
true_ne_false b h k = cc

not_both : (t : SessionState) → state_is_transaction t ≡ true → state_is_authorization t ≡ false
unfolding state_is_transaction state_is_authorization
not_both authorization h = cc
not_both transaction h = refl
not_both update h = refl

-- A connection, in plaintext and behind STLS, leaves the Authorization state only for an active
-- account that stands under the name given by USER and whose password hash was verified, and then
-- shows the mailbox that the account has.
pub handle_connection-IsEntered :
    (sv : Services) (config : Pop3Config) (has_acceptor handshake : Bool)
    (input tls_input : List Input) (table : List Message)
    → is_authorization
        (handle_connection sv config has_acceptor handshake input tls_input table).state.session
      ≡ false
    → IsEntered sv
        (handle_connection sv config has_acceptor handshake input tls_input table).state.session
unfolding handle_connection new set_username reset_deletions enter_update authenticate load_messages
handle_connection-IsEntered sv config has_acceptor handshake input tls_input table =
    run_plain_keeps sv (λ st. is_authorization st.session ≡ false → IsEntered sv st.session)
      (λ u st auth p late. absurd (true_ne_false _ auth late))
      (λ account mailbox_id st auth l p late. record {
        account = account;
        mailbox = mailbox_id;
        login = record {
          username = l.username;
          password = l.password;
          named = l.named;
          found = l.found;
          active = l.active;
          valid = l.valid;
          mailbox = l.mailbox;
        };
        user = refl;
        tenant = refl;
        shown = refl;
      })
      (λ n st inside p late.
        rw (mark_deleted-fields sv.now n st.session) (
          keep-IsEntered sv st.session _ refl refl refl refl
            (p (not_both st.session.state inside))))
      (λ st inside p late.
        keep-IsEntered sv st.session _ refl refl refl refl (p (not_both st.session.state inside)))
      (λ st inside p late.
        keep-IsEntered sv st.session _ refl refl refl refl (p (not_both st.session.state inside)))
      config has_acceptor handshake input tls_input _ (unfold state_is_authorization in λ late. cc)
