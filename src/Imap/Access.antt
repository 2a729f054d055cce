-- ===== src/Imap/Access.antt =====
-- Who may be inside an IMAP session, and that a selected mailbox is there.
use mai_rust.Common.{◌≡◌, ◌∙◌, refl, Bool, true, some, List}
use mai_rust.Common.Text.{Text}
use mai_rust.Imap.Types.{SelectedMailbox, ImapSession, Account, Services, Imap}
use mai_rust.Imap.Session.{
  state_is_authenticated, state_is_selected, is_authenticated, is_selected, authenticate, select,
  close_mailbox, logout, new,
}
use mai_rust.Imap.Mailboxes.{password_valid, delete_mailboxes}
use mai_rust.Imap.Steps.{
  Step, stays, touches, enters, selects, closes, leaves, creates, draws, deletes, renames, stores,
  expunges, moves, copies, files_only, appends, Reach-keeps,
}
use mai_rust.Imap.RefinesMail.{selected_authenticated}
use mai_rust.Imap.Run.{Input, handle_connection}
use mai_rust.Imap.Connection.{handle_connection-Reach}

-- The account that a login has verified, and that the session is its user's.
pub record IsLogin (sv : Services) (s : ImapSession) : Type 0 where
  pub account : Account
  pub username : Text
  pub password : Text
  pub found : sv.find_account username ≡ some account
  pub active : account.active ≡ true
  pub valid : password_valid sv password account.password_hash ≡ true
  pub user : s.user_id ≡ some account.id
  pub tenant : s.tenant_id ≡ some account.tenant_id

-- An authenticated session has a login, and one with a mailbox selected has a mailbox.
pub record IsValid (sv : Services) (s : ImapSession) : Type 0 where
  pub login : is_authenticated s ≡ true → IsLogin sv s
  pub mailbox : is_selected s ≡ true → (mb : SelectedMailbox) × (s.selected_mailbox ≡ some mb)

module _ (sv : Services) where
  same_user :
      (s s' : ImapSession)
      → s'.user_id ≡ s.user_id
      → s'.tenant_id ≡ s.tenant_id
      → IsLogin sv s
      → IsLogin sv s'
  same_user s s' u t l = record {
    account = l.account;
    username = l.username;
    password = l.password;
    found = l.found;
    active = l.active;
    valid = l.valid;
    user = u ∙ l.user;
    tenant = t ∙ l.tenant;
  }

  Step-IsValid : (st st' : Imap) → Step sv st st' → IsValid sv st.session → IsValid sv st'.session
  unfolding authenticate select close_mailbox logout delete_mailboxes
  Step-IsValid st st' stays v = v
  Step-IsValid st st' touches v = record {
    login = λ h. same_user st.session _ refl refl (v.login h);
    mailbox = v.mailbox;
  }
  Step-IsValid st st' (enters username password a f b w) v = record {
    login = λ h. record {
      account = a;
      username = username;
      password = password;
      found = f;
      active = b;
      valid = w;
      user = refl;
      tenant = refl;
    };
    mailbox = unfold state_is_selected in λ h. cc;
  }
  Step-IsValid st st' (selects tenant user name readonly m c f) v = record {
    login = λ h. same_user st.session _ refl refl (v.login c.inside);
    mailbox = λ h. (_, refl);
  }
  Step-IsValid st st' (closes h) v = record {
    login =
        λ k. same_user st.session _ refl refl (v.login (selected_authenticated st.session.state h));
    mailbox = unfold state_is_selected in λ k. cc;
  }
  Step-IsValid st st' leaves v = record {
    login = unfold state_is_authenticated in λ h. cc;
    mailbox = unfold state_is_selected in λ h. cc;
  }
  Step-IsValid st st' (creates tenant user m c u i f) v = v
  Step-IsValid st st' draws v = v
  Step-IsValid st st' (deletes tenant user name c) v = v
  Step-IsValid st st' (renames tenant user old name c) v = v
  Step-IsValid st st' (stores s sequence fl uid_mode w) v = v
  Step-IsValid st st' (expunges s w) v = v
  Step-IsValid st st' (moves tenant user name s dest sequence uid_mode w c f) v = v
  Step-IsValid st st' (copies tenant user name s dest sequence uid_mode w c f) v = v
  Step-IsValid st st' (files_only r message) v = v
  Step-IsValid st st' (appends tenant user name m flags message c f) v = v

  -- At the end of a connection, in plaintext and behind STARTTLS, an authenticated session is that of
  -- an active account that the users table gave under a name and whose password hash was verified,
  -- with its user and tenant, and a session in a state with a mailbox selected has a mailbox.
  pub handle_connection-IsValid :
      (starttls has_acceptor handshake : Bool) (input tls_input : List Input) (st : Imap)
      → IsValid sv
          (handle_connection sv starttls has_acceptor handshake input tls_input st).state.session
  handle_connection-IsValid starttls has_acceptor handshake input tls_input st =
      Reach-keeps sv (λ st'. IsValid sv st'.session) Step-IsValid
        (handle_connection-Reach sv starttls has_acceptor handshake input tls_input st)
        (unfold new state_is_authenticated state_is_selected in
          record { login = λ h. cc; mailbox = λ h. cc })
