-- ===== src/Imap/Spared.antt =====
-- An IMAP connection leaves alone the mail of users that it does not log in as.
use mathlib.Core.Option.{some-injective}
use mai_rust.Common.{
  ℕ, ◌≡◌, ◌≢◌, refl, ap, subst, ◌∙◌, Bool, Bool-cases, inl, inr, true, false, not, Option, some,
  List, [], ◌∷◌, All, All-append, keep, ◌==◌, arith,
}
use mai_rust.Common.Text.{Text}
use mai_rust.Common.Results.{ok, err}
use mai_rust.Smtp.Types.{Mailbox}
use mai_rust.Imap.Types.{SelectedMailbox, Account, Message, Services, Imap}
use mai_rust.Imap.Session.{
  authenticate, select, close_mailbox, logout, new, new_mailbox, update_with_messages,
}
use mai_rust.Imap.Rows.{mailbox_rows, find_mailbox, is_users, is_named, is_inbox, owned_by}
use mai_rust.Imap.Mailboxes.{is_deleted_with, rename_rows, delete_mailboxes}
use mai_rust.Imap.Append.{appended}
use mai_rust.Imap.Ownership.{
  IsOther, IsMine, IsSpared, rows_of, append-IsSpared, rows_of-keep, keep_theirs,
  store_from-IsSpared, expunge_from-IsSpared, move_from-IsSpared, copy_from-IsSpared,
}
use mai_rust.Imap.Steps.{
  Step, stays, touches, enters, selects, closes, leaves, creates, draws, deletes, renames, stores,
  expunges, moves, copies, files_only, appends, Reach-keeps,
}
use mai_rust.Imap.Run.{Input, handle_connection}
use mai_rust.Imap.Connection.{handle_connection-Reach}

-- The queries list no rows but those selected, the random identifiers are neither the row `x` nor
-- one of the mailboxes `mine`, and no login is that of the user `u`.
pub record IsSetting (sv : Services) (u x : ℕ) (mine : ℕ → Bool) : Type 1 where
  pub fetches :
      (Q : Mailbox → Type 0) (l : List Mailbox) (m : Mailbox)
      → sv.fetch_optional l ≡ some m
      → All Q l
      → Q m
  pub sorts : (Q : Message → Type 0) (t : List Message) → All Q t → All Q (sv.by_received_at t)
  pub fresh_row : (n : ℕ) → (sv.new_v4 n == x) ≡ false
  pub fresh_mailbox : (n : ℕ) → mine (sv.new_v4 n) ≡ false
  pub strangers : (name : Text) (a : Account) → sv.find_account name ≡ some a → (a.id == u) ≡ false

err_ne_ok : (e : Text) (o : Option Mailbox) → err e ≢ ok o
err_ne_ok e o h = cc

ok_injective : (o o' : Option Mailbox) → ok o ≡ ok o' → o ≡ o'
ok_injective o o' h = cc

module _ (sv : Services) (u x : ℕ) (mine : ℕ → Bool) where
  -- A mailbox in `mine` belongs to the user.
  abbrev pub IsTheirs : Mailbox → Type 0
  IsTheirs m = mine m.id ≡ true → m.user_id ≡ some u

  abbrev NotMine : Mailbox → Type 0
  NotMine m = mine m.id ≡ false

  -- What holds of the state while the connection lives.
  record IsSparing (t0 : List Message) (st : Imap) : Type 0 where
    pub rows : IsSpared x mine t0 st.table
    pub mailboxes : All IsTheirs st.mailboxes
    pub stranger : (user : ℕ) → st.session.user_id ≡ some user → (user == u) ≡ false
    pub selection : (s : SelectedMailbox) → st.session.selected_mailbox ≡ some s → mine s.id ≡ false

  owned_not_mine :
      (tenant user : ℕ) (m : Mailbox)
      → (user == u) ≡ false
      → IsTheirs m
      → is_users tenant user m ≡ true
      → mine m.id ≡ false
  unfolding is_users owned_by
  owned_not_mine tenant user m k theirs h = elim (Bool-cases (mine m.id)) [
    | inr other ↦ other
    | inl own ↦ let owned = rw (theirs own) at h in absurd (ground arith)
  ]

  is_users-NotMine :
      (tenant user : ℕ) (l : List Mailbox)
      → (user == u) ≡ false
      → All IsTheirs l
      → All NotMine (keep (is_users tenant user) l)
  is_users-NotMine tenant user [] k h = tt
  is_users-NotMine tenant user (m ∷ l) k (t, h) = elim (Bool-cases (is_users tenant user m)) [
    | inr other ↦ simp other (is_users-NotMine tenant user l k h)
    | inl owned ↦
        simp owned (owned_not_mine tenant user m k t owned, is_users-NotMine tenant user l k h)
  ]

  named_users :
      (tenant user : ℕ) (name : Text) (m : Mailbox)
      → is_named tenant user name m ≡ true
      → is_users tenant user m ≡ true
  unfolding is_named
  named_users tenant user name m h = ground arith

  is_named-NotMine :
      (tenant user : ℕ) (name : Text) (l : List Mailbox)
      → (user == u) ≡ false
      → All IsTheirs l
      → All NotMine (keep (is_named tenant user name) l)
  is_named-NotMine tenant user name [] k h = tt
  is_named-NotMine tenant user name (m ∷ l) k (t, h) =
      elim (Bool-cases (is_named tenant user name m)) [
        | inr other ↦ simp other (is_named-NotMine tenant user name l k h)
        | inl owned ↦ simp owned (
          owned_not_mine tenant user m k t (named_users tenant user name m owned),
          is_named-NotMine tenant user name l k h,
        )
      ]

  module _ (w : IsSetting sv u x mine) where
    found_not_mine :
        (tenant user : ℕ) (name : Text) (l : List Mailbox) (m : Mailbox)
        → (user == u) ≡ false
        → All IsTheirs l
        → find_mailbox sv tenant user name l ≡ ok (some m)
        → mine m.id ≡ false
    unfolding find_mailbox
    found_not_mine tenant user name l m k h e = elim (Bool-cases sv.can_select) [
      | inr failed ↦ absurd (err_ne_ok _ _ (simp failed at e))
      | inl listed ↦ elim (Bool-cases (is_inbox sv name)) [
        | inl inbox ↦
            w.fetches NotMine _ m (ok_injective _ _ (simp (listed, inbox) at e))
              (is_users-NotMine tenant user l k h)
        | inr other ↦
            w.fetches NotMine _ m (ok_injective _ _ (simp (listed, other) at e))
              (is_named-NotMine tenant user name l k h)
      ]
    ]

    rows_IsOther :
        (mailbox_id : ℕ) (t : List Message)
        → mine mailbox_id ≡ false
        → All (IsMine x mine) t
        → All (IsOther x) (mailbox_rows sv mailbox_id t)
    unfolding mailbox_rows
    rows_IsOther mailbox_id t k h = elim (Bool-cases sv.can_select) [
      | inr failed ↦ simp failed tt
      | inl listed ↦ simp listed (w.sorts (IsOther x) _ (chosen t h))
    ]
      where
        chosen :
            (t : List Message)
            → All (IsMine x mine) t
            → All (IsOther x) (keep (λ r. r.mailbox_id == mailbox_id) t)
        chosen [] h = tt
        chosen (r ∷ t) (p, h) = elim (Bool-cases (r.mailbox_id == mailbox_id)) [
          | inr other ↦ simp other (chosen t h)
          | inl same ↦ simp same (not_x r same p, chosen t h)
        ]
          where
            not_x :
                (r : Message) → (r.mailbox_id == mailbox_id) ≡ true → IsMine x mine r → IsOther x r
            not_x r same p = elim (Bool-cases (r.id == x)) [
              | inr other ↦ other
              | inl here ↦
                  let e : r.mailbox_id ≡ mailbox_id = ground arith in
                  let mine_too : mine r.mailbox_id ≡ true = p here in cc
            ]

    not_deleted_with :
        (tenant user : ℕ) (name : Text) (r : Message) (l : List Mailbox)
        → (user == u) ≡ false
        → All IsTheirs l
        → mine r.mailbox_id ≡ true
        → is_deleted_with tenant user name l r ≡ false
    unfolding is_deleted_with
    not_deleted_with tenant user name r [] k h own = refl
    not_deleted_with tenant user name r (m ∷ l) k (t, h) own =
        let rest = not_deleted_with tenant user name r l k h own in
        elim (Bool-cases (is_named tenant user name m)) [
          | inr other ↦ simp other rest
          | inl owned ↦ elim (Bool-cases (r.mailbox_id == m.id)) [
            | inr apart ↦ simp (owned, apart) rest
            | inl same ↦
                let e : r.mailbox_id ≡ m.id = ground arith in
                let not_own : mine m.id ≡ false =
                  owned_not_mine tenant user m k t (named_users tenant user name m owned) in
                cc
          ]
        ]

    deleted_IsSpared :
        (tenant user : ℕ) (name : Text) (t0 t : List Message) (l : List Mailbox)
        → (user == u) ≡ false
        → All IsTheirs l
        → IsSpared x mine t0 t
        → IsSpared x mine t0 (keep (λ r. not (is_deleted_with tenant user name l r)) t)
    deleted_IsSpared tenant user name t0 t l k h s = record {
      theirs = keep_theirs x mine _ t s.theirs;
      same =
          rows_of-keep x mine (λ r. not (is_deleted_with tenant user name l r)) t
            (spared t s.theirs)
          ∙ s.same;
    }
      where
        spared :
            (t : List Message)
            → All (IsMine x mine) t
            → All (λ r. (r.id == x) ≡ true → not (is_deleted_with tenant user name l r) ≡ true) t
        spared [] g = tt
        spared (r ∷ t) (p, g) =
            ((λ e. ap not (not_deleted_with tenant user name r l k h (p e))), spared t g)

    rename_rows-IsTheirs :
        (now tenant user : ℕ) (old name : Text) (l : List Mailbox)
        → All IsTheirs l
        → All IsTheirs (rename_rows now tenant user old name l)
    unfolding rename_rows
    rename_rows-IsTheirs now tenant user old name [] h = tt
    rename_rows-IsTheirs now tenant user old name (m ∷ l) (t, h) =
        elim (Bool-cases (is_named tenant user old m)) [
          | inr other ↦ simp other (t, rename_rows-IsTheirs now tenant user old name l h)
          | inl hit ↦ simp hit (t, rename_rows-IsTheirs now tenant user old name l h)
        ]

    keep-IsTheirs :
        (p : Mailbox → Bool) (l : List Mailbox) → All IsTheirs l → All IsTheirs (keep p l)
    keep-IsTheirs p [] h = tt
    keep-IsTheirs p (m ∷ l) (t, h) = elim (Bool-cases (p m)) [
      | inl kept ↦ simp kept (t, keep-IsTheirs p l h)
      | inr left ↦ simp left (keep-IsTheirs p l h)
    ]

    Step-IsSparing :
        (t0 : List Message) (st st' : Imap) → Step sv st st' → IsSparing t0 st → IsSparing t0 st'
    unfolding authenticate select close_mailbox logout delete_mailboxes new_mailbox
        update_with_messages appended
    Step-IsSparing t0 st st' stays p = p
    Step-IsSparing t0 st st' touches p = record {
      rows = p.rows;
      mailboxes = p.mailboxes;
      stranger = p.stranger;
      selection = p.selection;
    }
    Step-IsSparing t0 st st' (enters username password a f b c) p = record {
      rows = p.rows;
      mailboxes = p.mailboxes;
      stranger = λ user e.
          subst (λ n. (n == u) ≡ false) (some-injective a.id user e) (w.strangers username a f);
      selection = p.selection;
    }
    Step-IsSparing t0 st st' (selects tenant user name readonly m c f) p = record {
      rows = p.rows;
      mailboxes = p.mailboxes;
      stranger = p.stranger;
      selection = λ s e.
          subst (λ (z : SelectedMailbox). mine z.id ≡ false) (some-injective _ s e)
            (found_not_mine tenant user name st.mailboxes m (p.stranger user c.user_of) p.mailboxes
              f);
    }
    Step-IsSparing t0 st st' (closes h) p = record {
      rows = p.rows;
      mailboxes = p.mailboxes;
      stranger = p.stranger;
      selection = λ s e. cc;
    }
    Step-IsSparing t0 st st' leaves p = record {
      rows = p.rows;
      mailboxes = p.mailboxes;
      stranger = p.stranger;
      selection = p.selection;
    }
    Step-IsSparing t0 st st' (creates tenant user m c owner i f) p = record {
      rows = p.rows;
      mailboxes =
          All-append IsTheirs st.mailboxes (m ∷ []) p.mailboxes
            ((λ own. let fresh = w.fresh_mailbox st.drawn in cc), tt);
      stranger = p.stranger;
      selection = p.selection;
    }
    Step-IsSparing t0 st st' draws p = record {
      rows = p.rows;
      mailboxes = p.mailboxes;
      stranger = p.stranger;
      selection = p.selection;
    }
    Step-IsSparing t0 st st' (deletes tenant user name c) p = record {
      rows =
          deleted_IsSpared tenant user name t0 st.table st.mailboxes (p.stranger user c.user_of)
            p.mailboxes p.rows;
      mailboxes = keep-IsTheirs _ st.mailboxes p.mailboxes;
      stranger = p.stranger;
      selection = p.selection;
    }
    Step-IsSparing t0 st st' (renames tenant user old name c) p = record {
      rows = p.rows;
      mailboxes = rename_rows-IsTheirs sv.now tenant user old name st.mailboxes p.mailboxes;
      stranger = p.stranger;
      selection = p.selection;
    }
    Step-IsSparing t0 st st' (stores s sequence fl uid_mode c) p = record {
      rows =
          store_from-IsSpared x mine sv sequence fl uid_mode _ 0 t0 _ st.table
            (rows_IsOther s.id st.table (p.selection s c.mailbox) p.rows.theirs) p.rows;
      mailboxes = p.mailboxes;
      stranger = p.stranger;
      selection = p.selection;
    }
    Step-IsSparing t0 st st' (expunges s c) p = record {
      rows =
          expunge_from-IsSpared x mine sv 0 0 t0 _ st.table
            (rows_IsOther s.id st.table (p.selection s c.mailbox) p.rows.theirs) p.rows;
      mailboxes = p.mailboxes;
      stranger = p.stranger;
      selection = p.selection;
    }
    Step-IsSparing t0 st st' (moves tenant user name s dest sequence uid_mode c i f) p = record {
      rows =
          move_from-IsSpared x mine sv sequence uid_mode dest.id _ 0 t0 _ st.table
            (rows_IsOther s.id st.table (p.selection s c.mailbox) p.rows.theirs) p.rows;
      mailboxes = p.mailboxes;
      stranger = p.stranger;
      selection = p.selection;
    }
    Step-IsSparing t0 st st' (copies tenant user name s dest sequence uid_mode c i f) p = record {
      rows =
          copy_from-IsSpared x mine sv sequence uid_mode dest.id _ 0 t0 _ st.table st.drawn
            w.fresh_row p.rows;
      mailboxes = p.mailboxes;
      stranger = p.stranger;
      selection = p.selection;
    }
    Step-IsSparing t0 st st' (files_only r message) p = record {
      rows = p.rows;
      mailboxes = p.mailboxes;
      stranger = p.stranger;
      selection = p.selection;
    }
    Step-IsSparing t0 st st' (appends tenant user name m flags message c f) p = record {
      rows = append-IsSpared x mine t0 st.table (_ ∷ []) (w.fresh_row st.drawn, tt) p.rows;
      mailboxes = p.mailboxes;
      stranger = p.stranger;
      selection = p.selection;
    }

-- A connection never touches the mail of a user that no login gives: a row of one of that user's
-- mailboxes is at the end the same and in the same place among those with its identifier, whatever
-- the client sends in plaintext and behind STARTTLS, provided that only rows of these mailboxes carry
-- its identifier, random identifiers are fresh, and queries list no rows but those selected.
pub handle_connection-IsSpared :
    (sv : Services) (u x : ℕ) (mine : ℕ → Bool) (starttls has_acceptor handshake : Bool)
    (input tls_input : List Input) (st : Imap)
    → IsSetting sv u x mine
    → All (IsTheirs sv u x mine) st.mailboxes
    → All (IsMine x mine) st.table
    → rows_of x
        (handle_connection sv starttls has_acceptor handshake input tls_input st).state.table
      ≡ rows_of x st.table
unfolding new
handle_connection-IsSpared sv u x mine starttls has_acceptor handshake input tls_input st w boxes
      rows =
    let kept =
      Reach-keeps sv (IsSparing sv u x mine st.table) (Step-IsSparing sv u x mine w st.table)
        (handle_connection-Reach sv starttls has_acceptor handshake input tls_input st)
        (record {
          rows = record { theirs = rows; same = refl };
          mailboxes = boxes;
          stranger = λ user e. cc;
          selection = λ s e. cc;
        }) in
    kept.rows.same
