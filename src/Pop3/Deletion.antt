-- ===== src/Pop3/Deletion.antt =====
-- What a POP3 connection deletes.
use mai_rust.Common.{
  ℕ, ltb, ◌≤◌, ◌||◌, Option, none, some, All, ◌≡◌, ◌≢◌, refl, sym, ap, ◌∙◌, Bool, Bool-cases, inl,
  inr, true, false, not, ◌&&◌, List, [], ◌∷◌, keep, ◌==◌, arith,
}
use mai_rust.Smtp.Types.{Message}
use mai_rust.Pop3.Types.{Services, Pop3, update, SessionState, MessageInfo, Pop3Command, quit}
use mai_rust.Pop3.Session.{
  is_transaction, state_is_authorization, state_is_transaction, enter_update, get_deleted_messages,
  contains, get, keys, push_id, marked_ids,
}
use mai_rust.Pop3.Command.{delete_row, delete_rows, handle_quit}
use mai_rust.Pop3.Loops.{Sends}
use mai_rust.Pop3.Keeps.{run_plain_sends_keeps}
use mai_rust.Pop3.Marks.{occurs, Entries}
use mai_rust.Pop3.Run.{Input, Pop3Config, handle_connection}

keep_ext :
    (p q : Message → Bool) → ((r : Message) → p r ≡ q r) → (t : List Message) → keep p t ≡ keep q t
keep_ext p q h [] = refl
keep_ext p q h (r ∷ t) = rw (h r, keep_ext p q h t) refl

keep-keep : (p q : Message → Bool) (t : List Message) → keep p (keep q t) ≡ keep (λ r. q r && p r) t
keep-keep p q [] = refl
keep-keep p q (r ∷ t) = ground (arith, keep-keep p q t)

-- Whether a message of the map with a marked number has the identifier.
abbrev pub is_marked : List ℕ → Entries → ℕ → Bool
is_marked deleted [] id = false
is_marked deleted (e ∷ m) id =
    (ltb 0 (occurs e.0 deleted) && id == e.1.id) || is_marked deleted m id

-- Whether the map has a message under a number with the identifier.
abbrev has_entry : ℕ → Entries → ℕ → Bool
has_entry num [] id = false
has_entry num (e ∷ m) id = (e.0 == num && id == e.1.id) || has_entry num m id

abbrev is_held : Option MessageInfo → ℕ → Bool
is_held none id = false
is_held (some x) id = id == x.id

is_marked-cons :
    (num : ℕ) (nums : List ℕ) (m : Entries) (id : ℕ)
    → is_marked (num ∷ nums) m id ≡ (has_entry num m id || is_marked nums m id)
is_marked-cons num nums [] id = refl
is_marked-cons num nums (e ∷ m) id = ground (arith, is_marked-cons num nums m id)

no_entry : (num : ℕ) (m : Entries) (id : ℕ) → occurs num (keys m) ≡ 0 → has_entry num m id ≡ false
no_entry num [] id h = refl
no_entry num (e ∷ m) id h = ground (arith, no_entry num m id)

other_way : (a b : ℕ) → (a == b) ≡ false → (b == a) ≡ false
other_way a b h = ground arith

has_entry-get :
    (num : ℕ) (m : Entries) (id : ℕ)
    → occurs num (keys m) ≤ 1
    → has_entry num m id ≡ is_held (get num m) id
unfolding get
has_entry-get num [] id h = refl
has_entry-get num (e ∷ m) id h = elim (Bool-cases (num == e.0)) [
  | inr other ↦
      rw (other, other_way num e.0 other) (has_entry-get num m id (omega (arith, rw other at h)))
  | inl same ↦ ground (arith, no_entry num m id)
]

contains-push_id :
    (o : Option MessageInfo) (ids : List ℕ) (id : ℕ)
    → contains id (push_id o ids) ≡ (is_held o id || contains id ids)
unfolding contains push_id
contains-push_id none ids id = refl
contains-push_id (some x) ids id = refl

nothing_marked : (m : Entries) (id : ℕ) → is_marked [] m id ≡ false
nothing_marked [] id = refl
nothing_marked (e ∷ m) id = nothing_marked m id

-- The identifiers that QUIT collects.
contains-marked_ids :
    (m : Entries) (nums : List ℕ) (id : ℕ)
    → ((k : ℕ) → occurs k (keys m) ≤ 1)
    → contains id (marked_ids m nums) ≡ is_marked nums m id
unfolding marked_ids contains
contains-marked_ids m [] id h = sym (nothing_marked m id)
contains-marked_ids m (num ∷ nums) id h =
    contains-push_id (get num m) (marked_ids m nums) id
    ∙ ap (λ b. b || contains id (marked_ids m nums)) (sym (has_entry-get num m id (h num)))
    ∙ ap (λ b. has_entry num m id || b) (contains-marked_ids m nums id h)
    ∙ sym (is_marked-cons num nums m id)

module _ (sv : Services) where
  -- A row survives unless it is marked and its DELETE succeeds.
  abbrev pub survives : List ℕ → Message → Bool
  survives ids r = not (contains r.id ids && sv.can_delete r.id)

  survives-cons :
      (id : ℕ) (ids : List ℕ) (r : Message)
      → sv.can_delete id ≡ true
      → (not (r.id == id) && survives ids r) ≡ survives (id ∷ ids) r
  unfolding contains
  survives-cons id ids r h = ground arith

  survives-failed :
      (id : ℕ) (ids : List ℕ) (r : Message)
      → sv.can_delete id ≡ false
      → survives ids r ≡ survives (id ∷ ids) r
  unfolding contains
  survives-failed id ids r h = ground arith

  delete_rows-keep :
      (ids : List ℕ) (t : List Message) → delete_rows sv ids t ≡ keep (survives ids) t
  unfolding delete_rows contains
  delete_rows-keep [] t = sym (keep_all t)
    where
      keep_all : (t : List Message) → keep (survives []) t ≡ t
      keep_all [] = refl
      keep_all (r ∷ t) = ap (◌∷◌ r) (keep_all t)
  delete_rows-keep (id ∷ ids) t =
      delete_rows-keep ids (delete_row sv id t)
      ∙ (unfold delete_row in
          elim (Bool-cases (sv.can_delete id)) [
            | inl deleted ↦ rw deleted (
                keep-keep (survives ids) (λ r. not (r.id == id)) t
                ∙ keep_ext _ _ (λ r. survives-cons id ids r deleted) t)
            | inr failed ↦ rw failed (keep_ext _ _ (λ r. survives-failed id ids r failed) t)
          ])

  -- QUIT in the Transaction state deletes the rows that carry the identifier of a message whose number
  -- is marked in the session's map of messages, those whose DELETE fails excepted, keeps all others in
  -- their order, and ends the connection, provided that no number stands twice in the map.
  pub handle_quit-marked :
      (st : Pop3)
      → is_transaction st.session ≡ true
      → ((k : ℕ) → occurs k (keys st.session.messages) ≤ 1)
      → ((handle_quit sv st).1.table
          ≡ keep
              (λ r.
                not (is_marked st.session.deleted st.session.messages r.id && sv.can_delete r.id))
              st.table)
        × ((handle_quit sv st).1.session.state ≡ update)
        × ((handle_quit sv st).0.1 ≡ true)
  unfolding handle_quit enter_update get_deleted_messages
  handle_quit-marked st h distinct = rw h (
    delete_rows-keep _ st.table
        ∙ keep_ext _ _
            (λ r.
              ap (λ b. not (b && sv.can_delete r.id))
                (contains-marked_ids st.session.messages st.session.deleted r.id distinct))
            st.table,
    refl,
    refl,
  )

  pub authorization_ne_update : (t : SessionState) → state_is_authorization t ≡ true → t ≢ update
  unfolding state_is_authorization
  authorization_ne_update t h e = ground arith

  pub transaction_ne_update : (t : SessionState) → state_is_transaction t ≡ true → t ≢ update
  unfolding state_is_transaction
  transaction_ne_update t h e = ground arith

  -- A command that is not QUIT.
  abbrev pub IsNoQuit : Pop3Command → Type 0
  IsNoQuit c = c ≢ quit

  -- A connection on which the client never sends QUIT, neither in plaintext nor behind STLS, deletes
  -- nothing, whatever it has marked and however it ends: with the client's leaving, a read error, a
  -- timeout or a handshake.
  pub handle_connection_untouched :
      (config : Pop3Config) (has_acceptor handshake : Bool) (input tls_input : List Input)
      (table : List Message)
      → All (Sends sv IsNoQuit) input
      → All (Sends sv IsNoQuit) tls_input
      → (handle_connection sv config has_acceptor handshake input tls_input table).state.table
        ≡ table
  unfolding handle_connection
  handle_connection_untouched config has_acceptor handshake input tls_input table plain tls =
      run_plain_sends_keeps sv IsNoQuit (λ st. st.table ≡ table) (λ u st auth p. p)
        (λ account mailbox_id st auth l p. p) (λ n st inside p. p) (λ st inside p. p)
        (λ st q inside p. absurd (q refl)) config has_acceptor handshake input tls_input _ plain tls
        refl
