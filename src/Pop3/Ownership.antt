-- ===== src/Pop3/Ownership.antt =====
-- A POP3 connection deletes no mail of other mailboxes.
use mathlib.Core.Option.{some-injective}
use mai_rust.Common.{
  ℕ, ◌+◌, ◌%◌, ◌≡◌, ◌≢◌, refl, ap, subst, ◌∙◌, Bool, Bool-cases, inl, inr, true, false, not, Option,
  none, some, List, [], ◌∷◌, All, All-append, map, keep, if◌then◌else◌, ◌==◌, arith,
}
use mai_rust.Common.Decimal.{u32_limit}
use mai_rust.Smtp.Types.{Message}
use mai_rust.Pop3.Types.{MessageInfo, Services, Pop3, update}
use mai_rust.Pop3.Session.{
  set_username, authenticate, load_messages, load_from, insert, get, marked_ids, push_id,
  reset_deletions, enter_update, get_deleted_messages, new,
}
use mai_rust.Pop3.Command.{delete_row, delete_rows}
use mai_rust.Pop3.Entry.{mailbox_rows, message_info}
use mai_rust.Pop3.Access.{mark_deleted-fields}
use mai_rust.Pop3.Keeps.{run_plain_keeps}
use mai_rust.Pop3.Marks.{Entries}
use mai_rust.Pop3.Deletion.{authorization_ne_update}
use mai_rust.Pop3.Run.{Input, Pop3Config, handle_connection}

-- Sorting lists no rows but the sorted ones, and iterating over a hash map no other entries.
pub record IsListing (sv : Services) : Type 1 where
  pub sorts : (Q : Message → Type 0) (t : List Message) → All Q t → All Q (sv.by_received_at t)
  pub visits : (Q : ℕ × MessageInfo → Type 0) (m : Entries) → All Q m → All Q (sv.hash_order m)

module _ (x : ℕ) where
  abbrev pub IsOther : ℕ → Type 0
  IsOther id = (id == x) ≡ false

  -- The rows that carry the identifier `x`.
  abbrev pub rows_of : List Message → List Message
  rows_of t = keep (λ r. r.id == x) t

  -- No row of the mailbox that POP3 shows carries the identifier `x`.
  abbrev pub IsForeign : ℕ → List Message → Type 0
  IsForeign mailbox_id t =
      All (λ r. (r.mailbox_id == mailbox_id) ≡ true → r.deleted ≡ false → IsOther r.id) t

  rows_of-delete_row :
      (sv : Services) (id : ℕ) (t : List Message)
      → IsOther id
      → rows_of (delete_row sv id t) ≡ rows_of t
  unfolding delete_row
  rows_of-delete_row sv id t h = elim (Bool-cases (sv.can_delete id)) [
    | inr failed ↦ rw failed refl
    | inl deleted ↦ rw deleted (spared t)
  ]
    where
      spared : (t : List Message) → rows_of (keep (λ r. not (r.id == id)) t) ≡ rows_of t
      spared [] = refl
      spared (r ∷ t) = ground (arith, spared t)

  rows_of-delete_rows :
      (sv : Services) (ids : List ℕ) (t : List Message)
      → All IsOther ids
      → rows_of (delete_rows sv ids t) ≡ rows_of t
  unfolding delete_rows
  rows_of-delete_rows sv [] t h = refl
  rows_of-delete_rows sv (id ∷ ids) t (p, h) =
      rows_of-delete_rows sv ids (delete_row sv id t) h ∙ rows_of-delete_row sv id t p

  abbrev IsOtherEntry : ℕ × MessageInfo → Type 0
  IsOtherEntry e = IsOther e.1.id

  get-IsOther :
      (n : ℕ) (m : Entries) (i : MessageInfo) → All IsOtherEntry m → get n m ≡ some i → IsOther i.id
  unfolding get
  get-IsOther n [] i h e = cc
  get-IsOther n (y ∷ m) i (p, h) e = elim (Bool-cases (n == y.0)) [
    | inl here ↦ let e' = rw here at e in subst (λ j. IsOther j.id) (some-injective y.1 i e') p
    | inr behind ↦ get-IsOther n m i h (rw behind at e)
  ]

  push_id-IsOther :
      (o : Option MessageInfo) (ids : List ℕ)
      → ((i : MessageInfo) → o ≡ some i → IsOther i.id)
      → All IsOther ids
      → All IsOther (push_id o ids)
  unfolding push_id
  push_id-IsOther none ids f h = h
  push_id-IsOther (some i) ids f h = (f i refl, h)

  marked_ids-IsOther :
      (m : Entries) (ns : List ℕ) → All IsOtherEntry m → All IsOther (marked_ids m ns)
  unfolding marked_ids
  marked_ids-IsOther m [] h = tt
  marked_ids-IsOther m (n ∷ ns) h =
      push_id-IsOther (get n m) (marked_ids m ns) (λ i. get-IsOther n m i h)
        (marked_ids-IsOther m ns h)

  keep-All :
      (p : ℕ × MessageInfo → Bool) (m : Entries) → All IsOtherEntry m → All IsOtherEntry (keep p m)
  keep-All p [] h = tt
  keep-All p (y ∷ m) (q, h) = elim (Bool-cases (p y)) [
    | inl kept ↦ rw kept (q, keep-All p m h)
    | inr left ↦ rw left (keep-All p m h)
  ]

  load_from-IsOther :
      (idx : ℕ) (infos : List MessageInfo) (m : Entries)
      → All (λ i. IsOther i.id) infos
      → All IsOtherEntry m
      → All IsOtherEntry (load_from idx infos m)
  unfolding load_from insert
  load_from-IsOther idx [] m h k = k
  load_from-IsOther idx (i ∷ infos) m (p, h) k =
      load_from-IsOther (idx + 1) infos (insert ((idx + 1) % u32_limit) i m) h
        (All-append IsOtherEntry _ _ (keep-All _ m k) (p, tt))

  selected-IsOther :
      (mailbox_id : ℕ) (t : List Message)
      → IsForeign mailbox_id t
      → All
          (λ r. IsOther r.id)
          (keep (λ r. if r.mailbox_id == mailbox_id then not r.deleted else false) t)
  selected-IsOther mailbox_id [] h = tt
  selected-IsOther mailbox_id (r ∷ t) (p, h) = elim (Bool-cases (r.mailbox_id == mailbox_id)) [
    | inr other ↦ rw other (selected-IsOther mailbox_id t h)
    | inl same ↦ rw same (elim (Bool-cases r.deleted) [
      | inl gone ↦ rw gone (selected-IsOther mailbox_id t h)
      | inr there ↦ rw there (p same there, selected-IsOther mailbox_id t h)
    ])
  ]

  infos-IsOther :
      (sv : Services) (t : List Message)
      → All (λ r. IsOther r.id) t
      → All (λ i. IsOther i.id) (map (message_info sv) t)
  unfolding message_info
  infos-IsOther sv [] h = tt
  infos-IsOther sv (r ∷ t) (p, h) = (p, infos-IsOther sv t h)

  mailbox_rows-IsOther :
      (sv : Services) (mailbox_id : ℕ) (t : List Message)
      → IsListing sv
      → IsForeign mailbox_id t
      → All (λ r. IsOther r.id) (mailbox_rows sv mailbox_id t)
  unfolding mailbox_rows
  mailbox_rows-IsOther sv mailbox_id t l h = elim (Bool-cases sv.can_select) [
    | inr failed ↦ simp failed tt
    | inl listed ↦ simp listed (l.sorts (λ r. IsOther r.id) _ (selected-IsOther mailbox_id t h))
  ]

  -- What holds of the state while the connection lives.
  record IsSparing (table : List Message) (st : Pop3) : Type 0 where
    pub untouched : st.session.state ≢ update → st.table ≡ table
    pub loaded :
        (mailbox_id : ℕ)
        → st.session.mailbox_id ≡ some mailbox_id
        → IsForeign mailbox_id table
        → All IsOtherEntry st.session.messages
    pub spared :
        (mailbox_id : ℕ)
        → st.session.mailbox_id ≡ some mailbox_id
        → IsForeign mailbox_id table
        → rows_of st.table ≡ rows_of table

  -- A connection never deletes a row whose identifier no row of the session's mailbox carries: for
  -- such an identifier, the rows that carry it are the same and in the same order at the end,
  -- whatever the client sends in plaintext and behind STLS, provided that ORDER BY lists no rows but
  -- those selected, and the iteration of a hash map no entries but the map's.
  pub handle_connection-IsForeign :
      (sv : Services) (config : Pop3Config) (has_acceptor handshake : Bool)
      (input tls_input : List Input) (table : List Message) (mailbox_id : ℕ)
      → IsListing sv
      → (handle_connection sv config has_acceptor handshake input tls_input
          table).state.session.mailbox_id
        ≡ some mailbox_id
      → IsForeign mailbox_id table
      → rows_of
          (handle_connection sv config has_acceptor handshake input tls_input table).state.table
        ≡ rows_of table
  unfolding handle_connection new set_username reset_deletions enter_update authenticate
      load_messages get_deleted_messages
  handle_connection-IsForeign sv config has_acceptor handshake input tls_input table mailbox_id l =
      let kept =
        run_plain_keeps sv (IsSparing table)
          (λ u st auth p. record { untouched = p.untouched; loaded = p.loaded; spared = p.spared })
          (λ account mb st auth login p.
            let same = p.untouched (authorization_ne_update sv st.session.state auth) in
            record {
              untouched = λ e. same;
              loaded = λ id e foreign. l.visits IsOtherEntry _ (
                  load_from-IsOther 0 _ []
                    (infos-IsOther sv _ (
                      mailbox_rows-IsOther sv mb st.table l
                        (rw (same, some-injective mb id e) foreign)))
                    tt);
              spared = λ id e foreign. ap rows_of same;
            })
          (λ n st inside p.
            rw (mark_deleted-fields sv.now n st.session)
              (record { untouched = p.untouched; loaded = p.loaded; spared = p.spared }))
          (λ st inside p. record { untouched = p.untouched; loaded = p.loaded; spared = p.spared })
          (λ st inside p. record {
            untouched = λ unclosed. absurd (unclosed refl);
            loaded = p.loaded;
            spared = λ id e foreign.
                rows_of-delete_rows sv _ st.table (
                  marked_ids-IsOther st.session.messages st.session.deleted (p.loaded id e foreign))
                ∙ p.spared id e foreign;
          })
          config has_acceptor handshake input tls_input _
          (record {
            untouched = λ e. refl;
            loaded = λ id e foreign. tt;
            spared = λ id e foreign. refl;
          }) in
      kept.spared mailbox_id
