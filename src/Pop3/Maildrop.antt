-- ===== src/Pop3/Maildrop.antt =====
-- The invariant of the message map and its marks, and what STAT, LIST, UIDL and RETR see of it.
use mai_rust.Common.{
  ℕ, ◌≤◌, ◌<◌, ◌≡◌, refl, Bool, false, not, Bool-cases, inl, inr, List, [], ◌∷◌, map, length,
  length-map, if◌then◌else◌, arith, ◌&&◌,
}
use mai_rust.Common.Decimal.{u32_limit}
use mai_rust.Pop3.Types.{MessageInfo, Session, Services}
use mai_rust.Pop3.Session.{
  contains, get, keys, size_of, number_and_size, number_and_uid, load_from, live, sum, sub_usize,
  message_count, total_size, get_message, list_messages, uidl_messages, is_some, mark_deleted,
  reset_deletions, set_username, load_messages, enter_update,
}
use mai_rust.Smtp.Types.{Message}
use mai_rust.Pop3.Run.{Input, Pop3Config, handle_connection}
use mai_rust.Pop3.Keeps.{run_plain_keeps}
use mai_rust.Pop3.Session.{new}
use mai_rust.Pop3.Marks.{
  Entries, occurs, contains-occurs, get-occurs, length-live, occurs-load_from,
}

-- No message number stands twice in the map, and every mark is one mark of a message of the map.
pub record IsMaildrop (s : Session) : Type 0 where
  pub keys_distinct : (k : ℕ) → occurs k (keys s.messages) ≤ 1
  pub marks_known : (k : ℕ) → occurs k s.deleted ≤ occurs k (keys s.messages)

-- The sizes that LIST shows.
abbrev pub listed_sizes : List (ℕ × ℕ) → List ℕ
listed_sizes [] = []
listed_sizes (e ∷ es) = e.1 ∷ listed_sizes es

total_size-sizes : (m : Entries) → sum (map size_of m) ≡ sum (listed_sizes (map number_and_size m))
unfolding sum
total_size-sizes [] = refl
total_size-sizes (e ∷ m) = cc (total_size-sizes m)

-- STAT's count is the number of lines of LIST, and its size is the sum of the sizes that LIST
-- shows, as 64-bit numbers, in a session that meets the invariant and has fewer than 2^32 messages.
pub message_count-list_messages :
    (s : Session)
    → IsMaildrop s
    → length s.messages < u32_limit
    → (message_count s ≡ length (list_messages s))
      × (total_size s ≡ sum (listed_sizes (list_messages s)))
unfolding message_count sub_usize list_messages total_size
message_count-list_messages s d h =
    let counted = length-live s.deleted s.messages d.keys_distinct d.marks_known in
    (
      omega (arith, length-map number_and_size (live s.deleted s.messages)),
      total_size-sizes (live s.deleted s.messages),
    )

contains-live :
    (n : ℕ) (ds : List ℕ) (m : Entries)
    → contains n (keys (map number_and_size (live ds m)))
      ≡ (if contains n ds then false else is_some (get n m))
unfolding live contains get
contains-live n ds [] = ground arith
contains-live n ds (e ∷ m) = ground (arith, contains-live n ds m)

contains-live_uid :
    (n : ℕ) (ds : List ℕ) (m : Entries)
    → contains n (keys (map number_and_uid (live ds m)))
      ≡ (if contains n ds then false else is_some (get n m))
unfolding live contains get
contains-live_uid n ds [] = ground arith
contains-live_uid n ds (e ∷ m) = ground (arith, contains-live_uid n ds m)

-- LIST and UIDL show a message number exactly if RETR, TOP and the forms of LIST and UIDL with an
-- argument find a message under it.
list_messages-get_message :
    (n : ℕ) (s : Session)
    → (contains n (keys (list_messages s)) ≡ is_some (get_message n s))
      × (contains n (keys (uidl_messages s)) ≡ is_some (get_message n s))
unfolding list_messages uidl_messages get_message
list_messages-get_message n s = (
  (ground (arith, contains-live n s.deleted s.messages)),
  (ground (arith, contains-live_uid n s.deleted s.messages)),
)

mark_deleted-IsMaildrop :
    (now num : ℕ) (s : Session) → IsMaildrop s → IsMaildrop (mark_deleted now num s).1
unfolding mark_deleted
mark_deleted-IsMaildrop now num s d =
    elim (Bool-cases (is_some (get num s.messages) && not (contains num s.deleted))) [
      | inr refused ↦ rw refused d
      | inl marked ↦ rw marked (record {
        keys_distinct = d.keys_distinct;
        marks_known = λ k.
            let known = d.marks_known k in
            ground (arith, get-occurs num s.messages, contains-occurs num s.deleted);
      })
    ]

-- Iterating over a hash map visits each key as often as the map has it.
abbrev pub IsOrder : Services → Type 0
IsOrder sv = (m : Entries) (k : ℕ) → occurs k (keys (sv.hash_order m)) ≡ occurs k (keys m)

load_messages-IsMaildrop :
    (sv : Services) (infos : List MessageInfo) (s : Session)
    → IsOrder sv
    → IsMaildrop (load_messages sv infos s)
unfolding load_messages
load_messages-IsMaildrop sv infos s order = record {
  keys_distinct = λ k.
      let visited = order (load_from 0 infos []) k in
      let once = occurs-load_from 0 infos [] (λ j. omega arith) k in omega arith;
  marks_known = λ k. omega arith;
}

-- After any sequence of commands, in plaintext and behind STLS, every mark is one mark of a message
-- of the map, and no message number stands twice in it, provided that iterating over a hash map
-- visits each key as often as the map has it.
pub handle_connection-IsMaildrop :
    (sv : Services) (config : Pop3Config) (has_acceptor handshake : Bool)
    (input tls_input : List Input) (table : List Message)
    → IsOrder sv
    → IsMaildrop
        (handle_connection sv config has_acceptor handshake input tls_input table).state.session
unfolding handle_connection new set_username reset_deletions enter_update
handle_connection-IsMaildrop sv config has_acceptor handshake input tls_input table order =
    run_plain_keeps sv (λ st. IsMaildrop st.session)
      (λ u st _ d. record { keys_distinct = d.keys_distinct; marks_known = d.marks_known })
      (λ account mailbox_id st _ _ d. load_messages-IsMaildrop sv _ _ order)
      (λ n st _ d. mark_deleted-IsMaildrop sv.now n st.session d)
      (λ st _ d. record { keys_distinct = d.keys_distinct; marks_known = λ k. omega arith })
      (λ st _ d. record { keys_distinct = d.keys_distinct; marks_known = d.marks_known }) config
      has_acceptor handshake input tls_input _
      (record { keys_distinct = λ k. omega arith; marks_known = λ k. omega arith })
