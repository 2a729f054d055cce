-- ===== src/Imap/Session.antt =====
-- The operations of `SelectedMailbox` and `ImapSession` (imap/session.rs).
use mai_rust.Common.{
  ℕ, ◌+◌, ◌-◌, ◌^◌, ◌%◌, ◌/◌, Bool, true, false, Option, none, some, List, [], ◌∷◌, length, min,
  if◌then◌else◌, ◌==◌, ltb,
}
use mai_rust.Common.Text.{Text, lit}
use mai_rust.Common.Decimal.{u32_limit}
use mai_rust.Imap.Types.{
  SessionState, not_authenticated, authenticated, selected, read_only, logged_out, SelectedMailbox,
  ImapSession, Message,
}

-- A hash map as the list of what was inserted, the latest first.
unfoldable pub get : ℕ → List (ℕ × ℕ) → Option ℕ
get k [] = none
get k (e ∷ m) = let rest = get k m in if k == e.0 then some e.1 else rest

unfoldable pub new_mailbox : ℕ → Text → SelectedMailbox
new_mailbox id name = record {
  id = id;
  name = name;
  exists = 0;
  recent = 0;
  first_unseen = none;
  uid_validity = 1;
  uid_next = 1;
  flags = lit "\\Seen" ∷ lit "\\Answered" ∷ lit "\\Flagged" ∷ lit "\\Deleted" ∷ lit "\\Draft" ∷ [];
  uid_map = [];
  seq_to_id = [];
}

-- The first four of the sixteen bytes, the most significant first.
unfoldable pub message_id_to_uid : ℕ → ℕ
message_id_to_uid id = id / 2 ^ 96 % u32_limit

-- The variables of the loop of `update_with_messages`.
pub record Scan : Type 0 where
  pub uid_map : List (ℕ × ℕ)
  pub seq_to_id : List (ℕ × ℕ)
  pub first_unseen : Option ℕ
  pub recent_count : ℕ
  pub max_uid : ℕ

unfoldable pub first_of : Option ℕ → Bool → ℕ → Option ℕ
first_of none false seq = some seq
first_of none true seq = none
first_of (some n) seen seq = some n

-- `num_hours` of the age is below 24.
unfoldable pub is_recent : ℕ → Message → Bool
is_recent now m = ltb ((now - m.created_at) / 3600) 24

unfoldable pub scan_message : ℕ → ℕ → Message → Scan → Scan
unfolding message_id_to_uid first_of is_recent
scan_message now idx m s =
    let seq = (idx + 1) % u32_limit in
    let uid = message_id_to_uid m.id in
    record {
      uid_map = (uid, seq) ∷ s.uid_map;
      seq_to_id = (seq, m.id) ∷ s.seq_to_id;
      first_unseen = first_of s.first_unseen m.seen seq;
      recent_count = if is_recent now m then (s.recent_count + 1) % u32_limit else s.recent_count;
      max_uid = if ltb s.max_uid uid then uid else s.max_uid;
    }

unfoldable pub scan_from : ℕ → ℕ → List Message → Scan → Scan
unfolding scan_message
scan_from now idx [] s = s
scan_from now idx (m ∷ ms) s = scan_from now (idx + 1) ms (scan_message now idx m s)

abbrev pub empty_scan : Scan
empty_scan = record {
  uid_map = [];
  seq_to_id = [];
  first_unseen = none;
  recent_count = 0;
  max_uid = 0;
}

unfoldable pub update_with_messages : ℕ → List Message → SelectedMailbox → SelectedMailbox
unfolding scan_from
update_with_messages now messages mb =
    let s = scan_from now 0 messages empty_scan in
    record mb {
      exists = length messages % u32_limit;
      recent = s.recent_count;
      first_unseen = s.first_unseen;
      uid_next = min (s.max_uid + 1) (u32_limit - 1);
      uid_map = s.uid_map;
      seq_to_id = s.seq_to_id;
    }

unfoldable pub get_message_id : ℕ → SelectedMailbox → Option ℕ
get_message_id seq mb = get seq mb.seq_to_id

unfoldable pub get_at : Option ℕ → List (ℕ × ℕ) → Option ℕ
get_at none m = none
get_at (some seq) m = get seq m

unfoldable pub get_message_id_by_uid : ℕ → SelectedMailbox → Option ℕ
unfolding get_at
get_message_id_by_uid uid mb = get_at (get uid mb.uid_map) mb.seq_to_id

unfoldable pub get_seq_by_uid : ℕ → SelectedMailbox → Option ℕ
get_seq_by_uid uid mb = get uid mb.uid_map

unfoldable pub new : ℕ → ImapSession
new now = record {
  state = not_authenticated;
  user_id = none;
  tenant_id = none;
  user_email = none;
  selected_mailbox = none;
  started_at = now;
  last_activity = now;
}

unfoldable pub state_is_authenticated : SessionState → Bool
state_is_authenticated authenticated = true
state_is_authenticated selected = true
state_is_authenticated read_only = true
state_is_authenticated _ = false

unfoldable pub state_is_selected : SessionState → Bool
state_is_selected selected = true
state_is_selected read_only = true
state_is_selected _ = false

unfoldable pub state_is_readonly : SessionState → Bool
state_is_readonly read_only = true
state_is_readonly _ = false

abbrev pub is_authenticated : ImapSession → Bool
is_authenticated s = state_is_authenticated s.state

abbrev pub is_selected : ImapSession → Bool
is_selected s = state_is_selected s.state

abbrev pub is_readonly : ImapSession → Bool
is_readonly s = state_is_readonly s.state

abbrev pub update_activity : ℕ → ImapSession → ImapSession
update_activity now s = record s { last_activity = now }

unfoldable pub authenticate : ℕ → ℕ → ℕ → Text → ImapSession → ImapSession
authenticate now user_id tenant_id email s = update_activity now (record s {
  user_id = some user_id;
  tenant_id = some tenant_id;
  user_email = some email;
  state = authenticated;
})

unfoldable pub select : ℕ → SelectedMailbox → Bool → ImapSession → ImapSession
select now mailbox readonly s =
    update_activity now (record s {
      selected_mailbox = some mailbox;
      state = if readonly then read_only else selected;
    })

unfoldable pub close_mailbox : ℕ → ImapSession → ImapSession
close_mailbox now s =
    update_activity now (record s { selected_mailbox = none; state = authenticated })

unfoldable pub logout : ImapSession → ImapSession
logout s = record s { state = logged_out }

-- `num_minutes` of the elapsed seconds; no caller.
unfoldable pub is_timed_out : ℕ → ℕ → ImapSession → Bool
is_timed_out now timeout_minutes s = ltb timeout_minutes ((now - s.last_activity) / 60)
