-- ===== src/Pop3/Session.antt =====
-- The operations of `Pop3Session` (pop3/session.rs).
use mai_rust.Common.{
  ℕ, ◌+◌, ◌-◌, ◌^◌, ◌%◌, ◌/◌, ◌++◌, Bool, true, false, not, ◌&&◌, ◌||◌, Option, none, some, List,
  [], ◌∷◌, map, keep, length, if◌then◌else◌, ◌==◌, ltb,
}
use mai_rust.Common.Text.{Text}
use mai_rust.Common.Decimal.{u32_limit}
use mai_rust.Pop3.Types.{
  SessionState, authorization, transaction, update, MessageInfo, Session, Services,
}

abbrev pub u64_limit : ℕ
u64_limit = 2 ^ 64

unfoldable pub new : ℕ → Session
new now = record {
  state = authorization;
  username = none;
  user_id = none;
  tenant_id = none;
  mailbox_id = none;
  messages = [];
  deleted = [];
  started_at = now;
  last_activity = now;
}

unfoldable pub state_is_authorization : SessionState → Bool
state_is_authorization authorization = true
state_is_authorization _ = false

unfoldable pub state_is_transaction : SessionState → Bool
state_is_transaction transaction = true
state_is_transaction _ = false

abbrev pub is_authorization : Session → Bool
is_authorization s = state_is_authorization s.state

abbrev pub is_transaction : Session → Bool
is_transaction s = state_is_transaction s.state

abbrev pub update_activity : ℕ → Session → Session
update_activity now s = record s { last_activity = now }

unfoldable pub set_username : ℕ → Text → Session → Session
set_username now username s = update_activity now (record s { username = some username })

unfoldable pub authenticate : ℕ → ℕ → ℕ → ℕ → Session → Session
authenticate now user_id tenant_id mailbox_id s = update_activity now (record s {
  user_id = some user_id;
  tenant_id = some tenant_id;
  mailbox_id = some mailbox_id;
  state = transaction;
})

-- The set of the marked numbers, and the map of the messages.
unfoldable pub contains : ℕ → List ℕ → Bool
contains k [] = false
contains k (x ∷ xs) = k == x || contains k xs

unfoldable pub get : ℕ → List (ℕ × MessageInfo) → Option MessageInfo
get k [] = none
get k (e ∷ m) = let rest = get k m in if k == e.0 then some e.1 else rest

abbrev pub keys {ℓ} : {A : Type ℓ} → List (ℕ × A) → List ℕ
keys [] = []
keys (e ∷ m) = e.0 ∷ keys m

-- `insert` of the hash map replaces the entry of an equal key.
unfoldable pub insert : ℕ → MessageInfo → List (ℕ × MessageInfo) → List (ℕ × MessageInfo)
insert k x m = keep (λ e. not (k == e.0)) m ++ (k, x) ∷ []

-- The loop of `load_messages` from index `idx` on, with its cast to u32.
unfoldable pub load_from : ℕ → List MessageInfo → List (ℕ × MessageInfo) → List (ℕ × MessageInfo)
unfolding insert
load_from idx [] m = m
load_from idx (x ∷ xs) m = load_from (idx + 1) xs (insert ((idx + 1) % u32_limit) x m)

unfoldable pub load_messages : Services → List MessageInfo → Session → Session
load_messages sv infos s = record s {
  messages = sv.hash_order (load_from 0 infos []);
  deleted = [];
}

-- The difference of two `usize`, which wraps.
unfoldable pub sub_usize : ℕ → ℕ → ℕ
sub_usize a b = (a + u64_limit - b) % u64_limit

unfoldable pub message_count : Session → ℕ
unfolding sub_usize
message_count s = sub_usize (length s.messages) (length s.deleted) % u32_limit

-- The entries that pass the filter `!deleted.contains(num)`.
unfoldable pub live : List ℕ → List (ℕ × MessageInfo) → List (ℕ × MessageInfo)
live deleted m = keep (λ e. not (contains e.0 deleted)) m

unfoldable pub sum : List ℕ → ℕ
sum [] = 0
sum (n ∷ ns) = (n + sum ns) % u64_limit

abbrev pub size_of : ℕ × MessageInfo → ℕ
size_of e = e.1.size

unfoldable pub total_size : Session → ℕ
unfolding sum live
total_size s = sum (map size_of (live s.deleted s.messages))

unfoldable pub get_message : ℕ → Session → Option MessageInfo
get_message num s = if contains num s.deleted then none else get num s.messages

abbrev pub is_some {ℓ} : {A : Type ℓ} → Option A → Bool
is_some none = false
is_some (some a) = true

unfoldable pub mark_deleted : ℕ → ℕ → Session → Bool × Session
mark_deleted now num s =
    if is_some (get num s.messages) && not (contains num s.deleted)
    then (true, update_activity now (record s { deleted = num ∷ s.deleted }))
    else (false, s)

unfoldable pub reset_deletions : ℕ → Session → Session
reset_deletions now s = update_activity now (record s { deleted = [] })

-- The identifiers of the marked messages that the map has.
unfoldable pub push_id : Option MessageInfo → List ℕ → List ℕ
push_id none ids = ids
push_id (some x) ids = x.id ∷ ids

unfoldable pub marked_ids : List (ℕ × MessageInfo) → List ℕ → List ℕ
unfolding push_id
marked_ids m [] = []
marked_ids m (num ∷ nums) = push_id (get num m) (marked_ids m nums)

unfoldable pub get_deleted_messages : Session → List ℕ
unfolding marked_ids
get_deleted_messages s = marked_ids s.messages s.deleted

unfoldable pub enter_update : Session → Session
enter_update s = record s { state = update }

-- `num_minutes` of the elapsed seconds; no caller.
unfoldable pub is_timed_out : ℕ → ℕ → Session → Bool
is_timed_out now timeout_minutes s = ltb timeout_minutes ((now - s.last_activity) / 60)

abbrev pub number_and_size : ℕ × MessageInfo → ℕ × ℕ
number_and_size e = (e.0, e.1.size)

abbrev pub number_and_uid : ℕ × MessageInfo → ℕ × Text
number_and_uid e = (e.0, e.1.uid)

unfoldable pub list_messages : Session → List (ℕ × ℕ)
unfolding live
list_messages s = map number_and_size (live s.deleted s.messages)

unfoldable pub uidl_messages : Session → List (ℕ × Text)
unfolding live
uidl_messages s = map number_and_uid (live s.deleted s.messages)
