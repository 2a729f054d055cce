-- ===== src/Imap/Flags.antt =====
-- STORE (imap/server.rs).
use mai_rust.Common.{
  ℕ, ◌+◌, ◌++◌, Bool, true, false, not, ◌||◌, List, [], ◌∷◌, map, if◌then◌else◌, ◌==◌,
}
use mai_rust.Common.Text.{Text, lit, eq_text, to_uppercase}
use mai_rust.Common.Decimal.{display}
use mai_rust.Imap.Types.{
  SequenceSet, StoreOperation, replace_flags, remove_flags, StoreFlags, Message, Services, Imap,
}
use mai_rust.Imap.Session.{message_id_to_uid}
use mai_rust.Imap.Response.{ok, fetch, format_flags}
use mai_rust.Imap.Rows.{
  Handled, say, with_table, with_writable, mailbox_rows, max_seq, seq_at, in_set,
}

-- The five variables of `apply_flag_changes`.
pub record Flags : Type 0 where
  pub seen : Bool
  pub answered : Bool
  pub flagged : Bool
  pub deleted : Bool
  pub draft : Bool

abbrev pub flags_of : Message → Flags
flags_of m = record {
  seen = m.seen;
  answered = m.answered;
  flagged = m.flagged;
  deleted = m.deleted;
  draft = m.draft;
}

unfoldable pub is_replace : StoreOperation → Bool
is_replace replace_flags = true
is_replace _ = false

-- The variable `value`.
unfoldable pub value_of : StoreOperation → Bool
value_of remove_flags = false
value_of _ = true

module _ (upper : Text → Text) where
  -- `flags.iter().any(|f| f.to_uppercase() == name)`.
  unfoldable pub lists_flag : Text → List Text → Bool
  lists_flag name [] = false
  lists_flag name (f ∷ fs) = eq_text (upper f) name || lists_flag name fs

  -- What a flag of the list sets its variable to.
  unfoldable pub new_value : StoreFlags → Text → Bool
  unfolding lists_flag is_replace value_of
  new_value fl name =
      if is_replace fl.operation then lists_flag name fl.flags else value_of fl.operation

  unfoldable pub apply_flag : StoreFlags → Text → Flags → Flags
  unfolding new_value
  apply_flag fl flag v =
      if eq_text (upper flag) (lit "\\SEEN")
      then record v { seen = new_value fl (lit "\\SEEN") }
      else if eq_text (upper flag) (lit "\\ANSWERED")
      then record v { answered = new_value fl (lit "\\ANSWERED") }
      else if eq_text (upper flag) (lit "\\FLAGGED")
      then record v { flagged = new_value fl (lit "\\FLAGGED") }
      else if eq_text (upper flag) (lit "\\DELETED")
      then record v { deleted = new_value fl (lit "\\DELETED") }
      else if eq_text (upper flag) (lit "\\DRAFT")
      then record v { draft = new_value fl (lit "\\DRAFT") }
      else v

  -- The loop over the list.
  unfoldable pub apply_flags : StoreFlags → List Text → Flags → Flags
  unfolding apply_flag
  apply_flags fl [] v = v
  apply_flags fl (f ∷ fs) v = apply_flags fl fs (apply_flag fl f v)

  -- What Replace does to the flags that are not listed.
  unfoldable pub reset_unlisted : List Text → Flags → Flags
  unfolding lists_flag
  reset_unlisted fs v = record {
    seen = if lists_flag (lit "\\SEEN") fs then v.seen else false;
    answered = if lists_flag (lit "\\ANSWERED") fs then v.answered else false;
    flagged = if lists_flag (lit "\\FLAGGED") fs then v.flagged else false;
    deleted = if lists_flag (lit "\\DELETED") fs then v.deleted else false;
    draft = if lists_flag (lit "\\DRAFT") fs then v.draft else false;
  }

  unfoldable pub apply_flag_changes : Message → StoreFlags → Flags
  unfolding apply_flags reset_unlisted is_replace
  apply_flag_changes m fl =
      let v = apply_flags fl fl.flags (flags_of m) in
      if is_replace fl.operation then reset_unlisted fl.flags v else v

abbrev pub set_flags : Flags → Message → Message
set_flags v m = record m {
  seen = v.seen;
  answered = v.answered;
  flagged = v.flagged;
  deleted = v.deleted;
  draft = v.draft;
}

-- `UPDATE messages SET … WHERE id = $1`.
unfoldable pub update_flags : ℕ → Flags → List Message → List Message
update_flags id v table = map (λ r. if r.id == id then set_flags v r else r) table

abbrev pub flags_text : Flags → Text
flags_text v = format_flags v.seen v.answered v.flagged v.deleted v.draft

unfoldable pub store_line : Bool → Bool → ℕ → Message → Flags → Text
store_line silent uid_mode idx m v =
    if silent
    then []
    else fetch (seq_at idx) (
        (lit "FLAGS", flags_text v)
        ∷ (if uid_mode then (lit "UID", display (message_id_to_uid m.id)) ∷ [] else []))

-- The loop over the rows, from index `idx` on: the response lines and the new table.
unfoldable pub store_from :
    Services
    → SequenceSet
    → StoreFlags
    → Bool
    → ℕ
    → ℕ
    → List Message
    → List Message
    → Text × List Message
unfolding in_set apply_flag_changes update_flags store_line
store_from sv sequence fl uid_mode top idx [] table = ([], table)
store_from sv sequence fl uid_mode top idx (m ∷ ms) table =
    let v = apply_flag_changes (to_uppercase sv.wide_upper) m fl in
    let skip = store_from sv sequence fl uid_mode top (idx + 1) ms table in
    let (lines, table') =
      store_from sv sequence fl uid_mode top (idx + 1) ms (update_flags m.id v table) in
    if not (in_set sequence uid_mode top idx m)
    then skip
    else if not (sv.can_write m.id)
    then skip
    else (store_line fl.silent uid_mode idx m v ++ lines, table')

unfoldable pub handle_store : Services → Text → SequenceSet → StoreFlags → Bool → Imap → Handled
unfolding with_writable store_from mailbox_rows
handle_store sv tag sequence fl uid_mode st =
    with_writable tag
      (λ s.
        let messages = mailbox_rows sv s.id st.table in
        let (lines, table) =
          store_from sv sequence fl uid_mode (max_seq messages) 0 messages st.table in
        say (lines ++ ok tag (lit "STORE completed")) (with_table table st))
      st
