-- ===== src/Imap/Fetch.antt =====
-- FETCH and SEARCH (imap/server.rs).
use mai_rust.Common.{
  ℕ, ◌+◌, ◌++◌, Bool, true, false, not, ◌&&◌, ◌||◌, Option, none, some, List, [], ◌∷◌, length,
  if◌then◌else◌, ltb,
}
use mai_rust.Common.Text.{Text, lit, lines, as_bytes, crlf, to_lowercase, has_text}
use mai_rust.Common.Decimal.{display}
use mai_rust.Imap.Types.{
  SequenceSet, FetchItem, flags_item, internal_date_item, rfc822_size_item, envelope_item,
  body_structure_item, body_item, uid_item, all_item, fast_item, full_item, body_section_item,
  body_peek_item, SearchCriteria, Criteria, no_criteria, more_criteria, all_key, answered_key,
  deleted_key, draft_key, flagged_key, new_key, old_key, recent_key, seen_key, unanswered_key,
  undeleted_key, undraft_key, unflagged_key, unseen_key, body_key, from_key, subject_key, text_key,
  to_key, larger_key, smaller_key, not_key, or_key, and_key, Message, Services, Imap,
}
use mai_rust.Imap.Outcome.{Outcome, parsed, ◌>>=◌}
use mai_rust.Imap.Session.{message_id_to_uid, is_recent}
use mai_rust.Imap.Response.{ok, fetch, format_flags, search}
use mai_rust.Imap.Envelope.{format_envelope, format_body_structure_simple}
use mai_rust.Imap.Rows.{Handled, say, with_selected, mailbox_rows, max_seq, seq_at, in_set}

abbrev pub Pairs : Type 0
Pairs = List (Text × Text)

abbrev pub flags_pair : Message → Text × Text
flags_pair m = (lit "FLAGS", format_flags m.seen m.answered m.flagged m.deleted m.draft)

abbrev pub date_pair : Services → Message → Text × Text
date_pair sv m = (lit "INTERNALDATE", lit "\"" ++ sv.show_date m.received_at ++ lit "\"")

abbrev pub size_pair : Message → Text × Text
size_pair m = (lit "RFC822.SIZE", display m.body_size)

abbrev pub preview_lines : Option Text → ℕ
preview_lines none = 0
preview_lines (some p) = length (lines p)

unfoldable pub structure_pair : Message → Text × Text
structure_pair m =
    (lit "BODYSTRUCTURE", format_body_structure_simple m.body_size (preview_lines m.body_preview))

-- A literal: its length in bytes, and its text.
unfoldable pub literal : Text → Text
literal body = lit "{" ++ display (length (as_bytes body)) ++ lit "}" ++ crlf ++ body

unfoldable pub preview_pairs : Text → Option Text → Pairs
unfolding literal
preview_pairs key none = []
preview_pairs key (some preview) = (key, literal preview) ∷ []

-- Whatever the section, the whole message, or else the preview.
unfoldable pub section_pairs : Services → Text → Message → Pairs
unfolding literal preview_pairs
section_pairs sv section m =
    let key = lit "BODY[" ++ section ++ lit "]" in
    if not sv.storage_ready
    then preview_pairs key m.body_preview
    else elim (sv.read_file m.storage_path) [
      | some data_ ↦ (key, literal (sv.utf8_lossy data_)) ∷ []
      | none ↦ preview_pairs key m.body_preview
    ]

unfoldable pub envelope_pair : Message → Outcome Pairs
unfolding format_envelope
envelope_pair m =
    format_envelope m.header_date m.subject m.from_address m.header_to m.header_cc
      m.message_id_header
    >>= λ e. parsed ((lit "ENVELOPE", e) ∷ [])

unfoldable pub item_pairs : Services → Message → FetchItem → Outcome Pairs
unfolding envelope_pair structure_pair section_pairs
item_pairs sv m flags_item = parsed (flags_pair m ∷ [])
item_pairs sv m uid_item = parsed ((lit "UID", display (message_id_to_uid m.id)) ∷ [])
item_pairs sv m internal_date_item = parsed (date_pair sv m ∷ [])
item_pairs sv m rfc822_size_item = parsed (size_pair m ∷ [])
item_pairs sv m envelope_item = envelope_pair m
item_pairs sv m body_structure_item = parsed (structure_pair m ∷ [])
item_pairs sv m body_item = parsed (structure_pair m ∷ [])
item_pairs sv m all_item = parsed (flags_pair m ∷ date_pair sv m ∷ size_pair m ∷ [])
item_pairs sv m fast_item = parsed (flags_pair m ∷ date_pair sv m ∷ size_pair m ∷ [])
item_pairs sv m full_item =
    parsed (flags_pair m ∷ date_pair sv m ∷ size_pair m ∷ structure_pair m ∷ [])
item_pairs sv m (body_section_item section) = parsed (section_pairs sv section m)
item_pairs sv m (body_peek_item section) = parsed (section_pairs sv section m)

unfoldable pub all_pairs : Services → Message → List FetchItem → Outcome Pairs
unfolding item_pairs
all_pairs sv m [] = parsed []
all_pairs sv m (i ∷ items) =
    item_pairs sv m i >>= λ p. all_pairs sv m items >>= λ q. parsed (p ++ q)

-- The loop over the rows, from index `idx` on.
unfoldable pub fetch_from :
    Services → SequenceSet → List FetchItem → Bool → ℕ → ℕ → List Message → Outcome Text
unfolding in_set all_pairs
fetch_from sv sequence items uid_mode top idx [] = parsed []
fetch_from sv sequence items uid_mode top idx (m ∷ ms) =
    let rest = fetch_from sv sequence items uid_mode top (idx + 1) ms in
    if not (in_set sequence uid_mode top idx m)
    then rest
    else all_pairs sv m items >>= λ p. rest >>= λ r. parsed (fetch (seq_at idx) p ++ r)

unfoldable pub fetch_response : Text → Outcome Text → Option Text
fetch_response tag (parsed lines) = some (lines ++ ok tag (lit "FETCH completed"))
fetch_response tag _ = none

unfoldable pub handle_fetch : Services → Text → SequenceSet → List FetchItem → Bool → Imap → Handled
unfolding with_selected fetch_from fetch_response mailbox_rows
handle_fetch sv tag sequence items uid_mode st =
    with_selected tag
      (λ s.
        let messages = mailbox_rows sv s.id st.table in
        (
          fetch_response tag (fetch_from sv sequence items uid_mode (max_seq messages) 0 messages),
          st,
        ))
      st

-- `to_lowercase`, `contains`.
unfoldable pub matches_text : Services → Text → Option Text → Bool
unfolding to_lowercase has_text
matches_text sv s none = false
matches_text sv s (some t) = has_text (to_lowercase sv.wide_lower s) (to_lowercase sv.wide_lower t)

unfoldable pub matches_any : Services → Text → List (Option Text) → Bool
unfolding matches_text
matches_any sv s [] = false
matches_any sv s (a ∷ addresses) = matches_text sv s a || matches_any sv s addresses

unfoldable pub matches_array : Services → Text → Option (List (Option Text)) → Bool
unfolding matches_any
matches_array sv s none = false
matches_array sv s (some addresses) = matches_any sv s addresses

unfoldable mutual
  unfolding matches_text matches_array

  pub matches_criteria : Services → Message → SearchCriteria → Bool
  matches_criteria sv m all_key = true
  matches_criteria sv m answered_key = m.answered
  matches_criteria sv m deleted_key = m.deleted
  matches_criteria sv m draft_key = m.draft
  matches_criteria sv m flagged_key = m.flagged
  matches_criteria sv m seen_key = m.seen
  matches_criteria sv m unanswered_key = not m.answered
  matches_criteria sv m undeleted_key = not m.deleted
  matches_criteria sv m undraft_key = not m.draft
  matches_criteria sv m unflagged_key = not m.flagged
  matches_criteria sv m unseen_key = not m.seen
  matches_criteria sv m new_key = not m.seen
  matches_criteria sv m old_key = m.seen
  matches_criteria sv m recent_key = is_recent sv.now m
  matches_criteria sv m (from_key s) = matches_text sv s m.from_address
  matches_criteria sv m (to_key s) = matches_array sv s m.to_addresses
  matches_criteria sv m (subject_key s) = matches_text sv s m.subject
  matches_criteria sv m (body_key s) = matches_text sv s m.body_preview
  matches_criteria sv m (text_key s) = matches_text sv s m.body_preview
  matches_criteria sv m (larger_key size) = ltb size m.body_size
  matches_criteria sv m (smaller_key size) = ltb m.body_size size
  matches_criteria sv m (not_key c) = not (matches_criteria sv m c)
  matches_criteria sv m (and_key cs) = matches_all sv m cs
  matches_criteria sv m (or_key a b) = matches_criteria sv m a || matches_criteria sv m b
  matches_criteria sv m _ = true

  pub matches_all : Services → Message → Criteria → Bool
  matches_all sv m no_criteria = true
  matches_all sv m (more_criteria c cs) = matches_criteria sv m c && matches_all sv m cs

unfoldable pub search_from : Services → SearchCriteria → Bool → ℕ → List Message → List ℕ
unfolding matches_criteria
search_from sv criteria uid_mode idx [] = []
search_from sv criteria uid_mode idx (m ∷ ms) =
    let rest = search_from sv criteria uid_mode (idx + 1) ms in
    if matches_criteria sv m criteria
    then (if uid_mode then message_id_to_uid m.id else seq_at idx) ∷ rest
    else rest

unfoldable pub handle_search : Services → Text → SearchCriteria → Bool → Imap → Handled
unfolding with_selected search_from mailbox_rows
handle_search sv tag criteria uid_mode st =
    with_selected tag
      (λ s.
        say
          (search (search_from sv criteria uid_mode 0 (mailbox_rows sv s.id st.table))
            ++ ok tag (lit "SEARCH completed"))
          st)
      st
