-- ===== src/Imap/SearchKeys.antt =====
-- `parse_search_criteria` (imap/parser.rs).
use mai_rust.Common.{ℕ, zero, suc, Option, none, some, length, if◌then◌else◌}
use mai_rust.Common.Text.{Text, lit, eq_text, is_empty, trim, split_once, to_uppercase}
use mai_rust.Common.Decimal.{parse_u32}
use mai_rust.Smtp.Parse.{get_or_empty}
use mai_rust.Imap.Types.{
  SearchCriteria, all_key, answered_key, deleted_key, draft_key, flagged_key, new_key, old_key,
  recent_key, seen_key, unanswered_key, undeleted_key, undraft_key, unflagged_key, unseen_key,
  bcc_key, before_key, body_key, cc_key, from_key, on_key, since_key, subject_key, text_key, to_key,
  larger_key, smaller_key, not_key, uid_key, sequence_key, SequenceSet,
}
use mai_rust.Imap.Outcome.{Outcome, parsed, refused, ◌>>=◌, require}
use mai_rust.Imap.Words.{parse_astring}
use mai_rust.Imap.Sequence.{parse}

-- The keys without an argument.
unfoldable pub simple_key : Text → Option SearchCriteria
simple_key s =
    if eq_text s (lit "ALL")
    then some all_key
    else if eq_text s (lit "ANSWERED")
    then some answered_key
    else if eq_text s (lit "DELETED")
    then some deleted_key
    else if eq_text s (lit "DRAFT")
    then some draft_key
    else if eq_text s (lit "FLAGGED")
    then some flagged_key
    else if eq_text s (lit "NEW")
    then some new_key
    else if eq_text s (lit "OLD")
    then some old_key
    else if eq_text s (lit "RECENT")
    then some recent_key
    else if eq_text s (lit "SEEN")
    then some seen_key
    else if eq_text s (lit "UNANSWERED")
    then some unanswered_key
    else if eq_text s (lit "UNDELETED")
    then some undeleted_key
    else if eq_text s (lit "UNDRAFT")
    then some undraft_key
    else if eq_text s (lit "UNFLAGGED")
    then some unflagged_key
    else if eq_text s (lit "UNSEEN")
    then some unseen_key
    else none

unfoldable pub text_argument : (Text → SearchCriteria) → Text → Outcome SearchCriteria
unfolding parse_astring
text_argument key value = parse_astring value >>= λ e. parsed (key e.0)

unfoldable pub size_argument : (ℕ → SearchCriteria) → Text → Outcome SearchCriteria
size_argument key value = require (parse_u32 value) >>= λ n. parsed (key n)

unfoldable pub sequence_or_all : Option SequenceSet → SearchCriteria
sequence_or_all none = all_key
sequence_or_all (some sequence) = sequence_key sequence

-- The keys with an argument other than NOT.
unfoldable pub argument_key : Text → Text → Outcome SearchCriteria
unfolding text_argument size_argument sequence_or_all parse
argument_key key value =
    if eq_text key (lit "BCC")
    then text_argument bcc_key value
    else if eq_text key (lit "BEFORE")
    then parsed (before_key value)
    else if eq_text key (lit "BODY")
    then text_argument body_key value
    else if eq_text key (lit "CC")
    then text_argument cc_key value
    else if eq_text key (lit "FROM")
    then text_argument from_key value
    else if eq_text key (lit "LARGER")
    then size_argument larger_key value
    else if eq_text key (lit "ON")
    then parsed (on_key value)
    else if eq_text key (lit "SINCE")
    then parsed (since_key value)
    else if eq_text key (lit "SMALLER")
    then size_argument smaller_key value
    else if eq_text key (lit "SUBJECT")
    then text_argument subject_key value
    else if eq_text key (lit "TEXT")
    then text_argument text_key value
    else if eq_text key (lit "TO")
    then text_argument to_key value
    else if eq_text key (lit "UID")
    then require (parse value) >>= (λ q. parsed (uid_key q))
    else parsed (sequence_or_all (parse key))

-- The outcome of the value of NOT, if it has one.
unfoldable pub negated : Option (Outcome SearchCriteria) → Option (Outcome SearchCriteria)
negated none = none
negated (some inner) = some (inner >>= λ c. parsed (not_key c))

-- The match on the key; `inner` is what the value itself is parsed to.
unfoldable pub choose_key :
    Option SearchCriteria
    → Text
    → Text
    → Option (Outcome SearchCriteria)
    → Option (Outcome SearchCriteria)
unfolding argument_key negated
choose_key (some simple) key value inner = some (parsed simple)
choose_key none key value inner =
    if eq_text key (lit "NOT") then negated inner else some (argument_key key value)

-- The outcome, or `none` if the fuel runs out.
unfoldable pub parse_criteria : (ℕ → Text) → ℕ → Text → Option (Outcome SearchCriteria)
unfolding simple_key choose_key
parse_criteria wide zero args = none
parse_criteria wide (suc fuel) args =
    let t = trim args in
    let (key, behind) = split_once b' ' t in
    let value = get_or_empty behind in
    let inner = parse_criteria wide fuel value in
    if is_empty t
    then some (parsed all_key)
    else choose_key (simple_key (to_uppercase wide t)) (to_uppercase wide key) value inner

unfoldable pub or_refused : Option (Outcome SearchCriteria) → Outcome SearchCriteria
or_refused none = refused
or_refused (some o) = o

-- Fuel above the length, which never runs out: the value of NOT is shorter.
unfoldable pub parse_search_criteria : (ℕ → Text) → Text → Outcome SearchCriteria
unfolding parse_criteria or_refused
parse_search_criteria wide args = or_refused (parse_criteria wide (suc (length args)) args)
