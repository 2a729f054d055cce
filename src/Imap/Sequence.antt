-- ===== src/Imap/Sequence.antt =====
-- `SequenceSet` (imap/command.rs): its parser, and which numbers a set contains.
use mai_rust.Common.{
  ℕ, ◌-◌, Bool, true, false, ◌&&◌, ◌||◌, Option, none, some, List, [], ◌∷◌, if◌then◌else◌, ◌==◌,
  leb,
}
use mai_rust.Common.Text.{Text, eq_text, trim, split_once}
use mai_rust.Common.Decimal.{parse_u32, u32_limit}
use mai_rust.Imap.Types.{
  SequenceSet, single, range, all_messages, multiple, SequenceSets, no_sets, more_sets,
}

abbrev pub u32_max : ℕ
u32_max = u32_limit - 1

abbrev pub star : Text
star = b'*' ∷ []

-- `contains` of a character.
unfoldable pub has_char : ℕ → Text → Bool
has_char x [] = false
has_char x (c ∷ s) = c == x || has_char x s

-- `split`: the parts between the separators.
unfoldable pub split_on : ℕ → Text → List Text
split_on sep [] = [] ∷ []
split_on sep (c ∷ s) = elim (split_on sep s) [
  | [] ↦ [] ∷ []
  | part ∷ parts ↦ if c == sep then [] ∷ part ∷ parts else (c ∷ part) ∷ parts
]

-- One end of a range.
unfoldable pub bound : Text → Option ℕ
bound s = if eq_text s star then some u32_max else parse_u32 s

unfoldable pub range_of : Option ℕ → Option ℕ → Option SequenceSet
range_of none _ = none
range_of (some a) none = none
range_of (some a) (some b) = some (range a b)

unfoldable pub range_parts : Text × Option Text → Option SequenceSet
unfolding bound range_of
range_parts (start, none) = none
range_parts (start, some end) = range_of (bound start) (bound end)

unfoldable pub single_of : Option ℕ → Option SequenceSet
single_of none = none
single_of (some n) = some (single n)

-- `parse` of a text without a comma.
unfoldable pub parse_part : Text → Option SequenceSet
unfolding range_parts single_of has_char
parse_part s =
    if eq_text s star
    then some all_messages
    else if has_char b':' s
    then range_parts (split_once b':' s)
    else single_of (parse_u32 s)

unfoldable pub keep_set : Option SequenceSet → SequenceSets → SequenceSets
keep_set none sets = sets
keep_set (some s) sets = more_sets s sets

-- The `filter_map` over the parts, none of which has a comma.
unfoldable pub parse_parts : List Text → SequenceSets
unfolding parse_part keep_set
parse_parts [] = no_sets
parse_parts (p ∷ ps) = keep_set (parse_part (trim p)) (parse_parts ps)

unfoldable pub multiple_of : SequenceSets → Option SequenceSet
multiple_of no_sets = none
multiple_of (more_sets s sets) = some (multiple (more_sets s sets))

unfoldable pub parse : Text → Option SequenceSet
unfolding parse_part parse_parts multiple_of split_on has_char
parse s =
    if eq_text s star
    then some all_messages
    else if has_char b',' s
    then multiple_of (parse_parts (split_on b',' s))
    else parse_part s

-- A bound, where the greatest number stands for `*`.
unfoldable pub actual : ℕ → ℕ → ℕ
actual n top = if n == u32_max then top else n

unfoldable mutual
  unfolding actual

  pub contains : SequenceSet → ℕ → ℕ → Bool
  contains (single n) seq top = if n == u32_max then seq == top else seq == n
  contains (range start end) seq top = leb (actual start top) seq && leb seq (actual end top)
  contains all_messages seq top = true
  contains (multiple sets) seq top = any_contains sets seq top

  pub any_contains : SequenceSets → ℕ → ℕ → Bool
  any_contains no_sets seq top = false
  any_contains (more_sets s sets) seq top = contains s seq top || any_contains sets seq top
