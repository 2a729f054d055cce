-- ===== src/Imap/Items.antt =====
-- `FetchItem::parse` and `parse_list` (imap/command.rs). The depth of brackets is an i32, which no
-- line of fewer than 2^31 brackets leaves; it is kept as the two counts whose difference it is.
use mai_rust.Common.{
  ℕ, ◌+◌, ◌++◌, Option, none, some, List, [], ◌∷◌, length, drop, if◌then◌else◌, ◌==◌,
}
use mai_rust.Common.Text.{Text, lit, eq_text, trim, starts_with, is_empty, to_uppercase}
use mai_rust.Imap.Types.{
  FetchItem, flags_item, internal_date_item, rfc822_size_item, envelope_item, body_structure_item,
  body_item, uid_item, all_item, fast_item, full_item, body_section_item, body_peek_item,
}

-- `strip_suffix` of one character.
unfoldable pub strip_last : ℕ → Text → Option Text
strip_last x [] = none
strip_last x (c ∷ []) = if c == x then some [] else none
strip_last x (c ∷ d ∷ s) = elim (strip_last x (d ∷ s)) [ none ↦ none | some t ↦ some (c ∷ t) ]

unfoldable pub section_of : (Text → FetchItem) → Option Text → Option FetchItem
section_of item none = none
section_of item (some section) = some (item section)

unfoldable pub item_of : Text → Option FetchItem
unfolding strip_last section_of
item_of s =
    if eq_text s (lit "FLAGS")
    then some flags_item
    else if eq_text s (lit "INTERNALDATE")
    then some internal_date_item
    else if eq_text s (lit "RFC822.SIZE")
    then some rfc822_size_item
    else if eq_text s (lit "ENVELOPE")
    then some envelope_item
    else if eq_text s (lit "BODYSTRUCTURE")
    then some body_structure_item
    else if eq_text s (lit "BODY")
    then some body_item
    else if eq_text s (lit "UID")
    then some uid_item
    else if eq_text s (lit "ALL")
    then some all_item
    else if eq_text s (lit "FAST")
    then some fast_item
    else if eq_text s (lit "FULL")
    then some full_item
    else if starts_with s (lit "BODY.PEEK[")
    then section_of body_peek_item (strip_last b']' (drop (length (lit "BODY.PEEK[")) s))
    else if starts_with s (lit "BODY[")
    then section_of body_section_item (strip_last b']' (drop (length (lit "BODY[")) s))
    else none

unfoldable pub parse : (ℕ → Text) → Text → Option FetchItem
unfolding item_of
parse wide s = item_of (to_uppercase wide (trim s))

abbrev pub to_list {ℓ} : {A : Type ℓ} → Option A → List A
to_list none = []
to_list (some a) = a ∷ []

-- What a finished piece adds: nothing when it is empty or no item.
unfoldable pub item_at_end : (ℕ → Text) → Text → List FetchItem
unfolding parse
item_at_end wide current = if is_empty current then [] else to_list (parse wide current)

-- The loop over the characters; `opened` and `closed` count the brackets met.
unfoldable pub items_from : (ℕ → Text) → ℕ → ℕ → Text → Text → List FetchItem
unfolding item_at_end
items_from wide opened closed current [] = item_at_end wide current
items_from wide opened closed current (c ∷ s) =
    let open_next = items_from wide (opened + 1) closed (current ++ c ∷ []) s in
    let close_next = items_from wide opened (closed + 1) (current ++ c ∷ []) s in
    let split_next = items_from wide opened closed [] s in
    let grow_next = items_from wide opened closed (current ++ c ∷ []) s in
    if c == b'['
    then open_next
    else if c == b']'
    then close_next
    else if c == b' '
    then (if opened == closed then item_at_end wide current ++ split_next else grow_next)
    else grow_next

unfoldable pub list_content : Text → Option Text → Text
list_content s none = s
list_content s (some t) = t

unfoldable pub parse_list : (ℕ → Text) → Text → List FetchItem
unfolding parse items_from list_content strip_last
parse_list wide s =
    let t = trim s in
    if starts_with t (lit "(")
    then items_from wide 0 0 [] (list_content t (strip_last b')' (drop 1 t)))
    else to_list (parse wide t)
