-- ===== src/Imap/Stored.antt =====
-- STORE changes flags as its three operations are described.
use mai_rust.Common.{
  ◌≡◌, refl, sym, subst, Bool, Bool-cases, inl, inr, true, false, not, ◌&&◌, ◌||◌, List, [], ◌∷◌,
  if◌then◌else◌,
}
use mai_rust.Common.Text.{Text, lit, eq_text, eq_text_sound}
use mai_rust.Imap.Types.{
  StoreOperation, replace_flags, add_flags, remove_flags, StoreFlags, Message,
}
use mai_rust.Imap.Flags.{
  Flags, flags_of, is_replace, value_of, lists_flag, new_value, apply_flag, apply_flags,
  reset_unlisted, apply_flag_changes,
}

-- What an operation makes of a flag: FLAGS sets it if it is listed and clears it if not, +FLAGS
-- sets and -FLAGS clears it if it is listed.
unfoldable pub wanted : StoreOperation → Bool → Bool → Bool
wanted replace_flags listed old = listed
wanted add_flags listed old = old || listed
wanted remove_flags listed old = old && not listed

other_name : (t a b : Text) → eq_text a b ≡ false → eq_text t a ≡ true → eq_text t b ≡ false
other_name t a b h e = subst (λ x. eq_text x b ≡ false) (sym (eq_text_sound t a e)) h

-- The names of the flags differ.
abbrev Lacks : Text → Text → Type 0
Lacks t name = eq_text t name ≡ false

not_seen :
    (t : Text)
    → eq_text t (lit "\\SEEN") ≡ true
    → Lacks t (lit "\\ANSWERED")
      × Lacks t (lit "\\FLAGGED")
      × Lacks t (lit "\\DELETED")
      × Lacks t (lit "\\DRAFT")
not_seen t h = (
  other_name t (lit "\\SEEN") (lit "\\ANSWERED") (unfold lit eq_text in refl) h,
  other_name t (lit "\\SEEN") (lit "\\FLAGGED") (unfold lit eq_text in refl) h,
  other_name t (lit "\\SEEN") (lit "\\DELETED") (unfold lit eq_text in refl) h,
  other_name t (lit "\\SEEN") (lit "\\DRAFT") (unfold lit eq_text in refl) h,
)

not_answered :
    (t : Text)
    → eq_text t (lit "\\ANSWERED") ≡ true
    → Lacks t (lit "\\FLAGGED") × Lacks t (lit "\\DELETED") × Lacks t (lit "\\DRAFT")
not_answered t h = (
  other_name t (lit "\\ANSWERED") (lit "\\FLAGGED") (unfold lit eq_text in refl) h,
  other_name t (lit "\\ANSWERED") (lit "\\DELETED") (unfold lit eq_text in refl) h,
  other_name t (lit "\\ANSWERED") (lit "\\DRAFT") (unfold lit eq_text in refl) h,
)

not_flagged :
    (t : Text)
    → eq_text t (lit "\\FLAGGED") ≡ true
    → Lacks t (lit "\\DELETED") × Lacks t (lit "\\DRAFT")
not_flagged t h = (
  other_name t (lit "\\FLAGGED") (lit "\\DELETED") (unfold lit eq_text in refl) h,
  other_name t (lit "\\FLAGGED") (lit "\\DRAFT") (unfold lit eq_text in refl) h,
)

not_deleted : (t : Text) → eq_text t (lit "\\DELETED") ≡ true → Lacks t (lit "\\DRAFT")
not_deleted t h = other_name t (lit "\\DELETED") (lit "\\DRAFT") (unfold lit eq_text in refl) h

pick-or : (a b x y : Bool) → (if b then x else if a then x else y) ≡ (if a || b then x else y)
pick-or true true x y = refl
pick-or true false x y = refl
pick-or false true x y = refl
pick-or false false x y = refl

module _ (upper : Text → Text) (fl : StoreFlags) where
  -- The five variables, each set to its new value if its test holds.
  abbrev picked : Bool → Bool → Bool → Bool → Bool → Flags → Flags
  picked a b c d e v = record {
    seen = if a then new_value upper fl (lit "\\SEEN") else v.seen;
    answered = if b then new_value upper fl (lit "\\ANSWERED") else v.answered;
    flagged = if c then new_value upper fl (lit "\\FLAGGED") else v.flagged;
    deleted = if d then new_value upper fl (lit "\\DELETED") else v.deleted;
    draft = if e then new_value upper fl (lit "\\DRAFT") else v.draft;
  }

  abbrev named : Text → Text → Bool
  named f name = eq_text (upper f) name

  apply_flag-picked :
      (f : Text) (v : Flags)
      → apply_flag upper fl f v
        ≡ picked
            (named f (lit "\\SEEN"))
            (named f (lit "\\ANSWERED"))
            (named f (lit "\\FLAGGED"))
            (named f (lit "\\DELETED"))
            (named f (lit "\\DRAFT"))
            v
  unfolding apply_flag
  apply_flag-picked f v = elim (Bool-cases (named f (lit "\\SEEN"))) [
    | inl h ↦ let x = not_seen (upper f) h in simp (h, x.0, x.1, x.2, x.3) refl
    | inr n1 ↦ elim (Bool-cases (named f (lit "\\ANSWERED"))) [
      | inl h ↦ let x = not_answered (upper f) h in simp (n1, h, x.0, x.1, x.2) refl
      | inr n2 ↦ elim (Bool-cases (named f (lit "\\FLAGGED"))) [
        | inl h ↦ let x = not_flagged (upper f) h in simp (n1, n2, h, x.0, x.1) refl
        | inr n3 ↦ elim (Bool-cases (named f (lit "\\DELETED"))) [
          | inl h ↦ let x = not_deleted (upper f) h in simp (n1, n2, n3, h, x) refl
          | inr n4 ↦ elim (Bool-cases (named f (lit "\\DRAFT"))) [
            | inl h ↦ simp (n1, n2, n3, n4, h) refl
            | inr n ↦ simp (n1, n2, n3, n4, n) refl
          ]
        ]
      ]
    ]
  ]

  apply_flags-picked :
      (fs : List Text) (v : Flags)
      → apply_flags upper fl fs v
        ≡ picked
            (lists_flag upper (lit "\\SEEN") fs)
            (lists_flag upper (lit "\\ANSWERED") fs)
            (lists_flag upper (lit "\\FLAGGED") fs)
            (lists_flag upper (lit "\\DELETED") fs)
            (lists_flag upper (lit "\\DRAFT") fs)
            v
  unfolding apply_flags lists_flag
  apply_flags-picked [] v = refl
  apply_flags-picked (f ∷ fs) v = simp (apply_flag-picked f v, apply_flags-picked fs, pick-or) refl

pick_same : (b x : Bool) → (if b then (if b then b else x) else false) ≡ b
pick_same true x = refl
pick_same false x = refl

pick_true : (b x : Bool) → (if b then true else x) ≡ (x || b)
pick_true true true = refl
pick_true true false = refl
pick_true false true = refl
pick_true false false = refl

pick_false : (b x : Bool) → (if b then false else x) ≡ (x && not b)
pick_false true true = refl
pick_false true false = refl
pick_false false true = refl
pick_false false false = refl

by_operation :
    (upper : Text → Text) (m : Message) (fl : StoreFlags) (op : StoreOperation)
    → fl.operation ≡ op
    → apply_flag_changes upper m fl ≡ record {
      seen = wanted op (lists_flag upper (lit "\\SEEN") fl.flags) m.seen;
      answered = wanted op (lists_flag upper (lit "\\ANSWERED") fl.flags) m.answered;
      flagged = wanted op (lists_flag upper (lit "\\FLAGGED") fl.flags) m.flagged;
      deleted = wanted op (lists_flag upper (lit "\\DELETED") fl.flags) m.deleted;
      draft = wanted op (lists_flag upper (lit "\\DRAFT") fl.flags) m.draft;
    }
unfolding apply_flag_changes new_value is_replace value_of reset_unlisted wanted
by_operation upper m fl replace_flags e =
    simp (e, apply_flags-picked upper fl fl.flags (flags_of m), pick_same) refl
by_operation upper m fl add_flags e =
    simp (e, apply_flags-picked upper fl fl.flags (flags_of m), pick_true) refl
by_operation upper m fl remove_flags e =
    simp (e, apply_flags-picked upper fl fl.flags (flags_of m), pick_false) refl

-- The flags that STORE writes are, for each of the five, what its operation makes of the flag's
-- old value: FLAGS sets exactly the listed flags, +FLAGS adds them and -FLAGS removes them, in
-- whatever order, case and number the list names them.
pub apply_flag_changes-wanted :
    (upper : Text → Text) (m : Message) (fl : StoreFlags)
    → apply_flag_changes upper m fl ≡ record {
      seen = wanted fl.operation (lists_flag upper (lit "\\SEEN") fl.flags) m.seen;
      answered = wanted fl.operation (lists_flag upper (lit "\\ANSWERED") fl.flags) m.answered;
      flagged = wanted fl.operation (lists_flag upper (lit "\\FLAGGED") fl.flags) m.flagged;
      deleted = wanted fl.operation (lists_flag upper (lit "\\DELETED") fl.flags) m.deleted;
      draft = wanted fl.operation (lists_flag upper (lit "\\DRAFT") fl.flags) m.draft;
    }
apply_flag_changes-wanted upper m fl = by_operation upper m fl fl.operation refl
