-- ===== src/Imap/Ownership.antt =====
-- An IMAP connection leaves alone the mail of users that it does not log in as: the operations on
-- the tables.
use mai_rust.Common.{
  ℕ, ◌+◌, ◌≡◌, refl, ap, ◌∙◌, Bool, Bool-cases, inl, inr, true, false, not, List, [], ◌∷◌, ◌++◌,
  All, All-append, map, keep, if◌then◌else◌, ◌==◌, arith,
}
use mai_rust.Imap.Types.{SequenceSet, StoreFlags, Message, Services}
use mai_rust.Imap.Rows.{in_set}
use mai_rust.Imap.Flags.{update_flags, store_from}
use mai_rust.Imap.Moves.{copied, copy_rows, copy_from, move_rows, move_from, expunge_from}

module _ (x : ℕ) where
  abbrev pub IsOther : Message → Type 0
  IsOther r = (r.id == x) ≡ false

  -- The rows that carry the identifier `x`.
  abbrev pub rows_of : List Message → List Message
  rows_of t = keep (λ r. r.id == x) t

  rows_of-append : (t u : List Message) → All IsOther u → rows_of (t ++ u) ≡ rows_of t
  rows_of-append [] [] h = refl
  rows_of-append [] (r ∷ u) (k, h) = rw k (rows_of-append [] u h)
  rows_of-append (r ∷ t) u h = elim (Bool-cases (r.id == x)) [
    | inl same ↦ simp same (ap (λ l. r ∷ l) (rows_of-append t u h))
    | inr other ↦ simp other (rows_of-append t u h)
  ]

  module _ (mine : ℕ → Bool) where
    -- A row with the identifier stands in one of the mailboxes.
    abbrev pub IsMine : Message → Type 0
    IsMine r = (r.id == x) ≡ true → mine r.mailbox_id ≡ true

    other_IsMine : (r : Message) → IsOther r → IsMine r
    other_IsMine r h k = cc

    others_IsMine : (t : List Message) → All IsOther t → All IsMine t
    others_IsMine [] h = tt
    others_IsMine (r ∷ t) (k, h) = (other_IsMine r k, others_IsMine t h)

    -- The table has the same rows with the identifier as `t0`, all in those mailboxes.
    pub record IsSpared (t0 t : List Message) : Type 0 where
      pub theirs : All IsMine t
      pub same : rows_of t ≡ rows_of t0

    pub append-IsSpared :
        (t0 t u : List Message) → All IsOther u → IsSpared t0 t → IsSpared t0 (t ++ u)
    append-IsSpared t0 t u h s = record {
      theirs = All-append IsMine t u s.theirs (others_IsMine u h);
      same = rows_of-append t u h ∙ s.same;
    }

    pub keep_theirs : (p : Message → Bool) (t : List Message) → All IsMine t → All IsMine (keep p t)
    keep_theirs p [] h = tt
    keep_theirs p (r ∷ t) (k, h) = elim (Bool-cases (p r)) [
      | inl kept ↦ simp kept (k, keep_theirs p t h)
      | inr left ↦ simp left (keep_theirs p t h)
    ]

    pub rows_of-keep :
        (p : Message → Bool) (t : List Message)
        → All (λ r. (r.id == x) ≡ true → p r ≡ true) t
        → rows_of (keep p t) ≡ rows_of t
    rows_of-keep p [] h = refl
    rows_of-keep p (r ∷ t) (k, h) = elim (Bool-cases (r.id == x)) [
      | inl same ↦ simp (same, k same) (ap (λ l. r ∷ l) (rows_of-keep p t h))
      | inr other ↦ elim (Bool-cases (p r)) [
        | inl kept ↦ simp (other, kept) (rows_of-keep p t h)
        | inr left ↦ simp (other, left) (rows_of-keep p t h)
      ]
    ]

    -- A row with another identifier is deleted.
    pub delete-IsSpared :
        (t0 t : List Message) (id : ℕ)
        → (id == x) ≡ false
        → IsSpared t0 t
        → IsSpared t0 (keep (λ r. not (r.id == id)) t)
    delete-IsSpared t0 t id h s = record {
      theirs = keep_theirs _ t s.theirs;
      same = rows_of-keep (λ r. not (r.id == id)) t (spared t) ∙ s.same;
    }
      where
        spared : (t : List Message) → All (λ r. (r.id == x) ≡ true → not (r.id == id) ≡ true) t
        spared [] = tt
        spared (r ∷ t) = ((λ e. ground arith), spared t)

    -- Rows with another identifier are changed, but for that.
    change-IsSpared :
        (t0 t : List Message) (id : ℕ) (f : Message → Message)
        → ((r : Message) → (f r).id ≡ r.id)
        → (id == x) ≡ false
        → IsSpared t0 t
        → IsSpared t0 (map (λ r. if r.id == id then f r else r) t)
    change-IsSpared t0 t id f e h s = record { theirs = theirs t s.theirs; same = same t ∙ s.same }
      where
        hit_other : (r : Message) → (r.id == id) ≡ true → (r.id == x) ≡ false
        hit_other r hit = ground arith

        changed_other : (r : Message) → (r.id == id) ≡ true → ((f r).id == x) ≡ false
        changed_other r hit = ap (λ n. n == x) (e r) ∙ hit_other r hit

        theirs :
            (t : List Message)
            → All IsMine t
            → All IsMine (map (λ r. if r.id == id then f r else r) t)
        theirs [] k = tt
        theirs (r ∷ t) (m, k) = elim (Bool-cases (r.id == id)) [
          | inl hit ↦ simp hit (other_IsMine (f r) (changed_other r hit), theirs t k)
          | inr miss ↦ simp miss (m, theirs t k)
        ]

        same : (t : List Message) → rows_of (map (λ r. if r.id == id then f r else r) t) ≡ rows_of t
        same [] = refl
        same (r ∷ t) = elim (Bool-cases (r.id == id)) [
          | inl hit ↦ simp (hit, changed_other r hit, hit_other r hit) (same t)
          | inr miss ↦ elim (Bool-cases (r.id == x)) [
            | inl here ↦ simp (miss, here) (ap (λ l. r ∷ l) (same t))
            | inr there ↦ simp (miss, there) (same t)
          ]
        ]

    -- The loops change, delete, move and copy rows with other identifiers only.
    pub store_from-IsSpared :
        (sv : Services) (sequence : SequenceSet) (fl : StoreFlags) (uid_mode : Bool) (top idx : ℕ)
        (t0 ms t : List Message)
        → All IsOther ms
        → IsSpared t0 t
        → IsSpared t0 (store_from sv sequence fl uid_mode top idx ms t).1
    unfolding store_from update_flags
    store_from-IsSpared sv sequence fl uid_mode top idx t0 [] t h s = s
    store_from-IsSpared sv sequence fl uid_mode top idx t0 (m ∷ ms) t (k, h) s =
        elim (Bool-cases (in_set sequence uid_mode top idx m)) [
          | inr out ↦
              simp out (store_from-IsSpared sv sequence fl uid_mode top (idx + 1) t0 ms t h s)
          | inl named ↦ elim (Bool-cases (sv.can_write m.id)) [
            | inr failed ↦
                simp (named, failed)
                  (store_from-IsSpared sv sequence fl uid_mode top (idx + 1) t0 ms t h s)
            | inl written ↦
                simp (named, written)
                  (store_from-IsSpared sv sequence fl uid_mode top (idx + 1) t0 ms _ h
                    (change-IsSpared t0 t m.id _ (λ r. refl) k s))
          ]
        ]

    pub expunge_from-IsSpared :
        (sv : Services) (idx offset : ℕ) (t0 ms t : List Message)
        → All IsOther ms
        → IsSpared t0 t
        → IsSpared t0 (expunge_from sv idx offset ms t).1
    unfolding expunge_from
    expunge_from-IsSpared sv idx offset t0 [] t h s = s
    expunge_from-IsSpared sv idx offset t0 (m ∷ ms) t (k, h) s = elim (Bool-cases m.deleted) [
      | inr there ↦ simp there (expunge_from-IsSpared sv (idx + 1) offset t0 ms t h s)
      | inl gone ↦ elim (Bool-cases (sv.can_write m.id)) [
        | inr failed ↦
            simp (gone, failed) (expunge_from-IsSpared sv (idx + 1) (offset + 1) t0 ms t h s)
        | inl written ↦
            simp (gone, written)
              (expunge_from-IsSpared sv (idx + 1) (offset + 1) t0 ms _ h
                (delete-IsSpared t0 t m.id k s))
      ]
    ]

    pub move_from-IsSpared :
        (sv : Services) (sequence : SequenceSet) (uid_mode : Bool) (dest top idx : ℕ)
        (t0 ms t : List Message)
        → All IsOther ms
        → IsSpared t0 t
        → IsSpared t0 (move_from sv sequence uid_mode dest top idx ms t).1
    unfolding move_from move_rows
    move_from-IsSpared sv sequence uid_mode dest top idx t0 [] t h s = s
    move_from-IsSpared sv sequence uid_mode dest top idx t0 (m ∷ ms) t (k, h) s =
        elim (Bool-cases (in_set sequence uid_mode top idx m)) [
          | inr out ↦
              simp out (move_from-IsSpared sv sequence uid_mode dest top (idx + 1) t0 ms t h s)
          | inl named ↦ elim (Bool-cases (sv.can_write m.id)) [
            | inr failed ↦
                simp (named, failed)
                  (move_from-IsSpared sv sequence uid_mode dest top (idx + 1) t0 ms t h s)
            | inl written ↦
                simp (named, written)
                  (move_from-IsSpared sv sequence uid_mode dest top (idx + 1) t0 ms _ h
                    (change-IsSpared t0 t m.id _ (λ r. refl) k s))
          ]
        ]

    copied-IsOther :
        (now new_id dest : ℕ) (t : List Message)
        → (new_id == x) ≡ false
        → All IsOther (map (copied now new_id dest) t)
    unfolding copied
    copied-IsOther now new_id dest [] h = tt
    copied-IsOther now new_id dest (r ∷ t) h = (h, copied-IsOther now new_id dest t h)

    pub copy_from-IsSpared :
        (sv : Services) (sequence : SequenceSet) (uid_mode : Bool) (dest top idx : ℕ)
        (t0 ms t : List Message) (drawn : ℕ)
        → ((n : ℕ) → (sv.new_v4 n == x) ≡ false)
        → IsSpared t0 t
        → IsSpared t0 (copy_from sv sequence uid_mode dest top idx ms t drawn).1.0
    unfolding copy_from copy_rows
    copy_from-IsSpared sv sequence uid_mode dest top idx t0 [] t drawn fresh s = s
    copy_from-IsSpared sv sequence uid_mode dest top idx t0 (m ∷ ms) t drawn fresh s =
        elim (Bool-cases (in_set sequence uid_mode top idx m)) [
          | inr out ↦
              simp out
                (copy_from-IsSpared sv sequence uid_mode dest top (idx + 1) t0 ms t drawn fresh s)
          | inl named ↦ elim (Bool-cases (sv.can_write (sv.new_v4 drawn))) [
            | inr failed ↦
                simp (named, failed)
                  (copy_from-IsSpared sv sequence uid_mode dest top (idx + 1) t0 ms t (drawn + 1)
                    fresh s)
            | inl written ↦
                simp (named, written)
                  (copy_from-IsSpared sv sequence uid_mode dest top (idx + 1) t0 ms _ (drawn + 1)
                    fresh
                    (append-IsSpared t0 t _
                      (copied-IsOther sv.now (sv.new_v4 drawn) dest _ (fresh drawn)) s))
          ]
        ]
