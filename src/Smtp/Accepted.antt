-- ===== src/Smtp/Accepted.antt =====
-- What an accepted message means for its recipients, and how many of them one message can reach.
use mai_rust.Common.{
  ℕ, ◌+◌, ◌≤◌, ◌++◌, ◌≡◌, ◌⊎◌, refl, sym, subst, ◌∙◌, ap, Bool, inl, inr, true, false, ◌&&◌, ◌||◌,
  Option, none, some, List, [], ◌∷◌, arith, All, length, length-append, ◌==◌,
}
use mai_rust.Common.Text.{Text, Bytes}
use mai_rust.Common.Results.{Result, ok, err, Result-cases}
use mai_rust.Smtp.Types.{Services, EmailAddress, Envelope, MailStore, Message, ParsedMail, Mailbox}
use mai_rust.Smtp.Parse.{address_to_string}
use mai_rust.Smtp.Delivery.{
  Saved, has_id, create_message, store_file, store_for, message_row, deliver_found, deliver_one,
  deliver_all, with_id, deliver_parsed, process_message,
}
use mai_rust.Smtp.Stored.{with_file, deliver_all_keeps, process_message_keeps}

-- A row with this identifier stands in this mailbox.
abbrev pub holds_row : ℕ → ℕ → List Message → Bool
holds_row id mailbox [] = false
holds_row id mailbox (m ∷ ms) = (m.id == id && m.mailbox_id == mailbox) || holds_row id mailbox ms

holds_row-append :
    (id mailbox : ℕ) (ms ns : List Message)
    → holds_row id mailbox ms ≡ true
    → holds_row id mailbox (ms ++ ns) ≡ true
holds_row-append id mailbox [] ns h = cc
holds_row-append id mailbox (m ∷ ms) ns h = ground (arith, holds_row-append id mailbox ms ns)

holds_row_last :
    (id mailbox : ℕ) (ms : List Message) (m : Message)
    → m.id ≡ id
    → m.mailbox_id ≡ mailbox
    → holds_row id mailbox (ms ++ m ∷ []) ≡ true
holds_row_last id mailbox [] m e f = ground arith
holds_row_last id mailbox (n ∷ ms) m e f = ground (arith, holds_row_last id mailbox ms m e f)

pub has_id_last :
    (id : ℕ) (ms : List Message) (m : Message) → m.id ≡ id → has_id id (ms ++ m ∷ []) ≡ true
has_id_last id [] m e = ground arith
has_id_last id (n ∷ ms) m e = ground (arith, has_id_last id ms m e)

with_id-ok :
    (n : ℕ) (r : Saved) (id : ℕ)
    → (with_id n r).0 ≡ ok id
    → (id ≡ n) × (r.0 ≡ ok tt) × ((with_id n r).1 ≡ r.1)
unfolding with_id
with_id-ok n (ok _, st) id e = (ground arith, refl, refl)
with_id-ok n (err x, st) id e = cc

module _ (sv : Services) where
  -- The recipient has no mailbox, or the message stands in it.
  abbrev pub IsServed : ℕ → MailStore → EmailAddress → Type 0
  IsServed id st r =
      (sv.find_mailbox_by_address (address_to_string r) ≡ ok none)
      ⊎ ((mb : Mailbox) × (sv.find_mailbox_by_address (address_to_string r) ≡ ok (some mb))
          × (holds_row id mb.id st.messages ≡ true))

  module _ (id : ℕ) (parsed : ParsedMail) (e : Envelope) (content : Bytes) where
    create_stores :
        (mb : Mailbox) (st : MailStore) (u : Unit {0})
        → (create_message sv (message_row sv id parsed e content mb) st).0 ≡ ok u
        → holds_row id mb.id
            (create_message sv (message_row sv id parsed e content mb) st).1.messages
          ≡ true
    unfolding create_message message_row
    create_stores mb st u done = ground (
      arith,
      holds_row_last id mb.id st.messages (message_row sv id parsed e content mb) refl refl,
    )

    store_for_stores :
        (mb : Mailbox) (st : MailStore) (u : Unit {0})
        → (store_for sv id parsed e content mb st).0 ≡ ok u
        → holds_row id mb.id (store_for sv id parsed e content mb st).1.messages ≡ true
    unfolding store_for store_file
    store_for_stores mb st u done =
        ground (arith, create_stores mb (with_file sv id content mb st) u)

    found-IsServed :
        (r : EmailAddress) (found : Result (Option Mailbox)) (st : MailStore) (u : Unit {0})
        → sv.find_mailbox_by_address (address_to_string r) ≡ found
        → (deliver_found sv id parsed e content found st).0 ≡ ok u
        → IsServed id (deliver_found sv id parsed e content found st).1 r
    unfolding deliver_found
    found-IsServed r (err x) st u q done = cc
    found-IsServed r (ok none) st u q done = inl q
    found-IsServed r (ok (some mb)) st u q done = inr (mb, q, store_for_stores mb st u done)

    deliver_one_serves :
        (r : EmailAddress) (st : MailStore) (u : Unit {0})
        → (deliver_one sv id parsed e content r st).0 ≡ ok u
        → IsServed id (deliver_one sv id parsed e content r st).1 r
    unfolding deliver_one
    deliver_one_serves r st u done = found-IsServed r _ st u refl done

    -- A recipient once served stays so through the deliveries that follow.
    IsServed-stays :
        (rs : List EmailAddress) (r : EmailAddress) (st : MailStore)
        → IsServed id st r
        → IsServed id (deliver_all sv id parsed e content rs st).1 r
    IsServed-stays rs r st (inl q) = inl q
    IsServed-stays rs r st (inr (mb, q, row)) = inr (
      mb,
      q,
      deliver_all_keeps sv id parsed e content (λ s. holds_row id mb.id s.messages ≡ true)
          (λ mb' st' h. h) (λ mb' st' _ h. holds_row-append id mb.id st'.messages _ h) rs st row,
    )

    pub deliver_all_step :
        (r : EmailAddress) (rs : List EmailAddress) (st : MailStore) (u : Unit {0})
        → (deliver_one sv id parsed e content r st).0 ≡ ok u
        → deliver_all sv id parsed e content (r ∷ rs) st
          ≡ deliver_all sv id parsed e content rs (deliver_one sv id parsed e content r st).1
    unfolding deliver_all
    deliver_all_step r rs st u one = rw (one, deliver_all)

    pub deliver_all_stop :
        (r : EmailAddress) (rs : List EmailAddress) (st : MailStore) (x : Text)
        → (deliver_one sv id parsed e content r st).0 ≡ err x
        → deliver_all sv id parsed e content (r ∷ rs) st
          ≡ (err x, (deliver_one sv id parsed e content r st).1)
    unfolding deliver_all
    deliver_all_stop r rs st x one = rw (one, deliver_all)

    deliver_all_serves :
        (rs : List EmailAddress) (st : MailStore) (u : Unit {0})
        → (deliver_all sv id parsed e content rs st).0 ≡ ok u
        → All (IsServed id (deliver_all sv id parsed e content rs st).1) rs
    deliver_all_serves [] st u done = tt
    deliver_all_serves (r ∷ rs) st u done =
        elim (Result-cases (deliver_one sv id parsed e content r st).0) [
          | inl (v, one) ↦
              let step = deliver_all_step r rs st v one in
              let st' = (deliver_one sv id parsed e content r st).1 in
              subst (λ k. All (IsServed id k.1) (r ∷ rs)) (sym step)
                (
                  IsServed-stays rs r st' (deliver_one_serves r st v one),
                  deliver_all_serves rs st' u (sym (ap (λ k. k.0) step) ∙ done),
                )
          | inr (x, failed) ↦ cc (ap (λ k. k.0) (deliver_all_stop r rs st x failed))
        ]

  parsed_serves :
      (id n : ℕ) (o : Option ParsedMail) (e : Envelope) (content : Bytes) (st : MailStore)
      → (deliver_parsed sv n o e content st).0 ≡ ok id
      → (id ≡ n) × All (IsServed n (deliver_parsed sv n o e content st).1) e.to
  unfolding deliver_parsed
  parsed_serves id n none e content st done = cc
  parsed_serves id n (some parsed) e content st done =
      let (same, fine, left) = with_id-ok n (deliver_all sv n parsed e content e.to st) id done in
      (same, rw left (deliver_all_serves n parsed e content e.to st tt fine))

  -- A message that is accepted under an identifier stands under it in the mailbox of each
  -- recipient, but for recipients that have no mailbox.
  pub process_message_serves :
      (e : Envelope) (content : Bytes) (st : MailStore) (id : ℕ)
      → (process_message sv e content st).0 ≡ ok id
      → (id ≡ st.next_id) × All (IsServed id (process_message sv e content st).1) e.to
  unfolding process_message
  process_message_serves e content st id done =
      let (same, served) = parsed_serves id st.next_id (sv.parse_mail content) e content _ done in
      (same, rw same served)

  -- One message adds at most one row, however many recipients it has.
  pub length-process_message_le :
      (e : Envelope) (content : Bytes) (st : MailStore)
      → length (process_message sv e content st).1.messages ≤ length st.messages + 1
  length-process_message_le e content st =
      (process_message_keeps sv e content st
        (λ s.
          (has_id st.next_id s.messages ≡ false → length s.messages ≤ length st.messages)
          × (length s.messages ≤ length st.messages + 1))
        ((λ _. omega arith), omega arith) (λ mb st' h. h)
        (λ parsed mb st' free h. (
          (λ absent. absurd (
              cc (
                has_id_last st.next_id st'.messages (message_row sv st.next_id parsed e content mb)
                  (unfold message_row in refl)))),
          omega (
            arith,
            h.0 free,
            length-append st'.messages (message_row sv st.next_id parsed e content mb ∷ []),
          ),
        ))).1
