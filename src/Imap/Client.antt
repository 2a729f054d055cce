-- ===== src/Imap/Client.antt =====
-- What a client makes of EXPUNGE responses.
use mai_rust.Common.{
  ℕ, zero, suc, ◌≡◌, refl, sym, ap, ◌∙◌, true, false, List, some, [], ◌∷◌, ◌++◌, length,
  append_assoc,
}
use mai_rust.Common.Text.{Text}
use mai_rust.Imap.Session.{is_selected, is_readonly}
use mai_rust.Imap.Types.{SelectedMailbox, Imap}
use mai_rust.Imap.Rows.{Handled, with_mailbox, with_writable}

-- The list without its `n`-th element, counted from 1.
unfoldable pub remove_at {ℓ} : {A : Type ℓ} → ℕ → List A → List A
remove_at n [] = []
remove_at zero (x ∷ xs) = x ∷ xs
remove_at (suc zero) (x ∷ xs) = xs
remove_at (suc (suc n)) (x ∷ xs) = x ∷ remove_at (suc n) xs

-- A client's list of the messages of a mailbox, after EXPUNGE responses.
unfoldable pub client_view {ℓ} : {A : Type ℓ} → List ℕ → List A → List A
unfolding remove_at
client_view [] xs = xs
client_view (n ∷ ns) xs = client_view ns (remove_at n xs)

pub remove_at-append {ℓ} :
    {A : Type ℓ} (pre : List A) (x : A) (xs : List A)
    → remove_at (suc (length pre)) (pre ++ x ∷ xs) ≡ pre ++ xs
unfolding remove_at
remove_at-append [] x xs = refl
remove_at-append (y ∷ pre) x xs = ap (λ t. y ∷ t) (remove_at-append pre x xs)

-- An element that stays joins those in front.
pub snoc-view {ℓ} :
    {A : Type ℓ} (ns : List ℕ) (pre : List A) (x : A) (xs left : List A)
    → client_view ns ((pre ++ x ∷ []) ++ xs) ≡ (pre ++ x ∷ []) ++ left
    → client_view ns (pre ++ x ∷ xs) ≡ pre ++ x ∷ left
snoc-view ns pre x xs left h =
    sym (ap (client_view ns) (append_assoc pre (x ∷ []) xs)) ∙ h ∙ append_assoc pre (x ∷ []) left

pub client_view-append {ℓ} :
    {A : Type ℓ} (ns ks : List ℕ) (xs : List A)
    → client_view (ns ++ ks) xs ≡ client_view ks (client_view ns xs)
unfolding client_view
client_view-append [] ks xs = refl
client_view-append (n ∷ ns) ks xs = client_view-append ns ks (remove_at n xs)

-- The last number removes the element behind those in front.
pub last-view {ℓ} :
    {A : Type ℓ} (ns : List ℕ) (n : ℕ) (pre : List A) (x : A) (xs left : List A)
    → n ≡ suc (length pre)
    → client_view ns (pre ++ x ∷ xs) ≡ pre ++ x ∷ left
    → client_view (ns ++ n ∷ []) (pre ++ x ∷ xs) ≡ pre ++ left
unfolding client_view
last-view ns n pre x xs left e h =
    client_view-append ns (n ∷ []) _
    ∙ ap (remove_at n) h
    ∙ ap (λ k. remove_at k (pre ++ x ∷ left)) e
    ∙ remove_at-append pre x left

-- The state is that of a session with the mailbox `s` selected for writing.
pub record IsWritable (s : SelectedMailbox) (st : Imap) : Type 0 where
  pub selected : is_selected st.session ≡ true
  pub writable : is_readonly st.session ≡ false
  pub mailbox : st.session.selected_mailbox ≡ some s

pub with_writable-mailbox :
    (tag : Text) (f : SelectedMailbox → Handled) (s : SelectedMailbox) (st : Imap)
    → IsWritable s st
    → with_writable tag f st ≡ f s
unfolding with_writable with_mailbox
with_writable-mailbox tag f s st w = simp (w.selected, w.writable, w.mailbox) refl
