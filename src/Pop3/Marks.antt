-- ===== src/Pop3/Marks.antt =====
-- How often a number occurs among the keys of the message map and among the marked numbers.
use mai_rust.Common.{
  ℕ, ◌+◌, ◌≤◌, ◌≡◌, refl, List, [], ◌∷◌, length, if◌then◌else◌, ltb, ◌==◌, ==_refl, ◌%◌, arith,
}
use mai_rust.Common.Decimal.{u32_limit}
use mai_rust.Pop3.Types.{MessageInfo}
use mai_rust.Pop3.Session.{contains, get, keys, insert, load_from, live, is_some}

abbrev pub occurs : ℕ → List ℕ → ℕ
occurs k [] = 0
occurs k (x ∷ xs) = (if k == x then 1 else 0) + occurs k xs

abbrev pub Entries : Type 0
Entries = List (ℕ × MessageInfo)

pub contains-occurs : (k : ℕ) (xs : List ℕ) → contains k xs ≡ ltb 0 (occurs k xs)
unfolding contains
contains-occurs k [] = refl
contains-occurs k (x ∷ xs) = ground (arith, contains-occurs k xs)

pub get-occurs : (k : ℕ) (m : Entries) → is_some (get k m) ≡ ltb 0 (occurs k (keys m))
unfolding get
get-occurs k [] = refl
get-occurs k (e ∷ m) = ground (arith, get-occurs k m)

-- One more mark takes one entry away for each time it is a key.
length-live_mark :
    (d : ℕ) (ds : List ℕ) (m : Entries)
    → occurs d ds ≡ 0
    → length (live (d ∷ ds) m) + occurs d (keys m) ≡ length (live ds m)
unfolding live contains
length-live_mark d ds [] h = refl
length-live_mark d ds (e ∷ m) h =
    ground (arith, length-live_mark d ds m h, contains-occurs d ds, contains-occurs e.0 ds)

length-live_nothing : (m : Entries) → length (live [] m) ≡ length m
unfolding live contains
length-live_nothing [] = refl
length-live_nothing (e ∷ m) = ground (arith, length-live_nothing m)

-- If every mark is a key, no mark stands twice and no key either, then each mark takes one entry.
pub length-live :
    (ds : List ℕ) (m : Entries)
    → ((k : ℕ) → occurs k (keys m) ≤ 1)
    → ((k : ℕ) → occurs k ds ≤ occurs k (keys m))
    → length (live ds m) + length ds ≡ length m
length-live [] m distinct known = omega (arith, length-live_nothing m)
length-live (d ∷ ds) m distinct known =
    let k = known d in
    let here : 1 + occurs d ds ≤ occurs d (keys m) = ground (arith, ==_refl d) in
    let once = distinct d in
    let none_left : occurs d ds ≡ 0 = omega arith in
    let fewer = length-live ds m distinct (λ k. let h = known k in ground arith) in
    omega (arith, length-live_mark d ds m none_left)

pub occurs-insert :
    (k i : ℕ) (x : MessageInfo) (m : Entries)
    → occurs k (keys (insert i x m)) ≡ (if k == i then 1 else occurs k (keys m))
unfolding insert
occurs-insert k i x [] = ground arith
occurs-insert k i x (e ∷ m) = ground (arith, occurs-insert k i x m)

-- The keys of a loaded map are distinct, also when the numbers wrap.
pub occurs-load_from :
    (idx : ℕ) (xs : List MessageInfo) (m : Entries)
    → ((k : ℕ) → occurs k (keys m) ≤ 1)
    → (k : ℕ) → occurs k (keys (load_from idx xs m)) ≤ 1
unfolding load_from
occurs-load_from idx [] m h k = h k
occurs-load_from idx (x ∷ xs) m h k =
    occurs-load_from (idx + 1) xs (insert ((idx + 1) % u32_limit) x m)
      (λ j. ground (arith, occurs-insert j ((idx + 1) % u32_limit) x m, h j)) k
