-- ===== src/Policy/Adding.antt =====
-- What each action of a policy adds to the result: tags, headers and the quarantine.
use mai_rust.Common.{
  ◌≡◌, refl, ap, sym, ◌∙◌, Bool, true, false, not, ◌||◌, Option, none, some, List, [], ◌∷◌, ◌++◌,
  append_assoc, append-nil, if◌then◌else◌,
}
use mai_rust.Common.Text.{Text, lit, is_empty}
use mai_rust.Smtp.Parse.{get_or_empty}
use mai_rust.Policy.Types.{
  Json, get, string, array, Values, no_values, more_values, PolicyActionType, allow_action,
  reject_action, tempfail_action, quarantine_action, tag_action, redirect_action, add_header_action,
  modify_subject_action, rate_limit_action, require_tls_action, PolicyAction,
  PolicyEvaluationResult,
}
use mai_rust.Policy.Operators.{text_of}
use mai_rust.Policy.Engine.{apply_type, apply_actions, array_texts, array_of, texts_of, to_list}

-- The strings of a value that is an array.
abbrev strings_in : Values → List Text
strings_in no_values = []
strings_in (more_values (string s) vs) = s ∷ strings_in vs
strings_in (more_values v vs) = strings_in vs

abbrev strings_of : Option Json → List Text
strings_of (some (array vs)) = strings_in vs
strings_of _ = []

abbrev string_of : Option Json → List Text
string_of (some (string s)) = s ∷ []
string_of _ = []

-- The tags that an action adds.
abbrev pub tags_of : PolicyActionType → Json → List Text
tags_of tag_action params =
    strings_of (get (lit "tags") params) ++ string_of (get (lit "tag") params)
tags_of rate_limit_action params = lit "rate_limited" ∷ []
tags_of _ params = []

-- A header with a name or value that is not empty.
abbrev unless_empty : Text → Text × Text → List (Text × Text)
unless_empty [] header = []
unless_empty (c ∷ s) header = header ∷ []

-- The headers that an action adds.
abbrev pub headers_of : PolicyActionType → Json → List (Text × Text)
headers_of add_header_action params =
    let name = get_or_empty (text_of (get (lit "name") params)) in
    unless_empty name (name, get_or_empty (text_of (get (lit "value") params)))
headers_of modify_subject_action params =
    let prefix = get_or_empty (text_of (get (lit "prefix") params)) in
    unless_empty prefix (lit "X-Subject-Prefix", prefix)
headers_of require_tls_action params = (lit "X-Require-TLS", lit "true") ∷ []
headers_of _ params = []

abbrev pub quarantines : PolicyActionType → Bool
quarantines quarantine_action = true
quarantines _ = false

abbrev pub is_allow : PolicyActionType → Bool
is_allow allow_action = true
is_allow _ = false

abbrev pub is_refusal : PolicyActionType → Bool
is_refusal reject_action = true
is_refusal tempfail_action = true
is_refusal _ = false

-- What all actions add, in their order.
abbrev pub gathered {ℓ} :
    {A : Type ℓ} → (PolicyActionType → Json → List A) → List PolicyAction → List A
gathered f [] = []
gathered f (a ∷ rest) = f a.action_type a.parameters ++ gathered f rest

abbrev pub any_action : (PolicyActionType → Bool) → List PolicyAction → Bool
any_action p [] = false
any_action p (a ∷ rest) = p a.action_type || any_action p rest

-- `r'` has what `r` has, and these tags, headers and quarantine.
pub record Adds (ts : List Text) (hs : List (Text × Text)) (q : Bool)
    (r r' : PolicyEvaluationResult) : Type 0 where
  pub tags : r'.tags ≡ r.tags ++ ts
  pub headers : r'.headers_to_add ≡ r.headers_to_add ++ hs
  pub quarantine : r'.quarantine ≡ (q || r.quarantine)

array_texts-strings_in : (vs : Values) → array_texts vs ≡ strings_in vs
unfolding array_texts
array_texts-strings_in no_values = refl
array_texts-strings_in (more_values (string s) vs) = ap (◌∷◌ s) (array_texts-strings_in vs)
array_texts-strings_in (more_values v vs) = array_texts-strings_in vs

texts_of-strings_of : (o : Option Json) → texts_of (array_of o) ≡ strings_of o
texts_of-strings_of (some (array vs)) = array_texts-strings_in vs
texts_of-strings_of (some v) = refl
texts_of-strings_of none = refl

to_list-string_of : (o : Option Json) → to_list (text_of o) ≡ string_of o
to_list-string_of (some (string s)) = refl
to_list-string_of (some v) = refl
to_list-string_of none = refl

-- An action that adds nothing of the three.
pub Adds-nothing :
    (r r' : PolicyEvaluationResult)
    → r'.tags ≡ r.tags
    → r'.headers_to_add ≡ r.headers_to_add
    → r'.quarantine ≡ r.quarantine
    → Adds [] [] false r r'
Adds-nothing r r' t h q = record {
  tags = t ∙ sym (append-nil r.tags);
  headers = h ∙ sym (append-nil r.headers_to_add);
  quarantine = q;
}

-- A header under a name or with a value that is not empty.
Adds-header :
    (s : Text) (header : Text × Text) (r : PolicyEvaluationResult)
    → Adds [] (unless_empty s header) false r (
        if not (is_empty s)
        then record r { headers_to_add = r.headers_to_add ++ header ∷ [] }
        else r)
unfolding is_empty
Adds-header [] header r = Adds-nothing r r refl refl refl
Adds-header (c ∷ s) header r = record {
  tags = sym (append-nil r.tags);
  headers = refl;
  quarantine = refl;
}

apply_type-Adds :
    (t : PolicyActionType) (params : Json) (r : PolicyEvaluationResult)
    → Adds (tags_of t params) (headers_of t params) (quarantines t) r (apply_type t params r)
unfolding apply_type
apply_type-Adds tag_action params r = record {
  tags =
      ap (λ x. r.tags ++ x ++ to_list (text_of (get (lit "tag") params)))
        (texts_of-strings_of (get (lit "tags") params))
      ∙ ap (λ x. r.tags ++ strings_of (get (lit "tags") params) ++ x)
          (to_list-string_of (get (lit "tag") params))
      ∙ append_assoc r.tags (strings_of (get (lit "tags") params))
          (string_of (get (lit "tag") params));
  headers = sym (append-nil r.headers_to_add);
  quarantine = refl;
}
apply_type-Adds rate_limit_action params r = record {
  tags = refl;
  headers = sym (append-nil r.headers_to_add);
  quarantine = refl;
}
apply_type-Adds add_header_action params r =
    Adds-header (get_or_empty (text_of (get (lit "name") params)))
      (
        get_or_empty (text_of (get (lit "name") params)),
        get_or_empty (text_of (get (lit "value") params)),
      )
      r
apply_type-Adds modify_subject_action params r =
    let prefix = get_or_empty (text_of (get (lit "prefix") params)) in
    Adds-header prefix (lit "X-Subject-Prefix", prefix) r
apply_type-Adds require_tls_action params r = record {
  tags = sym (append-nil r.tags);
  headers = refl;
  quarantine = refl;
}
apply_type-Adds quarantine_action params r = record {
  tags = sym (append-nil r.tags);
  headers = sym (append-nil r.headers_to_add);
  quarantine = refl;
}
apply_type-Adds allow_action params r = Adds-nothing r _ refl refl refl
apply_type-Adds reject_action params r = Adds-nothing r _ refl refl refl
apply_type-Adds tempfail_action params r = Adds-nothing r _ refl refl refl
apply_type-Adds redirect_action params r = Adds-nothing r _ refl refl refl

or_again : (a b c : Bool) → (b || (a || c)) ≡ ((a || b) || c)
or_again true true c = refl
or_again true false c = refl
or_again false b c = refl

pub or_false : (b : Bool) → (b || false) ≡ b
or_false true = refl
or_false false = refl

pub apply_actions-Adds :
    (xs : List PolicyAction) (r : PolicyEvaluationResult)
    → Adds
        (gathered tags_of xs)
        (gathered headers_of xs)
        (any_action quarantines xs)
        r
        (apply_actions xs r)
unfolding apply_actions
apply_actions-Adds [] r = Adds-nothing r r refl refl refl
apply_actions-Adds (a ∷ xs) r =
    let now = apply_type-Adds a.action_type a.parameters r in
    let later = apply_actions-Adds xs (apply_type a.action_type a.parameters r) in
    record {
      tags =
          later.tags
          ∙ ap (λ x. x ++ gathered tags_of xs) now.tags
          ∙ append_assoc r.tags (tags_of a.action_type a.parameters) (gathered tags_of xs);
      headers =
          later.headers
          ∙ ap (λ x. x ++ gathered headers_of xs) now.headers
          ∙ append_assoc r.headers_to_add (headers_of a.action_type a.parameters)
              (gathered headers_of xs);
      quarantine =
          later.quarantine
          ∙ ap (λ x. any_action quarantines xs || x) now.quarantine
          ∙ or_again (quarantines a.action_type) (any_action quarantines xs) r.quarantine;
    }
