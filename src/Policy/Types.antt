-- ===== src/Policy/Types.antt =====
-- The data of the policy engine: policy/engine.rs and the policies of mairust-storage's models.rs.
-- Identifiers are numbers.
use mai_rust.Common.{ℕ, Bool, Option, none, some, List, if◌then◌else◌}
use mai_rust.Common.Text.{Text, eq_text}

-- A value of serde_json. A number is what `as_f64` gives of it, as a bit pattern, and what `as_u64`
-- gives. An array and an object are lists of values and of named values.
mutual
  pub data Json : Type 0 where
    null : Json
    boolean : Bool → Json
    number : ℕ → Option ℕ → Json
    string : Text → Json
    array : Values → Json
    object : Fields → Json

  pub data Values : Type 0 where
    no_values : Values
    more_values : Json → Values → Values

  pub data Fields : Type 0 where
    no_fields : Fields
    more_fields : Text → Json → Fields → Fields

abbrev pub as_str : Json → Option Text
as_str (string s) = some s
as_str _ = none

abbrev pub as_u64 : Json → Option ℕ
as_u64 (number f n) = n
as_u64 _ = none

abbrev pub as_f64 : Json → Option ℕ
as_f64 (number f n) = some f
as_f64 _ = none

abbrev pub as_array : Json → Option Values
as_array (array vs) = some vs
as_array _ = none

abbrev pub get_field : Text → Fields → Option Json
get_field k no_fields = none
get_field k (more_fields name v fs) =
    let rest = get_field k fs in if eq_text k name then some v else rest

-- `get` with a name.
abbrev pub get : Text → Json → Option Json
get k (object fs) = get_field k fs
get k _ = none

pub data PolicyConditionType : Type 0 where
  sender_domain sender_address recipient_domain recipient_address : PolicyConditionType
  subject_contains header_exists header_value message_size : PolicyConditionType
  attachment_type spam_score client_ip time_of_day : PolicyConditionType

pub data PolicyActionType : Type 0 where
  allow_action reject_action tempfail_action quarantine_action tag_action : PolicyActionType
  redirect_action add_header_action modify_subject_action : PolicyActionType
  rate_limit_action require_tls_action : PolicyActionType

pub record PolicyCondition : Type 0 where
  pub condition_type : PolicyConditionType
  pub operator : Text
  pub value : Json
  pub negate : Bool

pub record PolicyAction : Type 0 where
  pub action_type : PolicyActionType
  pub parameters : Json

-- The columns of `policies` that the engine reads; `conditions` and `actions` are JSON. The priority,
-- a signed number, is counted from the least i32.
pub record PolicyRule : Type 0 where
  pub id : ℕ
  pub tenant_id : Option ℕ
  pub domain_id : Option ℕ
  pub name : Text
  pub policy_type : Text
  pub priority : ℕ
  pub enabled : Bool
  pub conditions : Json
  pub actions : Json

-- The time of the message is its hour and its weekday, counted from Monday.
pub record PolicyContext : Type 0 where
  pub tenant_id : ℕ
  pub domain_id : Option ℕ
  pub policy_type : Text
  pub sender_address : Option Text
  pub sender_domain : Option Text
  pub recipient_addresses : List Text
  pub recipient_domains : List Text
  pub subject : Option Text
  pub headers : Json
  pub message_size : ℕ
  pub attachment_types : List Text
  pub spam_score : Option ℕ
  pub client_ip : Option Text
  pub hour : ℕ
  pub weekday : ℕ

pub record PolicyMatch : Type 0 where
  pub policy_id : ℕ
  pub policy_name : Text
  pub priority : ℕ
  pub actions : List PolicyAction

pub record PolicyEvaluationResult : Type 0 where
  pub matches : List PolicyMatch
  pub final_action : Option PolicyAction
  pub allow : Bool
  pub reject : Bool
  pub smtp_code : Option ℕ
  pub smtp_message : Option Text
  pub tags : List Text
  pub headers_to_add : List (Text × Text)
  pub quarantine : Bool
  pub redirect_to : Option Text

-- An address of the standard library's `IpAddr`.
pub data IpAddr : Type 0 where
  v4 v6 : ℕ → IpAddr

-- Outside the source: the case table, the operations on doubles, the parser of addresses, regular
-- expressions (`false` also for one that does not compile), the readers of conditions and actions
-- from JSON, whether the query succeeds, and the order in which it lists rows.
pub record Services : Type 0 where
  pub wide_lower : ℕ → Text
  pub f64_of : ℕ → ℕ
  pub f64_lt : ℕ → ℕ → Bool
  pub f64_le : ℕ → ℕ → Bool
  pub f64_near : ℕ → ℕ → Bool
  pub f64_far : ℕ → ℕ → Bool
  pub f64_zero : ℕ
  pub parse_ip : Text → Option IpAddr
  pub regex_match : Text → Text → Bool
  pub read_conditions : Json → Option (List PolicyCondition)
  pub read_actions : Json → Option (List PolicyAction)
  pub can_select : Bool
  pub by_priority : List PolicyRule → List PolicyRule
