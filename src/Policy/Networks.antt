-- ===== src/Policy/Networks.antt =====
-- Conditions on the address of the client (policy/engine.rs).
use mai_rust.Common.{
  ℕ, ◌+◌, ◌-◌, ◌/◌, ◌%◌, ◌^◌, Bool, false, ◌||◌, Option, none, some, if◌then◌else◌, ◌==◌, ltb,
}
use mai_rust.Common.Text.{Text, lit, eq_text, split_once}
use mai_rust.Common.Decimal.{parse_u32}
use mai_rust.Smtp.Parse.{get_or_empty}
use mai_rust.Policy.Types.{
  Json, Values, no_values, more_values, as_str, as_array, IpAddr, v4, v6, Services,
}
use mai_rust.Policy.Operators.{named}

module _ (sv : Services) where
  -- `!0 << (w - prefix)`, where the difference wraps as a u8 and the amount modulo `w`, as in a
  -- release build: under that mask two numbers agree exactly if they do from that bit on.
  unfoldable pub same_network : ℕ → ℕ → ℕ → ℕ → Bool
  same_network w prefix ip network =
      let shift = (w + 256 - prefix) % 256 % w in ip / 2 ^ shift == network / 2 ^ shift

  -- `parse::<u8>`.
  unfoldable pub parse_u8 : Text → Option ℕ
  parse_u8 s = elim (parse_u32 s) [ none ↦ none | some n ↦ if ltb n 256 then some n else none ]

  unfoldable pub in_network : ℕ → IpAddr → IpAddr → Bool
  unfolding same_network
  in_network prefix (v4 ip) (v4 network) = same_network 32 prefix ip network
  in_network prefix (v6 ip) (v6 network) = same_network 128 prefix ip network
  in_network prefix _ _ = false

  unfoldable pub in_prefix : IpAddr → Option IpAddr → Option ℕ → Bool
  unfolding in_network
  in_prefix ip (some network) (some prefix) = in_network prefix ip network
  in_prefix ip _ _ = false

  unfoldable pub in_cidr : Text → IpAddr → Text × Option Text → Text → Bool
  unfolding in_prefix parse_u8
  in_cidr ip_text ip (network, some prefix) cidr =
      in_prefix ip (sv.parse_ip network) (parse_u8 prefix)
  in_cidr ip_text ip (network, none) cidr = eq_text ip_text cidr

  unfoldable pub ip_in_cidr : Text → Text → Bool
  unfolding in_cidr
  ip_in_cidr ip_text cidr = elim (sv.parse_ip ip_text) [
    | none ↦ false
    | some ip ↦ in_cidr ip_text ip (split_once b'/' cidr) cidr
  ]

  unfoldable pub ip_in_any : Text → Values → Bool
  unfolding ip_in_cidr
  ip_in_any ip no_values = false
  ip_in_any ip (more_values v vs) = ip_in_cidr ip (get_or_empty (as_str v)) || ip_in_any ip vs

  unfoldable pub ip_in_range : Text → Option Values → Option Text → Bool
  unfolding ip_in_any ip_in_cidr
  ip_in_range ip (some vs) s = ip_in_any ip vs
  ip_in_range ip none (some range) = ip_in_cidr ip range
  ip_in_range ip none none = false

  unfoldable pub evaluate_ip_condition : Text → Option Text → Json → Bool
  unfolding ip_in_range
  evaluate_ip_condition operator none expected = false
  evaluate_ip_condition operator (some ip) expected =
      if named operator (lit "eq") (lit "equals")
      then eq_text ip (get_or_empty (as_str expected))
      else if named operator (lit "in") (lit "in_range")
      then ip_in_range ip (as_array expected) (as_str expected)
      else false
