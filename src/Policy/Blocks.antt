-- ===== src/Policy/Blocks.antt =====
-- Addresses in CIDR blocks.
use mai_rust.Common.{
  ℕ, zero, suc, ◌+◌, ◌-◌, ◌/◌, ◌%◌, ◌^◌, ◌≤◌, ◌<◌, ◌≡◌, refl, ap, Bool, false, some, ◌∷◌, ◌++◌,
  ◌==◌, lt→ltb, arith,
}
use mai_rust.Common.Text.{Text}
use mai_rust.Common.Decimal.{display, parse_u32-display}
use mai_rust.Smtp.Addresses.{Lacks, split_once-join}
use mai_rust.Policy.Types.{IpAddr, v4, v6, Services}
use mai_rust.Policy.Networks.{ip_in_cidr, in_cidr, in_prefix, in_network, same_network, parse_u8}

-- The number of bits of an address.
abbrev pub width : IpAddr → ℕ
width (v4 a) = 32
width (v6 a) = 128

-- Two numbers of `w` bits agree on their first bits; none of them is compared as all of them are.
abbrev pub share : ℕ → ℕ → ℕ → ℕ → Bool
share w zero a b = a == b
share w (suc p) a b = a / 2 ^ (w - suc p) == b / 2 ^ (w - suc p)

abbrev pub in_block : ℕ → IpAddr → IpAddr → Bool
in_block p (v4 a) (v4 b) = share 32 p a b
in_block p (v6 a) (v6 b) = share 128 p a b
in_block p _ _ = false

whole : (a b : ℕ) → (a / 1 == b / 1) ≡ (a == b)
whole a b = ground arith

below : (w p : ℕ) → p ≤ w → w < 256 → p < 256
below w p h k = omega arith

module _ (sv : Services) where
  parse_u8-display : (n : ℕ) → n < 256 → parse_u8 sv (display n) ≡ some n
  unfolding parse_u8
  parse_u8-display n h = rw (parse_u32-display n (omega arith), lt→ltb n 256 h, parse_u8) refl

  -- The amount of the shift, `w - p` as a u8 and modulo `w`, for the two widths.
  same_network-share_v4 : (p a b : ℕ) → p ≤ 32 → same_network sv 32 p a b ≡ share 32 p a b
  unfolding same_network
  same_network-share_v4 zero a b h = whole a b
  same_network-share_v4 (suc p) a b h =
      let shift : (32 + 256 - suc p) % 256 % 32 ≡ 32 - suc p = omega arith in
      ap (λ k. a / 2 ^ k == b / 2 ^ k) shift

  same_network-share_v6 : (p a b : ℕ) → p ≤ 128 → same_network sv 128 p a b ≡ share 128 p a b
  unfolding same_network
  same_network-share_v6 zero a b h = whole a b
  same_network-share_v6 (suc p) a b h =
      let shift : (128 + 256 - suc p) % 256 % 128 ≡ 128 - suc p = omega arith in
      ap (λ k. a / 2 ^ k == b / 2 ^ k) shift

  in_network-in_block : (p : ℕ) (a b : IpAddr) → p ≤ width a → in_network sv p a b ≡ in_block p a b
  unfolding in_network
  in_network-in_block p (v4 a) (v4 b) h = same_network-share_v4 p a b h
  in_network-in_block p (v4 a) (v6 b) h = refl
  in_network-in_block p (v6 a) (v4 b) h = refl
  in_network-in_block p (v6 a) (v6 b) h = same_network-share_v6 p a b h

  width_small : (a : IpAddr) → width a < 256
  width_small (v4 a) = omega arith
  width_small (v6 a) = omega arith

-- A client's address lies in the block that is written as an address, a slash and the decimal digits
-- of a prefix length, no longer than the client's address, exactly if the two are of one kind and
-- agree on as many first bits as the prefix says; but in a block of prefix 0 only if they are equal.
pub ip_in_cidr-in_block :
    (sv : Services) (client network : Text) (a b : IpAddr) (p : ℕ)
    → sv.parse_ip client ≡ some a
    → sv.parse_ip network ≡ some b
    → Lacks b'/' network
    → p ≤ width a
    → ip_in_cidr sv client (network ++ b'/' ∷ display p) ≡ in_block p a b
unfolding ip_in_cidr in_cidr in_prefix
ip_in_cidr-in_block sv client network a b p ha hb lacks h =
    let small : p < 256 = below (width a) p h (width_small sv a) in
    let parts = split_once-join b'/' network (display p) lacks in
    rw
      (
        ha,
        parts,
        ap (λ x. x.0) parts,
        hb,
        parse_u8-display sv p small,
        ip_in_cidr,
        in_cidr,
        in_prefix,
      )
      (in_network-in_block sv p a b h)
