-- ===== src/PodIps/Addresses.antt =====
-- internal/controller/pod_ips.go: fixedPodAddresses, the part of voodu0 that docker leaves alone,
-- with what it uses of net/netip. An IPv4 address is its 32 bits, as a number.
pub mod Pool
use clowk_voodu.Base.{
  ℕ, zero, suc, ◌+◌, ◌-◌, ◌*◌, ◌/◌, ◌%◌, ◌^◌, Bool, true, false, not, ◌&&◌, ◌||◌, Option, none,
  some, List, [], ◌∷◌, ◌++◌, length, ltb, leb, ◌==◌, if◌then◌else◌, Bytes,
}
use clowk_voodu.Base.Text.{codes, split_byte, digits_value, itoa}

-- A valid netip.Addr, by its family.
pub data Addr : Type 0 where
  v4 v6 : ℕ → Addr

-- A valid netip.Prefix.
pub data Prefix : Type 0 where
  prefix_from : Addr → ℕ → Prefix

-- docker.NetworkAddressPlan; `none` is an address or a prefix that is not valid.
pub record AddressPlan : Type 0 where
  pub subnet : Option Prefix
  pub ip_range : Option Prefix
  pub gateway : Option Addr

-- The addresses of the block of an IPv4 prefix.
abbrev pub block_size : ℕ → ℕ
block_size bits = 2 ^ (32 - bits)

-- Contains of the IPv4 prefix base/bits; 2 ^ 32 stands for the address after the last, which is none.
abbrev pub block_contains : ℕ → ℕ → ℕ → Bool
block_contains base bits a = ltb a (2 ^ 32) && (a / block_size bits == base / block_size bits)

abbrev pub prefix_contains : Option Prefix → ℕ → Bool
prefix_contains none a = false
prefix_contains (some (prefix_from (v4 base) bits)) a = block_contains base bits a
prefix_contains (some (prefix_from (v6 base) bits)) a = false

-- a == gateway
abbrev pub is_addr : ℕ → Addr → Bool
is_addr a (v4 g) = a == g
is_addr a (v6 g) = false

-- for a := ...; subnet.Contains(a.Next()); a = a.Next(), with fuel
unfoldable pub collect : (ℕ → Bool) → (ℕ → Bool) → ℕ → ℕ → List ℕ
collect in_subnet skipped zero a = []
collect in_subnet skipped (suc fuel) a =
    let rest = collect in_subnet skipped fuel (a + 1) in
    if in_subnet (a + 1) then (if skipped a then rest else a ∷ rest) else []

abbrev pub or_first : Option Addr → ℕ → Addr
or_first none base = v4 (base + 1)
or_first (some g) base = g

abbrev pub some_pool : List ℕ → Option (List ℕ)
some_pool [] = none
some_pool (a ∷ pool) = some (a ∷ pool)

-- The addresses of the block at `base`, without its first and last, the gateway and the range.
unfoldable pub block_addresses : ℕ → ℕ → Option Prefix → Option Addr → List ℕ
unfolding collect
block_addresses base bits ip_range gateway =
    collect (block_contains base bits)
      (λ a. is_addr a (or_first gateway base) || prefix_contains ip_range a) (block_size bits)
      (base + 1)

unfoldable pub pool_of : Option Prefix → Option Prefix → Option Addr → Option (List ℕ)
unfolding block_addresses
pool_of none ip_range gateway = none
pool_of (some (prefix_from (v6 a) bits)) ip_range gateway = none
pool_of (some (prefix_from (v4 a) bits)) none gateway = none
pool_of (some (prefix_from (v4 a) bits)) (some range) gateway =
    some_pool (block_addresses (a / block_size bits * block_size bits) bits (some range) gateway)

-- fixedPodAddresses, with `none` for its false
unfoldable pub fixed_pod_addresses : AddressPlan → Option (List ℕ)
unfolding pool_of
fixed_pod_addresses plan = pool_of plan.subnet plan.ip_range plan.gateway

-- slices.Contains
abbrev pub contains : ℕ → List ℕ → Bool
contains a [] = false
contains a (b ∷ bs) = (b == a) || contains a bs

-- Addr.String of an IPv4 address
unfoldable pub print_addr : ℕ → Bytes
print_addr a =
    itoa (a / 2 ^ 24)
    ++ codes "."
    ++ itoa (a / 2 ^ 16 % 256)
    ++ codes "."
    ++ itoa (a / 2 ^ 8 % 256)
    ++ codes "."
    ++ itoa (a % 256)

-- One field of an IPv4 text: a number up to 255, without a leading zero.
abbrev octet_value : Option ℕ → Option ℕ
octet_value none = none
octet_value (some n) = if leb n 255 then some n else none

abbrev octet : Bytes → Option ℕ
octet [] = none
octet (x ∷ []) = octet_value (digits_value 0 (x ∷ []))
octet (x ∷ y ∷ s) = if x == b'0' then none else octet_value (digits_value 0 (x ∷ y ∷ s))

abbrev quad : Option ℕ → Option ℕ → Option ℕ → Option ℕ → Option ℕ
quad (some a) (some b) (some c) (some d) = some (((a * 256 + b) * 256 + c) * 256 + d)
quad _ _ _ _ = none

abbrev four_fields : List Bytes → Option ℕ
four_fields (a ∷ b ∷ c ∷ d ∷ []) = quad (octet a) (octet b) (octet c) (octet d)
four_fields _ = none

-- netip.ParseAddr, with `none` for an error and for an address that is not IPv4
unfoldable pub parse_addr : Bytes → Option ℕ
parse_addr s = four_fields (split_byte s b'.')
