-- ===== src/PodIps/Allocation.antt =====
-- internal/controller/pod_ips.go: addressFor and release of podIPAllocator. What docker says of the
-- network's plan is an argument.
pub mod Assigned
use clowk_voodu.Base.{
  ℕ, ◌≡◌, Bool, true, false, Option, none, some, List, [], ◌∷◌, ◌++◌, if◌then◌else◌, Bytes, Result,
  ok, err,
}
use clowk_voodu.Base.Text.{ℤ, codes, itoa, format_int}
use clowk_voodu.Etcd.{Call, Etcd, ◌>>=◌, return, fail}
use clowk_voodu.PodIps.{reserve_pod_ip, get_pod_ip, release_pod_ip, release_pod_ips}
use clowk_voodu.PodIps.Addresses.{
  Addr, v4, v6, Prefix, prefix_from, AddressPlan, fixed_pod_addresses, contains, print_addr,
  parse_addr,
}

-- What Plan returns: an error, no plan (its false), or the plan.
abbrev pub PlanResult : Type 0
PlanResult = Result Bytes (Option AddressPlan)

abbrev in_pool : List ℕ → Option ℕ → Bool
in_pool pool none = false
in_pool pool (some a) = contains a pool

-- The test of a held address: it parses, and the pool has it.
unfoldable pub is_kept : List ℕ → Bytes → Bool
is_kept pool held = in_pool pool (parse_addr held)

module _ {S : Type 0} (etcd : Etcd S) (exhausted : Bytes) (scope name : Bytes) (ordinal : ℤ) where
  -- The answer to a reservation that was refused: the pod's own address, or the next candidate.
  abbrev pub held_or : Call S Bytes → Bytes → Call S Bytes
  held_or rest [] = rest
  held_or rest (b ∷ bs) = return (b ∷ bs)

  abbrev pub taken_or : Bytes → Call S Bytes → Bool → Call S Bytes
  taken_or ip rest true = return ip
  taken_or ip rest false = get_pod_ip etcd scope name ordinal >>= held_or rest

  -- The loop over the pool.
  unfoldable pub draw : List ℕ → Call S Bytes
  draw [] = fail exhausted
  draw (addr ∷ pool) =
      reserve_pod_ip etcd scope name ordinal (print_addr addr)
      >>= taken_or (print_addr addr) (draw pool)

  -- The address that the pod holds, if it holds one of the pool.
  abbrev pub kept_or_drawn : List ℕ → Bytes → Call S Bytes
  kept_or_drawn pool [] = draw pool
  kept_or_drawn pool (b ∷ bs) =
      if is_kept pool (b ∷ bs)
      then return (b ∷ bs)
      else release_pod_ip etcd scope name ordinal >>= λ done. draw pool

  abbrev pub from_pool : Option (List ℕ) → Call S Bytes
  from_pool none = return []
  from_pool (some pool) = get_pod_ip etcd scope name ordinal >>= kept_or_drawn pool

module _ {S : Type 0} (etcd : Etcd S) (scope name : Bytes) (ordinal : ℤ) where
  -- %s of a prefix; only an IPv4 one has a pool
  abbrev print_prefix : Option Prefix → Bytes
  print_prefix (some (prefix_from (v4 a) bits)) = print_addr a ++ codes "/" ++ itoa bits
  print_prefix (some (prefix_from (v6 a) bits)) = codes "invalid Prefix"
  print_prefix none = codes "invalid Prefix"

  abbrev pub no_address_left : AddressPlan → Bytes
  no_address_left plan =
      codes "voodu0 has no fixed address left in "
      ++ print_prefix plan.subnet
      ++ codes " for statefulset "
      ++ scope
      ++ codes "/"
      ++ name
      ++ codes " pod "
      ++ format_int ordinal

  -- addressFor; `none` is the nil allocator
  unfoldable pub address_for : Option PlanResult → Call S Bytes
  unfolding draw
  address_for none = return []
  address_for (some (err e)) = fail (codes "read voodu0 address plan: " ++ e)
  address_for (some (ok none)) = return []
  address_for (some (ok (some plan))) =
      from_pool etcd (no_address_left plan) scope name ordinal (fixed_pod_addresses plan)

-- release
unfoldable pub release :
    {S : Type 0} → Etcd S → Option PlanResult → Bytes → Bytes → Call S (Unit {0})
release etcd none scope name = return tt
release etcd (some plan) scope name = release_pod_ips etcd scope name
