-- ===== src/PodIps.antt =====
-- internal/controller/pod_ip_store.go, with its keys of keys.go: the reservations of addresses for
-- the pods of statefulsets, as two keys of etcd each.
pub mod Consistent
pub mod Operations
pub mod Interleaving
pub mod Addresses
pub mod Allocation
mod Examples
use clowk_voodu.Base.{
  Bool, true, false, Option, none, some, List, [], ◌∷◌, ◌++◌, length, drop, Bytes,
}
use clowk_voodu.Base.Text.{ℤ, codes, atoi, format_int}
use clowk_voodu.Etcd.{Txn, absent, equals, op_put, op_delete, Call, Etcd, ◌>>=◌, return, wrapping}

abbrev pub prefix_pod_ips : Bytes
prefix_pod_ips = codes "/podips/"

unfoldable pub pod_ip_addr_key : Bytes → Bytes
pod_ip_addr_key ip = prefix_pod_ips ++ codes "addr/" ++ ip

unfoldable pub pod_ip_pod_prefix : Bytes → Bytes → Bytes
pod_ip_pod_prefix scope name =
    prefix_pod_ips ++ codes "pod/" ++ scope ++ codes "/" ++ name ++ codes "/"

unfoldable pub pod_ip_pod_key : Bytes → Bytes → ℤ → Bytes
unfolding pod_ip_pod_prefix
pod_ip_pod_key scope name ordinal = pod_ip_pod_prefix scope name ++ format_int ordinal

unfoldable pub pod_ref : Bytes → Bytes → ℤ → Bytes
pod_ref scope name ordinal = scope ++ codes "/" ++ name ++ codes "/" ++ format_int ordinal

-- The transaction of ReservePodIP.
unfoldable pub reserve_txn : Bytes → Bytes → ℤ → Bytes → Txn
unfolding pod_ip_addr_key pod_ip_pod_key pod_ref
reserve_txn scope name ordinal ip =
    let addr_key = pod_ip_addr_key ip in
    let pod_key = pod_ip_pod_key scope name ordinal in
    record {
      compares = absent addr_key ∷ absent pod_key ∷ [];
      then_ops = op_put addr_key (pod_ref scope name ordinal) ∷ op_put pod_key ip ∷ [];
      else_ops = [];
    }

-- The transaction of ReleasePodIP, for the address that the pod's key had when it was read.
unfoldable pub release_txn : Bytes → Bytes → ℤ → Bytes → Txn
unfolding pod_ip_addr_key pod_ip_pod_key pod_ref
release_txn scope name ordinal held =
    let addr_key = pod_ip_addr_key held in
    let pod_key = pod_ip_pod_key scope name ordinal in
    record {
      compares = equals addr_key (pod_ref scope name ordinal) ∷ [];
      then_ops = op_delete pod_key ∷ op_delete addr_key ∷ [];
      else_ops = op_delete pod_key ∷ [];
    }

-- The value of an absent key is the empty string.
abbrev pub value_or_empty : Option Bytes → Bytes
value_or_empty none = []
value_or_empty (some v) = v

module _ {S : Type 0} (etcd : Etcd S) where
  unfoldable pub reserve_pod_ip : Bytes → Bytes → ℤ → Bytes → Call S Bool
  unfolding reserve_txn
  reserve_pod_ip scope name ordinal ip =
      wrapping (codes "etcd reserve pod ip: ") (etcd.commit (reserve_txn scope name ordinal ip))

  unfoldable pub get_pod_ip : Bytes → Bytes → ℤ → Call S Bytes
  unfolding pod_ip_pod_key
  get_pod_ip scope name ordinal =
      wrapping (codes "etcd get pod ip: ") (etcd.get (pod_ip_pod_key scope name ordinal))
      >>= λ read. return (value_or_empty read)

  abbrev pub release_held : Bytes → Bytes → ℤ → Option Bytes → Call S (Unit {0})
  release_held scope name ordinal none = return tt
  release_held scope name ordinal (some held) =
      wrapping (codes "etcd release pod ip: ") (etcd.commit (release_txn scope name ordinal held))
      >>= λ done. return tt

  unfoldable pub release_pod_ip : Bytes → Bytes → ℤ → Call S (Unit {0})
  unfolding pod_ip_pod_key release_txn
  release_pod_ip scope name ordinal =
      wrapping (codes "etcd get pod ip: ") (etcd.get (pod_ip_pod_key scope name ordinal))
      >>= release_held scope name ordinal

  -- The loop over the listed keys; a key whose rest is no number is skipped.
  abbrev pub release_ordinal : Bytes → Bytes → Option ℤ → Call S (Unit {0}) → Call S (Unit {0})
  release_ordinal scope name none rest = rest
  release_ordinal scope name (some ordinal) rest =
      release_pod_ip scope name ordinal >>= λ done. rest

  unfoldable pub release_listed : Bytes → Bytes → Bytes → List Bytes → Call S (Unit {0})
  unfolding release_pod_ip
  release_listed scope name prefix [] = return tt
  release_listed scope name prefix (key ∷ listed) =
      release_ordinal scope name (atoi (drop (length prefix) key))
        (release_listed scope name prefix listed)

  unfoldable pub release_pod_ips : Bytes → Bytes → Call S (Unit {0})
  unfolding pod_ip_pod_prefix release_listed
  release_pod_ips scope name =
      let prefix = pod_ip_pod_prefix scope name in
      wrapping (codes "etcd list pod ips: ") (etcd.keys prefix) >>= release_listed scope name prefix
