-- ===== src/PodIps/Examples.antt =====
-- The reservations at concrete pods and addresses, on a store held in memory.
use clowk_voodu.Base.{
  ℕ, arith, ◌≡◌, refl, true, not, ◌&&◌, ◌||◌, none, some, List, [], ◌∷◌, ◌++◌, ltb, eq_bytes, ok,
}
use clowk_voodu.Base.Text.{pos, codes, itoa, decimal, split_byte, digits_value}
use clowk_voodu.Etcd.{
  View, put_key, delete_key, Etcd, IsEtcd, run_txn, all_hold, ◌>>=◌, return, fail, wrapping,
}
use clowk_voodu.Etcd.Hoare.{Hoare}
use clowk_voodu.PodIps.{
  pod_ip_addr_key, pod_ip_pod_prefix, pod_ip_pod_key, pod_ref, reserve_txn, release_txn,
  reserve_pod_ip, get_pod_ip,
}
use clowk_voodu.PodIps.Operations.{Paired}
use clowk_voodu.PodIps.Interleaving.{nothing_reserved, reserves, releases, address_exclusive}
use clowk_voodu.PodIps.Addresses.{
  prefix_from, v4, AddressPlan, is_addr, or_first, prefix_contains, collect, block_addresses,
  pool_of, fixed_pod_addresses, contains, print_addr, parse_addr,
}
use clowk_voodu.PodIps.Addresses.Pool.{fixed_pod_addresses-exact}
use clowk_voodu.PodIps.Allocation.{is_kept, draw, address_for}
use clowk_voodu.PodIps.Allocation.Assigned.{Assigned, address_for-Assigned, address_for-stable}

-- A store that never fails; its listing has one key.
abbrev memory : Etcd View
memory = record {
  view = λ w. w;
  get = λ k s. (s, ok (s k));
  keys = λ k s. (s, ok ((k ++ codes "0") ∷ []));
  commit = λ t s. (run_txn t s, ok (all_hold t.compares s));
}

memory_laws : IsEtcd memory
memory_laws = record {
  get_law = λ k s. (refl, refl);
  keys_law = λ k s. refl;
  commit_law = λ t s. (refl, refl);
}

-- 10.0.0.0/29 with docker's range 10.0.0.4/30: the gateway is 10.0.0.1.
abbrev plan : AddressPlan
plan = record {
  subnet = some (prefix_from (v4 167772160) 29);
  ip_range = some (prefix_from (v4 167772164) 30);
  gateway = none;
}

abbrev small_pool : List ℕ
small_pool = 167772162 ∷ 167772163 ∷ []

plan_pool : fixed_pod_addresses plan ≡ some small_pool
unfolding fixed_pod_addresses pool_of block_addresses collect
plan_pool = refl

fixed_pod_addresses-exact_example : contains 167772163 small_pool ≡ (
    ltb 167772160 167772163
    && (ltb 167772164 167772168
        && not (
            is_addr 167772163 (or_first none 167772160)
            || prefix_contains (some (prefix_from (v4 167772164) 30)) 167772163)))
fixed_pod_addresses-exact_example =
    fixed_pod_addresses-exact 167772160 29 (omega arith) (omega arith)
      (prefix_from (v4 167772164) 30) none small_pool 167772163 plan_pool

-- The first pod draws the first address of the pool, the second the next.
second_drawn :
    ((address_for memory (codes "db") (codes "pg") (pos 0) (some (ok (some plan))) >>= λ ip.
    address_for memory (codes "db") (codes "pg") (pos 1) (some (ok (some plan))))
      (λ k. none)).1
    ≡ ok (codes "10.0.0.3")
unfolding ◌>>=◌ return fail wrapping address_for draw get_pod_ip reserve_pod_ip reserve_txn put_key
    pod_ip_pod_key pod_ip_pod_prefix pod_ip_addr_key pod_ref eq_bytes fixed_pod_addresses pool_of
    block_addresses collect print_addr itoa decimal
second_drawn = refl

abbrev first_pod : View
first_pod = run_txn (reserve_txn (codes "db") (codes "pg") (pos 0) (codes "10.0.0.2")) (λ k. none)

first_pod_holds :
    first_pod (pod_ip_pod_key (codes "db") (codes "pg") (pos 0)) ≡ some (codes "10.0.0.2")
unfolding reserve_txn put_key pod_ip_pod_key eq_bytes itoa
first_pod_holds = refl

kept : is_kept small_pool (codes "10.0.0.2") ≡ true
unfolding is_kept parse_addr split_byte digits_value
kept = refl

address_for-Assigned_example :
    Hoare memory.view Paired
      (address_for memory (codes "db") (codes "pg") (pos 0) (some (ok (some plan))))
      (λ ip v. Paired v × Assigned (codes "db") (codes "pg") (pos 0) small_pool ip v)
      Paired
address_for-Assigned_example =
    address_for-Assigned memory memory_laws (codes "db") (codes "pg") (pos 0) plan small_pool
      plan_pool

address_for-stable_example :
    Hoare memory.view
      (λ v. v ≡ first_pod)
      (address_for memory (codes "db") (codes "pg") (pos 0) (some (ok (some plan))))
      (λ ip v. (ip ≡ codes "10.0.0.2") × (v ≡ first_pod))
      (λ v. v ≡ first_pod)
address_for-stable_example =
    address_for-stable memory memory_laws (codes "db") (codes "pg") (pos 0) plan small_pool
      (codes "10.0.0.2") first_pod plan_pool kept first_pod_holds

-- Two pods with an address each; the first one's is released and drawn again by a third.
abbrev drawn_again : View
drawn_again = run_txn (reserve_txn (codes "db") (codes "pg") (pos 2) (codes "10.0.0.2")) (
    run_txn (release_txn (codes "db") (codes "pg") (pos 0) (codes "10.0.0.2"))
      (run_txn (reserve_txn (codes "db") (codes "pg") (pos 1) (codes "10.0.0.3")) first_pod))

third_holds :
    drawn_again (pod_ip_pod_key (codes "db") (codes "pg") (pos 2)) ≡ some (codes "10.0.0.2")
unfolding reserve_txn release_txn put_key delete_key pod_ip_pod_key pod_ip_pod_prefix
    pod_ip_addr_key pod_ref eq_bytes itoa decimal
third_holds = refl

address_exclusive_example : (codes "db" ≡ codes "db") × (codes "pg" ≡ codes "pg") × (pos 2 ≡ pos 2)
address_exclusive_example =
    address_exclusive drawn_again (codes "db") (codes "pg") (codes "db") (codes "pg") (pos 2)
      (pos 2) (codes "10.0.0.2")
      (reserves (codes "db") (codes "pg") (pos 2) (codes "10.0.0.2") (
        releases (codes "db") (codes "pg") (pos 0) (codes "10.0.0.2") (
          reserves (codes "db") (codes "pg") (pos 1) (codes "10.0.0.3")
            (reserves (codes "db") (codes "pg") (pos 0) (codes "10.0.0.2") nothing_reserved))))
      (refl, (refl, tt)) (refl, (refl, tt)) (refl, (refl, tt)) (refl, (refl, tt)) third_holds
      third_holds

-- A scope with a slash shares its keys with another scope and name.
slashed_ref : pod_ref (codes "a/b") (codes "c") (pos 0) ≡ pod_ref (codes "a") (codes "b/c") (pos 0)
unfolding pod_ref
slashed_ref = refl
