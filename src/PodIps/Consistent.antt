-- ===== src/PodIps/Consistent.antt =====
-- The reservations as a pair of maps: what the transactions of pod_ip_store.go do to the keys.
use clowk_voodu.Base.{
  ◌≡◌, refl, ap, inl, inr, true, false, Option, none, some, ◌++◌, Bool-cases, Bytes, eq_bytes,
  arith,
}
use clowk_voodu.Base.Text.{ℤ, codes}
use clowk_voodu.Base.Text.Laws.{eq_bytes→eq, eq_bytes_refl, eq_bytes_iff}
use clowk_voodu.Etcd.{View, put_key, delete_key, run_txn, all_hold, is_absent, is_value}
use clowk_voodu.PodIps.{
  pod_ip_addr_key, pod_ip_pod_prefix, pod_ip_pod_key, pod_ref, reserve_txn, release_txn,
}

-- A pod's key, from the reference to the pod.
abbrev pub under_pod : Bytes → Bytes
under_pod r = codes "/podips/pod/" ++ r

pub pod_key-ref :
    (scope name : Bytes) (o : ℤ) → pod_ip_pod_key scope name o ≡ under_pod (pod_ref scope name o)
unfolding pod_ip_pod_key pod_ip_pod_prefix pod_ref
pod_key-ref scope name o = refl

keys_pod : (r q : Bytes) → eq_bytes (under_pod r) (under_pod q) ≡ eq_bytes r q
unfolding eq_bytes
keys_pod r q = refl

keys_addr : (a b : Bytes) → eq_bytes (pod_ip_addr_key a) (pod_ip_addr_key b) ≡ eq_bytes a b
unfolding eq_bytes pod_ip_addr_key
keys_addr a b = refl

keys_pod_addr : (r a : Bytes) → eq_bytes (under_pod r) (pod_ip_addr_key a) ≡ false
unfolding eq_bytes pod_ip_addr_key
keys_pod_addr r a = refl

keys_addr_pod : (a r : Bytes) → eq_bytes (pod_ip_addr_key a) (under_pod r) ≡ false
unfolding eq_bytes pod_ip_addr_key
keys_addr_pod a r = refl

-- The address of every pod's key points back at the pod.
abbrev pub Consistent : View → Type 0
Consistent w = (r ip : Bytes) → w (under_pod r) ≡ some ip → w (pod_ip_addr_key ip) ≡ some r

-- Every address that is taken is the one its pod's key names.
abbrev pub Unleaked : View → Type 0
Unleaked w = (r ip : Bytes) → w (pod_ip_addr_key ip) ≡ some r → w (under_pod r) ≡ some ip

module _ (w : View) (r ip : Bytes) where
  put_both-Consistent :
      w (pod_ip_addr_key ip) ≡ none
      → Consistent w
      → Consistent (put_key (under_pod r) ip (put_key (pod_ip_addr_key ip) r w))
  unfolding put_key
  put_both-Consistent a c q i h = ground (
    arith,
    c q i,
    keys_pod r q,
    keys_addr ip i,
    keys_pod_addr r i,
    keys_addr_pod ip q,
    eq_bytes_iff r q,
    eq_bytes_iff ip i,
    a,
    h,
  )

  put_both-Unleaked :
      w (under_pod r) ≡ none
      → Unleaked w
      → Unleaked (put_key (under_pod r) ip (put_key (pod_ip_addr_key ip) r w))
  unfolding put_key
  put_both-Unleaked a c q i h = ground (
    arith,
    c q i,
    keys_pod r q,
    keys_addr ip i,
    keys_pod_addr r i,
    keys_addr_pod ip q,
    eq_bytes_iff r q,
    eq_bytes_iff ip i,
    a,
    h,
  )

  delete_both-Consistent :
      w (pod_ip_addr_key ip) ≡ some r
      → Consistent w
      → Consistent (delete_key (pod_ip_addr_key ip) (delete_key (under_pod r) w))
  unfolding delete_key
  delete_both-Consistent a c q i h = ground (
    arith,
    c q i,
    keys_pod r q,
    keys_addr ip i,
    keys_pod_addr r i,
    keys_addr_pod ip q,
    eq_bytes_iff r q,
    eq_bytes_iff ip i,
    a,
    h,
  )

  delete_both-Unleaked :
      w (under_pod r) ≡ some ip
      → Unleaked w
      → Unleaked (delete_key (pod_ip_addr_key ip) (delete_key (under_pod r) w))
  unfolding delete_key
  delete_both-Unleaked a c q i h = ground (
    arith,
    c q i,
    keys_pod r q,
    keys_addr ip i,
    keys_pod_addr r i,
    keys_addr_pod ip q,
    eq_bytes_iff r q,
    eq_bytes_iff ip i,
    a,
    h,
  )

  delete_pod-Consistent : Consistent w → Consistent (delete_key (under_pod r) w)
  unfolding delete_key
  delete_pod-Consistent c q i h =
      ground (arith, c q i, keys_pod r q, keys_pod_addr r i, eq_bytes_iff r q, h)

is_absent-true : (v : Option Bytes) → is_absent v ≡ true → v ≡ none
is_absent-true none h = refl
is_absent-true (some v) h = cc

is_value-true : (u : Bytes) (v : Option Bytes) → is_value u v ≡ true → v ≡ some u
is_value-true u none h = cc
is_value-true u (some v) h = ap some (eq_bytes→eq v u h)

module _ (scope name : Bytes) (o : ℤ) (ip : Bytes) (P : View → Type 0) (w : View) where
  -- What a reservation keeps, by whether both keys were absent.
  pub reserve_txn_cases :
      (w (pod_ip_addr_key ip) ≡ none
        → w (under_pod (pod_ref scope name o)) ≡ none
        → P (
            put_key
              (under_pod (pod_ref scope name o))
              ip
              (put_key (pod_ip_addr_key ip) (pod_ref scope name o) w)))
      → P w
      → P (run_txn (reserve_txn scope name o ip) w)
  unfolding reserve_txn
  reserve_txn_cases both stays =
      rw (pod_key-ref scope name o) (elim (Bool-cases (is_absent (w (pod_ip_addr_key ip)))) [
        | inr e ↦ rw e stays
        | inl e ↦ elim (Bool-cases (is_absent (w (under_pod (pod_ref scope name o))))) [
          | inr d ↦ rw (e, d) stays
          | inl d ↦ rw (e, d) (both (is_absent-true _ e) (is_absent-true _ d))
        ]
      ])

  -- What a release keeps, by whether the address was the pod's.
  pub release_txn_cases :
      (w (pod_ip_addr_key ip) ≡ some (pod_ref scope name o)
        → P (delete_key (pod_ip_addr_key ip) (delete_key (under_pod (pod_ref scope name o)) w)))
      → (is_value (pod_ref scope name o) (w (pod_ip_addr_key ip)) ≡ false
          → P (delete_key (under_pod (pod_ref scope name o)) w))
      → P (run_txn (release_txn scope name o ip) w)
  unfolding release_txn
  release_txn_cases own other =
      rw (pod_key-ref scope name o)
        (elim (Bool-cases (is_value (pod_ref scope name o) (w (pod_ip_addr_key ip)))) [
          | inr e ↦ rw e (other e)
          | inl e ↦ rw e (own (is_value-true _ _ e))
        ])

module _ (scope name : Bytes) (o : ℤ) (ip : Bytes) (w : View) where
  pub reserve_txn-Consistent : Consistent w → Consistent (run_txn (reserve_txn scope name o ip) w)
  reserve_txn-Consistent c =
      reserve_txn_cases scope name o ip Consistent w (λ a p. put_both-Consistent w _ ip a c) c

  pub reserve_txn-Unleaked : Unleaked w → Unleaked (run_txn (reserve_txn scope name o ip) w)
  reserve_txn-Unleaked c =
      reserve_txn_cases scope name o ip Unleaked w (λ a p. put_both-Unleaked w _ ip p c) c

  pub release_txn-Consistent : Consistent w → Consistent (run_txn (release_txn scope name o ip) w)
  release_txn-Consistent c =
      release_txn_cases scope name o ip Consistent w (λ a. delete_both-Consistent w _ ip a c)
        (λ a. delete_pod-Consistent w _ ip c)

  -- A release of the address that the pod's key names.
  pub release_txn-Unleaked :
      w (under_pod (pod_ref scope name o)) ≡ some ip
      → Consistent w
      → Unleaked w
      → Unleaked (run_txn (release_txn scope name o ip) w)
  release_txn-Unleaked p c u =
      release_txn_cases scope name o ip Unleaked w (λ a. delete_both-Unleaked w _ ip p u)
        (λ a. cc (
          ap (is_value (pod_ref scope name o)) (c _ ip p),
          eq_bytes_refl (pod_ref scope name o),
          a,
        ))

  -- A reservation that succeeded left the address in the pod's key.
  pub reserve_txn-holds :
      all_hold (reserve_txn scope name o ip).compares w ≡ true
      → run_txn (reserve_txn scope name o ip) w (pod_ip_pod_key scope name o) ≡ some ip
  unfolding reserve_txn put_key
  reserve_txn-holds h = rw h (rw (eq_bytes_refl (pod_ip_pod_key scope name o)) refl)

  -- A release leaves no address in the pod's key.
  pub release_txn-frees :
      run_txn (release_txn scope name o ip) w (pod_ip_pod_key scope name o) ≡ none
  unfolding delete_key
  release_txn-frees = rw (pod_key-ref scope name o) (
      release_txn_cases scope name o ip (λ v. v (under_pod (pod_ref scope name o)) ≡ none) w
        (λ a. freed) (λ a. freed_alone))
    where
      freed_alone :
          delete_key (under_pod (pod_ref scope name o)) w (under_pod (pod_ref scope name o)) ≡ none
      freed_alone = rw (eq_bytes_refl (under_pod (pod_ref scope name o))) refl

      freed :
          delete_key
            (pod_ip_addr_key ip)
            (delete_key (under_pod (pod_ref scope name o)) w)
            (under_pod (pod_ref scope name o))
          ≡ none
      freed = rw (keys_addr_pod ip (pod_ref scope name o)) freed_alone
