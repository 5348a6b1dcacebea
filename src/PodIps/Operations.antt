-- ===== src/PodIps/Operations.antt =====
-- The operations of pod_ip_store.go, called one after the other.
use clowk_voodu.Base.{
  ◌≡◌, sym, ap, ◌∙◌, true, Option, none, some, List, [], ◌∷◌, length, drop, Bytes,
}
use clowk_voodu.Base.Text.{ℤ, codes, atoi}
use clowk_voodu.Etcd.{View, Call, Etcd, IsEtcd, run_txn}
use clowk_voodu.Etcd.Hoare.{
  Hoare, hoare_bind, hoare_wrapping, hoare_get, hoare_keys, hoare_commit, hoare_return, hoare_given,
}
use clowk_voodu.PodIps.{
  pod_ip_pod_key, pod_ip_pod_prefix, reserve_txn, release_txn, value_or_empty, reserve_pod_ip,
  get_pod_ip, release_held, release_pod_ip, release_ordinal, release_listed, release_pod_ips,
}
use clowk_voodu.PodIps.Consistent.{
  Consistent, Unleaked, reserve_txn-Consistent, reserve_txn-Unleaked, release_txn-Consistent,
  release_txn-Unleaked, reserve_txn-holds, release_txn-frees, pod_key-ref,
}

-- Pods and addresses name each other, in both directions.
abbrev pub Paired : View → Type 0
Paired w = Consistent w × Unleaked w

module _ {S : Type 0} (etcd : Etcd S) (laws : IsEtcd etcd) where
  module _ (scope name : Bytes) (o : ℤ) where
    -- A reservation keeps the pairing, whether it succeeds, finds a key taken or fails; one that
    -- succeeds leaves the address in the pod's key.
    pub reserve_pod_ip-Paired :
        (ip : Bytes)
        → Hoare etcd.view Paired
            (reserve_pod_ip etcd scope name o ip)
            (λ reserved v. Paired v × (reserved ≡ true → v (pod_ip_pod_key scope name o) ≡ some ip))
            Paired
    unfolding reserve_pod_ip
    reserve_pod_ip-Paired ip = hoare_wrapping etcd.view (codes "etcd reserve pod ip: ") (
        hoare_commit etcd laws (reserve_txn scope name o ip) (λ v p. p) kept
          (λ v p. (kept v p, reserve_txn-holds scope name o ip v)))
      where
        kept : (v : View) → Paired v → Paired (run_txn (reserve_txn scope name o ip) v)
        kept v (c, u) =
            (reserve_txn-Consistent scope name o ip v c, reserve_txn-Unleaked scope name o ip v u)

    release_txn-Paired :
        (held : Bytes) (v : View)
        → Paired v × (some held ≡ v (pod_ip_pod_key scope name o))
        → Paired (run_txn (release_txn scope name o held) v)
    release_txn-Paired held v ((c, u), read) = (
      release_txn-Consistent scope name o held v c,
      release_txn-Unleaked scope name o held v (ap v (sym (pod_key-ref scope name o)) ∙ sym read) c
          u,
    )

    release_held-Paired :
        (read : Option Bytes)
        → Hoare etcd.view
            (λ v. Paired v × (read ≡ v (pod_ip_pod_key scope name o)))
            (release_held etcd scope name o read)
            (λ done v. Paired v × (v (pod_ip_pod_key scope name o) ≡ none))
            Paired
    release_held-Paired none = hoare_return etcd.view tt (λ v p. (p.0, sym p.1))
    release_held-Paired (some held) =
        hoare_bind etcd.view {Q = λ done v. Paired v × (v (pod_ip_pod_key scope name o) ≡ none)}
          (hoare_wrapping etcd.view (codes "etcd release pod ip: ") (
            hoare_commit etcd laws (release_txn scope name o held) (λ v p. p.0)
              (release_txn-Paired held)
              (λ v p. (release_txn-Paired held v p, release_txn-frees scope name o held v))))
          (λ done. hoare_return etcd.view tt (λ v p. p))

    -- A release keeps the pairing, also if it fails; after one that does not, the pod has no address.
    pub release_pod_ip-Paired :
        Hoare etcd.view Paired
          (release_pod_ip etcd scope name o)
          (λ done v. Paired v × (v (pod_ip_pod_key scope name o) ≡ none))
          Paired
    unfolding release_pod_ip
    release_pod_ip-Paired =
        hoare_bind etcd.view
          (hoare_wrapping etcd.view (codes "etcd get pod ip: ")
            (hoare_get etcd laws (pod_ip_pod_key scope name o) (λ v p. p)))
          release_held-Paired

    -- A read keeps the keys, and returns the pod's address, or the empty string for none.
    pub get_pod_ip-reads :
        (P E : View → Type 0)
        → ((v : View) → P v → E v)
        → Hoare etcd.view P
            (get_pod_ip etcd scope name o)
            (λ held v. P v × (held ≡ value_or_empty (v (pod_ip_pod_key scope name o))))
            E
    unfolding get_pod_ip
    get_pod_ip-reads P E weak =
        hoare_bind etcd.view
          (hoare_wrapping etcd.view (codes "etcd get pod ip: ")
            (hoare_get etcd laws (pod_ip_pod_key scope name o) weak))
          (λ read. hoare_return etcd.view _ (λ v p. (p.0, ap value_or_empty p.1)))

  module _ (scope name : Bytes) where
    release_ordinal-Paired :
        (ordinal : Option ℤ) (rest : Call S (Unit {0}))
        → Hoare etcd.view Paired rest (λ done. Paired) Paired
        → Hoare etcd.view Paired
            (release_ordinal etcd scope name ordinal rest)
            (λ done. Paired)
            Paired
    release_ordinal-Paired none rest h = h
    release_ordinal-Paired (some o) rest h =
        hoare_bind etcd.view (release_pod_ip-Paired scope name o)
          (λ done. hoare_given etcd.view (λ v p. p.0) h)

    release_listed-Paired :
        (prefix : Bytes) (listed : List Bytes)
        → Hoare etcd.view Paired
            (release_listed etcd scope name prefix listed)
            (λ done. Paired)
            Paired
    unfolding release_listed
    release_listed-Paired prefix [] = hoare_return etcd.view tt (λ v p. p)
    release_listed-Paired prefix (key ∷ listed) =
        release_ordinal-Paired (atoi (drop (length prefix) key)) _
          (release_listed-Paired prefix listed)

    -- Releasing every pod of a statefulset keeps the pairing, wherever it fails.
    pub release_pod_ips-Paired :
        Hoare etcd.view Paired (release_pod_ips etcd scope name) (λ done. Paired) Paired
    unfolding release_pod_ips
    release_pod_ips-Paired =
        hoare_bind etcd.view {Q = λ listed. Paired}
          (hoare_wrapping etcd.view (codes "etcd list pod ips: ")
            (hoare_keys etcd laws (pod_ip_pod_prefix scope name) (λ v p. p)))
          (release_listed-Paired (pod_ip_pod_prefix scope name))
