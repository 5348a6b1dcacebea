-- ===== src/PodIps/Allocation/Assigned.antt =====
-- What addressFor promises of the address it returns.
use clowk_voodu.Base.{
  ℕ, ◌≡◌, refl, sym, ap, subst, ◌∙◌, ◌⊎◌, inl, inr, Bool, true, false, Option, none, some, List, [],
  ◌∷◌, Bool-cases, Bytes, ok, arith,
}
use clowk_voodu.Base.Text.{ℤ, codes, split_byte}
use clowk_voodu.Etcd.{View, Call, Etcd, IsEtcd, run_txn, all_hold}
use clowk_voodu.Etcd.Hoare.{
  Hoare, hoare_bind, hoare_wrapping, hoare_commit, hoare_return, hoare_fail, hoare_given,
  hoare_never,
}
use clowk_voodu.PodIps.{pod_ip_pod_key, reserve_txn, value_or_empty, reserve_pod_ip}
use clowk_voodu.PodIps.Consistent.{reserve_txn-Consistent, reserve_txn-Unleaked, reserve_txn-holds}
use clowk_voodu.PodIps.Operations.{Paired, get_pod_ip-reads, release_pod_ip-Paired}
use clowk_voodu.PodIps.Addresses.{
  AddressPlan, fixed_pod_addresses, contains, print_addr, parse_addr,
}
use clowk_voodu.PodIps.Allocation.{
  is_kept, held_or, taken_or, draw, kept_or_drawn, no_address_left, address_for,
}

module _ (scope name : Bytes) (o : ℤ) where
  -- The pod's key names the address, which is printed from one of the pool or reads as one of it.
  abbrev pub Assigned : List ℕ → Bytes → View → Type 0
  Assigned pool ip v =
      (v (pod_ip_pod_key scope name o) ≡ some ip)
      × (((a : ℕ) × (contains a pool ≡ true) × (ip ≡ print_addr a)) ⊎ (is_kept pool ip ≡ true))

  abbrev Vacant : View → Type 0
  Vacant v = Paired v × (value_or_empty (v (pod_ip_pod_key scope name o)) ≡ [])

  abbrev Reserved : Bytes → Bool → View → Type 0
  Reserved ip true v = Paired v × (v (pod_ip_pod_key scope name o) ≡ some ip)
  Reserved ip false v = Vacant v

  reserve_txn-refused :
      (ip : Bytes) (v : View)
      → all_hold (reserve_txn scope name o ip).compares v ≡ false
      → run_txn (reserve_txn scope name o ip) v ≡ v
  unfolding reserve_txn
  reserve_txn-refused ip v e = rw e refl

  reserve_txn-Reserved :
      (ip : Bytes) (v : View) (answer : Bool)
      → Vacant v
      → all_hold (reserve_txn scope name o ip).compares v ≡ answer
      → Reserved ip answer (run_txn (reserve_txn scope name o ip) v)
  reserve_txn-Reserved ip v true ((c, u), vacant) e = (
    (reserve_txn-Consistent scope name o ip v c, reserve_txn-Unleaked scope name o ip v u),
    reserve_txn-holds scope name o ip v e,
  )
  reserve_txn-Reserved ip v false h e = subst Vacant (sym (reserve_txn-refused ip v e)) h

  Reserved-Paired : (ip : Bytes) (answer : Bool) (v : View) → Reserved ip answer v → Paired v
  Reserved-Paired ip true v h = h.0
  Reserved-Paired ip false v h = h.0

  module _ {S : Type 0} (etcd : Etcd S) (laws : IsEtcd etcd) (exhausted : Bytes) where
    reserve-Reserved :
        (ip : Bytes)
        → Hoare etcd.view Vacant (reserve_pod_ip etcd scope name o ip) (Reserved ip) Paired
    unfolding reserve_pod_ip
    reserve-Reserved ip = hoare_wrapping etcd.view (codes "etcd reserve pod ip: ") (
        hoare_commit etcd laws (reserve_txn scope name o ip) (λ v p. p.0)
          (λ v p. Reserved-Paired ip _ _ (reserve_txn-Reserved ip v _ p refl))
          (λ v p. reserve_txn-Reserved ip v _ p refl))

    module _ (Q : Bytes → View → Type 0) where
      -- The pod's own address is empty while it is vacant.
      held_or-Vacant :
          (rest : Call S Bytes) (held : Bytes)
          → Hoare etcd.view Vacant rest Q Paired
          → Hoare etcd.view
              (λ v. Vacant v × (held ≡ value_or_empty (v (pod_ip_pod_key scope name o))))
              (held_or etcd exhausted scope name o rest held)
              Q
              Paired
      held_or-Vacant rest [] h = hoare_given etcd.view (λ v p. p.0) h
      held_or-Vacant rest (b ∷ bs) h = hoare_return etcd.view (b ∷ bs) (λ v p. cc (p.1, p.0.1))

      taken_or-Reserved :
          (ip : Bytes) (rest : Call S Bytes) (answer : Bool)
          → ((v : View) → Paired v × (v (pod_ip_pod_key scope name o) ≡ some ip) → Q ip v)
          → Hoare etcd.view Vacant rest Q Paired
          → Hoare etcd.view
              (Reserved ip answer)
              (taken_or etcd exhausted scope name o ip rest answer)
              Q
              Paired
      taken_or-Reserved ip rest true done h = hoare_return etcd.view ip done
      taken_or-Reserved ip rest false done h =
          hoare_bind etcd.view (get_pod_ip-reads etcd laws scope name o Vacant Paired (λ v p. p.0))
            (λ held. held_or-Vacant rest held h)

    module _ (pool : List ℕ) where
      -- From a pod without an address, the loop over a part of the pool assigns one of the pool.
      draw-Assigned :
          (part : List ℕ)
          → ((a : ℕ) → contains a part ≡ true → contains a pool ≡ true)
          → Hoare etcd.view Vacant
              (draw etcd exhausted scope name o part)
              (λ ip v. Paired v × Assigned pool ip v)
              Paired
      unfolding draw
      draw-Assigned [] sub = hoare_fail etcd.view exhausted (λ v p. p.0)
      draw-Assigned (addr ∷ part) sub =
          hoare_bind etcd.view (reserve-Reserved (print_addr addr)) (λ answer.
            taken_or-Reserved (λ ip v. Paired v × Assigned pool ip v) (print_addr addr) _ answer
              (λ v p. (p.0, (p.1, inl (addr, sub addr (ground arith), refl))))
              (draw-Assigned part (λ a c. sub a (ground (arith, c)))))

      some_value :
          (b : ℕ) (bs : Bytes) (x : Option Bytes) → b ∷ bs ≡ value_or_empty x → x ≡ some (b ∷ bs)
      some_value b bs none e = cc
      some_value b bs (some y) e = cc

      kept_or_drawn-Assigned :
          (held : Bytes)
          → Hoare etcd.view
              (λ v. Paired v × (held ≡ value_or_empty (v (pod_ip_pod_key scope name o))))
              (kept_or_drawn etcd exhausted scope name o pool held)
              (λ ip v. Paired v × Assigned pool ip v)
              Paired
      kept_or_drawn-Assigned [] =
          hoare_given etcd.view (λ v p. (p.0, sym p.1)) (draw-Assigned pool (λ a c. c))
      kept_or_drawn-Assigned (b ∷ bs) = elim (Bool-cases (is_kept pool (b ∷ bs))) [
        | inl kept ↦
            rw kept
              (hoare_return etcd.view (b ∷ bs) (λ v p. (p.0, (some_value b bs _ p.1, inr kept))))
        | inr lost ↦ rw lost (
            hoare_bind etcd.view
              (hoare_given etcd.view (λ v p. p.0) (release_pod_ip-Paired etcd laws scope name o))
              (λ done.
                hoare_given etcd.view (λ v p. (p.0, ap value_or_empty p.1))
                  (draw-Assigned pool (λ a c. c))))
      ]

module _ {S : Type 0} (etcd : Etcd S) (laws : IsEtcd etcd) (scope name : Bytes) (o : ℤ) where
  -- On a network with a pool, addressFor keeps pods and addresses paired, whatever fails; the address
  -- it returns is then the one in the pod's key, and is one of the pool's.
  pub address_for-Assigned :
      (plan : AddressPlan) (pool : List ℕ)
      → fixed_pod_addresses plan ≡ some pool
      → Hoare etcd.view Paired
          (address_for etcd scope name o (some (ok (some plan))))
          (λ ip v. Paired v × Assigned scope name o pool ip v)
          Paired
  unfolding address_for
  address_for-Assigned plan pool e =
      let exhausted = no_address_left etcd scope name o plan in
      rw e (
        hoare_bind etcd.view (get_pod_ip-reads etcd laws scope name o Paired Paired (λ v p. p))
          (kept_or_drawn-Assigned scope name o etcd laws exhausted pool))

  module _ (pool : List ℕ) (held : Bytes) (w : View) (exhausted : Bytes) where
    -- The keys are those of w, and the pod's address was read.
    abbrev Read : Bytes → View → Type 0
    Read read v = (v ≡ w) × (read ≡ value_or_empty (v (pod_ip_pod_key scope name o)))

    reads_held :
        (read : Bytes)
        → w (pod_ip_pod_key scope name o) ≡ some held
        → (v : View) → Read read v
        → read ≡ held
    reads_held read has v (same, e) =
        e ∙ ap (λ u. value_or_empty (u (pod_ip_pod_key scope name o))) same ∙ ap value_or_empty has

    empty_not_kept : is_kept pool [] ≡ false
    unfolding is_kept parse_addr split_byte
    empty_not_kept = refl

    kept_or_drawn-stable :
        (read : Bytes)
        → is_kept pool held ≡ true
        → w (pod_ip_pod_key scope name o) ≡ some held
        → Hoare etcd.view
            (Read read)
            (kept_or_drawn etcd exhausted scope name o pool read)
            (λ ip v. (ip ≡ held) × (v ≡ w))
            (λ v. v ≡ w)
    kept_or_drawn-stable [] kept has =
        hoare_never etcd.view
          (λ v p. cc (ap (is_kept pool) (reads_held [] has v p), kept, empty_not_kept))
    kept_or_drawn-stable (b ∷ bs) kept has = elim (Bool-cases (is_kept pool (b ∷ bs))) [
      | inl here ↦
          rw here (hoare_return etcd.view (b ∷ bs) (λ v p. (reads_held (b ∷ bs) has v p, p.0)))
      | inr lost ↦
          hoare_never etcd.view
            (λ v p. cc (ap (is_kept pool) (reads_held (b ∷ bs) has v p), kept, lost))
    ]

  -- An address of the pool that the pod's key names stays the pod's: addressFor returns it, and changes
  -- no key.
  pub address_for-stable :
      (plan : AddressPlan) (pool : List ℕ) (held : Bytes) (w : View)
      → fixed_pod_addresses plan ≡ some pool
      → is_kept pool held ≡ true
      → w (pod_ip_pod_key scope name o) ≡ some held
      → Hoare etcd.view
          (λ v. v ≡ w)
          (address_for etcd scope name o (some (ok (some plan))))
          (λ ip v. (ip ≡ held) × (v ≡ w))
          (λ v. v ≡ w)
  unfolding address_for
  address_for-stable plan pool held w e kept has =
      let exhausted = no_address_left etcd scope name o plan in
      rw e (
        hoare_bind etcd.view
          (get_pod_ip-reads etcd laws scope name o (λ v. v ≡ w) (λ v. v ≡ w) (λ v p. p))
          (λ read. kept_or_drawn-stable pool held w exhausted read kept has))
