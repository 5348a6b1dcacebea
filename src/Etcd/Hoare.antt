-- ===== src/Etcd/Hoare.antt =====
-- The calls of etcd in chains: what each of them makes of the keys.
pub use clowk_voodu.Calls.Hoare.{
  Ends, Hoare, hoare_bind, hoare_wrapping, hoare_return, hoare_fail, hoare_never, hoare_weaken,
  hoare_assume, hoare_given,
}
use clowk_voodu.Base.{◌≡◌, inl, inr, Bool, Option, List, Bytes, Result, ok, err}
use clowk_voodu.Etcd.{View, Txn, Etcd, IsEtcd, all_hold, run_txn, Reads, Lists, Commits}

module _ {S : Type 0} (etcd : Etcd S) where
  module _ (P E : View → Type 0) where
    Ends-Reads :
        (w : View) (k : Bytes) (r : S × Result Bytes (Option Bytes))
        → Reads etcd w k r
        → P w
        → ((v : View) → P v → E v)
        → Ends etcd.view (λ read v. P v × (read ≡ v k)) E r
    Ends-Reads w k (s, err e) same p weak = rw same (weak w p)
    Ends-Reads w k (s, ok r) (same, read) p weak = rw same (p, read)

    Ends-Lists :
        (w : View) (r : S × Result Bytes (List Bytes))
        → Lists etcd w r
        → P w
        → ((v : View) → P v → E v)
        → Ends etcd.view (λ names. P) E r
    Ends-Lists w (s, err e) same p weak = rw same (weak w p)
    Ends-Lists w (s, ok r) same p weak = rw same p

    Ends-Commits :
        (Q : Bool → View → Type 0) (t : Txn) (w : View) (r : S × Result Bytes Bool)
        → Commits etcd w t r
        → P w
        → ((v : View) → P v → E v)
        → ((v : View) → P v → E (run_txn t v))
        → ((v : View) → P v → Q (all_hold t.compares v) (run_txn t v))
        → Ends etcd.view Q E r
    Ends-Commits Q t w (s, err e) (inl same) p weak failed done = rw same (weak w p)
    Ends-Commits Q t w (s, err e) (inr applied) p weak failed done = rw applied (failed w p)
    Ends-Commits Q t w (s, ok b) (answer, applied) p weak failed done =
        rw (answer, applied) (done w p)

  module _ (laws : IsEtcd etcd) {P E : View → Type 0} where
    pub hoare_get :
        (k : Bytes)
        → ((v : View) → P v → E v)
        → Hoare etcd.view P (etcd.get k) (λ read v. P v × (read ≡ v k)) E
    hoare_get k weak = record {
      ends = λ s p. Ends-Reads P E (etcd.view s) k (etcd.get k s) (laws.get_law k s) p weak;
    }

    pub hoare_keys :
        (k : Bytes) → ((v : View) → P v → E v) → Hoare etcd.view P (etcd.keys k) (λ names. P) E
    hoare_keys k weak = record {
      ends = λ s p. Ends-Lists P E (etcd.view s) (etcd.keys k s) (laws.keys_law k s) p weak;
    }

    module _ {Q : Bool → View → Type 0} (t : Txn) where
      pub hoare_commit :
          ((v : View) → P v → E v)
          → ((v : View) → P v → E (run_txn t v))
          → ((v : View) → P v → Q (all_hold t.compares v) (run_txn t v))
          → Hoare etcd.view P (etcd.commit t) Q E
      hoare_commit weak failed done = record {
        ends = λ s p.
            Ends-Commits P E Q t (etcd.view s) (etcd.commit t s) (laws.commit_law t s) p weak failed
              done;
      }
