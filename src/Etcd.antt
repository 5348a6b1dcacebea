-- ===== src/Etcd.antt =====
-- What the store uses of etcd's client (go.etcd.io/etcd/client/v3): reads, listings of keys and
-- transactions. The client is a parameter; `IsEtcd` states what its documentation says of it.
pub mod Hoare
pub mod Client
pub mod Memory
use clowk_voodu.Base.{
  ◌≡◌, ◌⊎◌, Bool, true, false, ◌&&◌, Option, none, some, List, [], ◌∷◌, ◌++◌, if◌then◌else◌, Bytes,
  eq_bytes, Result, ok, err,
}
unfoldable pub use clowk_voodu.Calls.{Call, call_after, ◌>>=◌, return, fail, wrapped, wrapping}

-- The keys and their values.
abbrev pub View : Type 0
View = Bytes → Option Bytes

unfoldable pub put_key : Bytes → Bytes → View → View
put_key k v w j = if eq_bytes k j then some v else w j

unfoldable pub delete_key : Bytes → View → View
delete_key k w j = if eq_bytes k j then none else w j

-- Compare(CreateRevision(k), "=", 0) and Compare(Value(k), "=", v)
pub data Compare : Type 0 where
  absent : Bytes → Compare
  equals : Bytes → Bytes → Compare

pub data Op : Type 0 where
  op_put : Bytes → Bytes → Op
  op_delete : Bytes → Op

pub record Txn : Type 0 where
  pub compares : List Compare
  pub then_ops : List Op
  pub else_ops : List Op

abbrev pub is_absent : Option Bytes → Bool
is_absent none = true
is_absent (some v) = false

abbrev pub is_value : Bytes → Option Bytes → Bool
is_value v none = false
is_value v (some u) = eq_bytes u v

abbrev pub holds : Compare → View → Bool
holds (absent k) w = is_absent (w k)
holds (equals k v) w = is_value v (w k)

abbrev pub all_hold : List Compare → View → Bool
all_hold [] w = true
all_hold (c ∷ cs) w = holds c w && all_hold cs w

abbrev pub apply_ops : List Op → View → View
apply_ops [] w = w
apply_ops (op_put k v ∷ ops) w = apply_ops ops (put_key k v w)
apply_ops (op_delete k ∷ ops) w = apply_ops ops (delete_key k w)

-- What a committed transaction leaves.
abbrev pub run_txn : Txn → View → View
run_txn t w = apply_ops (if all_hold t.compares w then t.then_ops else t.else_ops) w

-- The client: Get of one key, Get with a prefix and keys only, and Txn with its Succeeded.
pub record Etcd (S : Type 0) : Type 0 where
  pub view : S → View
  pub get : Bytes → Call S (Option Bytes)
  pub keys : Bytes → Call S (List Bytes)
  pub commit : Txn → Call S Bool

module _ {S : Type 0} (etcd : Etcd S) where
  -- A read leaves the keys, and returns the value of the key if it does not fail.
  abbrev pub Reads : View → Bytes → S × Result Bytes (Option Bytes) → Type 0
  Reads w k (s, err e) = etcd.view s ≡ w
  Reads w k (s, ok r) = (etcd.view s ≡ w) × (r ≡ w k)

  abbrev pub Lists : View → S × Result Bytes (List Bytes) → Type 0
  Lists w (s, r) = etcd.view s ≡ w

  -- A transaction is atomic; one that failed may have been applied or not.
  abbrev pub Commits : View → Txn → S × Result Bytes Bool → Type 0
  Commits w t (s, err e) = (etcd.view s ≡ w) ⊎ (etcd.view s ≡ run_txn t w)
  Commits w t (s, ok b) = (b ≡ all_hold t.compares w) × (etcd.view s ≡ run_txn t w)

  pub record IsEtcd : Type 0 where
    pub get_law : (k : Bytes) (s : S) → Reads (etcd.view s) k (etcd.get k s)
    pub keys_law : (k : Bytes) (s : S) → Lists (etcd.view s) (etcd.keys k s)
    pub commit_law : (t : Txn) (s : S) → Commits (etcd.view s) t (etcd.commit t s)
