-- ===== src/Etcd/Client.antt =====
-- The other calls of etcd's client: reads with a revision, listings of a prefix, puts and deletes of
-- one key, and of all the keys of a prefix.
use clowk_voodu.Base.{
  ℕ, ◌≡◌, inl, inr, ◌⊎◌, Bool, true, not, Option, none, some, All, if◌then◌else◌, Bytes, Result, ok,
  err,
}
use clowk_voodu.Base.Text.{has_prefix}
use clowk_voodu.Base.Dict.{Dict, lookup}
use clowk_voodu.Etcd.{View, put_key, delete_key, is_absent, Call, Etcd, IsEtcd}
use clowk_voodu.Etcd.Hoare.{Hoare, Ends}

-- A value with the revision that wrote it.
abbrev pub Stored : Type 0
Stored = Bytes × ℕ

abbrev pub value_of : Option Stored → Option Bytes
value_of none = none
value_of (some (v, rev)) = some v

-- Get, Get with a prefix, Put with the revision of its header, and Delete, with whether
-- a key was deleted.
pub record Client (S : Type 0) : Type 0 where
  pub etcd : Etcd S
  pub read : Bytes → Call S (Option Stored)
  pub list : Bytes → Call S (Dict Stored)
  pub put : Bytes → Bytes → Call S ℕ
  pub delete : Bytes → Call S Bool
  pub delete_prefix : Bytes → Call S Bool

unfoldable pub delete_all : Bytes → View → View
delete_all prefix w j = if has_prefix j prefix then none else w j

-- An entry of a listing is a key of the prefix with its value.
abbrev pub IsEntry : Bytes → View → Bytes × Stored → Type 0
IsEntry prefix w (k, (v, rev)) = (has_prefix k prefix ≡ true) × (w k ≡ some v)

-- A listing has the keys of the prefix, each with its value.
pub record IsListing (prefix : Bytes) (kvs : Dict Stored) (w : View) : Type 0 where
  pub entries : All (IsEntry prefix w) kvs
  pub complete :
      (k v : Bytes) → has_prefix k prefix ≡ true → w k ≡ some v → value_of (lookup k kvs) ≡ some v

module _ {S : Type 0} (client : Client S) where
  abbrev pub ReadsValue : View → Bytes → S × Result Bytes (Option Stored) → Type 0
  ReadsValue w k (s, err e) = client.etcd.view s ≡ w
  ReadsValue w k (s, ok r) = (client.etcd.view s ≡ w) × (value_of r ≡ w k)

  abbrev pub ListsAll : View → Bytes → S × Result Bytes (Dict Stored) → Type 0
  ListsAll w p (s, err e) = client.etcd.view s ≡ w
  ListsAll w p (s, ok kvs) = (client.etcd.view s ≡ w) × IsListing p kvs w

  -- A write is atomic; one that failed may have been applied or not. Q is what its answer says of the
  -- keys before.
  abbrev pub Writes :
      {A : Type 0} → (View → View) → (A → View → Type 0) → View → S × Result Bytes A → Type 0
  Writes f Q w (s, err e) = (client.etcd.view s ≡ w) ⊎ (client.etcd.view s ≡ f w)
  Writes f Q w (s, ok a) = (client.etcd.view s ≡ f w) × Q a w

  pub record IsClient : Type 0 where
    pub etcd_law : IsEtcd client.etcd
    pub read_law : (k : Bytes) (s : S) → ReadsValue (client.etcd.view s) k (client.read k s)
    pub list_law : (p : Bytes) (s : S) → ListsAll (client.etcd.view s) p (client.list p s)
    pub put_law :
        (k v : Bytes) (s : S)
        → Writes (put_key k v) (λ rev w. Unit {0}) (client.etcd.view s) (client.put k v s)
    pub delete_law :
        (k : Bytes) (s : S)
        → Writes
            (delete_key k)
            (λ deleted w. is_absent (w k) ≡ not deleted)
            (client.etcd.view s)
            (client.delete k s)
    pub delete_prefix_law :
        (p : Bytes) (s : S)
        → Writes
            (delete_all p)
            (λ (deleted : Bool) w. Unit {0})
            (client.etcd.view s)
            (client.delete_prefix p s)

  module _ (P E : View → Type 0) where
    Ends-ReadsValue :
        (w : View) (k : Bytes) (r : S × Result Bytes (Option Stored))
        → ReadsValue w k r
        → P w
        → ((v : View) → P v → E v)
        → Ends client.etcd.view (λ read v. P v × (value_of read ≡ v k)) E r
    Ends-ReadsValue w k (s, err e) same p weak = rw same (weak w p)
    Ends-ReadsValue w k (s, ok r) (same, read) p weak = rw same (p, read)

    Ends-ListsAll :
        (w : View) (k : Bytes) (r : S × Result Bytes (Dict Stored))
        → ListsAll w k r
        → P w
        → ((v : View) → P v → E v)
        → Ends client.etcd.view (λ kvs v. P v × IsListing k kvs v) E r
    Ends-ListsAll w k (s, err e) same p weak = rw same (weak w p)
    Ends-ListsAll w k (s, ok kvs) (same, lists) p weak = rw same (p, lists)

    Ends-Writes :
        {A : Type 0} (f : View → View) (Q R : A → View → Type 0) (w : View) (r : S × Result Bytes A)
        → Writes f Q w r
        → P w
        → ((v : View) → P v → E v)
        → ((v : View) → P v → E (f v))
        → ((a : A) (v : View) → P v → Q a v → R a (f v))
        → Ends client.etcd.view R E r
    Ends-Writes f Q R w (s, err e) (inl same) p weak failed done = rw same (weak w p)
    Ends-Writes f Q R w (s, err e) (inr applied) p weak failed done = rw applied (failed w p)
    Ends-Writes f Q R w (s, ok a) (applied, answer) p weak failed done =
        rw applied (done a w p answer)

  module _ (laws : IsClient) {P E : View → Type 0} where
    pub hoare_read :
        (k : Bytes)
        → ((v : View) → P v → E v)
        → Hoare client.etcd.view P (client.read k) (λ read v. P v × (value_of read ≡ v k)) E
    hoare_read k weak = record {
      ends = λ s p.
          Ends-ReadsValue P E (client.etcd.view s) k (client.read k s) (laws.read_law k s) p weak;
    }

    pub hoare_list :
        (k : Bytes)
        → ((v : View) → P v → E v)
        → Hoare client.etcd.view P (client.list k) (λ kvs v. P v × IsListing k kvs v) E
    hoare_list k weak = record {
      ends = λ s p.
          Ends-ListsAll P E (client.etcd.view s) k (client.list k s) (laws.list_law k s) p weak;
    }

    pub hoare_put :
        {R : ℕ → View → Type 0} (k v : Bytes)
        → ((w : View) → P w → E w)
        → ((w : View) → P w → E (put_key k v w))
        → ((rev : ℕ) (w : View) → P w → R rev (put_key k v w))
        → Hoare client.etcd.view P (client.put k v) R E
    hoare_put {R = R} k v weak failed done = record {
      ends = λ s p.
          Ends-Writes P E (put_key k v) (λ rev w. Unit {0}) R (client.etcd.view s)
            (client.put k v s) (laws.put_law k v s) p weak failed (λ rev w h u. done rev w h);
    }

    pub hoare_delete :
        {R : Bool → View → Type 0} (k : Bytes)
        → ((w : View) → P w → E w)
        → ((w : View) → P w → E (delete_key k w))
        → ((deleted : Bool) (w : View)
            → P w
            → is_absent (w k) ≡ not deleted
            → R deleted (delete_key k w))
        → Hoare client.etcd.view P (client.delete k) R E
    hoare_delete {R = R} k weak failed done = record {
      ends = λ s p.
          Ends-Writes P E (delete_key k) (λ deleted w. is_absent (w k) ≡ not deleted) R
            (client.etcd.view s) (client.delete k s) (laws.delete_law k s) p weak failed done;
    }

    pub hoare_delete_prefix :
        {R : Bool → View → Type 0} (k : Bytes)
        → ((w : View) → P w → E w)
        → ((w : View) → P w → E (delete_all k w))
        → ((deleted : Bool) (w : View) → P w → R deleted (delete_all k w))
        → Hoare client.etcd.view P (client.delete_prefix k) R E
    hoare_delete_prefix {R = R} k weak failed done = record {
      ends = λ s p.
          Ends-Writes P E (delete_all k) (λ deleted w. Unit {0}) R (client.etcd.view s)
            (client.delete_prefix k s) (laws.delete_prefix_law k s) p weak failed
            (λ deleted w h u. done deleted w h);
    }
