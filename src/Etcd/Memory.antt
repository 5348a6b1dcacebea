-- ===== src/Etcd/Memory.antt =====
-- A store of keys in memory that never fails, to run the calls on.
use clowk_voodu.Base.{
  ◌≡◌, refl, sym, ap, ◌∙◌, fun_ext, Bool, true, false, not, Option, none, some, List, [], ◌∷◌, All,
  inl, inr, if◌then◌else◌, Bool-cases, Option-cases, Bytes, eq_bytes, ok,
}
use clowk_voodu.Base.Text.{has_prefix}
use clowk_voodu.Base.Text.Laws.{eq_bytes→eq}
use clowk_voodu.Base.Dict.{
  Dict, lookup, insert, delete, keep_keys, lookup-insert, lookup-delete, lookup-keep_keys,
}
use clowk_voodu.Etcd.{
  View, put_key, delete_key, Op, op_put, op_delete, is_absent, all_hold, apply_ops, IsEtcd,
}
use clowk_voodu.Etcd.Client.{Stored, value_of, Client, delete_all, IsEntry, IsClient}

abbrev pub seen : Dict Bytes → View
seen s k = lookup k s

abbrev put_op : Op → Dict Bytes → Dict Bytes
put_op (op_put k v) s = insert k v s
put_op (op_delete k) s = delete k s

abbrev put_ops : List Op → Dict Bytes → Dict Bytes
put_ops [] s = s
put_ops (op ∷ ops) s = put_ops ops (put_op op s)

abbrev keys_of : Dict Bytes → List Bytes
keys_of [] = []
keys_of ((k, v) ∷ s) = k ∷ keys_of s

abbrev emit : Bytes → Option Bytes → Dict Stored → Dict Stored
emit k none rest = rest
emit k (some v) rest = (k, (v, 1)) ∷ rest

-- The keys of s with the prefix, each with its value in all.
unfoldable pub listing : Bytes → Dict Bytes → Dict Bytes → Dict Stored
listing p all [] = []
listing p all ((k, v) ∷ s) =
    let rest = listing p all s in if has_prefix k p then emit k (lookup k all) rest else rest

abbrev stored : Option Bytes → Option Stored
stored none = none
stored (some v) = some (v, 1)

abbrev pub memory : Client (Dict Bytes)
memory = record {
  etcd = record {
    view = seen;
    get = λ k s. (s, ok (lookup k s));
    keys = λ p s. (s, ok (keys_of (keep_keys (λ k. has_prefix k p) s)));
    commit = λ t s. (
      put_ops (if all_hold t.compares (seen s) then t.then_ops else t.else_ops) s,
      ok (all_hold t.compares (seen s)),
    );
  };
  read = λ k s. (s, ok (stored (lookup k s)));
  list = λ p s. (s, ok (listing p s s));
  put = λ k v s. (insert k v s, ok 1);
  delete = λ k s. (delete k s, ok (not (is_absent (lookup k s))));
  delete_prefix = λ p s. (keep_keys (λ k. not (has_prefix k p)) s, ok true);
}

insert-seen : (k v : Bytes) (s : Dict Bytes) → seen (insert k v s) ≡ put_key k v (seen s)
unfolding put_key
insert-seen k v s = fun_ext (λ j. lookup-insert k j v s)

delete-seen : (k : Bytes) (s : Dict Bytes) → seen (delete k s) ≡ delete_key k (seen s)
unfolding delete_key
delete-seen k s = fun_ext (λ j. lookup-delete k j s)

put_ops-seen : (ops : List Op) (s : Dict Bytes) → seen (put_ops ops s) ≡ apply_ops ops (seen s)
put_ops-seen [] s = refl
put_ops-seen (op_put k v ∷ ops) s =
    put_ops-seen ops (insert k v s) ∙ ap (apply_ops ops) (insert-seen k v s)
put_ops-seen (op_delete k ∷ ops) s =
    put_ops-seen ops (delete k s) ∙ ap (apply_ops ops) (delete-seen k s)

stored-value : (o : Option Bytes) → value_of (stored o) ≡ o
stored-value none = refl
stored-value (some v) = refl

keep_keys-seen :
    (p : Bytes) (s : Dict Bytes)
    → seen (keep_keys (λ k. not (has_prefix k p)) s) ≡ delete_all p (seen s)
unfolding delete_all
keep_keys-seen p s =
    fun_ext (λ j.
      lookup-keep_keys (λ k. not (has_prefix k p)) j s ∙ flipped (has_prefix j p) (lookup j s))
  where
    flipped : (b : Bool) (o : Option Bytes) → (if not b then o else none) ≡ (if b then none else o)
    flipped true o = refl
    flipped false o = refl

module _ (p : Bytes) (all : Dict Bytes) where
  listing-IsEntry : (s : Dict Bytes) → All (IsEntry p (seen all)) (listing p all s)
  unfolding listing
  listing-IsEntry [] = tt
  listing-IsEntry ((k, v) ∷ s) = elim (Bool-cases (has_prefix k p)) [
    | inr out ↦ rw out (listing-IsEntry s)
    | inl within ↦ elim (Option-cases (lookup k all)) [
      | inl e ↦ rw (within, e) (listing-IsEntry s)
      | inr (x, e) ↦ rw (within, e) ((within, e), listing-IsEntry s)
    ]
  ]

  lookup-emit :
      (k j : Bytes) (b : Bool) (o : Option Bytes) (rest : Dict Stored)
      → eq_bytes j k ≡ false
      → lookup k (if b then emit j o rest else rest) ≡ lookup k rest
  unfolding lookup
  lookup-emit k j false o rest other = refl
  lookup-emit k j true none rest other = refl
  lookup-emit k j true (some v) rest other = rw other refl

  lookup-listing :
      (k v : Bytes) (s : Dict Bytes)
      → has_prefix k p ≡ true
      → lookup k all ≡ some v
      → is_absent (lookup k s) ≡ false
      → value_of (lookup k (listing p all s)) ≡ some v
  unfolding listing lookup
  lookup-listing k v [] within here there = cc
  lookup-listing k v ((j, u) ∷ s) within here there = elim (Bool-cases (eq_bytes j k)) [
    | inl same ↦
        let e = eq_bytes→eq j k same in
        let within' = ap (λ i. has_prefix i p) e ∙ within in
        let here' = ap (λ i. lookup i all) e ∙ here in rw (within', here', same) refl
    | inr other ↦
        ap value_of (lookup-emit k j (has_prefix j p) (lookup j all) (listing p all s) other)
        ∙ lookup-listing k v s within here
            (sym (ap (λ b. is_absent (if b then some u else lookup k s)) other) ∙ there)
  ]

double_not : (b : Bool) → b ≡ not (not b)
double_not true = refl
double_not false = refl

pub memory-IsEtcd : IsEtcd memory.etcd
memory-IsEtcd = record {
  get_law = λ k s. (refl, refl);
  keys_law = λ p s. refl;
  commit_law = λ t s.
      (refl, put_ops-seen (if all_hold t.compares (seen s) then t.then_ops else t.else_ops) s);
}

pub memory-IsClient : IsClient memory
memory-IsClient = record {
  etcd_law = memory-IsEtcd;
  read_law = λ k s. (refl, stored-value (lookup k s));
  list_law = λ p s. (
    refl,
    record {
      entries = listing-IsEntry p s s;
      complete = λ k v within here. lookup-listing p s k v s within here (ap is_absent here);
    },
  );
  put_law = λ k v s. (insert-seen k v s, tt);
  delete_law = λ k s. (delete-seen k s, double_not (is_absent (lookup k s)));
  delete_prefix_law = λ p s. (keep_keys-seen p s, tt);
}
