-- ===== src/Store/Config/Buckets.antt =====
-- The configuration in etcd as a bucket of variables for every scope and app.
use clowk_voodu.Base.{
  ◌≡◌, ◌≢◌, refl, sym, ap, ◌∙◌, inl, inr, false, Option, none, some, [], ◌++◌, Bool-cases, Bytes,
}
use clowk_voodu.Base.Text.{codes, has_prefix}
use clowk_voodu.Base.Text.Laws.{Lacks, has_prefix-append}
use clowk_voodu.Base.Dict.{Dict, lookup, KeysOnce}
use clowk_voodu.Keys.{config_prefix, config_key}
use clowk_voodu.Keys.Config.{config_key_injective}
use clowk_voodu.Etcd.{View}
use clowk_voodu.Etcd.Hoare.{
  Hoare, hoare_bind, hoare_wrapping, hoare_return, hoare_given, hoare_weaken,
}
use clowk_voodu.Etcd.Client.{Client, IsClient, hoare_delete_prefix, delete_all}
use clowk_voodu.Store.Config.{merge, set_config, patch_config, resolve_config, delete_config}
use clowk_voodu.Store.Config.Under.{under, Outside, or_else, lookup-merge, has_prefix-split}
use clowk_voodu.Store.Config.Writes.{
  get_config-Holds, delete_others-Left, put_vars-under, patch_vars-under, patched,
}

-- A scope and a name that may have a bucket; the name [] is that of the scope's own.
pub record IsBucket (scope name : Bytes) : Type 0 where
  pub scope_Lacks : Lacks b'/' scope
  pub name_Lacks : Lacks b'/' name
  pub name_not_reserved : name ≢ codes "_"

-- A variable of a bucket.
abbrev pub bucket : View → Bytes → Bytes → Bytes → Option Bytes
bucket w scope name key = w (config_key scope name key)

-- The other buckets are as they were.
abbrev pub OthersKept : Bytes → Bytes → View → View → Type 0
OthersKept scope name w v =
    (s n : Bytes)
    → IsBucket s n
    → (s ≡ scope → n ≢ name)
    → (key : Bytes) → bucket v s n key ≡ bucket w s n key

delete_all-under :
    (prefix : Bytes) (w : View) (key : Bytes) → under prefix (delete_all prefix w) key ≡ none
unfolding delete_all
delete_all-under prefix w key = rw (has_prefix-append prefix key) refl

delete_all-Outside :
    (prefix : Bytes) (u w : View) → Outside prefix u w → Outside prefix u (delete_all prefix w)
unfolding delete_all
delete_all-Outside prefix u w h j out = rw out (h j out)

or_else-none : (v : Option Bytes) → or_else v none ≡ v
or_else-none none = refl
or_else-none (some v) = refl

lookup-merged :
    (scope_level app_level : Dict Bytes) (key : Bytes)
    → KeysOnce scope_level
    → KeysOnce app_level
    → lookup key (merge app_level (merge scope_level []))
      ≡ or_else (lookup key app_level) (lookup key scope_level)
unfolding lookup
lookup-merged scope_level app_level key once_scope once_app =
    lookup-merge app_level (merge scope_level []) key once_app
    ∙ ap (or_else (lookup key app_level))
        (lookup-merge scope_level [] key once_scope ∙ or_else-none (lookup key scope_level))

set_or_absent : (set now : Option Bytes) → (set ≡ none → now ≡ none) → or_else set now ≡ set
set_or_absent none now gone = gone refl
set_or_absent (some v) now gone = refl

module _ (scope name : Bytes) (is : IsBucket scope name) where
  other_prefix :
      (s n key : Bytes)
      → IsBucket s n
      → (s ≡ scope → n ≢ name)
      → has_prefix (config_key s n key) (config_prefix scope name) ≡ false
  unfolding config_key
  other_prefix s n key at other =
      elim (Bool-cases (has_prefix (config_key s n key) (config_prefix scope name))) [
        | inr out ↦ out
        | inl within ↦
            let whole = has_prefix-split (config_key s n key) (config_prefix scope name) within in
            let (scopes, names, keys) =
              config_key_injective s scope n name key _ at.scope_Lacks is.scope_Lacks at.name_Lacks
                is.name_Lacks at.name_not_reserved is.name_not_reserved whole in
            absurd (other scopes names)
      ]

  Outside-OthersKept :
      (w v : View) → Outside (config_prefix scope name) w v → OthersKept scope name w v
  Outside-OthersKept w v h s n at other key = h (config_key s n key) (other_prefix s n key at other)

  module _ {S : Type 0} (client : Client S) (laws : IsClient client) (w : View) where
    unchanged : (v : View) → v ≡ w → Outside (config_prefix scope name) w v
    unchanged v e j out = ap (λ (u : View). u j) e

    -- From the keys w, SetConfig with a map leaves the bucket with exactly the map's variables and the
    -- other buckets as they were; where it fails, the other buckets are as they were.
    pub set_config-bucket :
        (vars : Dict Bytes)
        → KeysOnce vars
        → Hoare client.etcd.view
            (λ v. v ≡ w)
            (set_config client scope name vars)
            (λ done v.
              ((key : Bytes) → bucket v scope name key ≡ lookup key vars)
              × OthersKept scope name w v)
            (OthersKept scope name w)
    unfolding set_config config_key lookup
    set_config-bucket vars once =
        let prefix = config_prefix scope name in
        hoare_weaken client.etcd.view
          (hoare_bind client.etcd.view (get_config-Holds client laws scope name unchanged)
            (λ current.
              hoare_bind client.etcd.view
                (hoare_given client.etcd.view
                  (λ v h. (unchanged v h.0.0, λ j unset gone. sym (h.1 j) ∙ gone))
                  (delete_others-Left client laws prefix w vars current))
                (λ done.
                  hoare_given client.etcd.view
                    (λ v h. (
                      h.0,
                      λ j.
                          set_or_absent (lookup j vars) (under prefix v j)
                            (λ unset. h.1 j unset refl),
                    ))
                    (put_vars-under client laws prefix w vars once))))
          (λ done v h. (h.1, Outside-OthersKept w v h.0)) (λ v h. Outside-OthersKept w v h)

    -- From the keys w, PatchConfig with a map sets the variables that have a value in the map, removes
    -- those whose value is empty, and leaves the rest of the bucket and the other buckets as they
    -- were; where it fails, the other buckets are as they were.
    pub patch_config-bucket :
        (vars : Dict Bytes)
        → KeysOnce vars
        → Hoare client.etcd.view
            (λ v. v ≡ w)
            (patch_config client scope name vars)
            (λ done v.
              ((key : Bytes)
                → bucket v scope name key ≡ patched (lookup key vars) (bucket w scope name key))
              × OthersKept scope name w v)
            (OthersKept scope name w)
    unfolding patch_config config_key
    patch_config-bucket vars once =
        let prefix = config_prefix scope name in
        let target : Bytes → Option Bytes = λ j. patched (lookup j vars) (under prefix w j) in
        hoare_weaken client.etcd.view
          (hoare_given client.etcd.view
            (λ v e.
              (unchanged v e, λ j. ap (λ (u : View). patched (lookup j vars) (u (prefix ++ j))) e))
            (patch_vars-under client laws prefix w vars target once))
          (λ done v h. (h.1, Outside-OthersKept w v h.0)) (λ v h. Outside-OthersKept w v h)

    -- DeleteConfig empties the bucket and leaves the others.
    pub delete_config-bucket :
        Hoare client.etcd.view
          (λ v. v ≡ w)
          (delete_config client scope name)
          (λ done v. ((key : Bytes) → bucket v scope name key ≡ none) × OthersKept scope name w v)
          (OthersKept scope name w)
    unfolding delete_config config_key
    delete_config-bucket =
        let prefix = config_prefix scope name in
        hoare_bind client.etcd.view
          {Q = λ deleted v. ((key : Bytes) → under prefix v key ≡ none) × OthersKept scope name w v}
          (hoare_wrapping client.etcd.view (codes "etcd delete config bucket: ") (
            hoare_delete_prefix client laws prefix (λ v e. Outside-OthersKept w v (unchanged v e))
              (λ v e.
                Outside-OthersKept w (delete_all prefix v)
                  (delete_all-Outside prefix w v (unchanged v e)))
              (λ deleted v e. (
                delete_all-under prefix v,
                Outside-OthersKept w (delete_all prefix v)
                    (delete_all-Outside prefix w v (unchanged v e)),
              ))))
          (λ deleted. hoare_return client.etcd.view tt (λ v h. h))

module _ {S : Type 0} (client : Client S) (laws : IsClient client) (scope name : Bytes)
    (w : View) where
  -- From the keys w, ResolveConfig returns the variables of the app's bucket and, where that has
  -- none of the name, those of the scope's own; it changes no key.
  pub resolve_config-bucket :
      Hoare client.etcd.view
        (λ v. v ≡ w)
        (resolve_config client scope name)
        (λ m v.
          (v ≡ w)
          × ((key : Bytes)
              → lookup key m ≡ or_else (bucket w scope name key) (bucket w scope [] key)))
        (λ v. v ≡ w)
  unfolding resolve_config config_key
  resolve_config-bucket =
      hoare_bind client.etcd.view (get_config-Holds client laws scope [] (λ v e. e)) (λ scope_level.
        hoare_bind client.etcd.view (get_config-Holds client laws scope name (λ v h. h.0.0))
          (λ app_level.
            hoare_return client.etcd.view (merge app_level (merge scope_level [])) (λ v h. (
              h.0.0.0.0,
              λ key.
                  lookup-merged scope_level app_level key h.0.0.0.1 h.0.1
                  ∙ rw (h.1 key, h.0.0.1 key, h.0.0.0.0) refl,
            ))))
