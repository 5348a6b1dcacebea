-- ===== src/Store/Config/Writes.antt =====
-- The loops that write the variables under a prefix.
use clowk_voodu.Base.{
  ◌≡◌, refl, sym, ap, ◌∙◌, inl, inr, Bool, true, Option, none, some, [], ◌∷◌, ◌++◌, if◌then◌else◌,
  Bool-cases, Bytes, eq_bytes,
}
use mathlib.Core.Bool.{true≢false}
use clowk_voodu.Base.Text.{codes}
use clowk_voodu.Base.Text.Laws.{eq_bytes→eq}
use clowk_voodu.Base.Dict.{Dict, lookup, KeysOnce}
use clowk_voodu.Keys.{config_prefix}
use clowk_voodu.Etcd.{View, put_key, delete_key, Call, ◌>>=◌, return}
use clowk_voodu.Etcd.Hoare.{Hoare, hoare_bind, hoare_wrapping, hoare_return, hoare_given}
use clowk_voodu.Etcd.Client.{Client, IsClient, hoare_list, hoare_put, hoare_delete}
use clowk_voodu.Store.Config.{
  is_some, config_from, get_config, delete_var, delete_others, put_var, put_vars, patch_var,
  patch_vars,
}
use clowk_voodu.Store.Config.Under.{
  under, Outside, put-under, delete-under, put-Outside, delete-Outside, Holds, config_from-Holds,
  config_from-KeysOnce, or_else,
}

-- What a patch makes of a value.
abbrev pub patched : Option Bytes → Option Bytes → Option Bytes
patched none v = v
patched (some []) v = none
patched (some (b ∷ x)) v = some (b ∷ x)

module _ {S : Type 0} (client : Client S) (laws : IsClient client) where
  pub get_config-Holds :
      {P E : View → Type 0} (scope name : Bytes)
      → ((v : View) → P v → E v)
      → Hoare client.etcd.view P
          (get_config client scope name)
          (λ m v. (P v × KeysOnce m) × Holds (config_prefix scope name) m v)
          E
  unfolding get_config
  get_config-Holds scope name weak =
      let prefix = config_prefix scope name in
      hoare_bind client.etcd.view
        (hoare_wrapping client.etcd.view (codes "etcd get config: ")
          (hoare_list client laws prefix weak))
        (λ kvs. hoare_return client.etcd.view (config_from prefix kvs []) (λ v h.
          ((h.0, config_from-KeysOnce prefix kvs [] tt), config_from-Holds prefix kvs v h.1)))

  module _ (prefix : Bytes) (u : View) where
    module _ {P R : View → Type 0} (within : (v : View) → P v → Outside prefix u v) where
      pub delete_var-rule :
          (k : Bytes)
          → ((v : View) → P v → R (delete_key (prefix ++ k) v))
          → Hoare client.etcd.view P (delete_var client prefix k) (λ deleted. R) (Outside prefix u)
      delete_var-rule k step = hoare_wrapping client.etcd.view _ (
          hoare_delete client laws (prefix ++ k) within
            (λ v h. delete-Outside prefix v u k (within v h)) (λ deleted v h absent. step v h))

      put_var-rule :
          (k x : Bytes)
          → ((v : View) → P v → R (put_key (prefix ++ k) x v))
          → Hoare client.etcd.view P (put_var client prefix k x) (λ done. R) (Outside prefix u)
      put_var-rule k x step =
          hoare_bind client.etcd.view {Q = λ rev. R}
            (hoare_wrapping client.etcd.view _ (
              hoare_put client laws (prefix ++ k) x within
                (λ v h. put-Outside prefix v u k x (within v h)) (λ rev. step)))
            (λ rev. hoare_return client.etcd.view tt (λ v h. h))

    module _ (vars : Dict Bytes) where
      -- What is neither among the variables nor among those that are left is gone.
      abbrev pub Left : Dict Bytes → View → Type 0
      Left current v =
          (j : Bytes) → lookup j vars ≡ none → lookup j current ≡ none → under prefix v j ≡ none

      Left-kept :
          (k x : Bytes) (current : Dict Bytes) (v : View)
          → is_some (lookup k vars) ≡ true
          → Left ((k, x) ∷ current) v
          → Left current v
      unfolding lookup
      Left-kept k x current v kept h j unset gone = elim (Bool-cases (eq_bytes k j)) [
        | inl same ↦
            let e = ap (λ i. lookup i vars) (eq_bytes→eq k j same) ∙ unset in
            absurd (true≢false (sym kept ∙ ap is_some e))
        | inr other ↦ h j unset (rw other gone)
      ]

      Left-delete :
          (k x : Bytes) (current : Dict Bytes) (v : View)
          → Left ((k, x) ∷ current) v
          → Left current (delete_key (prefix ++ k) v)
      unfolding lookup
      Left-delete k x current v h j unset gone = elim (Bool-cases (eq_bytes k j)) [
        | inl same ↦ delete-under prefix v k j ∙ rw same refl
        | inr other ↦ delete-under prefix v k j ∙ rw other (h j unset (rw other gone))
      ]

      pub delete_others-Left :
          (current : Dict Bytes)
          → Hoare client.etcd.view
              (λ v. Outside prefix u v × Left current v)
              (delete_others client prefix vars current)
              (λ done v. Outside prefix u v × Left [] v)
              (Outside prefix u)
      unfolding delete_others
      delete_others-Left [] = hoare_return client.etcd.view tt (λ v h. h)
      delete_others-Left ((k, x) ∷ current) = elim (Bool-cases (is_some (lookup k vars))) [
        | inl kept ↦ rw kept (
            hoare_given client.etcd.view (λ v h. (h.0, Left-kept k x current v kept h.1))
              (delete_others-Left current))
        | inr gone ↦ rw gone (
            hoare_bind client.etcd.view {Q = λ deleted v. Outside prefix u v × Left current v}
              (delete_var-rule (λ v h. h.0) k
                (λ v h. (delete-Outside prefix v u k h.0, Left-delete k x current v h.1)))
              (λ deleted. delete_others-Left current))
      ]

    module _ (effect : Option Bytes → Option Bytes → Option Bytes) (target : Bytes → Option Bytes)
        (keeps : (v : Option Bytes) → effect none v ≡ v) where
      -- With the effects of the variables that are left the bucket is the target.
      abbrev To : Dict Bytes → View → Type 0
      To vars v = (j : Bytes) → effect (lookup j vars) (under prefix v j) ≡ target j

      To-step :
          (k x : Bytes) (vars : Dict Bytes) (v v' : View)
          → lookup k vars ≡ none
          → ((j : Bytes)
              → under prefix v' j
                ≡ (if eq_bytes k j then effect (some x) (under prefix v j) else under prefix v j))
          → To ((k, x) ∷ vars) v
          → To vars v'
      unfolding lookup
      To-step k x vars v v' once step h j =
          let now : Bool → Option Bytes =
            λ b. effect (if b then some x else lookup j vars) (under prefix v j) in
          elim (Bool-cases (eq_bytes k j)) [
            | inl same ↦
                let gone : lookup j vars ≡ none = rw (sym (eq_bytes→eq k j same)) once in
                rw (gone, step j, same, keeps (effect (some x) (under prefix v j)))
                  (sym (ap now same) ∙ h j)
            | inr other ↦ rw (step j, other) (sym (ap now other) ∙ h j)
          ]

      module _ (write : Bytes → Bytes → Call S (Unit {0})) (all : Dict Bytes → Call S (Unit {0}))
          (none_left : all [] ≡ return tt)
          (one_more : (k x : Bytes) (vars : Dict Bytes)
            → all ((k, x) ∷ vars) ≡ (write k x >>= λ done. all vars))
          (written : (k x : Bytes) (P R : View → Type 0)
            → ((v : View) → P v → Outside prefix u v)
            → ((v v' : View)
                → P v
                → Outside prefix u v'
                → ((j : Bytes)
                    → under prefix v' j ≡ (
                        if eq_bytes k j
                        then effect (some x) (under prefix v j)
                        else under prefix v j))
                → R v')
            → Hoare client.etcd.view P (write k x) (λ done. R) (Outside prefix u)) where
        all-To :
            (vars : Dict Bytes)
            → KeysOnce vars
            → Hoare client.etcd.view
                (λ v. Outside prefix u v × To vars v)
                (all vars)
                (λ done v. Outside prefix u v × ((j : Bytes) → under prefix v j ≡ target j))
                (Outside prefix u)
        unfolding lookup
        all-To [] once =
            rw none_left
              (hoare_return client.etcd.view tt (λ v h. (h.0, λ j. sym (keeps _) ∙ h.1 j)))
        all-To ((k, x) ∷ vars) once = rw (one_more k x vars) (
            hoare_bind client.etcd.view {Q = λ done v. Outside prefix u v × To vars v}
              (written k x _ _ (λ v h. h.0)
                (λ v v' h out step. (out, To-step k x vars v v' once.0 step h.1)))
              (λ done. all-To vars once.1))

    pub put_vars-under :
        (vars : Dict Bytes)
        → KeysOnce vars
        → Hoare client.etcd.view
            (λ v.
              Outside prefix u v
              × ((j : Bytes) → or_else (lookup j vars) (under prefix v j) ≡ lookup j vars))
            (put_vars client prefix vars)
            (λ done v. Outside prefix u v × ((j : Bytes) → under prefix v j ≡ lookup j vars))
            (Outside prefix u)
    unfolding put_vars
    put_vars-under vars once =
        all-To or_else (λ j. lookup j vars) (λ v. refl) (put_var client prefix)
          (put_vars client prefix) refl (λ k x rest. refl)
          (λ k x P R within step.
            put_var-rule within k x (λ v h.
              step v _ h (put-Outside prefix v u k x (within v h)) (put-under prefix v k x)))
          vars once

    patch_var-rule :
        (k x : Bytes) (P R : View → Type 0)
        → ((v : View) → P v → Outside prefix u v)
        → ((v v' : View)
            → P v
            → Outside prefix u v'
            → ((j : Bytes)
                → under prefix v' j ≡ (
                    if eq_bytes k j then patched (some x) (under prefix v j) else under prefix v j))
            → R v')
        → Hoare client.etcd.view P (patch_var client prefix k x) (λ done. R) (Outside prefix u)
    patch_var-rule k [] P R within step =
        hoare_bind client.etcd.view {Q = λ deleted. R}
          (delete_var-rule within k (λ v h.
            step v _ h (delete-Outside prefix v u k (within v h)) (delete-under prefix v k)))
          (λ deleted. hoare_return client.etcd.view tt (λ v h. h))
    patch_var-rule k (b ∷ x) P R within step = put_var-rule within k (b ∷ x) (λ v h.
        step v _ h (put-Outside prefix v u k (b ∷ x) (within v h)) (put-under prefix v k (b ∷ x)))

    pub patch_vars-under :
        (vars : Dict Bytes) (target : Bytes → Option Bytes)
        → KeysOnce vars
        → Hoare client.etcd.view
            (λ v.
              Outside prefix u v
              × ((j : Bytes) → patched (lookup j vars) (under prefix v j) ≡ target j))
            (patch_vars client prefix vars)
            (λ done v. Outside prefix u v × ((j : Bytes) → under prefix v j ≡ target j))
            (Outside prefix u)
    unfolding patch_vars
    patch_vars-under vars target once =
        all-To patched target (λ v. refl) (patch_var client prefix) (patch_vars client prefix) refl
          (λ k x rest. refl) patch_var-rule vars once
