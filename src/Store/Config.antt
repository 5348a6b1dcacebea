-- ===== src/Store/Config.antt =====
-- internal/controller/store.go: the configuration of scopes and of the apps in them.
pub mod Under
pub mod Writes
pub mod Buckets
use clowk_voodu.Base.{
  Bool, true, false, Option, none, some, List, [], ◌∷◌, ◌++◌, length, drop, if◌then◌else◌, Bytes,
}
use clowk_voodu.Base.Text.{codes}
use clowk_voodu.Base.Dict.{Dict, lookup, insert}
use clowk_voodu.Keys.{config_prefix, config_key}
use clowk_voodu.Etcd.{Call, ◌>>=◌, return, wrapping}
use clowk_voodu.Etcd.Client.{Client, Stored}

-- _, ok := vars[k]
abbrev pub is_some {ℓ} : {A : Type ℓ} → Option A → Bool
is_some none = false
is_some (some a) = true

-- The loop of GetConfig over the keys of the prefix.
unfoldable pub config_from : Bytes → Dict Stored → Dict Bytes → Dict Bytes
config_from prefix [] out = out
config_from prefix ((k, (v, rev)) ∷ kvs) out =
    config_from prefix kvs (insert (drop (length prefix) k) v out)

-- for k, v := range vars { merged[k] = v }
unfoldable pub merge : Dict Bytes → Dict Bytes → Dict Bytes
merge [] merged = merged
merge ((k, v) ∷ vars) merged = merge vars (insert k v merged)

module _ {S : Type 0} (client : Client S) where
  unfoldable pub get_config : Bytes → Bytes → Call S (Dict Bytes)
  unfolding config_prefix config_from
  get_config scope name =
      let prefix = config_prefix scope name in
      wrapping (codes "etcd get config: ") (client.list prefix) >>= λ kvs.
      return (config_from prefix kvs [])

  abbrev pub delete_var : Bytes → Bytes → Call S Bool
  delete_var prefix k =
      wrapping (codes "etcd delete config " ++ k ++ codes ": ") (client.delete (prefix ++ k))

  -- The keys that are not in vars.
  unfoldable pub delete_others : Bytes → Dict Bytes → Dict Bytes → Call S (Unit {0})
  delete_others prefix vars [] = return tt
  delete_others prefix vars ((k, v) ∷ current) =
      let rest = delete_others prefix vars current in
      if is_some (lookup k vars) then rest else delete_var prefix k >>= λ deleted. rest

  abbrev pub put_var : Bytes → Bytes → Bytes → Call S (Unit {0})
  put_var prefix k v =
      wrapping (codes "etcd put config " ++ k ++ codes ": ") (client.put (prefix ++ k) v) >>= λ rev.
      return tt

  unfoldable pub put_vars : Bytes → Dict Bytes → Call S (Unit {0})
  put_vars prefix [] = return tt
  put_vars prefix ((k, v) ∷ vars) = put_var prefix k v >>= λ done. put_vars prefix vars

  unfoldable pub set_config : Bytes → Bytes → Dict Bytes → Call S (Unit {0})
  unfolding config_prefix get_config delete_others put_vars
  set_config scope name vars = get_config scope name >>= λ current.
      delete_others (config_prefix scope name) vars current >>= λ done.
      put_vars (config_prefix scope name) vars

  -- An empty value removes its key.
  abbrev pub patch_var : Bytes → Bytes → Bytes → Call S (Unit {0})
  patch_var prefix k [] = delete_var prefix k >>= λ deleted. return tt
  patch_var prefix k (b ∷ v) = put_var prefix k (b ∷ v)

  unfoldable pub patch_vars : Bytes → Dict Bytes → Call S (Unit {0})
  patch_vars prefix [] = return tt
  patch_vars prefix ((k, v) ∷ vars) = patch_var prefix k v >>= λ done. patch_vars prefix vars

  unfoldable pub patch_config : Bytes → Bytes → Dict Bytes → Call S (Unit {0})
  unfolding config_prefix patch_vars
  patch_config scope name vars = patch_vars (config_prefix scope name) vars

  unfoldable pub resolve_config : Bytes → Bytes → Call S (Dict Bytes)
  unfolding get_config merge
  resolve_config scope name = get_config scope [] >>= λ scope_level.
      get_config scope name >>= λ app_level. return (merge app_level (merge scope_level []))

  unfoldable pub delete_config_key : Bytes → Bytes → Bytes → Call S Bool
  unfolding config_key
  delete_config_key scope name key =
      wrapping (codes "etcd delete config: ") (client.delete (config_key scope name key))

  unfoldable pub delete_config : Bytes → Bytes → Call S (Unit {0})
  unfolding config_prefix
  delete_config scope name =
      wrapping (codes "etcd delete config bucket: ")
        (client.delete_prefix (config_prefix scope name))
      >>= λ deleted. return tt
