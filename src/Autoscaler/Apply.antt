-- ===== src/Autoscaler/Apply.antt =====
-- internal/controller/autoscaler.go: StoreReplicasApplier, which writes a replica count into the
-- manifest in the store. The JSON of a spec is a parameter.
pub mod Preserved
use clowk_voodu.Base.{ℕ, Option, none, some, ◌++◌, Bytes, Result, ok, err}
use clowk_voodu.Base.Text.{ℤ, codes}
use clowk_voodu.Base.Dict.{Dict, insert}
use clowk_voodu.Keys.{ValidateError}
use clowk_voodu.Etcd.{Call, ◌>>=◌, return, fail, wrapping}
use clowk_voodu.Etcd.Client.{Client}
use clowk_voodu.Store.{Codec, Manifest, answer, get_manifest, put_manifest}

-- JSON values as map[string]any; `none` is null, which leaves the map nil.
pub record Json (J : Type 0) : Type 0 where
  pub unmarshal : Bytes → Result Bytes (Option (Dict J))
  pub marshal : Dict J → Result Bytes Bytes
  pub number : ℤ → J

-- There is no manifest, it was written, it was refused by its validation, or the assignment to
-- a nil map panics.
pub data Applied : Type 0 where
  missing written panicked : Applied
  invalid : ValidateError → Applied

abbrev pub applied_put : Result ValidateError Manifest → Applied
applied_put (err e) = invalid e
applied_put (ok m) = written

module _ {S J : Type 0} (client : Client S) (codec : Codec Manifest) (json : Json J) (now : ℕ) where
  abbrev pub write_spec : Manifest → Bytes → Call S Applied
  write_spec m new_spec =
      wrapping (codes "put manifest: ")
        (put_manifest client codec now (record m { spec = new_spec }))
      >>= λ done. return (applied_put done)

  abbrev pub replace_replicas : ℤ → Manifest → Result Bytes (Option (Dict J)) → Call S Applied
  replace_replicas replicas m (err e) = fail (codes "unmarshal spec: " ++ e)
  replace_replicas replicas m (ok none) = return panicked
  replace_replicas replicas m (ok (some spec)) =
      wrapping (codes "marshal spec: ")
        (answer (json.marshal (insert (codes "replicas") (json.number replicas) spec)))
      >>= write_spec m

  abbrev pub replace_found : ℤ → Option Manifest → Call S Applied
  replace_found replicas none = return missing
  replace_found replicas (some m) = replace_replicas replicas m (json.unmarshal m.spec)

  unfoldable pub set_replicas : Bytes → Bytes → ℤ → Call S Applied
  unfolding get_manifest put_manifest
  set_replicas scope name replicas =
      wrapping (codes "get manifest: ") (get_manifest client codec (codes "deployment") scope name)
      >>= replace_found replicas
