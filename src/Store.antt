-- ===== src/Store.antt =====
-- internal/controller/store.go: manifests and their status in etcd. The children have the configuration,
-- the frozen replicas, and the records of pat_store.go, trigger_store.go and wire_store.go.
--
-- The JSON of a value is a parameter, and so are the times of the clock, as natural numbers.
pub mod Config
pub mod Records
pub mod Json
pub mod Manifests
pub mod Watch
mod Examples
use clowk_voodu.Base.{
  ℕ, Bool, true, false, Option, none, some, List, [], ◌∷◌, ◌++◌, if◌then◌else◌, Bytes, Result, ok,
  err,
}
use clowk_voodu.Base.Text.{codes}
use clowk_voodu.Base.Dict.{Dict}
use clowk_voodu.Keys.{
  Kind, ValidateError, validate, is_scoped, prefix_desired, desired_prefix, scoped_prefix,
  desired_key,
}
use clowk_voodu.Etcd.{Call, ◌>>=◌, return, fail, wrapping}
use clowk_voodu.Etcd.Client.{Client, Stored}

-- json.Marshal and json.Unmarshal at a type.
pub record Codec (A : Type 0) : Type 0 where
  pub encode : A → Result Bytes Bytes
  pub decode : Bytes → Result Bytes A

pub record Metadata : Type 0 where
  pub created_at : ℕ
  pub updated_at : ℕ
  pub revision : ℕ

pub record Manifest : Type 0 where
  pub kind : Kind
  pub scope : Bytes
  pub name : Bytes
  pub spec : Bytes
  pub metadata : Option Metadata

abbrev pub or_no_metadata : Option Metadata → Metadata
or_no_metadata none = record { created_at = 0; updated_at = 0; revision = 0 }
or_no_metadata (some metadata) = metadata

abbrev pub with_revision : ℕ → Manifest → Manifest
with_revision rev m = record m {
  metadata = some (record (or_no_metadata m.metadata) { revision = rev });
}

-- The creation time of a manifest without metadata is now.
abbrev pub metadata_at : ℕ → Option Metadata → Metadata
metadata_at now none = record { created_at = now; updated_at = now; revision = 0 }
metadata_at now (some metadata) = record metadata { updated_at = now }

abbrev pub stamped : ℕ → Manifest → Manifest
stamped now m = record m { metadata = some (metadata_at now m.metadata) }

abbrev pub decoded_with : ℕ → Result Bytes Manifest → Result Bytes Manifest
decoded_with rev (err e) = err e
decoded_with rev (ok m) = ok (with_revision rev m)

unfoldable pub status_key : Kind → Bytes → Bytes
status_key kind name = codes "/status/" ++ kind ++ codes "s/" ++ name

-- return x, err
abbrev pub answer : {S A : Type 0} → Result Bytes A → Call S A
answer (err e) = fail e
answer (ok a) = return a

module _ {S : Type 0} (client : Client S) where
  module _ (codec : Codec Manifest) where
    unfoldable pub decode_manifest : Bytes → ℕ → Result Bytes Manifest
    decode_manifest text rev = decoded_with rev (codec.decode text)

    -- What Put writes, once the manifest is valid.
    abbrev pub put_valid :
        Manifest → Result ValidateError (Unit {0}) → Call S (Result ValidateError Manifest)
    put_valid m (err e) = return (err e)
    put_valid m (ok valid) =
        wrapping (codes "marshal manifest: ") (answer (codec.encode m)) >>= λ text.
        wrapping (codes "etcd put: ") (client.put (desired_key m.kind m.scope m.name) text)
        >>= λ rev. return (ok (with_revision rev m))

    unfoldable pub put_manifest : ℕ → Manifest → Call S (Result ValidateError Manifest)
    unfolding validate desired_key
    put_manifest now m = put_valid (stamped now m) (validate m.kind m.scope m.name)

    abbrev pub decode_read : Option Stored → Call S (Option Manifest)
    decode_read none = return none
    decode_read (some (text, rev)) = answer (decode_manifest text rev) >>= λ m. return (some m)

    unfoldable pub get_manifest : Kind → Bytes → Bytes → Call S (Option Manifest)
    unfolding desired_key decode_manifest
    get_manifest kind scope name =
        wrapping (codes "etcd get: ") (client.read (desired_key kind scope name)) >>= decode_read

    unfoldable pub delete_manifest : Kind → Bytes → Bytes → Call S Bool
    unfolding desired_key
    delete_manifest kind scope name =
        wrapping (codes "etcd delete: ") (client.delete (desired_key kind scope name))

    unfoldable pub decode_all : Dict Stored → Call S (List Manifest)
    unfolding decode_manifest
    decode_all [] = return []
    decode_all ((key, (text, rev)) ∷ kvs) =
        wrapping (codes "decode " ++ key ++ codes ": ") (answer (decode_manifest text rev)) >>= λ m.
        decode_all kvs >>= λ out. return (m ∷ out)

    unfoldable pub list_prefix : Bytes → Call S (List Manifest)
    unfolding decode_all
    list_prefix prefix = wrapping (codes "etcd list: ") (client.list prefix) >>= decode_all

    unfoldable pub list_manifests : Kind → Call S (List Manifest)
    unfolding desired_prefix list_prefix
    list_manifests kind = list_prefix (desired_prefix kind)

    unfoldable pub list_by_scope : Kind → Bytes → Call S (List Manifest)
    unfolding scoped_prefix is_scoped list_prefix list_manifests
    list_by_scope kind scope =
        if is_scoped kind then list_prefix (scoped_prefix kind scope) else list_manifests kind

    unfoldable pub list_all : Call S (List Manifest)
    unfolding list_prefix
    list_all = list_prefix prefix_desired

  unfoldable pub put_status : Kind → Bytes → Bytes → Call S (Unit {0})
  unfolding status_key
  put_status kind name text =
      wrapping (codes "etcd put status: ") (client.put (status_key kind name) text) >>= λ rev.
      return tt

  unfoldable pub get_status : Kind → Bytes → Call S (Option Bytes)
  unfolding status_key
  get_status kind name =
      wrapping (codes "etcd get status: ") (client.etcd.get (status_key kind name))

  unfoldable pub delete_status : Kind → Bytes → Call S (Unit {0})
  unfolding status_key
  delete_status kind name =
      wrapping (codes "etcd delete status: ") (client.delete (status_key kind name)) >>= λ deleted.
      return tt
