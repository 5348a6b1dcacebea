-- ===== src/Store/Examples.antt =====
-- The store on keys in memory.
use clowk_voodu.Base.{
  some, ◌≡◌, refl, sym, ap, ◌∙◌, none, List, [], ◌∷◌, Bytes, eq_bytes, Result, ok, err,
}
use clowk_voodu.Base.Text.{codes, has_prefix, cut_byte, to_lower}
use clowk_voodu.Base.Dict.{Dict, lookup, insert, delete, KeysOnce}
use clowk_voodu.Keys.{
  valid_kind, is_scoped, parse_kind, validate, desired_prefix, scoped_prefix, desired_key,
  parse_desired_key, config_prefix,
}
use clowk_voodu.Etcd.{◌>>=◌, return, fail, wrapping}
use clowk_voodu.Etcd.Hoare.{Hoare}
use clowk_voodu.Etcd.Memory.{memory, memory-IsClient, seen, listing}
use clowk_voodu.Store.{Codec, Manifest, put_manifest, get_manifest}
use clowk_voodu.Reconciler.{watch_put}
use clowk_voodu.Store.Watch.{event_put, watched}
use clowk_voodu.Store.Watch.Delivery.{put_watched}
use clowk_voodu.Store.{with_revision}
use clowk_voodu.Store.Json.{Elsewhere}
use clowk_voodu.Store.Config.{
  config_from, merge, get_config, set_config, patch_vars, patch_config, resolve_config,
}
use clowk_voodu.Store.Config.Under.{or_else}
use clowk_voodu.Store.Config.Writes.{patched}
use clowk_voodu.Store.Config.Buckets.{
  IsBucket, bucket, OthersKept, set_config-bucket, patch_config-bucket, resolve_config-bucket,
}
use clowk_voodu.Store.Records.{Pat, pat_key, frozen_key, get_frozen, set_frozen}
use clowk_voodu.Store.Records.ReadBack.{NamedPat, get_frozen-set_frozen}
use clowk_voodu.Store.Manifests.{ReadBack, get_manifest-put_manifest}

abbrev shop : Bytes
shop = codes "shop"

abbrev web : Bytes
web = codes "web"

-- The scope's own port, which the app overrides, and an old variable of the app.
abbrev start : Dict Bytes
start =
    (codes "/config/shop/_/PORT", codes "80")
    ∷ (codes "/config/shop/web/OLD", codes "1")
    ∷ (codes "/config/shop/web/PORT", codes "8080")
    ∷ []

abbrev vars : Dict Bytes
vars = (codes "PORT", codes "3000") ∷ (codes "OLD", []) ∷ []

vars_once : KeysOnce vars
unfolding lookup eq_bytes
vars_once = (refl, (refl, tt))

web-IsBucket : IsBucket shop web
web-IsBucket = record {
  scope_Lacks = (refl, (refl, (refl, (refl, tt))));
  name_Lacks = (refl, (refl, (refl, tt)));
  name_not_reserved = λ e. cc;
}

set_config-bucket_example :
    Hoare memory.etcd.view
      (λ v. v ≡ seen start)
      (set_config memory shop web vars)
      (λ done v.
        ((key : Bytes) → bucket v shop web key ≡ lookup key vars)
        × OthersKept shop web (seen start) v)
      (OthersKept shop web (seen start))
set_config-bucket_example =
    set_config-bucket shop web web-IsBucket memory memory-IsClient (seen start) vars vars_once

patch_config-bucket_example :
    Hoare memory.etcd.view
      (λ v. v ≡ seen start)
      (patch_config memory shop web vars)
      (λ done v.
        ((key : Bytes)
          → bucket v shop web key ≡ patched (lookup key vars) (bucket (seen start) shop web key))
        × OthersKept shop web (seen start) v)
      (OthersKept shop web (seen start))
patch_config-bucket_example =
    patch_config-bucket shop web web-IsBucket memory memory-IsClient (seen start) vars vars_once

resolve_config-bucket_example :
    Hoare memory.etcd.view
      (λ v. v ≡ seen start)
      (resolve_config memory shop web)
      (λ m v.
        (v ≡ seen start)
        × ((key : Bytes)
            → lookup key m
              ≡ or_else (bucket (seen start) shop web key) (bucket (seen start) shop [] key)))
      (λ v. v ≡ seen start)
resolve_config-bucket_example = resolve_config-bucket memory memory-IsClient shop web (seen start)

-- The patched app has its new port and no old variable.
patched_and_resolved :
    ((patch_config memory shop web vars >>= λ done. resolve_config memory shop web) start).1
    ≡ ok ((codes "PORT", codes "3000") ∷ [])
unfolding ◌>>=◌ return fail wrapping patch_config patch_vars resolve_config get_config config_prefix
    config_from merge insert delete lookup eq_bytes listing has_prefix
patched_and_resolved = refl

-- Lists of one replica as their identifier.
abbrev encode_ids : List Bytes → Result Bytes Bytes
encode_ids [] = err []
encode_ids (id ∷ []) = ok id
encode_ids (id ∷ other ∷ ids) = err []

abbrev one_id : Codec (List Bytes)
one_id = record { encode = encode_ids; decode = λ text. ok (text ∷ []) }

encode_ids_back :
    (ids : List Bytes) (text : Bytes) → encode_ids ids ≡ ok text → one_id.decode text ≡ ok ids
encode_ids_back [] text e = cc
encode_ids_back (id ∷ []) text e = cc
encode_ids_back (id ∷ other ∷ ids) text e = cc

get_frozen-set_frozen_example :
    Hoare memory.etcd.view
      (λ v. v ≡ seen start)
      (set_frozen memory one_id (codes "statefulset") shop web (codes "2" ∷ []) >>= λ done.
        get_frozen memory one_id (codes "statefulset") shop web)
      (λ got v. got ≡ codes "2" ∷ [])
      (Elsewhere (frozen_key (codes "statefulset") shop web) (seen start))
get_frozen-set_frozen_example =
    get_frozen-set_frozen memory memory-IsClient one_id (record { read_back = encode_ids_back })
      (codes "statefulset") shop web (seen start) (codes "2" ∷ [])

-- A token as its time and its identifier.
abbrev encode_pat : Pat → Bytes → Result Bytes Bytes
encode_pat p [] = ok (p.last_used_at ∷ p.id)
encode_pat p (b ∷ rest) = err []

abbrev decode_pat : Bytes → Result Bytes Pat
decode_pat [] = err []
decode_pat (at ∷ id) = ok (record { id = id; last_used_at = at; rest = [] })

abbrev timed : Codec Pat
timed = record { encode = λ p. encode_pat p p.rest; decode = decode_pat }

abbrev bare : Pat → Pat
bare p = record p { rest = [] }

encode_pat_back :
    (p : Pat) (rest text : Bytes) → encode_pat p rest ≡ ok text → decode_pat text ≡ ok (bare p)
encode_pat_back p [] text e = let texts : p.last_used_at ∷ p.id ≡ text = cc in rw (sym texts) refl
encode_pat_back p (b ∷ rest) text e = cc

abbrev tokens : Dict Bytes
tokens = (codes "/pats/a1", 5 ∷ codes "a1") ∷ []

own_id : NamedPat timed (codes "a1") (seen tokens)
unfolding pat_key lookup eq_bytes
own_id p (text, held, decoded) =
    let texts : 5 ∷ codes "a1" ≡ text = cc in
    let token : ok (record { id = codes "a1"; last_used_at = 5; rest = [] }) ≡ ok p =
      ap decode_pat texts ∙ decoded in
    cc

-- A deployment as its name, in the one scope.
abbrev deployment : Bytes → Manifest
deployment name = record {
  kind = codes "deployment";
  scope = shop;
  name = name;
  spec = [];
  metadata = none;
}

abbrev by_name : Codec Manifest
by_name = record { encode = λ m. ok m.name; decode = λ text. ok (deployment text) }

by_name_back :
    (m : Manifest) (text : Bytes)
    → by_name.encode m ≡ ok text
    → by_name.decode text ≡ ok (deployment m.name)
by_name_back m text e = let names : m.name ≡ text = cc in rw (sym names) refl

get_manifest-put_manifest_example :
    Hoare memory.etcd.view
      (λ v. v ≡ seen start)
      (put_manifest memory by_name 7 (deployment web) >>= λ r.
        get_manifest memory by_name (codes "deployment") shop web >>= λ got. return (r, got))
      (ReadBack memory memory-IsClient by_name 7
        (deployment web)
        (λ m. deployment m.name)
        (seen start))
      (Elsewhere (desired_key (codes "deployment") shop web) (seen start))
get_manifest-put_manifest_example =
    get_manifest-put_manifest memory memory-IsClient by_name 7 (deployment web)
      (λ m. deployment m.name) (record { read_back = by_name_back }) (seen start)

-- A kind in upper case is valid, and its key is read as that of no manifest.
loose_kind_is_valid : validate (codes "Deployment") shop web ≡ ok tt
unfolding validate parse_kind valid_kind is_scoped to_lower eq_bytes
loose_kind_is_valid = refl

loose_kind_is_not_read : parse_desired_key (desired_key (codes "Deployment") shop web) ≡ none
unfolding parse_desired_key desired_key scoped_prefix desired_prefix parse_kind valid_kind is_scoped
    to_lower eq_bytes cut_byte
loose_kind_is_not_read = refl

put_watched_example :
    watched memory by_name (record {
      type = event_put;
      key = desired_key (codes "deployment") shop web;
      value = web;
      revision = 4;
    })
    ≡ some (record {
      event = record {
        type = watch_put;
        kind = codes "deployment";
        scope = shop;
        name = web;
        revision = 4;
      };
      manifest = some (with_revision 4 (deployment web));
    })
unfolding valid_kind is_scoped eq_bytes
put_watched_example =
    put_watched memory by_name (λ m. deployment m.name) (record { read_back = by_name_back }) 7 4
      (deployment web) web refl refl (λ e. cc) (refl, (refl, (refl, (refl, tt)))) (λ e. cc) refl
