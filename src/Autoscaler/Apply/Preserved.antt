-- ===== src/Autoscaler/Apply/Preserved.antt =====
-- SetReplicas leaves all of a manifest but its replica count.
use clowk_voodu.Base.{
  ℕ, ◌≡◌, refl, sym, ap, ◌∙◌, subst, Option, none, some, if◌then◌else◌, Bytes, eq_bytes, Result, ok,
  err,
}
use clowk_voodu.Base.Text.{ℤ, codes}
use clowk_voodu.Base.Dict.{Dict, lookup, insert, lookup-insert}
use clowk_voodu.Keys.{ValidateError, desired_key}
use clowk_voodu.Etcd.{View}
use clowk_voodu.Etcd.Hoare.{
  Hoare, hoare_bind, hoare_wrapping, hoare_return, hoare_fail, hoare_given, hoare_weaken,
  hoare_assume,
}
use clowk_voodu.Etcd.Client.{Client, IsClient}
use clowk_voodu.Store.{Codec, Manifest, stamped}
use clowk_voodu.Store.Json.{Elsewhere, hoare_answer}
use clowk_voodu.Store.Manifests.{Got, get_manifest-Got, IsPut, put_manifest-IsPut}
use clowk_voodu.Autoscaler.Apply.{
  Json, Applied, missing, written, panicked, invalid, applied_put, write_spec, replace_replicas,
  replace_found, set_replicas,
}

-- What is marshalled is an object with the same fields.
pub record IsJson {J : Type 0} (json : Json J) : Type 0 where
  pub read_back :
      (d : Dict J) (text : Bytes)
      → json.marshal d ≡ ok text
      → (e : Dict J) × (json.unmarshal text ≡ ok (some e)) × ((k : Bytes) → lookup k e ≡ lookup k d)

module _ {S J : Type 0} (client : Client S) (laws : IsClient client) (codec : Codec Manifest)
    (json : Json J) (own : IsJson json) (now : ℕ) (scope name : Bytes) (replicas : ℤ)
    (w : View) where
  abbrev key : Bytes
  key = desired_key (codes "deployment") scope name

  -- The manifest under the key has been written again with its times, and with a spec that differs in
  -- the replicas alone.
  pub record Rewritten (v : View) : Type 0 where
    pub manifest : Manifest
    pub was : Got client laws codec (some manifest) (w key)
    pub old : Dict J
    pub old_spec : json.unmarshal manifest.spec ≡ ok (some old)
    pub spec : Bytes
    pub new : Dict J
    pub new_spec : json.unmarshal spec ≡ ok (some new)
    pub fields :
        (k : Bytes)
        → lookup k new
          ≡ (if eq_bytes (codes "replicas") k then some (json.number replicas) else lookup k old)
    pub text : Bytes
    pub encoded : codec.encode (stamped now (record manifest { spec = spec })) ≡ ok text
    pub held : v key ≡ some text

  abbrev pub After : Applied → View → Type 0
  After written v = Rewritten v × Elsewhere key w v
  After missing v = v ≡ w
  After panicked v = v ≡ w
  After (invalid e) v = v ≡ w

  -- Where the manifest that is stored under the deployment's key is that deployment.
  abbrev pub NamedManifest : Type 0
  NamedManifest =
      (m : Manifest)
      → Got client laws codec (some m) (w key)
      → (m.kind ≡ codes "deployment") × (m.scope ≡ scope) × (m.name ≡ name)

  same : (v : View) → v ≡ w → Elsewhere key w v
  same v e j other = ap (λ (u : View). u j) e

  put-After :
      (m : Manifest) (old : Dict J) (spec : Bytes)
      → Got client laws codec (some m) (w key)
      → json.unmarshal m.spec ≡ ok (some old)
      → json.marshal (insert (codes "replicas") (json.number replicas) old) ≡ ok spec
      → desired_key m.kind m.scope m.name ≡ key
      → (done : Result ValidateError Manifest) (v : View)
      → IsPut client laws codec now (record m { spec = spec }) w done v
      → After (applied_put done) v
  put-After m old spec was parsed printed keys (err e) v put = put.1
  put-After m old spec was parsed printed keys (ok returned) v (text, encoded, held, others) =
      let (new, reads, fields) =
        own.read_back (insert (codes "replicas") (json.number replicas) old) spec printed in
      (
        record {
          manifest = m;
          was = was;
          old = old;
          old_spec = parsed;
          spec = spec;
          new = new;
          new_spec = reads;
          fields = λ k. fields k ∙ lookup-insert (codes "replicas") k (json.number replicas) old;
          text = text;
          encoded = encoded;
          held = ap v (sym keys) ∙ held;
        },
        subst (λ k. Elsewhere k w v) keys others,
      )

  module _ (named : NamedManifest) (m : Manifest) where
    replace-After :
        (spec : Result Bytes (Option (Dict J)))
        → json.unmarshal m.spec ≡ spec
        → Hoare client.etcd.view
            (λ v. (v ≡ w) × Got client laws codec (some m) (v key))
            (replace_replicas client codec json now replicas m spec)
            After
            (Elsewhere key w)
    replace-After (err e) parsed = hoare_fail client.etcd.view _ (λ v h. same v h.0)
    replace-After (ok none) parsed = hoare_return client.etcd.view panicked (λ v h. h.0)
    replace-After (ok (some old)) parsed =
        hoare_bind client.etcd.view
          (hoare_wrapping client.etcd.view _ (
            hoare_answer client laws (λ v h. same v h.0)
              (json.marshal (insert (codes "replicas") (json.number replicas) old))))
          (λ spec.
            hoare_assume client.etcd.view
              {X = Got client laws codec (some m) (w key)
                × (json.marshal (insert (codes "replicas") (json.number replicas) old) ≡ ok spec)}
              (λ v h.
                (subst (λ (u : View). Got client laws codec (some m) (u key)) h.0.0 h.0.1, h.1))
              (λ known. write spec known.0 known.1))
      where
        write :
            (spec : Bytes)
            → Got client laws codec (some m) (w key)
            → json.marshal (insert (codes "replicas") (json.number replicas) old) ≡ ok spec
            → Hoare client.etcd.view
                (λ v.
                  ((v ≡ w) × Got client laws codec (some m) (v key))
                  × (json.marshal (insert (codes "replicas") (json.number replicas) old) ≡ ok spec))
                (write_spec client codec json now m spec)
                After
                (Elsewhere key w)
        write spec was printed =
            let (kinds, scopes, names) = named m was in
            let keys : desired_key m.kind m.scope m.name ≡ key = rw (kinds, scopes, names) refl in
            hoare_bind client.etcd.view
              (hoare_wrapping client.etcd.view _ (
                hoare_weaken client.etcd.view
                  (hoare_given client.etcd.view (λ v h. h.0.0)
                    (put_manifest-IsPut client laws codec now (record m { spec = spec }) w))
                  (λ done v put. put-After m old spec was parsed printed keys done v put)
                  (λ v others. subst (λ k. Elsewhere k w v) keys others)))
              (λ done. hoare_return client.etcd.view (applied_put done) (λ v h. h))

  found-After :
      NamedManifest
      → (got : Option Manifest)
      → Hoare client.etcd.view
          (λ v. (v ≡ w) × Got client laws codec got (v key))
          (replace_found client codec json now replicas got)
          After
          (Elsewhere key w)
  found-After named none = hoare_return client.etcd.view missing (λ v h. h.0)
  found-After named (some m) = replace-After named m (json.unmarshal m.spec) refl

  -- SetReplicas, on keys w where the manifest under the deployment's key is that deployment: if it writes
  -- the manifest, the spec has the new replicas and else the fields it had, and all but the spec and
  -- the times is as it was; if not, no key has changed. All other keys are as they were, also where a
  -- call fails.
  pub set_replicas-After :
      NamedManifest
      → Hoare client.etcd.view
          (λ v. v ≡ w)
          (set_replicas client codec json now scope name replicas)
          After
          (Elsewhere key w)
  unfolding set_replicas
  set_replicas-After named =
      hoare_bind client.etcd.view
        (hoare_wrapping client.etcd.view (codes "get manifest: ")
          (get_manifest-Got client laws codec same (codes "deployment") scope name))
        (found-After named)
