-- ===== src/Store/Manifests.antt =====
-- Manifests that are written and read back.
use clowk_voodu.Base.{ℕ, ◌≡◌, refl, sym, ap, ◌∙◌, Option, none, some, Bytes, Result, ok, err}
use clowk_voodu.Base.Text.{codes}
use clowk_voodu.Keys.{ValidateError, validate, desired_key}
use clowk_voodu.Etcd.{View, ◌>>=◌, return}
use clowk_voodu.Etcd.Hoare.{Hoare, hoare_bind, hoare_wrapping, hoare_return}
use clowk_voodu.Etcd.Client.{Stored, value_of, Client, IsClient, hoare_put, hoare_read}
use clowk_voodu.Store.{
  Codec, Manifest, stamped, with_revision, decoded_with, decode_manifest, put_valid, put_manifest,
  decode_read, get_manifest,
}
use clowk_voodu.Store.Json.{IsCodec, Elsewhere, put-Elsewhere, put_own, hoare_answer}

module _ {S : Type 0} (client : Client S) (laws : IsClient client) (codec : Codec Manifest) where
  -- What a read of a manifest may give.
  abbrev pub Got : Option Manifest → Option Bytes → Type 0
  Got none held = held ≡ none
  Got (some m) held =
      (text : Bytes) × (rev : ℕ) × (held ≡ some text)
      × (decode_manifest client codec text rev ≡ ok m)

  module _ {P E : View → Type 0} (weak : (v : View) → P v → E v) where
    decode_read-Got :
        (key : Bytes) (read : Option Stored)
        → Hoare client.etcd.view
            (λ v. P v × (value_of read ≡ v key))
            (decode_read client codec read)
            (λ got v. P v × Got got (v key))
            E
    decode_read-Got key none = hoare_return client.etcd.view none (λ v h. (h.0, sym h.1))
    decode_read-Got key (some (text, rev)) =
        hoare_bind client.etcd.view
          (hoare_answer client laws (λ v h. weak v h.0) (decode_manifest client codec text rev))
          (λ m.
            hoare_return client.etcd.view (some m) (λ v h. (h.0.0, (text, rev, sym h.0.1, h.1))))

    pub get_manifest-Got :
        (kind scope name : Bytes)
        → Hoare client.etcd.view P
            (get_manifest client codec kind scope name)
            (λ got v. P v × Got got (v (desired_key kind scope name)))
            E
    unfolding get_manifest
    get_manifest-Got kind scope name =
        hoare_bind client.etcd.view
          (hoare_wrapping client.etcd.view (codes "etcd get: ")
            (hoare_read client laws (desired_key kind scope name) weak))
          (decode_read-Got (desired_key kind scope name))

  module _ (now : ℕ) (m : Manifest) where
    -- What a Put leaves: the keys as they were, or the manifest under its key.
    abbrev pub IsPut : View → Result ValidateError Manifest → View → Type 0
    IsPut w (err e) v = (validate m.kind m.scope m.name ≡ err e) × (v ≡ w)
    IsPut w (ok returned) v =
        (text : Bytes) × (codec.encode (stamped now m) ≡ ok text)
        × (v (desired_key m.kind m.scope m.name) ≡ some text)
        × Elsewhere (desired_key m.kind m.scope m.name) w v

    same-Elsewhere : (key : Bytes) (w v : View) → v ≡ w → Elsewhere key w v
    same-Elsewhere key w v e j other = ap (λ (u : View). u j) e

    put_valid-IsPut :
        (w : View) (valid : Result ValidateError (Unit {0}))
        → validate m.kind m.scope m.name ≡ valid
        → Hoare client.etcd.view
            (λ v. v ≡ w)
            (put_valid client codec (stamped now m) valid)
            (IsPut w)
            (Elsewhere (desired_key m.kind m.scope m.name) w)
    put_valid-IsPut w (err e) verdict = hoare_return client.etcd.view (err e) (λ v h. (verdict, h))
    put_valid-IsPut w (ok valid) verdict =
        let key = desired_key m.kind m.scope m.name in
        hoare_bind client.etcd.view
          (hoare_wrapping client.etcd.view (codes "marshal manifest: ") (
            hoare_answer client laws (λ v e. same-Elsewhere key w v e)
              (codec.encode (stamped now m))))
          (λ text.
            hoare_bind client.etcd.view
              (hoare_wrapping client.etcd.view (codes "etcd put: ") (
                hoare_put client laws {R = λ rev. IsPut w (ok (stamped now m))} key text
                  (λ v h. same-Elsewhere key w v h.0)
                  (λ v h. put-Elsewhere key w v text (same-Elsewhere key w v h.0))
                  (λ rev v h. (
                    text,
                    h.1,
                    put_own key text v,
                    put-Elsewhere key w v text (same-Elsewhere key w v h.0),
                  ))))
              (λ rev.
                hoare_return client.etcd.view (ok (with_revision rev (stamped now m))) (λ v h. h)))

    pub put_manifest-IsPut :
        (w : View)
        → Hoare client.etcd.view
            (λ v. v ≡ w)
            (put_manifest client codec now m)
            (IsPut w)
            (Elsewhere (desired_key m.kind m.scope m.name) w)
    unfolding put_manifest
    put_manifest-IsPut w = put_valid-IsPut w (validate m.kind m.scope m.name) refl

    -- What is read after a Put.
    abbrev pub ReadBack :
        (Manifest → Manifest)
        → View
        → Result ValidateError Manifest × Option Manifest
        → View
        → Type 0
    ReadBack form w (err e, got) v = (validate m.kind m.scope m.name ≡ err e) × (v ≡ w)
    ReadBack form w (ok returned, got) v =
        ((rev : ℕ) × (got ≡ some (with_revision rev (form (stamped now m)))))
        × Elsewhere (desired_key m.kind m.scope m.name) w v

    Got-ReadBack :
        (form : Manifest → Manifest) (own : IsCodec codec form) (w v : View)
        (r : Result ValidateError Manifest) (got : Option Manifest)
        → IsPut w r v
        → Got got (v (desired_key m.kind m.scope m.name))
        → ReadBack form w (r, got) v
    unfolding decode_manifest
    Got-ReadBack form own w v (err e) got put g = put
    Got-ReadBack form own w v (ok returned) none (text, encoded, held, others) g = cc
    Got-ReadBack form own w v (ok returned) (some b) (text, encoded, held, others)
          (t, rev, found, decoded) =
        let texts : t ≡ text = cc in
        let back = own.read_back (stamped now m) text encoded in
        let whole : ok (with_revision rev (form (stamped now m))) ≡ ok b =
          sym (ap (decoded_with rev) back)
          ∙ ap (λ i. decoded_with rev (codec.decode i)) (sym texts)
          ∙ decoded in
        ((rev, cc), others)

    IsPut-Elsewhere :
        (w v : View) (r : Result ValidateError Manifest)
        → IsPut w r v
        → Elsewhere (desired_key m.kind m.scope m.name) w v
    IsPut-Elsewhere w v (err e) (verdict, same) =
        same-Elsewhere (desired_key m.kind m.scope m.name) w v same
    IsPut-Elsewhere w v (ok returned) (text, encoded, held, others) = others

    -- A Get after a Put at the clock now, on keys w: if the manifest is valid, it returns the manifest with
    -- its times entered and some revision, in the form that JSON makes of it; if not, no key has
    -- changed. In every case, also where a call fails, all other keys are as they were.
    pub get_manifest-put_manifest :
        (form : Manifest → Manifest)
        → IsCodec codec form
        → (w : View)
        → Hoare client.etcd.view
            (λ v. v ≡ w)
            (put_manifest client codec now m >>= λ r.
              get_manifest client codec m.kind m.scope m.name >>= λ got. return (r, got))
            (ReadBack form w)
            (Elsewhere (desired_key m.kind m.scope m.name) w)
    get_manifest-put_manifest form own w = hoare_bind client.etcd.view (put_manifest-IsPut w) (λ r.
        hoare_bind client.etcd.view
          (get_manifest-Got (λ v h. IsPut-Elsewhere w v r h) m.kind m.scope m.name)
          (λ got.
            hoare_return client.etcd.view (r, got)
              (λ v h. Got-ReadBack form own w v r got h.0 h.1)))
