-- ===== src/Store/Json/Listing.antt =====
-- A listing of records has every record that is stored under the prefix.
use clowk_voodu.Base.{
  ℕ, ◌≡◌, refl, sym, ap, ◌∙◌, subst, inl, inr, ◌⊎◌, Bool, true, false, Option, none, some, List, [],
  ◌∷◌, ◌++◌, if◌then◌else◌, Bytes, eq_bytes, ok,
}
use clowk_voodu.Base.Text.Laws.{has_prefix-append}
use clowk_voodu.Base.Dict.{Dict, lookup}
use clowk_voodu.Etcd.{View}
use clowk_voodu.Etcd.Hoare.{Hoare, hoare_bind, hoare_wrapping, hoare_return, hoare_weaken}
use clowk_voodu.Etcd.Client.{Stored, value_of, Client, IsClient, IsListing, hoare_list}
use clowk_voodu.Store.{Codec}
use clowk_voodu.Store.Records.{decode_records, list_json}
use clowk_voodu.Store.Json.{Decodes, hoare_answer}

abbrev pub In : {A : Type 0} → A → List A → Type 0
In p [] = ⊥
In p (q ∷ qs) = (p ≡ q) ⊎ In p qs

module _ {A : Type 0} (codec : Codec A) where
  -- Every entry is decoded to a record of the list.
  abbrev pub Whole : Dict Stored → List A → Type 0
  Whole kvs out =
      (k text : Bytes) (rev : ℕ)
      → lookup k kvs ≡ some (text, rev)
      → (a : A) × (codec.decode text ≡ ok a) × In a out

  Whole-cons :
      (key text : Bytes) (rev : ℕ) (kvs : Dict Stored) (a : A) (out : List A)
      → codec.decode text ≡ ok a
      → Whole kvs out
      → Whole ((key, (text, rev)) ∷ kvs) (a ∷ out)
  unfolding lookup
  Whole-cons key text rev kvs a out decoded whole k t r found =
      at (eq_bytes key k) (lookup k kvs) refl found
    where
      at :
          (b : Bool) (o : Option Stored)
          → lookup k kvs ≡ o
          → (if b then some (text, rev) else o) ≡ some (t, r)
          → (c : A) × (codec.decode t ≡ ok c) × In c (a ∷ out)
      at true o e f =
          let same : text ≡ t = cc in (a, ap codec.decode (sym same) ∙ decoded, inl refl)
      at false o e f = let (c, d, i) = whole k t r (e ∙ f) in (c, d, inr i)

  Whole-nothing : Whole [] []
  unfolding lookup
  Whole-nothing k text rev found = cc

  -- A record that is stored under the prefix is in the list.
  abbrev pub Listed : Bytes → List A → View → Type 0
  Listed prefix out v = (id : Bytes) (a : A) → Decodes codec (some a) (v (prefix ++ id)) → In a out

  Whole-Listed :
      (prefix : Bytes) (kvs : Dict Stored) (out : List A) (v : View)
      → IsListing prefix kvs v
      → Whole kvs out
      → Listed prefix out v
  Whole-Listed prefix kvs out v lists whole id a (text, held, decoded) =
      entry (lookup (prefix ++ id) kvs) refl
        (lists.complete (prefix ++ id) text (has_prefix-append prefix id) held)
    where
      entry :
          (o : Option Stored) → lookup (prefix ++ id) kvs ≡ o → value_of o ≡ some text → In a out
      entry none e f = cc
      entry (some (t, rev)) e f =
          let (c, d, i) = whole (prefix ++ id) t rev e in
          let texts : t ≡ text = cc in
          let both : ok c ≡ ok a = sym d ∙ ap codec.decode texts ∙ decoded in
          let same : c ≡ a = cc in subst (λ b. In b out) same i

  module _ {S : Type 0} (client : Client S) (laws : IsClient client) where
    decode_records-Whole :
        (what : Bytes) (kvs : Dict Stored) (P E : View → Type 0)
        → ((v : View) → P v → E v)
        → Hoare client.etcd.view P
            (decode_records client codec what kvs)
            (λ out v. P v × Whole kvs out)
            E
    unfolding decode_records
    decode_records-Whole what [] P E weak =
        hoare_return client.etcd.view [] (λ v h. (h, Whole-nothing))
    decode_records-Whole what ((key, (text, rev)) ∷ kvs) P E weak =
        hoare_bind client.etcd.view
          (hoare_wrapping client.etcd.view _ (hoare_answer client laws weak (codec.decode text)))
          (λ a.
            hoare_bind client.etcd.view (decode_records-Whole what kvs _ E (λ v h. weak v h.0))
              (λ out.
                hoare_return client.etcd.view (a ∷ out)
                  (λ v h. (h.0.0, Whole-cons key text rev kvs a out h.0.1 h.1))))

    pub list_json-Listed :
        {P E : View → Type 0}
        → ((v : View) → P v → E v)
        → (listing what prefix : Bytes)
        → Hoare client.etcd.view P
            (list_json client codec listing what prefix)
            (λ out v. P v × Listed prefix out v)
            E
    unfolding list_json
    list_json-Listed {E = E} weak listing what prefix =
        hoare_bind client.etcd.view
          (hoare_wrapping client.etcd.view listing (hoare_list client laws prefix weak))
          (λ kvs.
            hoare_weaken client.etcd.view (decode_records-Whole what kvs _ E (λ v h. weak v h.0))
              (λ out v h. (h.0.0, Whole-Listed prefix kvs out v h.0.1 h.1)) (λ v h. h))
