-- ===== src/Store/Json.antt =====
-- What is written in JSON under a key, and what is read back.
pub mod Listing
use clowk_voodu.Base.{
  ◌≡◌, ◌≢◌, refl, sym, ap, ◌∙◌, inl, inr, false, Option, none, some, Bool-cases, Bytes, eq_bytes,
  Result, ok, err,
}
use clowk_voodu.Base.Text.Laws.{eq_bytes→eq, eq_bytes_refl}
use clowk_voodu.Etcd.{View, put_key, delete_key}
use clowk_voodu.Etcd.Hoare.{Hoare, hoare_bind, hoare_wrapping, hoare_return, hoare_get, hoare_fail}
use clowk_voodu.Etcd.Client.{Client, IsClient, hoare_put}
use clowk_voodu.Store.{Codec, answer}
use clowk_voodu.Store.Records.{put_json, decode_value, get_json}

-- What is encoded is decoded to its form: to itself, or to what JSON makes of it.
pub record IsCodec {A : Type 0} (codec : Codec A) (form : A → A) : Type 0 where
  pub read_back :
      (a : A) (text : Bytes) → codec.encode a ≡ ok text → codec.decode text ≡ ok (form a)

-- Keys other than one are as they were.
abbrev pub Elsewhere : Bytes → View → View → Type 0
Elsewhere key w v = (j : Bytes) → j ≢ key → v j ≡ w j

-- What a read of a key may give: nothing, where it holds nothing, or what its text decodes to.
abbrev pub Decodes : {A : Type 0} → Codec A → Option A → Option Bytes → Type 0
Decodes codec none held = held ≡ none
Decodes codec (some a) held = (text : Bytes) × (held ≡ some text) × (codec.decode text ≡ ok a)

-- What was put under a key is what a read gives, in the form that JSON makes of it.
pub Decodes-put :
    {A : Type 0} {codec : Codec A} {form : A → A} (own : IsCodec codec form) (a : A) (text : Bytes)
    (held : Option Bytes) (got : Option A)
    → codec.encode a ≡ ok text
    → held ≡ some text
    → Decodes codec got held
    → got ≡ some (form a)
Decodes-put own a text held none e h d = cc
Decodes-put {codec = codec} {form = form} own a text held (some b) e h (t, same, decoded) =
    let back = own.read_back a text e in
    let texts : t ≡ text = cc in
    let both : ok (form a) ≡ ok b = sym back ∙ ap codec.decode (sym texts) ∙ decoded in cc

pub Decodes-unique :
    {A : Type 0} (codec : Codec A) (held : Option Bytes) (a b : Option A)
    → Decodes codec a held
    → Decodes codec b held
    → a ≡ b
Decodes-unique codec held none none d e = refl
Decodes-unique codec held none (some b) d (text, h, decoded) = cc
Decodes-unique codec held (some a) none (text, h, decoded) e = cc
Decodes-unique codec held (some a) (some b) (t, h, d) (u, k, e) =
    let texts : t ≡ u = cc in let both : ok a ≡ ok b = sym d ∙ ap codec.decode texts ∙ e in cc

module _ (key : Bytes) (w v : View) where
  eq_bytes-other : (j : Bytes) → j ≢ key → eq_bytes key j ≡ false
  eq_bytes-other j other = elim (Bool-cases (eq_bytes key j)) [
    | inl same ↦ absurd (other (sym (eq_bytes→eq key j same)))
    | inr differ ↦ differ
  ]

  pub put-Elsewhere : (text : Bytes) → Elsewhere key w v → Elsewhere key w (put_key key text v)
  unfolding put_key
  put-Elsewhere text h j other = rw (eq_bytes-other j other) (h j other)

  pub delete-Elsewhere : Elsewhere key w v → Elsewhere key w (delete_key key v)
  unfolding delete_key
  delete-Elsewhere h j other = rw (eq_bytes-other j other) (h j other)

pub put_own : (key text : Bytes) (v : View) → put_key key text v key ≡ some text
unfolding put_key
put_own key text v = rw (eq_bytes_refl key) refl

pub delete_own : (key : Bytes) (v : View) → delete_key key v key ≡ none
unfolding delete_key
delete_own key v = rw (eq_bytes_refl key) refl

module _ {S : Type 0} (client : Client S) (laws : IsClient client) where
  pub hoare_answer :
      {A : Type 0} {P E : View → Type 0}
      → ((v : View) → P v → E v)
      → (r : Result Bytes A) → Hoare client.etcd.view P (answer r) (λ a v. P v × (r ≡ ok a)) E
  hoare_answer weak (err e) = hoare_fail client.etcd.view e weak
  hoare_answer weak (ok a) = hoare_return client.etcd.view a (λ v h. (h, refl))

  module _ {P E : View → Type 0} (weak : (v : View) → P v → E v) {A : Type 0}
      (codec : Codec A) where
    pub put_json-rule :
        {R : View → Type 0} (marshalling putting key : Bytes) (a : A)
        → ((v : View) (text : Bytes) → P v → codec.encode a ≡ ok text → E (put_key key text v))
        → ((v : View) (text : Bytes) → P v → codec.encode a ≡ ok text → R (put_key key text v))
        → Hoare client.etcd.view P (put_json client codec marshalling putting key a) (λ done. R) E
    put_json-rule {R = R} marshalling putting key a failed step =
        hoare_bind client.etcd.view
          (hoare_wrapping client.etcd.view marshalling (hoare_answer weak (codec.encode a)))
          (λ text.
            hoare_bind client.etcd.view {Q = λ rev. R}
              (hoare_wrapping client.etcd.view putting (
                hoare_put client laws key text (λ v h. weak v h.0) (λ v h. failed v text h.0 h.1)
                  (λ rev v h. step v text h.0 h.1)))
              (λ rev. hoare_return client.etcd.view tt (λ v h. h)))

    decode_value-rule :
        (decoding key : Bytes) (read : Option Bytes)
        → Hoare client.etcd.view
            (λ v. P v × (read ≡ v key))
            (decode_value client codec decoding read)
            (λ got v. P v × Decodes codec got (v key))
            E
    decode_value-rule decoding key none = hoare_return client.etcd.view none (λ v h. (h.0, sym h.1))
    decode_value-rule decoding key (some text) =
        hoare_bind client.etcd.view
          (hoare_wrapping client.etcd.view decoding
            (hoare_answer (λ v h. weak v h.0) (codec.decode text)))
          (λ a. hoare_return client.etcd.view (some a) (λ v h. (h.0.0, (text, sym h.0.1, h.1))))

    pub get_json-rule :
        (getting decoding key : Bytes)
        → Hoare client.etcd.view P
            (get_json client codec getting decoding key)
            (λ got v. P v × Decodes codec got (v key))
            E
    get_json-rule getting decoding key =
        hoare_bind client.etcd.view
          (hoare_wrapping client.etcd.view getting (hoare_get client.etcd laws.etcd_law key weak))
          (decode_value-rule decoding key)
