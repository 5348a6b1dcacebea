-- ===== src/Wire/Peers/Keys.antt =====
-- The keys of the stored peers, and what a put and a delete do to them.
use clowk_voodu.Base.{
  ℕ, ◌≡◌, ◌≢◌, refl, sym, ap, ◌∙◌, inl, inr, ◌⊎◌, true, false, none, some, List, [], ◌∷◌, ◌++◌,
  Bool-cases, Bytes, eq_bytes, ok, arith,
}
use mathlib.Core.Bool.{true≢false}
use clowk_voodu.Base.Text.Laws.{eq_bytes→eq, eq_bytes_refl}
use clowk_voodu.Etcd.{View, put_key, delete_key}
use clowk_voodu.Store.{Codec}
use clowk_voodu.Store.Records.{WirePeer, wire_peers_prefix, wire_peer_key}
use clowk_voodu.Store.Json.{IsCodec, Decodes, Decodes-put}
use clowk_voodu.Store.Json.Listing.{In, Listed}
use clowk_voodu.Store.Config.Under.{put-under, delete-under}
use clowk_voodu.Wire.{key_taken}
use clowk_voodu.Wire.Peers.{entered_at}

-- The stored peers: each is under its own address, and no two have the same key.
pub record DistinctKeys (codec : Codec WirePeer) (w : View) : Type 0 where
  pub named :
      (a : Bytes) (p : WirePeer) → Decodes codec (some p) (w (wire_peer_key a)) → p.address ≡ a
  pub unique :
      (a b : Bytes) (p q : WirePeer)
      → Decodes codec (some p) (w (wire_peer_key a))
      → Decodes codec (some q) (w (wire_peer_key b))
      → p.public_key ≡ q.public_key
      → a ≡ b

-- A key that is not taken belongs, where it is stored, to a peer of the same address.
key_taken-In :
    (p q : WirePeer) (existing : List WirePeer)
    → key_taken p existing ≡ false
    → In q existing
    → q.public_key ≡ p.public_key
    → q.address ≡ p.address
unfolding key_taken
key_taken-In p q [] free i keys = elim i [ ]
key_taken-In p q (e ∷ existing) free (inl same) keys =
    let key : eq_bytes e.public_key p.public_key ≡ true =
      ap (λ k. eq_bytes k p.public_key) (ap (λ (r : WirePeer). r.public_key) (sym same) ∙ keys)
      ∙ eq_bytes_refl p.public_key in
    elim (Bool-cases (eq_bytes e.address p.address)) [
      | inl own ↦ ap (λ (r : WirePeer). r.address) same ∙ eq_bytes→eq e.address p.address own
      | inr other ↦ absurd (true≢false (ground (arith, free, key, other)))
    ]
key_taken-In p q (e ∷ existing) free (inr i) keys =
    key_taken-In p q existing (ground (arith, free)) i keys

none≢some : (t : Bytes) → none ≢ some t
none≢some t e = cc

some_same : (p q : WirePeer) → some p ≡ some q → p ≡ q
some_same p q e = cc

module _ (codec : Codec WirePeer) (own : IsCodec codec (λ p. p)) (w : View) where
  -- What a key holds after a peer was put under its address.
  put-Decodes :
      (new : WirePeer) (text : Bytes) (a : Bytes) (p : WirePeer)
      → codec.encode new ≡ ok text
      → Decodes codec (some p) (put_key (wire_peer_key new.address) text w (wire_peer_key a))
      → ((new.address ≡ a) × (p ≡ new)) ⊎ Decodes codec (some p) (w (wire_peer_key a))
  unfolding wire_peer_key
  put-Decodes new text a p encoded d = elim (Bool-cases (eq_bytes new.address a)) [
    | inl same ↦
        let held = put-under wire_peers_prefix w new.address text a ∙ rw same refl in
        let e = Decodes-put own new text _ (some p) encoded held d in
        inl (eq_bytes→eq new.address a same, some_same p new e)
    | inr other ↦
        let held = put-under wire_peers_prefix w new.address text a ∙ rw other refl in
        let (t, h, decoded) = d in inr (t, sym held ∙ h, decoded)
  ]

  pub put-DistinctKeys :
      (new : WirePeer) (text : Bytes) (existing : List WirePeer)
      → DistinctKeys codec w
      → Listed codec wire_peers_prefix existing w
      → key_taken new existing ≡ false
      → codec.encode new ≡ ok text
      → DistinctKeys codec (put_key (wire_peer_key new.address) text w)
  unfolding wire_peer_key
  put-DistinctKeys new text existing distinct listed free encoded = record {
    named = λ a p d. elim (put-Decodes new text a p encoded d) [
      | inl (at, same) ↦ ap (λ (r : WirePeer). r.address) same ∙ at
      | inr old ↦ distinct.named a p old
    ];
    unique = λ a b p q d e keys. elim (put-Decodes new text a p encoded d) [
      | inl (at, same) ↦ elim (put-Decodes new text b q encoded e) [
        | inl (at', same') ↦ sym at ∙ at'
        | inr old ↦
            let key = sym keys ∙ ap (λ (r : WirePeer). r.public_key) same in
            sym at ∙ sym (clash b q old key) ∙ distinct.named b q old
      ]
      | inr old ↦ elim (put-Decodes new text b q encoded e) [
        | inl (at', same') ↦
            let key = keys ∙ ap (λ (r : WirePeer). r.public_key) same' in
            sym (distinct.named a p old) ∙ clash a p old key ∙ at'
        | inr old' ↦ distinct.unique a b p q old old' keys
      ]
    ];
  }
    where
      clash :
          (a : Bytes) (p : WirePeer)
          → Decodes codec (some p) (w (wire_peers_prefix ++ a))
          → p.public_key ≡ new.public_key
          → p.address ≡ new.address
      clash a p old key = key_taken-In new p existing free (listed a p old) key

  -- What is stored after a peer was deleted was stored before.
  delete-Decodes :
      (address a : Bytes) (p : WirePeer)
      → Decodes codec (some p) (delete_key (wire_peer_key address) w (wire_peer_key a))
      → Decodes codec (some p) (w (wire_peer_key a))
  unfolding wire_peer_key
  delete-Decodes address a p (t, h, decoded) = elim (Bool-cases (eq_bytes address a)) [
    | inl same ↦
        let held = delete-under wire_peers_prefix w address a ∙ rw same refl in
        absurd (none≢some t (sym held ∙ h))
    | inr other ↦
        let held = delete-under wire_peers_prefix w address a ∙ rw other refl in
        (t, sym held ∙ h, decoded)
  ]

  pub delete-DistinctKeys :
      (address : Bytes)
      → DistinctKeys codec w
      → DistinctKeys codec (delete_key (wire_peer_key address) w)
  delete-DistinctKeys address distinct = record {
    named = λ a p d. distinct.named a p (delete-Decodes address a p d);
    unique = λ a b p q d e keys.
        distinct.unique a b p q (delete-Decodes address a p d) (delete-Decodes address b q e) keys;
  }

pub key_taken-entered_at :
    (now : ℕ) (p : WirePeer) (existing : List WirePeer)
    → key_taken (entered_at now p) existing ≡ key_taken p existing
unfolding key_taken
key_taken-entered_at now p [] = refl
key_taken-entered_at now p (e ∷ existing) = rw (key_taken-entered_at now p existing) refl
