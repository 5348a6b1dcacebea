-- ===== src/Wire/Peers/Distinct.antt =====
-- No two stored peers have the same WireGuard key, whatever is added and removed.
use clowk_voodu.Base.{
  ℕ, ◌≡◌, refl, ◌∙◌, subst, Bool, true, false, Option, List, [], ◌∷◌, Bytes, Result, ok, err,
}
use clowk_voodu.Base.Text.{codes, trim_space}
use clowk_voodu.Etcd.{View, put_key, Call}
use clowk_voodu.Etcd.Hoare.{Hoare, hoare_bind, hoare_wrapping, hoare_return, hoare_fail}
use clowk_voodu.Etcd.Client.{Client, IsClient, hoare_delete}
use clowk_voodu.Store.{Codec}
use clowk_voodu.Store.Records.{
  WirePeer, wire_peers_prefix, wire_peer_key, put_peer_at, put_wire_peer, list_wire_peers,
  delete_wire_peer, delete_named,
}
use clowk_voodu.Store.Json.{IsCodec, put_json-rule}
use clowk_voodu.Store.Json.Listing.{Listed, list_json-Listed}
use clowk_voodu.Wire.{WireError, validate_peer, key_taken}
use clowk_voodu.Wire.Peers.{
  refused, key_in_use, not_found, done, trimmed, entered_at, add_unless, add_valid, add_peer,
  apply_if, remove_peer,
}
use clowk_voodu.Wire.Peers.Keys.{
  DistinctKeys, put-DistinctKeys, delete-DistinctKeys, key_taken-entered_at,
}

module _ {S : Type 0} (client : Client S) (laws : IsClient client) (codec : Codec WirePeer)
    (own : IsCodec codec (λ p. p)) where
  put_peer_at-DistinctKeys :
      (q : WirePeer) (address : Bytes) (existing : List WirePeer)
      → q.address ≡ address
      → key_taken q existing ≡ false
      → Hoare client.etcd.view
          (λ v. DistinctKeys codec v × Listed codec wire_peers_prefix existing v)
          (put_peer_at client codec q address)
          (λ done. DistinctKeys codec)
          (DistinctKeys codec)
  put_peer_at-DistinctKeys q [] existing e free = hoare_fail client.etcd.view _ (λ v h. h.0)
  put_peer_at-DistinctKeys q (b ∷ address) existing e free =
      put_json-rule client laws (λ v h. h.0) codec _ _ (wire_peer_key (b ∷ address)) q put put
    where
      put :
          (v : View) (text : Bytes)
          → DistinctKeys codec v × Listed codec wire_peers_prefix existing v
          → codec.encode q ≡ ok text
          → DistinctKeys codec (put_key (wire_peer_key (b ∷ address)) text v)
      put v text h encoded =
          subst (λ a. DistinctKeys codec (put_key (wire_peer_key a) text v)) e
            (put-DistinctKeys codec own v q text existing h.0 h.1 free encoded)

  module _ (key_length : Bytes → Option ℕ) (split_host_port : Bytes → Option (Bytes × Bytes))
      (local : Option ℕ) (now : ℕ) (apply : Call S (Unit {0}))
      (applies : Hoare client.etcd.view
        (DistinctKeys codec)
        apply
        (λ done. DistinctKeys codec)
        (DistinctKeys codec)) where
    add_unless-DistinctKeys :
        (p : WirePeer) (existing : List WirePeer) (taken : Bool)
        → key_taken p existing ≡ taken
        → Hoare client.etcd.view
            (λ v. DistinctKeys codec v × Listed codec wire_peers_prefix existing v)
            (add_unless client codec key_length split_host_port local now apply p taken)
            (λ done. DistinctKeys codec)
            (DistinctKeys codec)
    unfolding put_wire_peer
    add_unless-DistinctKeys p existing true e =
        hoare_return client.etcd.view key_in_use (λ v h. h.0)
    add_unless-DistinctKeys p existing false e =
        hoare_bind client.etcd.view
          (hoare_wrapping client.etcd.view _ (
            put_peer_at-DistinctKeys (entered_at now p) p.address existing refl
              (key_taken-entered_at now p existing ∙ e)))
          (λ put.
            hoare_bind client.etcd.view applies
              (λ applied. hoare_return client.etcd.view done (λ v h. h)))

    add_valid-DistinctKeys :
        (p : WirePeer) (valid : Result WireError (Unit {0}))
        → Hoare client.etcd.view
            (DistinctKeys codec)
            (add_valid client codec key_length split_host_port local now apply p valid)
            (λ done. DistinctKeys codec)
            (DistinctKeys codec)
    unfolding list_wire_peers
    add_valid-DistinctKeys p (err e) = hoare_return client.etcd.view (refused e) (λ v h. h)
    add_valid-DistinctKeys p (ok valid) =
        hoare_bind client.etcd.view
          (hoare_wrapping client.etcd.view _ (
            list_json-Listed codec client laws (λ v h. h) (codes "etcd list wire peers: ")
              (codes "wire peer") wire_peers_prefix))
          (λ existing. add_unless-DistinctKeys p existing (key_taken p existing) refl)

    -- Where the stored peers are each under their own address and no two have the same key, this still holds
    -- after Add, whatever is added and wherever a call fails, for a JSON that decodes what it
    -- encoded and where applying the peers keeps it.
    pub add_peer-DistinctKeys :
        (p : WirePeer)
        → Hoare client.etcd.view
            (DistinctKeys codec)
            (add_peer client codec key_length split_host_port local now apply p)
            (λ done. DistinctKeys codec)
            (DistinctKeys codec)
    unfolding add_peer
    add_peer-DistinctKeys p =
        add_valid-DistinctKeys (trimmed p)
          (validate_peer key_length split_host_port local (trimmed p))

    delete_named-DistinctKeys :
        (deleting address : Bytes)
        → Hoare client.etcd.view
            (DistinctKeys codec)
            (delete_named client deleting (wire_peer_key address))
            (λ deleted. DistinctKeys codec)
            (DistinctKeys codec)
    delete_named-DistinctKeys deleting address = hoare_wrapping client.etcd.view deleting (
        hoare_delete client laws (wire_peer_key address) (λ v h. h)
          (λ v h. delete-DistinctKeys codec own v address h)
          (λ deleted v h absent. delete-DistinctKeys codec own v address h))

    delete_at-DistinctKeys :
        (address : Bytes)
        → Hoare client.etcd.view
            (DistinctKeys codec)
            (delete_wire_peer client codec address)
            (λ deleted. DistinctKeys codec)
            (DistinctKeys codec)
    unfolding delete_wire_peer
    delete_at-DistinctKeys [] = hoare_return client.etcd.view false (λ v h. h)
    delete_at-DistinctKeys (b ∷ address) = delete_named-DistinctKeys _ (b ∷ address)

    apply_if-DistinctKeys :
        (deleted : Bool)
        → Hoare client.etcd.view
            (DistinctKeys codec)
            (apply_if client codec key_length split_host_port local now apply deleted)
            (λ done. DistinctKeys codec)
            (DistinctKeys codec)
    apply_if-DistinctKeys false = hoare_return client.etcd.view not_found (λ v h. h)
    apply_if-DistinctKeys true =
        hoare_bind client.etcd.view applies
          (λ applied. hoare_return client.etcd.view done (λ v h. h))

    -- The same after Remove.
    pub remove_peer-DistinctKeys :
        (address : Bytes)
        → Hoare client.etcd.view
            (DistinctKeys codec)
            (remove_peer client codec key_length split_host_port local now apply address)
            (λ done. DistinctKeys codec)
            (DistinctKeys codec)
    unfolding remove_peer
    remove_peer-DistinctKeys address =
        hoare_bind client.etcd.view
          (hoare_wrapping client.etcd.view _ (delete_at-DistinctKeys (trim_space address)))
          apply_if-DistinctKeys
