-- ===== src/Wire/Peers.antt =====
-- internal/controller/wire.go: Add and Remove over the store. Applying the peers to wg0 is a parameter.
pub mod Keys
pub mod Distinct
use clowk_voodu.Base.{
  ℕ, ◌≡◌, ◌≢◌, refl, sym, ap, ◌∙◌, subst, inl, inr, ◌⊎◌, Bool, true, false, not, ◌&&◌, ◌||◌, Option,
  none, some, List, [], ◌∷◌, ◌++◌, ◌==◌, if◌then◌else◌, Bool-cases, Bytes, eq_bytes, Result, ok,
  err, arith,
}
use mathlib.Core.Bool.{true≢false}
use clowk_voodu.Base.Text.{codes, trim_space}
use clowk_voodu.Base.Text.Laws.{eq_bytes→eq, eq_bytes_refl}
use clowk_voodu.Etcd.{View, put_key, delete_key, Call, ◌>>=◌, return, fail, wrapping}
use clowk_voodu.Etcd.Hoare.{
  Hoare, hoare_bind, hoare_wrapping, hoare_return, hoare_fail, hoare_given, hoare_weaken,
}
use clowk_voodu.Etcd.Client.{Client, IsClient, hoare_delete}
use clowk_voodu.Store.{Codec}
use clowk_voodu.Store.Records.{
  WirePeer, wire_peers_prefix, wire_peer_key, put_json, put_peer_at, put_wire_peer, list_wire_peers,
  delete_wire_peer, delete_named,
}
use clowk_voodu.Store.Json.{IsCodec, Decodes, Decodes-put, put_json-rule}
use clowk_voodu.Store.Json.Listing.{In, Listed, list_json-Listed}
use clowk_voodu.Store.Config.Under.{put-under, delete-under}
use clowk_voodu.Wire.{WireError, validate_peer, key_taken}

-- What Add and Remove answer, when no call of the store or of wg0 fails.
pub data Added : Type 0 where
  refused : WireError → Added
  key_in_use not_found done : Added

abbrev pub trimmed : WirePeer → WirePeer
trimmed p = record p {
  public_key = trim_space p.public_key;
  address = trim_space p.address;
  endpoint = trim_space p.endpoint;
}

-- The time 0 is the zero time.
abbrev pub entered_at : ℕ → WirePeer → WirePeer
entered_at now p = record p { added_at = if p.added_at == 0 then now else p.added_at }

module _ {S : Type 0} (client : Client S) (codec : Codec WirePeer) (key_length : Bytes → Option ℕ)
    (split_host_port : Bytes → Option (Bytes × Bytes)) (local : Option ℕ) (now : ℕ)
    (apply : Call S (Unit {0})) where
  abbrev pub unavailable : {A : Type 0} → Call S A → Call S A
  unavailable call = wrapping (codes "wire unavailable: ") call

  abbrev pub add_unless : WirePeer → Bool → Call S Added
  add_unless p true = return key_in_use
  add_unless p false = unavailable (put_wire_peer client codec (entered_at now p)) >>= λ put.
      apply >>= λ applied. return done

  abbrev pub add_valid : WirePeer → Result WireError (Unit {0}) → Call S Added
  add_valid p (err e) = return (refused e)
  add_valid p (ok valid) =
      unavailable (list_wire_peers client codec) >>= λ existing. add_unless p (key_taken p existing)

  unfoldable pub add_peer : WirePeer → Call S Added
  unfolding put_wire_peer list_wire_peers key_taken validate_peer
  add_peer p = add_valid (trimmed p) (validate_peer key_length split_host_port local (trimmed p))

  abbrev pub apply_if : Bool → Call S Added
  apply_if false = return not_found
  apply_if true = apply >>= λ applied. return done

  unfoldable pub remove_peer : Bytes → Call S Added
  unfolding delete_wire_peer
  remove_peer address =
      unavailable (delete_wire_peer client codec (trim_space address)) >>= apply_if
