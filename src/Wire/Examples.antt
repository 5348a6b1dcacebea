-- ===== src/Wire/Examples.antt =====
-- Two peers of a host, and a route that is left of a third.
use clowk_voodu.Base.{
  ℕ, ◌+◌, ◌*◌, ◌^◌, ◌≡◌, refl, sym, ap, ◌∙◌, Bool, true, false, Option, none, some, List, [], ◌∷◌,
  ◌||◌, if◌then◌else◌, ok, err, Bytes, eq_bytes, Result,
}
use clowk_voodu.Base.Text.{codes, split_byte, digits_value}
use clowk_voodu.Base.Text.{has_prefix, trim_space, trim_left}
use clowk_voodu.Base.Dict.{Dict, lookup, insert, delete}
use clowk_voodu.Etcd.{Call, ◌>>=◌, return, fail, wrapping}
use clowk_voodu.Etcd.Hoare.{Hoare}
use clowk_voodu.Etcd.Memory.{memory, memory-IsClient, listing}
use clowk_voodu.Store.{Codec}
use clowk_voodu.Store.Records.{
  wire_peer_key, put_wire_peer, list_wire_peers, list_json, decode_records,
}
use clowk_voodu.Store.Json.{IsCodec}
use clowk_voodu.Wire.{key_taken, validate_peer}
use clowk_voodu.Wire.Peers.{add_peer, key_in_use}
use clowk_voodu.Wire.Peers.Keys.{DistinctKeys}
use clowk_voodu.Wire.Peers.Distinct.{add_peer-DistinctKeys}
use clowk_voodu.PodIps.Addresses.{parse_addr}
use clowk_voodu.Store.Records.{WirePeer}
use clowk_voodu.Wire.{
  tunnel, Route, container_subnet_for, Table, Command, is_in, wanted_routes, is_container_route,
  container_routes, replace_all, delete_unwanted, routes,
}
use clowk_voodu.Wire.Subnets.{subnet_found}
use clowk_voodu.Wire.Routes.{routes-exact}

-- 10.254.0.2 and 10.254.1.3
abbrev host : ℕ
host = tunnel + 2

abbrev other_host : ℕ
other_host = tunnel + 259

-- 10.254.254.9, whose subnet 10.254.9.0/24 has addresses of the tunnel.
subnet_found_example : is_container_route (container_subnet_for (tunnel + 254 * 256 + 9)) ≡ false
subnet_found_example = subnet_found (tunnel + 254 * 256 + 9) refl

abbrev peers : List WirePeer
peers =
    record { public_key = codes "k"; address = codes "10.254.0.2"; endpoint = []; added_at = 0 }
    ∷ record { public_key = codes "l"; address = codes "10.254.1.3"; endpoint = []; added_at = 0 }
    ∷ []

-- The subnet of a peer that left.
abbrev stale : Route
stale = (10 * 2 ^ 24 + 9 * 2 ^ 16 + 9 * 2 ^ 8, 24)

abbrev before : Table
before q = is_in q ((tunnel, 16) ∷ stale ∷ [])

-- A listing of what there is of one route.
abbrev shown_stale : Table → Option (List Route)
shown_stale t = some (if t stale then stale ∷ [] else [])

shows_stale :
    (t : Table) (shown : List Route) → shown_stale t ≡ some shown → is_in stale shown ≡ t stale
shows_stale t shown e =
    let same : (if t stale then stale ∷ [] else []) ≡ shown = cc in
    ap (is_in stale) (sym same) ∙ present (t stale)
  where
    present : (b : Bool) → is_in stale (if b then stale ∷ [] else []) ≡ b
    present true = refl
    present false = refl

abbrev no_failure : Command → Bool
no_failure c = false

routes-exact_example : (routes no_failure shown_stale peers before).0 stale ≡ (
    if is_container_route stale
    then is_in stale (wanted_routes peers)
    else is_in stale (wanted_routes peers) || before stale)
unfolding routes wanted_routes replace_all delete_unwanted container_routes is_container_route
    container_subnet_for parse_addr split_byte digits_value
routes-exact_example =
    routes-exact no_failure shown_stale peers before (routes no_failure shown_stale peers before).0
      stale shows_stale refl

stale_removed : (routes no_failure shown_stale peers before).0 stale ≡ false
unfolding routes wanted_routes replace_all delete_unwanted container_routes is_container_route
    container_subnet_for parse_addr split_byte digits_value
stale_removed = refl

-- A peer with a key of one byte and no endpoint as that byte, its time and its address.
abbrev encode_fields : WirePeer → Bytes → Bytes → Result Bytes Bytes
encode_fields p (b ∷ []) [] = ok (b ∷ p.added_at ∷ p.address)
encode_fields p [] endpoint = err []
encode_fields p (b ∷ []) (c ∷ endpoint) = err []
encode_fields p (b ∷ c ∷ key) endpoint = err []

abbrev decode_fields : Bytes → Result Bytes WirePeer
decode_fields (b ∷ t ∷ address) =
    ok (record { public_key = b ∷ []; address = address; endpoint = []; added_at = t })
decode_fields [] = err []
decode_fields (b ∷ []) = err []

abbrev short : Codec WirePeer
short = record { encode = λ p. encode_fields p p.public_key p.endpoint; decode = decode_fields }

fields_back :
    (p : WirePeer) (key endpoint text : Bytes)
    → encode_fields p key endpoint ≡ ok text
    → decode_fields text ≡ ok (record p { public_key = key; endpoint = endpoint })
fields_back p (b ∷ []) [] text e =
    let same : b ∷ p.added_at ∷ p.address ≡ text = cc in ap decode_fields (sym same)
fields_back p [] endpoint text e = cc
fields_back p (b ∷ []) (c ∷ endpoint) text e = cc
fields_back p (b ∷ c ∷ key) endpoint text e = cc

short_back : IsCodec short (λ p. p)
short_back = record { read_back = λ p text e. fields_back p p.public_key p.endpoint text e }

abbrev one_key : Bytes → Option ℕ
one_key key = some 32

abbrev no_endpoint : Bytes → Option (Bytes × Bytes)
no_endpoint endpoint = none

abbrev applied : Call (Dict Bytes) (Unit {0})
applied s = (s, ok tt)

applied_keeps :
    Hoare memory.etcd.view
      (DistinctKeys short)
      applied
      (λ done. DistinctKeys short)
      (DistinctKeys short)
applied_keeps = record { ends = λ s p. p }

abbrev second_peer : WirePeer
second_peer = record {
  public_key = codes "l";
  address = codes "10.254.1.3";
  endpoint = [];
  added_at = 0;
}

add_peer-DistinctKeys_example :
    Hoare memory.etcd.view
      (DistinctKeys short)
      (add_peer memory short one_key no_endpoint (some host) 7 applied second_peer)
      (λ done. DistinctKeys short)
      (DistinctKeys short)
add_peer-DistinctKeys_example =
    add_peer-DistinctKeys memory memory-IsClient short short_back one_key no_endpoint (some host) 7
      applied applied_keeps second_peer

-- The second address with a key that is stored is refused.
key_refused :
    ((add_peer memory short one_key no_endpoint none 7 applied second_peer >>= λ first.
    add_peer memory short one_key no_endpoint none 7 applied
      (record second_peer { address = codes "10.254.1.4" }))
      []).1
    ≡ ok key_in_use
unfolding ◌>>=◌ return fail wrapping add_peer validate_peer put_wire_peer list_wire_peers list_json
    decode_records key_taken wire_peer_key insert delete lookup eq_bytes listing has_prefix
    parse_addr split_byte digits_value trim_space trim_left
key_refused = refl
