-- ===== src/Wire.antt =====
-- internal/controller/wire.go: the checks of a WireGuard peer, the subnet of its containers, and the
-- routes that the host keeps to them. An IPv4 address is its 32 bits, as a number.
--
-- Parameters are base64, net.SplitHostPort, the address of the host and the answers of `ip`.
pub mod Subnets
pub mod Routes
pub mod Peers
mod Examples
use clowk_voodu.Base.{
  ℕ, ◌+◌, ◌*◌, ◌/◌, ◌%◌, ◌^◌, Bool, true, false, not, ◌&&◌, ◌||◌, Option, none, some, List, [], ◌∷◌,
  ltb, leb, ◌==◌, if◌then◌else◌, Bytes, eq_bytes, Result, ok, err,
}
use clowk_voodu.Base.Text.{ℤ, pos, negsuc, atoi}
use clowk_voodu.PodIps.Addresses.{block_size, block_contains, parse_addr}
use clowk_voodu.Store.Records.{WirePeer}

-- 10.254.0.0/16, of internal/meshdns
abbrev pub tunnel : ℕ
tunnel = 10 * 2 ^ 24 + 254 * 2 ^ 16

abbrev pub in_tunnel : ℕ → Bool
in_tunnel a = block_contains tunnel 16 a

-- An IPv4 prefix, its address and its bits.
abbrev pub Route : Type 0
Route = ℕ × ℕ

abbrev pub eq_route : Route → Route → Bool
eq_route (a, m) (b, n) = (a == b) && (m == n)

-- 10.254.X.Y → 10.X.Y.0/24
unfoldable pub container_subnet_for : ℕ → Route
container_subnet_for a = (10 * 2 ^ 24 + a / 256 % 256 * 2 ^ 16 + a % 256 * 2 ^ 8, 24)

abbrev pub ips_of : Option ℕ → List Route
ips_of none = []
ips_of (some a) = (a, 32) ∷ container_subnet_for a ∷ []

unfoldable pub allowed_ips : WirePeer → List Route
unfolding container_subnet_for
allowed_ips p = ips_of (parse_addr p.address)

-- The checks of Validate, in their order.
pub data WireError : Type 0 where
  bad_key bad_address outside_tunnel own_address bad_endpoint bad_port : WireError

abbrev pub is_key : Option ℕ → Bool
is_key none = false
is_key (some n) = n == 32

abbrev pub is_port : Option ℤ → Bool
is_port none = false
is_port (some (pos n)) = leb 1 n && leb n 65535
is_port (some (negsuc n)) = false

abbrev pub check_host : Bytes → Bytes → Result WireError (Unit {0})
check_host [] port = err bad_endpoint
check_host (b ∷ host) port = if is_port (atoi port) then ok tt else err bad_port

abbrev pub check_split : Option (Bytes × Bytes) → Result WireError (Unit {0})
check_split none = err bad_endpoint
check_split (some (host, port)) = check_host host port

abbrev pub is_own : ℕ → Option ℕ → Bool
is_own a none = false
is_own a (some own) = a == own

module _ (key_length : Bytes → Option ℕ) (split_host_port : Bytes → Option (Bytes × Bytes)) where
  abbrev pub check_endpoint : Bytes → Result WireError (Unit {0})
  check_endpoint [] = ok tt
  check_endpoint (b ∷ endpoint) = check_split (split_host_port (b ∷ endpoint))

  abbrev pub check_address : Option ℕ → Option ℕ → Bytes → Result WireError (Unit {0})
  check_address none local endpoint = err bad_address
  check_address (some a) local endpoint =
      if not (in_tunnel a)
      then err outside_tunnel
      else if is_own a local
      then err own_address
      else check_endpoint endpoint

  unfoldable pub validate_peer : Option ℕ → WirePeer → Result WireError (Unit {0})
  validate_peer local p =
      if is_key (key_length p.public_key)
      then check_address (parse_addr p.address) local p.endpoint
      else err bad_key

-- The check of Add: another address with the same key.
unfoldable pub key_taken : WirePeer → List WirePeer → Bool
key_taken p [] = false
key_taken p (e ∷ existing) =
    (eq_bytes e.public_key p.public_key && not (eq_bytes e.address p.address))
    || key_taken p existing

-- The routes on wg0, and the commands that change them.
abbrev pub Table : Type 0
Table = Route → Bool

pub data Command : Type 0 where
  replace_route delete_route : Route → Command

abbrev pub run_command : Command → Table → Table
run_command (replace_route r) t q = eq_route r q || t q
run_command (delete_route r) t q = not (eq_route r q) && t q

abbrev pub is_in : Route → List Route → Bool
is_in q [] = false
is_in q (r ∷ rs) = eq_route r q || is_in q rs

-- The subnets of the peers with a dotted IPv4 address, the only ones that Validate admits; what
-- ParseAddr accepts besides is left out.
abbrev pub add_wanted : Option ℕ → List Route → List Route
add_wanted none rest = rest
add_wanted (some a) rest = container_subnet_for a ∷ rest

unfoldable pub wanted_routes : List WirePeer → List Route
unfolding container_subnet_for
wanted_routes [] = []
wanted_routes (p ∷ peers) = add_wanted (parse_addr p.address) (wanted_routes peers)

-- A route that looks like a peer's subnet.
unfoldable pub is_container_route : Route → Bool
is_container_route (a, bits) = (bits == 24) && ((a / 2 ^ 24 == 10) && not (in_tunnel a))

-- The routes that ParseContainerRoutes finds among those that are shown.
unfoldable pub container_routes : List Route → List Route
unfolding is_container_route
container_routes [] = []
container_routes (r ∷ shown) =
    let rest = container_routes shown in if is_container_route r then r ∷ rest else rest

-- Each command may fail; then the rest is not run.
module _ (fails : Command → Bool) where
  abbrev pub run_or_stop : Command → Table → (Table → Table × Bool) → Table × Bool
  run_or_stop command t next = if fails command then (t, false) else next (run_command command t)

  unfoldable pub replace_all : List Route → Table → Table × Bool
  replace_all [] t = (t, true)
  replace_all (r ∷ wanted) t = run_or_stop (replace_route r) t (replace_all wanted)

  unfoldable pub delete_unwanted : List Route → List Route → Table → Table × Bool
  delete_unwanted wanted [] t = (t, true)
  delete_unwanted wanted (r ∷ routes) t =
      if is_in r wanted
      then delete_unwanted wanted routes t
      else run_or_stop (delete_route r) t (delete_unwanted wanted routes)

  -- show is what the last listing gives, with `none` for a failure.
  module _ (show : Table → Option (List Route)) where
    abbrev pub delete_shown : List Route → Table → Option (List Route) → Table × Bool
    delete_shown wanted t none = (t, false)
    delete_shown wanted t (some shown) = delete_unwanted wanted (container_routes shown) t

    abbrev pub after_replaced : List Route → Table × Bool → Table × Bool
    after_replaced wanted (t, false) = (t, false)
    after_replaced wanted (t, true) = delete_shown wanted t (show t)

    unfoldable pub routes : List WirePeer → Table → Table × Bool
    unfolding wanted_routes replace_all delete_unwanted container_routes
    routes peers t = after_replaced (wanted_routes peers) (replace_all (wanted_routes peers) t)
