-- ===== src/Wire/Subnets.antt =====
-- The subnets of the hosts' containers.
use clowk_voodu.Base.{ℕ, ◌/◌, ◌%◌, ◌≡◌, Bool, true, not, ◌==◌, arith}
use clowk_voodu.PodIps.Addresses.{block_contains}
use clowk_voodu.Wire.{in_tunnel, Route, container_subnet_for, is_container_route}

abbrev pub holds : Route → ℕ → Bool
holds (base, bits) x = block_contains base bits x

-- No address is in the container subnets of two hosts of the tunnel.
pub subnets_disjoint :
    (a b x : ℕ)
    → in_tunnel a ≡ true
    → in_tunnel b ≡ true
    → holds (container_subnet_for a) x ≡ true
    → holds (container_subnet_for b) x ≡ true
    → a ≡ b
unfolding container_subnet_for
subnets_disjoint a b x ha hb hx hy = ground (arith, ha, hb, hx, hy)

-- The subnet of a host of the tunnel is one that ParseContainerRoutes finds, except for the hosts
-- 10.254.254.Y, whose subnet lies in the tunnel.
pub subnet_found :
    (a : ℕ)
    → in_tunnel a ≡ true
    → is_container_route (container_subnet_for a) ≡ not (a / 256 % 256 == 254)
unfolding container_subnet_for is_container_route
subnet_found a h = ground (arith, h)
