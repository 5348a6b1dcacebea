-- ===== src/Ports/Loopback.antt =====
-- The ports that a manifest writes without an address.
use clowk_voodu.Base.{
  ℕ, suc, ◌≡◌, ◌≢◌, refl, ap, true, false, some, List, [], ◌∷◌, ◌++◌, ◌==◌, All, Bytes, arith,
}
use clowk_voodu.Base.Text.{codes, has_prefix, cut_byte}
use clowk_voodu.Base.Text.Laws.{Lacks, cut_byte-append}
use clowk_voodu.Ports.{
  count_byte, normalize_port, parse_host_binding, pins_host_port, can_surge, host_port_mode,
  host_ports_ephemeral,
}

count_byte-Lacks : (c : ℕ) (s : Bytes) → Lacks c s → count_byte s c ≡ 0
count_byte-Lacks c [] l = refl
count_byte-Lacks c (x ∷ s) l = rw (l.0) (count_byte-Lacks c s l.1)

count_byte-cut : (c : ℕ) (s t : Bytes) → Lacks c s → Lacks c t → count_byte (s ++ c ∷ t) c ≡ 1
count_byte-cut c [] t l m =
    let same : (c == c) ≡ true = ground arith in rw same (ap suc (count_byte-Lacks c t m))
count_byte-cut c (x ∷ s) t l m = rw (l.0) (count_byte-cut c s t l.1 m)

-- A port written as a container port alone, without a colon and not in brackets, is bound to the loopback
-- address with no host port of its own.
pub container_port_loopback :
    (port : Bytes)
    → has_prefix port (codes "[") ≡ false
    → Lacks b':' port
    → parse_host_binding port
      ≡ some (record { ip = codes "127.0.0.1"; host_port = []; container = port })
unfolding parse_host_binding normalize_port cut_byte has_prefix
container_port_loopback port bracket l =
    rw (bracket, count_byte-Lacks b':' port l) (rw (count_byte-Lacks b':' port l) refl)

-- A port written as host:container, neither part with a colon and the first not in brackets, is bound to
-- the loopback address with that host port.
pub host_port_loopback :
    (host container : Bytes)
    → has_prefix (host ++ b':' ∷ container) (codes "[") ≡ false
    → Lacks b':' host
    → Lacks b':' container
    → parse_host_binding (host ++ b':' ∷ container)
      ≡ some (record { ip = codes "127.0.0.1"; host_port = host; container = container })
unfolding parse_host_binding normalize_port cut_byte has_prefix
host_port_loopback host container bracket l m =
    rw (bracket, count_byte-cut b':' host container l m)
      (rw (cut_byte-append b':' host container l, count_byte-Lacks b':' container m) refl)

-- A port that names only the container's side.
abbrev pub ContainerPort : Bytes → Type 0
ContainerPort port = (has_prefix port (codes "[") ≡ false) × Lacks b':' port

ContainerPort-pins : (port : Bytes) → ContainerPort port → pins_host_port port ≡ false
unfolding pins_host_port parse_host_binding normalize_port has_prefix cut_byte
ContainerPort-pins port (bracket, l) =
    rw (bracket, count_byte-Lacks b':' port l) (rw (count_byte-Lacks b':' port l) refl)

container_ports-surge : (ports : List Bytes) → All ContainerPort ports → can_surge ports ≡ true
unfolding can_surge
container_ports-surge [] all = refl
container_ports-surge (p ∷ ports) all =
    rw (ContainerPort-pins p all.0) (container_ports-surge ports all.1)

-- A deployment with ports, all of which name only the container's side, publishes them at ephemeral host
-- ports, so that it can surge.
pub container_ports_ephemeral :
    (ports : List Bytes)
    → ports ≢ []
    → All ContainerPort ports
    → (host_port_mode ports ≡ host_ports_ephemeral) × (can_surge ports ≡ true)
unfolding host_port_mode
container_ports_ephemeral [] ne all = absurd (ne refl)
container_ports_ephemeral (p ∷ ports) ne all =
    let surge = container_ports-surge (p ∷ ports) all in (rw surge refl, surge)
