-- ===== src/Ports.antt =====
-- internal/controller/surge.go: how a deployment publishes ports on the host, with normalizePort of
-- handlers.go.
pub mod Loopback
mod Examples
use clowk_voodu.Base.{
  ℕ, suc, Bool, true, false, not, ◌&&◌, Option, none, some, List, [], ◌∷◌, ◌++◌, ◌==◌,
  if◌then◌else◌, Bytes,
}
use clowk_voodu.Base.Text.{codes, has_prefix, cut_byte}

-- strings.Count(s, c) for one byte
abbrev pub count_byte : Bytes → ℕ → ℕ
count_byte [] c = 0
count_byte (x ∷ s) c = let rest = count_byte s c in if x == c then suc rest else rest

unfoldable pub normalize_port : Bytes → Bytes
normalize_port p =
    if has_prefix p (codes "[")
    then p
    else if count_byte p b':' == 0
    then codes "127.0.0.1::" ++ p
    else if count_byte p b':' == 1
    then codes "127.0.0.1:" ++ p
    else p

unfoldable pub normalize_ports : List Bytes → List Bytes
unfolding normalize_port
normalize_ports [] = []
normalize_ports (p ∷ ps) = normalize_port p ∷ normalize_ports ps

pub record HostBinding : Type 0 where
  pub ip : Bytes
  pub host_port : Bytes
  pub container : Bytes

abbrev onto : ℕ → Option (Bytes × Bytes) → Option (Bytes × Bytes)
onto x none = none
onto x (some (a, b)) = some (x ∷ a, b)

-- The parts before and after the colon of the first "]:".
unfoldable pub cut_bracket : Bytes → Option (Bytes × Bytes)
cut_bracket [] = none
cut_bracket (x ∷ []) = none
cut_bracket (x ∷ y ∷ s) =
    let rest = cut_bracket (y ∷ s) in
    if (x == b']') && (y == b':') then some (x ∷ [], s) else onto x rest

-- The host port and the container port, with no further colon.
abbrev pub bind_ports : Bytes → Option (Bytes × Bytes) → Option HostBinding
bind_ports ip none = none
bind_ports ip (some (host, container)) =
    if count_byte container b':' == 0
    then some (record { ip = ip; host_port = host; container = container })
    else none

abbrev pub bind_rest : Option (Bytes × Bytes) → Option HostBinding
bind_rest none = none
bind_rest (some (ip, rest)) = bind_ports ip (cut_byte rest b':')

unfoldable pub parse_host_binding : Bytes → Option HostBinding
unfolding normalize_port cut_bracket
parse_host_binding port =
    let normalized = normalize_port port in
    bind_rest (
      if has_prefix normalized (codes "[")
      then cut_bracket normalized
      else cut_byte normalized b':')

abbrev pub is_text : Bytes → Bool
is_text [] = false
is_text (b ∷ s) = true

-- A shape that is not parsed is taken as pinned.
abbrev pub binding_pins : Option HostBinding → Bool
binding_pins none = true
binding_pins (some b) = is_text b.host_port

unfoldable pub pins_host_port : Bytes → Bool
unfolding normalize_port parse_host_binding
pins_host_port port =
    if has_prefix (normalize_port port) (codes "[")
    then true
    else binding_pins (parse_host_binding port)

-- The loop over the ports of the spec.
unfoldable pub can_surge : List Bytes → Bool
unfolding pins_host_port
can_surge [] = true
can_surge (p ∷ ports) = let rest = can_surge ports in if pins_host_port p then false else rest

pub data HostPorts : Type 0 where
  host_ports_none host_ports_ephemeral host_ports_fixed : HostPorts

unfoldable pub host_port_mode : List Bytes → HostPorts
unfolding can_surge
host_port_mode [] = host_ports_none
host_port_mode (p ∷ ports) =
    if not (can_surge (p ∷ ports)) then host_ports_fixed else host_ports_ephemeral
