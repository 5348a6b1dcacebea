-- ===== src/Ports/Examples.antt =====
-- The ports of concrete deployments.
use clowk_voodu.Base.{◌≡◌, ◌≢◌, refl, ap, Bool, true, false, some, List, [], ◌∷◌, Bytes}
use mathlib.Core.Bool.{true≢false}
use clowk_voodu.Base.Text.{codes, has_prefix, cut_byte}
use clowk_voodu.Ports.{
  normalize_port, parse_host_binding, cut_bracket, pins_host_port, can_surge, host_port_mode,
  host_ports_fixed,
}

-- A port in brackets, and one with a host port, are pinned.
bracket_pinned : host_port_mode (codes "80" ∷ codes "[::1]:80:80" ∷ []) ≡ host_ports_fixed
unfolding host_port_mode can_surge pins_host_port normalize_port has_prefix cut_byte
    parse_host_binding
bracket_pinned = refl

bracket_binding :
    parse_host_binding (codes "[::1]:81:80")
    ≡ some (record { ip = codes "[::1]"; host_port = codes "81"; container = codes "80" })
unfolding normalize_port has_prefix cut_byte parse_host_binding cut_bracket
bracket_binding = refl

no_bracket : has_prefix (codes "80") (codes "[") ≡ false
unfolding has_prefix
no_bracket = refl

no_bracket_pair : has_prefix (codes "81:80") (codes "[") ≡ false
unfolding has_prefix
no_bracket_pair = refl

abbrev starts : List Bytes → Bool
starts [] = false
starts (p ∷ ps) = true

ports_given : codes "80" ∷ [] ≢ []
ports_given e = true≢false (ap starts e)
