-- ===== src/Keys.antt =====
-- internal/controller/keys.go: the kinds of manifests and the keys of the store, with the parsing of
-- keys in store.go and the scoping of kinds in manifest.go.
pub mod RoundTrip
pub mod Config
mod Examples
use clowk_voodu.Base.{
  ℕ, Bool, true, false, not, ◌&&◌, ◌||◌, Option, none, some, List, [], ◌∷◌, ◌++◌, length, drop, leb,
  ◌==◌, if◌then◌else◌, Bytes, eq_bytes, Result, ok, err,
}
use clowk_voodu.Base.Text.{codes, cut_byte, to_lower}

-- A kind is a string; the constants are those that the controller knows.
abbrev pub Kind : Type 0
Kind = Bytes

abbrev pub kind_asset : Kind
kind_asset = codes "asset"

abbrev pub known_kinds : List Kind
known_kinds =
    codes "deployment"
    ∷ codes "statefulset"
    ∷ codes "ingress"
    ∷ codes "job"
    ∷ codes "cronjob"
    ∷ codes "asset"
    ∷ codes "registry"
    ∷ []

abbrev pub known_scoped_kinds : List Kind
known_scoped_kinds =
    codes "deployment" ∷ codes "statefulset" ∷ codes "ingress" ∷ codes "job" ∷ codes "cronjob" ∷ []

abbrev pub is_listed : Bytes → List Bytes → Bool
is_listed k [] = false
is_listed k (j ∷ js) = eq_bytes j k || is_listed k js

-- validKinds[k], ScopedKinds[k], OptionallyScopedKinds[k]
unfoldable pub valid_kind : Kind → Bool
valid_kind k = is_listed k known_kinds

unfoldable pub is_scoped : Kind → Bool
is_scoped k = is_listed k known_scoped_kinds

unfoldable pub is_optionally_scoped : Kind → Bool
is_optionally_scoped k = eq_bytes kind_asset k

-- strings.TrimSuffix for a suffix of one byte
abbrev pub trim_last : ℕ → Bytes → Bytes
trim_last c [] = []
trim_last c (x ∷ []) = if x == c then [] else x ∷ []
trim_last c (x ∷ y ∷ s) = x ∷ trim_last c (y ∷ s)

unfoldable pub parse_kind : Bytes → Option Kind
unfolding valid_kind
parse_kind s =
    let k = to_lower s in
    let trimmed = trim_last b's' k in
    if valid_kind k then some k else if valid_kind trimmed then some trimmed else none

unfoldable pub app_id : Bytes → Bytes → Bytes
app_id [] name = name
app_id (b ∷ scope) name = b ∷ scope ++ codes "-" ++ name

-- The errors of Manifest.Validate, without their texts.
pub data ValidateError : Type 0 where
  name_required unknown_kind scope_required scope_not_supported : ValidateError

abbrev pub is_empty : Bytes → Bool
is_empty [] = true
is_empty (b ∷ s) = false

abbrev pub validate_scope : Option Kind → Bytes → Result ValidateError (Unit {0})
validate_scope none scope = err unknown_kind
validate_scope (some kind) scope =
    if is_scoped kind && is_empty scope
    then err scope_required
    else if not (is_scoped kind) && (not (is_optionally_scoped kind) && not (is_empty scope))
    then err scope_not_supported
    else ok tt

unfoldable pub validate : Kind → Bytes → Bytes → Result ValidateError (Unit {0})
unfolding parse_kind is_scoped is_optionally_scoped
validate kind scope name =
    if is_empty name then err name_required else validate_scope (parse_kind kind) scope

abbrev pub prefix_desired : Bytes
prefix_desired = codes "/desired/"

unfoldable pub desired_prefix : Kind → Bytes
desired_prefix kind = prefix_desired ++ kind ++ codes "s/"

unfoldable pub scoped_prefix : Kind → Bytes → Bytes
unfolding desired_prefix
scoped_prefix kind scope = desired_prefix kind ++ scope ++ codes "/"

unfoldable pub desired_key : Kind → Bytes → Bytes → Bytes
unfolding scoped_prefix desired_prefix is_scoped
desired_key kind scope name =
    if is_scoped kind then scoped_prefix kind scope ++ name else desired_prefix kind ++ name

-- The parts at the first slash, where neither is empty.
abbrev pub both_parts : Option (Bytes × Bytes) → Option (Bytes × Bytes)
both_parts (some (a ∷ s, b ∷ t)) = some (a ∷ s, b ∷ t)
both_parts _ = none

abbrev pub parse_scoped : Kind → Option (Bytes × Bytes) → Option (Kind × Bytes × Bytes)
parse_scoped kind none = none
parse_scoped kind (some (scope, name)) = some (kind, scope, name)

abbrev pub parse_tail : Option Kind → Bytes → Option (Kind × Bytes × Bytes)
parse_tail none tail = none
parse_tail (some kind) tail =
    if is_scoped kind
    then parse_scoped kind (both_parts (cut_byte tail b'/'))
    else some (kind, [], tail)

abbrev pub parse_segments : Option (Bytes × Bytes) → Option (Kind × Bytes × Bytes)
parse_segments none = none
parse_segments (some (plural, tail)) = parse_tail (parse_kind plural) tail

unfoldable pub parse_desired_key : Bytes → Option (Kind × Bytes × Bytes)
unfolding parse_kind is_scoped
parse_desired_key key =
    if leb (length key) (length prefix_desired)
    then none
    else parse_segments (both_parts (cut_byte (drop (length prefix_desired) key) b'/'))

-- The keys of configuration, status and frozen ordinals.
abbrev pub config_segment : Bytes → Bytes
config_segment [] = codes "_"
config_segment (b ∷ name) = b ∷ name

unfoldable pub config_prefix : Bytes → Bytes → Bytes
config_prefix scope name =
    codes "/config/" ++ scope ++ codes "/" ++ config_segment name ++ codes "/"

unfoldable pub config_key : Bytes → Bytes → Bytes → Bytes
unfolding config_prefix
config_key scope name key = config_prefix scope name ++ key
