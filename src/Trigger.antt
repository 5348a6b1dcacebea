-- ===== src/Trigger.antt =====
-- internal/controller/trigger.go: what a deploy trigger allows, and the canonical form of what an
-- operator supplies. An unset `enabled` is `none`.
pub mod Order
pub mod Sorting
pub mod Canonical
mod Examples
use clowk_voodu.Base.{
  ℕ, Bool, true, false, not, ◌&&◌, ◌||◌, Option, none, some, List, [], ◌∷◌, ◌++◌, ltb, ◌==◌,
  if◌then◌else◌, Bytes, eq_bytes, Result, ok, err, ◌>>=◌,
}
use mathlib.Core.List.{reverse}
use clowk_voodu.Base.Text.{codes, cut_byte, trim_space, to_lower}
use clowk_voodu.Keys.{is_listed}

pub record TriggerInput : Type 0 where
  pub repo : Bytes
  pub branch : Bytes
  pub allow_scopes : List Bytes
  pub enabled : Option Bool

-- The reasons of ErrTriggerInvalid.
pub data TriggerError : Type 0 where
  repo_required branch_required scopes_required : TriggerError
  repo_malformed scope_malformed : Bytes → TriggerError

-- s < t on strings
unfoldable pub less : Bytes → Bytes → Bool
less [] [] = false
less [] (y ∷ ys) = true
less (x ∷ xs) [] = false
less (x ∷ xs) (y ∷ ys) = ltb x y || ((x == y) && less xs ys)

-- One round of sortStrings: the element moves down past the greater ones before it. The part that
-- is sorted is in reverse.
unfoldable pub sink : Bytes → List Bytes → List Bytes
sink s [] = s ∷ []
sink s (t ∷ sorted) = let rest = sink s sorted in if less s t then t ∷ rest else s ∷ t ∷ sorted

unfoldable pub sort_onto : List Bytes → List Bytes → List Bytes
sort_onto [] sorted = sorted
sort_onto (s ∷ unsorted) sorted = sort_onto unsorted (sink s sorted)

unfoldable pub sort_strings : List Bytes → List Bytes
unfolding sort_onto
sort_strings ss = reverse (sort_onto ss [])

-- strings.ContainsAny
unfoldable pub contains_any : Bytes → Bytes → Bool
contains_any [] chars = false
contains_any (x ∷ s) chars = is_char x chars || contains_any s chars
  where
    is_char : ℕ → Bytes → Bool
    is_char x [] = false
    is_char x (c ∷ cs) = (x == c) || is_char x cs

abbrev pub bad_part : Bytes → Bool
bad_part [] = true
bad_part (b ∷ part) =
    contains_any (b ∷ part) (codes "/\\ \t")
    || (eq_bytes (b ∷ part) (codes ".") || eq_bytes (b ∷ part) (codes ".."))

abbrev pub validate_parts : Bytes → Option (Bytes × Bytes) → Result TriggerError (Unit {0})
validate_parts repo none = err (repo_malformed repo)
validate_parts repo (some (owner, name)) =
    if bad_part owner || bad_part name then err (repo_malformed repo) else ok tt

unfoldable pub validate_repo : Bytes → Result TriggerError (Unit {0})
unfolding contains_any
validate_repo [] = err repo_required
validate_repo (b ∷ repo) = validate_parts (b ∷ repo) (cut_byte (b ∷ repo) b'/')

-- The loop of normalizeAllowScopes, over what it has kept; `seen` has the same scopes as `out`.
abbrev pub collect_scope :
    Bytes
    → List Bytes
    → (List Bytes → Result TriggerError (List Bytes))
    → Result TriggerError (List Bytes)
collect_scope [] out next = next out
collect_scope (b ∷ s) out next =
    if contains_any (b ∷ s) (codes "/ \t")
    then err (scope_malformed (b ∷ s))
    else if is_listed (b ∷ s) out
    then next out
    else next (out ++ (b ∷ s) ∷ [])

unfoldable pub collect_scopes : List Bytes → List Bytes → Result TriggerError (List Bytes)
unfolding contains_any
collect_scopes [] out = ok out
collect_scopes (s ∷ scopes) out = collect_scope (trim_space s) out (collect_scopes scopes)

abbrev pub sorted_scopes : List Bytes → Result TriggerError (List Bytes)
sorted_scopes [] = err scopes_required
sorted_scopes (s ∷ out) = ok (sort_strings (s ∷ out))

unfoldable pub normalize_allow_scopes : List Bytes → Result TriggerError (List Bytes)
unfolding collect_scopes sort_strings
normalize_allow_scopes scopes = collect_scopes scopes [] >>= sorted_scopes

abbrev pub nonempty_branch : Bytes → Result TriggerError Bytes
nonempty_branch [] = err branch_required
nonempty_branch (b ∷ branch) = ok (b ∷ branch)

unfoldable pub normalize : TriggerInput → Result TriggerError TriggerInput
unfolding validate_repo normalize_allow_scopes
normalize input =
    let repo = to_lower (trim_space input.repo) in
    validate_repo repo >>= λ valid. nonempty_branch (trim_space input.branch) >>= λ branch.
    normalize_allow_scopes input.allow_scopes >>= λ scopes.
    ok (record { repo = repo; branch = branch; allow_scopes = scopes; enabled = input.enabled })

-- The list of a trigger is what AllowsScope looks in.
unfoldable pub allows_scope : List Bytes → Bytes → Bool
allows_scope allowed scope = is_listed scope allowed

unfoldable pub refused_scopes : List Bytes → List Bytes → List Bytes
unfolding allows_scope
refused_scopes allowed [] = []
refused_scopes allowed (s ∷ scopes) =
    let rest = refused_scopes allowed scopes in if allows_scope allowed s then rest else s ∷ rest

-- strings.EqualFold on ASCII
unfoldable pub matches_repo : Bytes → Bytes → Bool
matches_repo own repo = eq_bytes (to_lower own) (to_lower (trim_space repo))
