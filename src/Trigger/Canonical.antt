-- ===== src/Trigger/Canonical.antt =====
-- The canonical form of a trigger, and the scopes that it allows.
use clowk_voodu.Base.{
  ◌≡◌, refl, sym, ap, ◌∙◌, subst, Bool, true, false, ◌||◌, List, [], ◌∷◌, ◌++◌, if◌then◌else◌,
  Bytes, eq_bytes, Result, ok, err, >>=-eq-ok, arith,
}
use mathlib.Core.List.{reverse}
use clowk_voodu.Base.Text.{codes, trim_space, to_lower}
use clowk_voodu.Base.Text.Laws.{eq_bytes_iff}
use clowk_voodu.Keys.{is_listed}
use clowk_voodu.Trigger.{
  TriggerInput, TriggerError, sort_onto, sort_strings, contains_any, collect_scope, collect_scopes,
  sorted_scopes, scope_malformed, validate_repo, nonempty_branch, normalize_allow_scopes, normalize,
  allows_scope,
}
use clowk_voodu.Trigger.Sorting.{
  Once, sorted-Descending, is_listed-sort_onto, is_listed-sort_strings, Descending-unique,
}

abbrev add_supplied : Bytes → List Bytes → List Bytes
add_supplied [] rest = rest
add_supplied (b ∷ s) rest = (b ∷ s) ∷ rest

-- The scopes that an input has, without the space around them and without those that are empty.
abbrev pub supplied : List Bytes → List Bytes
supplied [] = []
supplied (s ∷ scopes) = add_supplied (trim_space s) (supplied scopes)

is_listed-append :
    (k s : Bytes) (ts : List Bytes) → is_listed k (ts ++ s ∷ []) ≡ eq_bytes s k || is_listed k ts
is_listed-append k s [] = ground arith
is_listed-append k s (t ∷ ts) = ground (arith, is_listed-append k s ts)

Once-append : (s : Bytes) (ts : List Bytes) → is_listed s ts ≡ false → Once ts → Once (ts ++ s ∷ [])
Once-append s [] new once = (refl, tt)
Once-append s (t ∷ ts) new once = (
  is_listed-append t s ts ∙ ground (arith, new, once.0, eq_bytes_iff t s, eq_bytes_iff s t),
  Once-append s ts (ground (arith, new)) once.1,
)

-- What the loop has kept.
pub record Kept (scopes out kept : List Bytes) : Type 0 where
  pub once : Once kept
  pub same : (k : Bytes) → is_listed k kept ≡ is_listed k scopes || is_listed k out

module _ (rest out kept : List Bytes) (next : List Bytes → Result TriggerError (List Bytes))
    (later : (seen : List Bytes) → Once seen → next seen ≡ ok kept → Kept rest seen kept)
    (once : Once out) where
  chosen :
      (t : Bytes) (bad listed : Bool)
      → is_listed t out ≡ listed
      → (if bad then err (scope_malformed t) else if listed then next out else next (out ++ t ∷ []))
        ≡ ok kept
      → Kept (t ∷ rest) out kept
  chosen t true listed seen e = cc
  chosen t false true seen e =
      let r = later out once e in
      record { once = r.once; same = λ k. r.same k ∙ ground (arith, seen, eq_bytes_iff t k) }
  chosen t false false new e =
      let r = later (out ++ t ∷ []) (Once-append t out new once) e in
      record { once = r.once; same = λ k. r.same k ∙ ground (arith, is_listed-append k t out) }

  collected : (s : Bytes) → collect_scope s out next ≡ ok kept → Kept (add_supplied s rest) out kept
  collected [] e = later out once e
  collected (b ∷ s) e =
      chosen (b ∷ s) (contains_any (b ∷ s) (codes "/ \t")) (is_listed (b ∷ s) out) refl e

pub collect_scopes-Kept :
    (scopes out kept : List Bytes)
    → Once out
    → collect_scopes scopes out ≡ ok kept
    → Kept (supplied scopes) out kept
unfolding collect_scopes
collect_scopes-Kept [] out kept once e =
    let same : out ≡ kept = cc in
    record { once = subst Once same once; same = λ k. ap (is_listed k) (sym same) }
collect_scopes-Kept (s ∷ scopes) out kept once e =
    collected (supplied scopes) out kept (collect_scopes scopes)
      (λ seen o f. collect_scopes-Kept scopes seen kept o f) once (trim_space s) e

-- What an accepted list of scopes is made of.
pub normalize_allow_scopes-Kept :
    (scopes allowed : List Bytes)
    → normalize_allow_scopes scopes ≡ ok allowed
    → (kept : List Bytes) × Kept (supplied scopes) [] kept × (allowed ≡ sort_strings kept)
unfolding normalize_allow_scopes
normalize_allow_scopes-Kept scopes allowed e =
    let (kept, collects, sorts) = >>=-eq-ok (collect_scopes scopes []) sorted_scopes e in
    (kept, collect_scopes-Kept scopes [] kept tt collects, sorted kept sorts)
  where
    sorted : (kept : List Bytes) → sorted_scopes kept ≡ ok allowed → allowed ≡ sort_strings kept
    sorted [] f = cc
    sorted (s ∷ kept) f = cc

-- A trigger of an accepted list allows exactly the scopes that are in the list, without the space
-- around them, and are not empty.
pub allows_scope-supplied :
    (scopes allowed : List Bytes) (scope : Bytes)
    → normalize_allow_scopes scopes ≡ ok allowed
    → allows_scope allowed scope ≡ is_listed scope (supplied scopes)
unfolding allows_scope
allows_scope-supplied scopes allowed scope e =
    let (kept, k, same) = normalize_allow_scopes-Kept scopes allowed e in
    ap (is_listed scope) same ∙ is_listed-sort_strings scope kept ∙ ground (arith, k.same scope)

add_nonempty :
    (t : Bytes) (rest : List Bytes)
    → is_listed [] rest ≡ false
    → is_listed [] (add_supplied t rest) ≡ false
unfolding eq_bytes
add_nonempty [] rest out = out
add_nonempty (b ∷ t) rest out = out

supplied_nonempty : (scopes : List Bytes) → is_listed [] (supplied scopes) ≡ false
supplied_nonempty [] = refl
supplied_nonempty (s ∷ scopes) =
    add_nonempty (trim_space s) (supplied scopes) (supplied_nonempty scopes)

-- No trigger of an accepted list allows the empty scope, whatever the list has.
pub empty_scope_refused :
    (scopes allowed : List Bytes)
    → normalize_allow_scopes scopes ≡ ok allowed
    → allows_scope allowed [] ≡ false
empty_scope_refused scopes allowed e =
    allows_scope-supplied scopes allowed [] e ∙ supplied_nonempty scopes

-- Accepted lists of the same scopes have the same canonical form.
same_scopes :
    (a b allowed others : List Bytes)
    → ((k : Bytes) → is_listed k (supplied a) ≡ is_listed k (supplied b))
    → normalize_allow_scopes a ≡ ok allowed
    → normalize_allow_scopes b ≡ ok others
    → allowed ≡ others
unfolding sort_strings
same_scopes a b allowed others same e f =
    let (kept, k, left) = normalize_allow_scopes-Kept a allowed e in
    let (kept', k', right) = normalize_allow_scopes-Kept b others f in
    let sorted : sort_onto kept [] ≡ sort_onto kept' [] =
      Descending-unique (sort_onto kept []) (sort_onto kept' []) (sorted-Descending kept k.once)
        (sorted-Descending kept' k'.once)
        (λ s.
          is_listed-sort_onto s kept []
          ∙ ground (arith, is_listed-sort_onto s kept' [], k.same s, k'.same s, same s)) in
    left ∙ ap reverse sorted ∙ sym right

branch_kept : (t branch : Bytes) → nonempty_branch t ≡ ok branch → t ≡ branch
branch_kept [] branch e = cc
branch_kept (b ∷ t) branch e = cc

-- The form of an accepted input.
abbrev form_of : TriggerInput → List Bytes → TriggerInput
form_of i scopes = record {
  repo = to_lower (trim_space i.repo);
  branch = trim_space i.branch;
  allow_scopes = scopes;
  enabled = i.enabled;
}

normalize-form_of :
    (i a : TriggerInput)
    → normalize i ≡ ok a
    → (scopes : List Bytes) × (normalize_allow_scopes i.allow_scopes ≡ ok scopes)
      × (a ≡ form_of i scopes)
unfolding normalize
normalize-form_of i a e =
    let (valid, v, rest) = >>=-eq-ok (validate_repo (to_lower (trim_space i.repo))) _ e in
    let (branch, b, rest') = >>=-eq-ok (nonempty_branch (trim_space i.branch)) _ rest in
    let (scopes, s, last) = >>=-eq-ok (normalize_allow_scopes i.allow_scopes) _ rest' in
    let trimmed = branch_kept (trim_space i.branch) branch b in
    let made : a ≡ record (form_of i scopes) { branch = branch } = cc in
    (scopes, s, made ∙ ap (λ t. record (form_of i scopes) { branch = t }) (sym trimmed))

-- Two accepted inputs have the same canonical form if they have the same repository but for
-- case and the space around it, the same branch but for the space around it, the same scopes but for their
-- order, repetitions, empty ones and the space around them, and are both enabled, disabled or neither.
pub normalize_canonical :
    (i j a b : TriggerInput)
    → normalize i ≡ ok a
    → normalize j ≡ ok b
    → to_lower (trim_space i.repo) ≡ to_lower (trim_space j.repo)
    → trim_space i.branch ≡ trim_space j.branch
    → ((k : Bytes) → is_listed k (supplied i.allow_scopes) ≡ is_listed k (supplied j.allow_scopes))
    → i.enabled ≡ j.enabled
    → a ≡ b
normalize_canonical i j a b e f repos branches scopes enabled =
    let (allowed, s, left) = normalize-form_of i a e in
    let (others, t, right) = normalize-form_of j b f in
    let lists = same_scopes i.allow_scopes j.allow_scopes allowed others scopes s t in
    left ∙ rw (repos, branches, lists, enabled) refl ∙ sym right
