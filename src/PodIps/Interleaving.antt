-- ===== src/PodIps/Interleaving.antt =====
-- Several clients of the store at once: their transactions run in any order, and a release uses an
-- address that was read some time before.
use clowk_voodu.Base.{
  ◌≡◌, refl, sym, subst, ap, ◌∙◌, suc, none, some, ◌∷◌, ◌++◌, drop, append_assoc, Bytes, arith,
}
use mathlib.Core.Bool.{true≢false}
use clowk_voodu.Base.Text.{ℤ, pos, negsuc, codes, cut_byte, format_int}
use clowk_voodu.Base.Text.Laws.{Lacks, cut_byte-append, itoa-Lacks, itoa_injective}
use clowk_voodu.Etcd.{View, run_txn}
use clowk_voodu.PodIps.{pod_ip_pod_key, pod_ref, reserve_txn, release_txn}
use clowk_voodu.PodIps.Consistent.{
  Consistent, pod_key-ref, reserve_txn-Consistent, release_txn-Consistent,
}

-- The keys that a sequence of transactions of ReservePodIP and ReleasePodIP, of any clients for any
-- pods and addresses, makes of an empty store.
pub data Reachable : View → Type 0 where
  nothing_reserved : Reachable (λ k. none)
  reserves :
      (scope name : Bytes) (o : ℤ) (ip : Bytes) {w : View}
      → Reachable w
      → Reachable (run_txn (reserve_txn scope name o ip) w)
  releases :
      (scope name : Bytes) (o : ℤ) (held : Bytes) {w : View}
      → Reachable w
      → Reachable (run_txn (release_txn scope name o held) w)

pub Reachable-Consistent : (w : View) → Reachable w → Consistent w
Reachable-Consistent _ nothing_reserved = λ r ip h. cc
Reachable-Consistent _ (reserves scope name o ip {w = w} h) =
    reserve_txn-Consistent scope name o ip w (Reachable-Consistent w h)
Reachable-Consistent _ (releases scope name o held {w = w} h) =
    release_txn-Consistent scope name o held w (Reachable-Consistent w h)

-- Text of an int names it.
format_int_injective : (o p : ℤ) → format_int o ≡ format_int p → o ≡ p
format_int_injective (pos m) (pos n) e = ap pos (itoa_injective m n e)
format_int_injective (pos m) (negsuc n) e =
    let l = subst (Lacks b'-') e (itoa-Lacks b'-' m refl) in absurd (true≢false l.0)
format_int_injective (negsuc m) (pos n) e =
    let l = subst (Lacks b'-') (sym e) (itoa-Lacks b'-' n refl) in absurd (true≢false l.0)
format_int_injective (negsuc m) (negsuc n) e =
    let same : suc m ≡ suc n = itoa_injective (suc m) (suc n) (ap (drop 1) e) in
    ap negsuc (omega arith)

pod_ref-parts :
    (scope name : Bytes) (o : ℤ)
    → pod_ref scope name o ≡ scope ++ b'/' ∷ (name ++ b'/' ∷ format_int o)
unfolding pod_ref
pod_ref-parts scope name o =
    append_assoc (scope ++ codes "/" ++ name) (codes "/") (format_int o)
    ∙ append_assoc (scope ++ codes "/") name (b'/' ∷ format_int o)
    ∙ append_assoc scope (codes "/") (name ++ b'/' ∷ format_int o)

-- The reference to a pod names it, where neither the scope nor the name has a slash.
pod_ref_injective :
    (scope name scope' name' : Bytes) (o o' : ℤ)
    → Lacks b'/' scope
    → Lacks b'/' name
    → Lacks b'/' scope'
    → Lacks b'/' name'
    → pod_ref scope name o ≡ pod_ref scope' name' o'
    → (scope ≡ scope') × (name ≡ name') × (o ≡ o')
pod_ref_injective scope name scope' name' o o' ls ln ls' ln' e =
    let rest : Bytes = name ++ b'/' ∷ format_int o in
    let rest' : Bytes = name' ++ b'/' ∷ format_int o' in
    let outer =
      ap (λ r. cut_byte r b'/')
        (sym (pod_ref-parts scope name o) ∙ e ∙ pod_ref-parts scope' name' o') in
    let first = cut_byte-append b'/' scope rest ls in
    let first' = cut_byte-append b'/' scope' rest' ls' in
    let scopes : scope ≡ scope' = cc (outer, first, first') in
    let rests : rest ≡ rest' = cc (outer, first, first') in
    let inner = ap (λ r. cut_byte r b'/') rests in
    let second = cut_byte-append b'/' name (format_int o) ln in
    let second' = cut_byte-append b'/' name' (format_int o') ln' in
    let names : name ≡ name' = cc (inner, second, second') in
    let ordinals : format_int o ≡ format_int o' = cc (inner, second, second') in
    (scopes, names, format_int_injective o o' ordinals)

-- In every store that clients reach by interleaved reservations and releases, two pods without
-- a slash in their scopes and names whose keys name the same address have the same scope, name
-- and ordinal.
pub address_exclusive :
    (w : View) (scope name scope' name' : Bytes) (o o' : ℤ) (ip : Bytes)
    → Reachable w
    → Lacks b'/' scope
    → Lacks b'/' name
    → Lacks b'/' scope'
    → Lacks b'/' name'
    → w (pod_ip_pod_key scope name o) ≡ some ip
    → w (pod_ip_pod_key scope' name' o') ≡ some ip
    → (scope ≡ scope') × (name ≡ name') × (o ≡ o')
address_exclusive w scope name scope' name' o o' ip reach ls ln ls' ln' p q =
    let c = Reachable-Consistent w reach in
    let first = c (pod_ref scope name o) ip (ap w (sym (pod_key-ref scope name o)) ∙ p) in
    let second = c (pod_ref scope' name' o') ip (ap w (sym (pod_key-ref scope' name' o')) ∙ q) in
    pod_ref_injective scope name scope' name' o o' ls ln ls' ln' cc
