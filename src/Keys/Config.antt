-- ===== src/Keys/Config.antt =====
-- The keys of configuration values.
use clowk_voodu.Base.{◌≡◌, ◌≢◌, refl, sym, ap, ◌∙◌, some, [], ◌∷◌, ◌++◌, append_assoc, drop, Bytes}
use clowk_voodu.Base.Text.{codes, cut_byte}
use clowk_voodu.Base.Text.Laws.{Lacks, cut_byte-append}
use clowk_voodu.Keys.{config_segment, config_prefix, config_key}

segment-Lacks : (name : Bytes) → Lacks b'/' name → Lacks b'/' (config_segment name)
segment-Lacks [] l = (refl, tt)
segment-Lacks (b ∷ name) l = l

segment_injective :
    (m n : Bytes) → m ≢ codes "_" → n ≢ codes "_" → config_segment m ≡ config_segment n → m ≡ n
segment_injective [] [] p q e = refl
segment_injective [] (b ∷ n) p q e = absurd (q (sym e))
segment_injective (b ∷ m) [] p q e = absurd (p e)
segment_injective (b ∷ m) (c ∷ n) p q e = e

-- The segments of a key behind the prefix.
config_key-cut :
    (scope name key : Bytes)
    → Lacks b'/' scope
    → cut_byte (drop 8 (config_key scope name key)) b'/'
      ≡ some (scope, config_segment name ++ (b'/' ∷ key))
unfolding config_key config_prefix
config_key-cut scope name key l =
    let middle = config_segment name in
    let parts : scope ++ codes "/" ++ middle ++ codes "/" ++ key
        ≡ scope ++ (b'/' ∷ (middle ++ (b'/' ∷ key))) =
      append_assoc (scope ++ codes "/" ++ middle) (codes "/") key
      ∙ append_assoc (scope ++ codes "/") middle (b'/' ∷ key)
      ∙ append_assoc scope (codes "/") (middle ++ (b'/' ∷ key)) in
    ap (λ s. cut_byte s b'/') parts ∙ cut_byte-append b'/' scope (middle ++ (b'/' ∷ key)) l

-- Scopes and names without a slash, the names not the reserved "_", never share a key: the same key
-- comes from the same scope, name and variable.
pub config_key_injective :
    (s t m n j k : Bytes)
    → Lacks b'/' s
    → Lacks b'/' t
    → Lacks b'/' m
    → Lacks b'/' n
    → m ≢ codes "_"
    → n ≢ codes "_"
    → config_key s m j ≡ config_key t n k
    → (s ≡ t) × (m ≡ n) × (j ≡ k)
config_key_injective s t m n j k ls lt lm ln pm pn e =
    let first = ap (λ key. cut_byte (drop 8 key) b'/') e in
    let scopes : s ≡ t = cc (first, config_key-cut s m j ls, config_key-cut t n k lt) in
    let rests : config_segment m ++ (b'/' ∷ j) ≡ config_segment n ++ (b'/' ∷ k) =
      cc (first, config_key-cut s m j ls, config_key-cut t n k lt) in
    let second = ap (λ rest. cut_byte rest b'/') rests in
    let at_m = cut_byte-append b'/' (config_segment m) j (segment-Lacks m lm) in
    let at_n = cut_byte-append b'/' (config_segment n) k (segment-Lacks n ln) in
    let segments : config_segment m ≡ config_segment n = cc (second, at_m, at_n) in
    let variables : j ≡ k = cc (second, at_m, at_n) in
    (scopes, segment_injective m n pm pn segments, variables)
