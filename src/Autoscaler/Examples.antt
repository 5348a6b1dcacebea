-- ===== src/Autoscaler/Examples.antt =====
-- A deployment at 80% of CPU with a target of 50%, in hundredths of a percent.
use clowk_voodu.Base.{
  ℕ, ◌+◌, ◌*◌, ◌/◌, ◌≡◌, refl, true, Option, none, some, List, [], ◌∷◌, ltb, ◌==◌, Bytes, ok, err,
  All, arith, eq_bytes,
}
use clowk_voodu.Base.{
  Result, Bool-cases, inl, inr, sym, ap, ◌∙◌, if◌then◌else◌, eq_bytes, Bool, none, some, Option,
  err,
}
use clowk_voodu.Base.Text.Laws.{eq_bytes→eq}
use clowk_voodu.Base.Dict.{Dict}
use clowk_voodu.Keys.{desired_key}
use clowk_voodu.Etcd.Hoare.{Hoare}
use clowk_voodu.Etcd.Memory.{memory, memory-IsClient, seen}
use clowk_voodu.Store.{Codec, Manifest, decode_manifest}
use clowk_voodu.Store.Json.{Elsewhere}
use clowk_voodu.Autoscaler.Apply.{Json, set_replicas}
use clowk_voodu.Autoscaler.Apply.Preserved.{NamedManifest, After, set_replicas-After}
use clowk_voodu.Base.Text.{ℤ, pos, negsuc, codes}
use clowk_voodu.Base.Dict.{lookup, insert, delete}
use clowk_voodu.Autoscaler.{
  Floats, Autoscale, State, Sweep, Call, up, autoscaler_key, store_state, load_state,
  mean_cpu_percent, parse_duration_default, decide, evaluate_one, evaluate_all, evaluate, sweeps,
}
use clowk_voodu.Autoscaler.Decision.{Decided, evaluate_one-Decided}
use clowk_voodu.Autoscaler.Cooldown.{Late}
use clowk_voodu.Autoscaler.Cooldown.Sweeps.{scale_ups_apart}

abbrev hundred_times : ℤ → ℕ
hundred_times (pos n) = 100 * n
hundred_times (negsuc n) = 0

abbrev hundredths : Floats ℕ
hundredths = record {
  of_int = hundred_times;
  nought = 0;
  scale_up_factor = 110;
  scale_down_factor = 70;
  add = λ a b. a + b;
  mul = λ a b. a * b / 100;
  div = λ a b. a * 100 / b;
  gt = λ a b. ltb b a;
  lt = ltb;
  is_zero = λ a. a == 0;
}

abbrev no_durations : Bytes → Option ℤ
no_durations s = none

abbrev spec : Autoscale
spec = record {
  min = pos 1;
  max = pos 4;
  cpu_target = pos 50;
  cooldown_up = [];
  cooldown_down = [];
}

abbrev accepts : Bytes → Bytes → ℤ → Option Bytes
accepts scope name replicas = none

abbrev fails : Bytes → Bytes → ℤ → Option Bytes
fails scope name replicas = some (codes "put manifest")

abbrev busy : List ℕ
busy = 8_000 ∷ 0 ∷ []

abbrev after_first : State × List Call × Option Bytes
after_first =
    evaluate_one hundredths no_durations accepts (codes "shop") (codes "web") 100 spec (some busy)
      (ok []) []

abbrev call : Call
call = record {
  scope = codes "shop";
  name = codes "web";
  now = 100;
  direction = up;
  replicas = pos 3;
  applied = true;
}

scales_up : after_first.1 ≡ call ∷ []
unfolding evaluate_one decide mean_cpu_percent load_state lookup parse_duration_default
scales_up = refl

abbrev at : ℕ → Sweep ℕ
at t = record {
  listed = some (none ∷ some (record { scope = codes "shop"; name = codes "web"; spec = [] }) ∷ []);
  clock = λ scope name. t;
  snapshot = λ scope name. some (8_000 ∷ 7_000 ∷ 9_000 ∷ []);
  live = λ scope name. err [];
  set_replicas = accepts;
}

abbrev decode : Bytes → Option (Option Autoscale)
decode s = some (some spec)

-- The second sweep is within the cooldown, the third is not.
later_sweeps :
    (sweeps hundredths no_durations decode
      (at 15_000_000_100 ∷ at 30_000_000_100 ∷ [])
      after_first.0).1
    ≡ record {
      scope = codes "shop";
      name = codes "web";
      now = 30_000_000_100;
      direction = up;
      replicas = pos 4;
      applied = true;
    }
      ∷ []
unfolding sweeps evaluate evaluate_all evaluate_one decide mean_cpu_percent load_state lookup
    parse_duration_default store_state insert delete autoscaler_key eq_bytes
later_sweeps = refl

evaluate_one-Decided_example :
    Decided hundredths no_durations fails (codes "shop") (codes "web") 100 spec [] busy (
      evaluate_one hundredths no_durations fails
        (codes "shop")
        (codes "web")
        100
        spec
        none
        (ok busy)
        [])
evaluate_one-Decided_example =
    evaluate_one-Decided hundredths no_durations fails (codes "shop") (codes "web") 100 spec [] none
      (ok busy) busy refl

scale_ups_apart_example :
    All
      (Late (codes "deployment/shop/web") 100 30_000_000_000)
      (sweeps hundredths no_durations decode
        (at 15_000_000_100 ∷ at 30_000_000_100 ∷ [])
        after_first.0).1
unfolding autoscaler_key parse_duration_default
scale_ups_apart_example =
    scale_ups_apart hundredths no_durations accepts (codes "shop") (codes "web") 100 spec []
      (some busy) (ok []) call decode 30_000_000_000 (at 15_000_000_100 ∷ at 30_000_000_100 ∷ [])
      scales_up refl refl
      (
        (tt, ((λ own. (omega arith, omega arith)), tt)),
        ((tt, ((λ own. (omega arith, omega arith)), tt)), tt),
      )

-- A deployment in the store as the text of its spec, which has the replicas alone.
abbrev stored_web : Bytes → Manifest
stored_web text = record {
  kind = codes "deployment";
  scope = codes "shop";
  name = codes "web";
  spec = text;
  metadata = none;
}

abbrev by_spec : Codec Manifest
by_spec = record { encode = λ m. ok m.spec; decode = λ text. ok (stored_web text) }

abbrev one_field : Dict Bytes → Result Bytes Bytes
one_field [] = err []
one_field ((k, v) ∷ []) = if eq_bytes (codes "replicas") k then ok v else err []
one_field (a ∷ b ∷ d) = err []

abbrev digit : ℤ → Bytes
digit (pos n) = n ∷ []
digit (negsuc n) = []

abbrev replicas_only : Json Bytes
replicas_only = record {
  unmarshal = λ text. ok (some ((codes "replicas", text) ∷ []));
  marshal = one_field;
  number = digit;
}

one_field_back :
    (d : Dict Bytes) (text : Bytes)
    → one_field d ≡ ok text
    → (e : Dict Bytes) × (replicas_only.unmarshal text ≡ ok (some e))
      × ((k : Bytes) → lookup k e ≡ lookup k d)
one_field_back [] text e = cc
one_field_back ((k, v) ∷ []) text e = elim (Bool-cases (eq_bytes (codes "replicas") k)) [
  | inl same ↦
      let value : ok v ≡ ok text = sym (ap (λ (b : Bool). if b then ok v else err []) same) ∙ e in
      let texts : v ≡ text = cc in
      (
        (codes "replicas", text) ∷ [],
        refl,
        λ j. rw (sym (eq_bytes→eq (codes "replicas") k same), texts) refl,
      )
  | inr other ↦
      let value : err [] ≡ ok text =
        sym (ap (λ (b : Bool). if b then ok v else err []) other) ∙ e in
      cc
]
one_field_back (a ∷ b ∷ d) text e = cc

abbrev in_store : Dict Bytes
in_store = (codes "/desired/deployments/shop/web", codes "2") ∷ []

web_named :
    NamedManifest memory memory-IsClient by_spec replicas_only
      (record { read_back = one_field_back })
      7
      (codes "shop")
      (codes "web")
      (pos 3)
      (seen in_store)
unfolding decode_manifest
web_named m (text, rev, held, decoded) = (cc, cc, cc)

set_replicas-After_example :
    Hoare memory.etcd.view
      (λ v. v ≡ seen in_store)
      (set_replicas memory by_spec replicas_only 7 (codes "shop") (codes "web") (pos 3))
      (After memory memory-IsClient by_spec replicas_only
        (record { read_back = one_field_back })
        7
        (codes "shop")
        (codes "web")
        (pos 3)
        (seen in_store))
      (Elsewhere (desired_key (codes "deployment") (codes "shop") (codes "web")) (seen in_store))
set_replicas-After_example =
    set_replicas-After memory memory-IsClient by_spec replicas_only
      (record { read_back = one_field_back }) 7 (codes "shop") (codes "web") (pos 3) (seen in_store)
      web_named
