-- ===== src/Keys/Examples.antt =====
-- The keys of concrete manifests and values.
use clowk_voodu.Base.{◌≡◌, ◌≢◌, refl, [], ◌∷◌, Bytes, eq_bytes, ok, ap, Bool, true, false, sym, ◌∙◌}
use mathlib.Core.Bool.{true≢false}
use clowk_voodu.Base.Text.{codes}
use clowk_voodu.Keys.{kind_asset, valid_kind, is_scoped, validate, desired_key}
use clowk_voodu.Keys.RoundTrip.{asset_scopes_collide}
use clowk_voodu.Keys.Config.{config_key_injective}

abbrev is_nil : Bytes → Bool
is_nil [] = true
is_nil (b ∷ s) = false

not_nil : (s : Bytes) → is_nil s ≡ false → s ≢ []
not_nil s h e = true≢false (sym (ap is_nil e) ∙ h)

job_valid : valid_kind (codes "job") ≡ true
unfolding valid_kind eq_bytes
job_valid = refl

job_scoped : is_scoped (codes "job") ≡ true
unfolding is_scoped eq_bytes
job_scoped = refl

registry_valid : valid_kind (codes "registry") ≡ true
unfolding valid_kind eq_bytes
registry_valid = refl

registry_unscoped : is_scoped (codes "registry") ≡ false
unfolding is_scoped eq_bytes
registry_unscoped = refl

asset_scopes_collide_example :
    (validate kind_asset (codes "shop") (codes "logo") ≡ ok tt)
    × (validate kind_asset (codes "blog") (codes "logo") ≡ ok tt)
    × (desired_key kind_asset (codes "shop") (codes "logo")
        ≡ desired_key kind_asset (codes "blog") (codes "logo"))
asset_scopes_collide_example =
    asset_scopes_collide (codes "shop") (codes "blog") (codes "logo") (not_nil (codes "logo") refl)

not_underscore : (s : Bytes) → eq_bytes s (codes "_") ≡ false → s ≢ codes "_"
unfolding eq_bytes
not_underscore s h e = true≢false (sym (ap (λ t. eq_bytes t (codes "_")) e) ∙ h)

web_name : codes "web" ≢ codes "_"
unfolding eq_bytes
web_name = not_underscore (codes "web") refl

config_key_injective_example :
    (codes "db" ≡ codes "db") × (codes "web" ≡ codes "web") × (codes "PORT" ≡ codes "PORT")
config_key_injective_example =
    config_key_injective (codes "db") (codes "db") (codes "web") (codes "web") (codes "PORT")
      (codes "PORT") (refl, (refl, tt)) (refl, (refl, tt)) (refl, (refl, (refl, tt)))
      (refl, (refl, (refl, tt))) web_name web_name refl
