-- ===== src/Pods/Examples.antt =====
-- A pod whose manifest sets a variable of the platform.
use clowk_voodu.Base.{◌≡◌, refl, [], ◌∷◌, Bytes, eq_bytes}
use clowk_voodu.Base.Text.{codes}
use clowk_voodu.Base.Dict.{Dict, lookup}
use clowk_voodu.Pods.{build_deployment_pod_env, merge_pod_env}
use clowk_voodu.Pods.Env.{or_from, lookup-merge_pod_env}

abbrev own : Dict Bytes
own = (codes "VOODU_SCOPE", codes "mine") ∷ (codes "PORT", codes "80") ∷ []

lookup-merge_pod_env_example :
    lookup
      (codes "VOODU_SCOPE")
      (merge_pod_env (build_deployment_pod_env (codes "app") (codes "web")) own)
    ≡ or_from
        (lookup (codes "VOODU_SCOPE") own)
        (lookup (codes "VOODU_SCOPE") (build_deployment_pod_env (codes "app") (codes "web")))
unfolding lookup eq_bytes
lookup-merge_pod_env_example =
    lookup-merge_pod_env (codes "VOODU_SCOPE")
      (build_deployment_pod_env (codes "app") (codes "web")) own (refl, (refl, tt))
