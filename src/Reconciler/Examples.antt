-- ===== src/Reconciler/Examples.antt =====
-- Events that are retried.
use clowk_voodu.Base.{
  ℕ, ◌*◌, ◌≤◌, ◌<◌, ◌≡◌, refl, true, Option, none, some, List, [], ◌∷◌, ◌++◌, leb, if◌then◌else◌,
  arith,
}
use clowk_voodu.Base.Text.{codes}
use clowk_voodu.Reconciler.{
  GoError, plain, wrap, transient_error, is_transient, WatchEvent, second, Wakeup, refreshed,
  Stored, put_event, Effect, invoked, reported, Handlers, reconcile,
}
use clowk_voodu.Reconciler.Attempts.{calls, slept_for, reports, reconcile_bounded}
use clowk_voodu.Reconciler.Recovery.{retries, reconcile_recovers}

abbrev web : Stored
web = record { kind = codes "ingress"; scope = codes "prod"; name = codes "web"; revision = 7 }

abbrev not_yet : GoError
not_yet = wrap (codes "apply") (transient_error (plain (codes "no deployment yet")))

-- Fails twice, and then succeeds.
abbrev third_time : ℕ → WatchEvent → Option GoError
third_time n ev = if leb 3 n then none else some not_yet

abbrev hopeless : ℕ → WatchEvent → Option GoError
hopeless n ev = some not_yet

abbrev always : (ℕ → WatchEvent → Option GoError) → Handlers
always h kind = some h

abbrev still_there : ℕ → WatchEvent → Wakeup
still_there n ev = refreshed web

wrapped_is_transient : is_transient not_yet ≡ true
unfolding is_transient
wrapped_is_transient = refl

reconcile_bounded_example :
    (es : List Effect) × (reconcile (always hopeless) still_there (put_event web) ≡ some es)
    × (calls es ≤ 6)
    × (slept_for es ≤ 60 * second)
    × (reports es ≤ 1)
reconcile_bounded_example = reconcile_bounded (always hopeless) still_there (put_event web)

fails_below : (n : ℕ) → n < 3 → third_time n (put_event web) ≡ some not_yet
fails_below n h = ground arith

reconcile_recovers_example :
    reconcile (always third_time) still_there (put_event web)
    ≡ some (
        retries (put_event web) 1 2
        ++ invoked (put_event web) 3 ∷ reported (put_event web) none ∷ [])
reconcile_recovers_example =
    reconcile_recovers (always third_time) still_there web third_time (λ n. not_yet) refl
      (λ n. wrapped_is_transient) (λ n. refl) 2 (omega arith) fails_below refl
