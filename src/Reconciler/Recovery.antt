-- ===== src/Reconciler/Recovery.antt =====
-- An event whose handler fails with a transient error, and the attempts after it.
use clowk_voodu.Base.{
  ℕ, zero, suc, ◌+◌, ◌-◌, ◌≤◌, ◌<◌, ◌≡◌, refl, sym, ap, ◌∙◌, true, false, Option, none, some, List,
  [], ◌∷◌, ◌++◌, leb, arith,
}
use mathlib.Core.List.{append_assoc}
use clowk_voodu.Reconciler.{
  GoError, is_transient, WatchEvent, retry_backoff, max_retry_attempts, Wakeup, refreshed, Stored,
  Effect, invoked, slept, looked_up, reported, Handlers, after_effects, handle, reconcile,
  put_event,
}

-- The effects of k attempts that fail transiently, from this attempt on.
abbrev pub retries : WatchEvent → ℕ → ℕ → List Effect
retries ev attempt zero = []
retries ev attempt (suc k) =
    invoked ev attempt
    ∷ slept (retry_backoff (suc attempt))
    ∷ looked_up ev.kind ev.scope ev.name
    ∷ retries ev (suc attempt) k

after_append :
    (a b : List Effect) (o : Option (List Effect))
    → after_effects a (after_effects b o) ≡ after_effects (a ++ b) o
after_append [] b none = refl
after_append [] b (some es) = refl
after_append (x ∷ a) b none = refl
after_append (x ∷ a) b (some es) = simp append_assoc

not_last : (n : ℕ) → n < max_retry_attempts → leb max_retry_attempts n ≡ false
not_last n h = ground arith

after_nothing : (o : Option (List Effect)) → after_effects [] o ≡ o
after_nothing none = refl
after_nothing (some es) = refl

module _ (handlers : Handlers) (wakeup : ℕ → WatchEvent → Wakeup) (m : Stored)
    (h : ℕ → WatchEvent → Option GoError) (e : ℕ → GoError)
    (handled : handlers (put_event m).kind ≡ some h) (soft : (n : ℕ) → is_transient (e n) ≡ true)
    (present : (n : ℕ) → wakeup n (put_event m) ≡ refreshed m) where
  one_retry :
      (fuel attempt : ℕ)
      → attempt < max_retry_attempts
      → h attempt (put_event m) ≡ some (e attempt)
      → handle handlers wakeup (suc fuel) (put_event m) attempt
        ≡ after_effects
            (retries (put_event m) attempt 1)
            (handle handlers wakeup fuel (put_event m) (suc attempt))
  unfolding handle
  one_retry fuel attempt l fails =
      simp (handled, fails, soft attempt, not_last attempt l, present)
        (after_append (invoked (put_event m) attempt ∷ [])
          (slept (retry_backoff (suc attempt))
            ∷ looked_up (put_event m).kind (put_event m).scope (put_event m).name
            ∷ [])
          (handle handlers wakeup fuel (put_event m) (suc attempt)))

  climb :
      (k fuel attempt : ℕ)
      → attempt + k ≤ max_retry_attempts
      → ((n : ℕ) → n < attempt + k → h n (put_event m) ≡ some (e n))
      → handle handlers wakeup (k + fuel) (put_event m) attempt
        ≡ after_effects
            (retries (put_event m) attempt k)
            (handle handlers wakeup fuel (put_event m) (attempt + k))
  climb zero fuel attempt l fails =
      ap (λ f. handle handlers wakeup f (put_event m) attempt) (omega arith)
      ∙ ap (λ n. handle handlers wakeup fuel (put_event m) n) (omega arith)
      ∙ sym (after_nothing (handle handlers wakeup fuel (put_event m) (attempt + 0)))
  climb (suc k) fuel attempt l fails =
      ap (λ f. handle handlers wakeup f (put_event m) attempt) (omega arith)
      ∙ one_retry (k + fuel) attempt (omega arith) (fails attempt (omega arith))
      ∙ ap (after_effects (retries (put_event m) attempt 1))
          (climb k fuel (suc attempt) (omega arith) (λ n b. fails n (omega arith)))
      ∙ after_append (retries (put_event m) attempt 1) (retries (put_event m) (suc attempt) k) _
      ∙ ap
          (λ n.
            after_effects (retries (put_event m) attempt (suc k))
              (handle handlers wakeup fuel (put_event m) n))
          (omega arith)

  succeeds :
      (fuel attempt : ℕ)
      → h attempt (put_event m) ≡ none
      → handle handlers wakeup (suc fuel) (put_event m) attempt
        ≡ some (invoked (put_event m) attempt ∷ reported (put_event m) none ∷ [])
  unfolding handle
  succeeds fuel attempt done = simp (handled, done)

  gives_up :
      (fuel : ℕ)
      → h max_retry_attempts (put_event m) ≡ some (e max_retry_attempts)
      → handle handlers wakeup (suc fuel) (put_event m) max_retry_attempts
        ≡ some (
            invoked (put_event m) max_retry_attempts
            ∷ reported (put_event m) (some (e max_retry_attempts))
            ∷ [])
  unfolding handle
  gives_up fuel fails = simp (handled, fails, soft max_retry_attempts)

  -- A handler that fails at its first k attempts, k at most 5, with a transient error each time, and
  -- then succeeds, on a manifest that stays in the store unchanged, is called k + 1 times, with
  -- the backoff and a lookup between the attempts, and its success is reported, once and last.
  pub reconcile_recovers :
      (k : ℕ)
      → k < max_retry_attempts
      → ((n : ℕ) → n < 1 + k → h n (put_event m) ≡ some (e n))
      → h (1 + k) (put_event m) ≡ none
      → reconcile handlers wakeup (put_event m)
        ≡ some (
            retries (put_event m) 1 k
            ++ invoked (put_event m) (1 + k) ∷ reported (put_event m) none ∷ [])
  unfolding reconcile
  reconcile_recovers k l fails done =
      ap (λ f. handle handlers wakeup f (put_event m) 1) (omega arith)
      ∙ climb k (suc (5 - k)) 1 (omega arith) fails
      ∙ ap (after_effects (retries (put_event m) 1 k)) (succeeds (5 - k) (1 + k) done)

  -- A handler that fails with a transient error at every attempt, on a manifest that stays in the
  -- store unchanged, is called six times, after waits of 2, 4, 8, 16 and 30 seconds, and its error
  -- is reported, once and last.
  pub reconcile_gives_up :
      ((n : ℕ) → h n (put_event m) ≡ some (e n))
      → reconcile handlers wakeup (put_event m)
        ≡ some (
            retries (put_event m) 1 5
            ++ invoked (put_event m) 6 ∷ reported (put_event m) (some (e max_retry_attempts)) ∷ [])
  unfolding reconcile
  reconcile_gives_up fails =
      climb 5 1 1 (omega arith) (λ n b. fails n)
      ∙ ap (after_effects (retries (put_event m) 1 5)) (gives_up 0 (fails 6))
