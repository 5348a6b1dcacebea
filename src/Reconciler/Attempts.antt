-- ===== src/Reconciler/Attempts.antt =====
-- How often a handler is called for an event, how long the retries wait, and what is reported.
use clowk_voodu.Base.{
  ℕ, zero, suc, ◌+◌, ◌*◌, ◌≤◌, ◌<◌, ◌≡◌, refl, Option, none, some, List, [], ◌∷◌, leb, arith,
  Bool-cases, inl, inr,
}
use clowk_voodu.Reconciler.{
  GoError, is_transient, WatchEvent, second, retry_backoff, max_retry_attempts, Wakeup,
  cancelled_before, cancelled_after, lookup_failed, deleted, refreshed, Effect, invoked, slept,
  looked_up, reported, Handlers, retry_with, conclude, call_handler, handle, reconcile, put_event,
}

abbrev pub calls : List Effect → ℕ
calls [] = 0
calls (invoked ev n ∷ es) = suc (calls es)
calls (_ ∷ es) = calls es

abbrev pub reports : List Effect → ℕ
reports [] = 0
reports (reported ev e ∷ es) = suc (reports es)
reports (_ ∷ es) = reports es

abbrev pub slept_for : List Effect → ℕ
slept_for [] = 0
slept_for (slept d ∷ es) = d + slept_for es
slept_for (_ ∷ es) = slept_for es

-- The waits before the attempts that are left after this one.
abbrev pub waits : ℕ → ℕ → ℕ
waits zero attempt = 0
waits (suc zero) attempt = 0
waits (suc (suc fuel)) attempt = retry_backoff (suc attempt) + waits (suc fuel) (suc attempt)

-- The chain ends; it calls the handler at most `left` times, sleeps for at most `wait`, and reports
-- at most once.
abbrev pub Bounded : ℕ → ℕ → Option (List Effect) → Type 0
Bounded left wait o =
    (es : List Effect) × (o ≡ some es)
    × (calls es ≤ left)
    × (slept_for es ≤ wait)
    × (reports es ≤ 1)

retry-Bounded :
    (again : WatchEvent → Option (List Effect)) (left wait attempt : ℕ) (ev : WatchEvent)
    (w : Wakeup)
    → ((fresh : WatchEvent) → Bounded left wait (again fresh))
    → Bounded left (retry_backoff attempt + wait) (retry_with again attempt ev w)
retry-Bounded again left wait attempt ev cancelled_before h =
    ([], refl, omega arith, omega arith, omega arith)
retry-Bounded again left wait attempt ev cancelled_after h =
    (_, refl, omega arith, omega arith, omega arith)
retry-Bounded again left wait attempt ev lookup_failed h =
    (_, refl, omega arith, omega arith, omega arith)
retry-Bounded again left wait attempt ev deleted h =
    (_, refl, omega arith, omega arith, omega arith)
retry-Bounded again left wait attempt ev (refreshed m) h =
    let (es, e, c, d, r) = h (put_event m) in
    (
      slept (retry_backoff attempt) ∷ looked_up ev.kind ev.scope ev.name ∷ es,
      rw e,
      c,
      omega arith,
      r,
    )

weaken :
    {left wait total : ℕ} (o : Option (List Effect))
    → wait ≤ total
    → Bounded left wait o
    → Bounded left total o
weaken o l (es, e, c, d, r) = (es, e, c, omega arith, r)

-- What is needed of the attempts after this one, if there may be any.
abbrev Rest : (WatchEvent → Option (List Effect)) → ℕ → ℕ → ℕ → ℕ → Type 0
Rest again left wait total attempt =
    attempt < max_retry_attempts
    → (retry_backoff (suc attempt) + wait ≤ total)
      × ((fresh : WatchEvent) → Bounded left wait (again fresh))

module _ (handlers : Handlers) (wakeup : ℕ → WatchEvent → Wakeup) where
  conclude-Bounded :
      (again : WatchEvent → Option (List Effect)) (left wait total attempt : ℕ) (ev : WatchEvent)
      (o : Option GoError)
      → Rest again left wait total attempt
      → Bounded left total (conclude handlers wakeup again attempt ev o)
  conclude-Bounded again left wait total attempt ev none h =
      (_, refl, omega arith, omega arith, omega arith)
  conclude-Bounded again left wait total attempt ev (some e) h =
      elim (Bool-cases (is_transient e)) [
        | inl soft ↦ elim (Bool-cases (leb max_retry_attempts attempt)) [
          | inl last ↦ rw (soft, last) (_, refl, omega arith, omega arith, omega arith)
          | inr more ↦
              let (fits, rest) = h (ground arith) in
              rw (soft, more)
                (weaken (retry_with again (suc attempt) ev (wakeup (suc attempt) ev)) fits
                  (retry-Bounded again left wait (suc attempt) ev (wakeup (suc attempt) ev) rest))
        ]
        | inr hard ↦ rw hard (_, refl, omega arith, omega arith, omega arith)
      ]

  call-Bounded :
      (again : WatchEvent → Option (List Effect)) (left wait total attempt : ℕ) (ev : WatchEvent)
      (h : Option (ℕ → WatchEvent → Option GoError))
      → Rest again left wait total attempt
      → Bounded (suc left) total (call_handler handlers wakeup again attempt ev h)
  call-Bounded again left wait total attempt ev none k =
      ([], refl, omega arith, omega arith, omega arith)
  call-Bounded again left wait total attempt ev (some h) k =
      let (es, e, c, d, r) = conclude-Bounded again left wait total attempt ev (h attempt ev) k in
      (invoked ev attempt ∷ es, rw e, omega arith, d, r)

  handle-Bounded :
      (fuel : ℕ) (ev : WatchEvent) (attempt : ℕ)
      → fuel + attempt ≡ suc max_retry_attempts
      → 0 < fuel
      → Bounded fuel (waits fuel attempt) (handle handlers wakeup fuel ev attempt)
  unfolding handle
  handle-Bounded zero ev attempt e p = elim p [ ]
  handle-Bounded (suc zero) ev attempt e p =
      call-Bounded (λ fresh. handle handlers wakeup 0 fresh (suc attempt)) 0 0 0 attempt ev
        (handlers ev.kind) (λ l. absurd (omega arith))
  handle-Bounded (suc (suc fuel)) ev attempt e p =
      call-Bounded (λ fresh. handle handlers wakeup (suc fuel) fresh (suc attempt)) (suc fuel)
        (waits (suc fuel) (suc attempt)) (waits (suc (suc fuel)) attempt) attempt ev
        (handlers ev.kind)
        (λ l. (
          omega arith,
          λ fresh. handle-Bounded (suc fuel) fresh (suc attempt) (omega arith) (omega arith),
        ))

  -- Whatever the handlers answer and whatever the retries meet, the handling of an event ends, calls
  -- a handler at most six times, sleeps for at most sixty seconds in all, and calls OnReconcile at
  -- most once.
  pub reconcile_bounded :
      (ev : WatchEvent)
      → (es : List Effect) × (reconcile handlers wakeup ev ≡ some es)
        × (calls es ≤ 6)
        × (slept_for es ≤ 60 * second)
        × (reports es ≤ 1)
  unfolding reconcile retry_backoff
  reconcile_bounded ev = handle-Bounded 6 ev 1 refl (omega arith)
