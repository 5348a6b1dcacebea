-- ===== src/Reconciler.antt =====
-- internal/controller/reconciler.go and retry.go: the handling of one watch event, with its retries.
--
-- What a handler returns and what a retry meets may differ from attempt to attempt, so both are
-- functions of the attempt. An event's handling is the list of what it does, in order; other
-- events, which run beside a waiting retry, have lists of their own.
pub mod Attempts
pub mod Recovery
mod Examples
use clowk_voodu.Base.{
  ℕ, zero, suc, ◌+◌, ◌*◌, Bool, true, false, Option, none, some, List, [], ◌∷◌, ◌++◌, leb, ◌==◌,
  if◌then◌else◌, Bytes,
}

-- An error value: a plain one, one that wraps another, or a TransientError.
pub data GoError : Type 0 where
  plain : Bytes → GoError
  wrap : Bytes → GoError → GoError
  transient_error : GoError → GoError

-- Transient(err): nil in, nil out
unfoldable pub transient : Option GoError → Option GoError
transient none = none
transient (some e) = some (transient_error e)

-- errors.As walks down the chain of wrapped errors.
unfoldable pub is_transient : GoError → Bool
is_transient (plain msg) = false
is_transient (wrap msg e) = is_transient e
is_transient (transient_error e) = true

pub data WatchEventType : Type 0 where
  watch_put watch_delete : WatchEventType

-- A watch event; the manifest is what the handler reads, and its content is not modelled.
pub record WatchEvent : Type 0 where
  pub type : WatchEventType
  pub kind : Bytes
  pub scope : Bytes
  pub name : Bytes
  pub revision : ℕ

abbrev pub second : ℕ
second = 1_000_000_000

unfoldable pub retry_backoff : ℕ → ℕ
retry_backoff attempt =
    if leb attempt 1
    then second
    else if attempt == 2
    then 2 * second
    else if attempt == 3
    then 4 * second
    else if attempt == 4
    then 8 * second
    else if attempt == 5
    then 16 * second
    else 30 * second

abbrev pub max_retry_attempts : ℕ
max_retry_attempts = 6

-- A manifest of the store, as far as an event is made of it.
pub record Stored : Type 0 where
  pub kind : Bytes
  pub scope : Bytes
  pub name : Bytes
  pub revision : ℕ

-- The Put event that replay and a retry make of a stored manifest.
unfoldable pub put_event : Stored → WatchEvent
put_event m = record {
  type = watch_put;
  kind = m.kind;
  scope = m.scope;
  name = m.name;
  revision = m.revision;
}

-- What the goroutine of a retry meets: the context cancelled before or during its sleep, or what
-- the store has for the key after it.
pub data Wakeup : Type 0 where
  cancelled_before cancelled_after lookup_failed deleted : Wakeup
  refreshed : Stored → Wakeup

pub data Effect : Type 0 where
  invoked : WatchEvent → ℕ → Effect
  slept : ℕ → Effect
  looked_up : Bytes → Bytes → Bytes → Effect
  reported : WatchEvent → Option GoError → Effect

-- The handlers by kind; a handler is given the attempt, so that it may answer differently each time.
abbrev pub Handlers : Type 0
Handlers = Bytes → Option (ℕ → WatchEvent → Option GoError)

-- What goes before the rest of a chain, where there is a rest.
abbrev pub after_effects : List Effect → Option (List Effect) → Option (List Effect)
after_effects es none = none
after_effects es (some rest) = some (es ++ rest)

-- scheduleRetry, given the handling of a refreshed event.
abbrev pub retry_with :
    (WatchEvent → Option (List Effect)) → ℕ → WatchEvent → Wakeup → Option (List Effect)
retry_with again attempt ev cancelled_before = some []
retry_with again attempt ev cancelled_after = some (slept (retry_backoff attempt) ∷ [])
retry_with again attempt ev lookup_failed =
    some (slept (retry_backoff attempt) ∷ looked_up ev.kind ev.scope ev.name ∷ [])
retry_with again attempt ev deleted =
    some (slept (retry_backoff attempt) ∷ looked_up ev.kind ev.scope ev.name ∷ [])
retry_with again attempt ev (refreshed m) =
    after_effects (slept (retry_backoff attempt) ∷ looked_up ev.kind ev.scope ev.name ∷ [])
      (again (put_event m))

module _ (handlers : Handlers) (wakeup : ℕ → WatchEvent → Wakeup) where
  -- What follows the call of the handler.
  abbrev pub conclude :
      (WatchEvent → Option (List Effect)) → ℕ → WatchEvent → Option GoError → Option (List Effect)
  conclude again attempt ev none = some (reported ev none ∷ [])
  conclude again attempt ev (some e) =
      let retried = retry_with again (suc attempt) ev (wakeup (suc attempt) ev) in
      if is_transient e
      then (if leb max_retry_attempts attempt then some (reported ev (some e) ∷ []) else retried)
      else some (reported ev (some e) ∷ [])

  abbrev pub call_handler :
      (WatchEvent → Option (List Effect))
      → ℕ
      → WatchEvent
      → Option (ℕ → WatchEvent → Option GoError)
      → Option (List Effect)
  call_handler again attempt ev none = some []
  call_handler again attempt ev (some h) =
      after_effects (invoked ev attempt ∷ []) (conclude again attempt ev (h attempt ev))

  -- handle, with fuel for the attempts that are left; `none` if the fuel runs out.
  unfoldable pub handle : ℕ → WatchEvent → ℕ → Option (List Effect)
  handle zero ev attempt = none
  handle (suc fuel) ev attempt =
      call_handler (λ fresh. handle fuel fresh (suc attempt)) attempt ev (handlers ev.kind)

  -- An event from the watch, or one that replay makes of a stored manifest: the first attempt.
  unfoldable pub reconcile : WatchEvent → Option (List Effect)
  reconcile ev = handle max_retry_attempts ev 1

  -- The replay at the start: a chain for each stored manifest.
  unfoldable pub replay : List Stored → List (Option (List Effect))
  replay [] = []
  replay (m ∷ ms) = reconcile (put_event m) ∷ replay ms
