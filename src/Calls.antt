-- ===== src/Calls.antt =====
-- Calls of a service that keep its state and may fail, as Go functions that return `(T, error)`.
pub mod Hoare
use clowk_voodu.Base.{◌++◌, Bytes, Result, ok, err}

-- A call that may fail: the state of the client it leaves, and its result or error.
abbrev pub Call : Type 0 → Type 0 → Type 0
Call S A = S → S × Result Bytes A

abbrev pub call_after : {S A B : Type 0} → (A → Call S B) → S × Result Bytes A → S × Result Bytes B
call_after next (s, err e) = (s, err e)
call_after next (s, ok a) = next a s

infixl 5 ◌>>=◌
unfoldable pub ◌>>=◌ : {S A B : Type 0} → Call S A → (A → Call S B) → Call S B
(first >>= next) s = call_after next (first s)

unfoldable pub return : {S A : Type 0} → A → Call S A
return a s = (s, ok a)

unfoldable pub fail : {S A : Type 0} → Bytes → Call S A
fail e s = (s, err e)

-- fmt.Errorf("...: %w", err)
abbrev pub wrapped : {S A : Type 0} → Bytes → S × Result Bytes A → S × Result Bytes A
wrapped what (s, err e) = (s, err (what ++ e))
wrapped what (s, ok a) = (s, ok a)

unfoldable pub wrapping : {S A : Type 0} → Bytes → Call S A → Call S A
wrapping what call s = wrapped what (call s)
