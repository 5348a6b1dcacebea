-- ===== src/Calls/Hoare.antt =====
-- Reasoning about chains of calls by a view of the state: what holds of it before a call, after it
-- with its result, and after a failure.
use clowk_voodu.Base.{◌≡◌, true, false, Bytes, Result, ok, err}
use mathlib.Core.Bool.{true≢false}
use clowk_voodu.Calls.{◌>>=◌, Call, call_after, return, fail, wrapped, wrapping}

module _ {S V : Type 0} (view : S → V) where
  -- What a finished call has to satisfy.
  abbrev pub Ends : {A : Type 0} → (A → V → Type 0) → (V → Type 0) → S × Result Bytes A → Type 0
  Ends Q E (s, err e) = E (view s)
  Ends Q E (s, ok a) = Q a (view s)

  -- From keys with P, the call ends with Q of its result and the keys, or fails with E of the keys.
  pub record Hoare {A : Type 0} (P : V → Type 0) (call : Call S A) (Q : A → V → Type 0)
      (E : V → Type 0) : Type 0 where
    pub ends : (s : S) → P (view s) → Ends Q E (call s)

  module _ {A B : Type 0} (Q : A → V → Type 0) (R : B → V → Type 0) (E : V → Type 0) where
    Ends-after :
        (next : A → Call S B) (r : S × Result Bytes A)
        → Ends Q E r
        → ((a : A) → Hoare (Q a) (next a) R E)
        → Ends R E (call_after next r)
    Ends-after next (s, err e) h k = h
    Ends-after next (s, ok a) h k = (k a).ends s h

  Ends-wrapped :
      {A : Type 0} (Q : A → V → Type 0) (E : V → Type 0) (what : Bytes) (r : S × Result Bytes A)
      → Ends Q E r
      → Ends Q E (wrapped what r)
  Ends-wrapped Q E what (s, err e) h = h
  Ends-wrapped Q E what (s, ok a) h = h

  Ends-weaken :
      {A : Type 0} (Q Q' : A → V → Type 0) (E E' : V → Type 0) (r : S × Result Bytes A)
      → Ends Q E r
      → ((a : A) (v : V) → Q a v → Q' a v)
      → ((v : V) → E v → E' v)
      → Ends Q' E' r
  Ends-weaken Q Q' E E' (s, err e) p h k = k (view s) p
  Ends-weaken Q Q' E E' (s, ok a) p h k = h a (view s) p

  module _ {A : Type 0} {P E : V → Type 0} {Q : A → V → Type 0} where
    pub hoare_bind :
        {B : Type 0} {R : B → V → Type 0} {call : Call S A} {next : A → Call S B}
        → Hoare P call Q E
        → ((a : A) → Hoare (Q a) (next a) R E)
        → Hoare P (call >>= next) R E
    unfolding ◌>>=◌
    hoare_bind {R = R} {call = call} {next = next} h k = record {
      ends = λ s p. Ends-after Q R E next (call s) (h.ends s p) k;
    }

    pub hoare_wrapping :
        {call : Call S A} (what : Bytes) → Hoare P call Q E → Hoare P (wrapping what call) Q E
    unfolding wrapping
    hoare_wrapping {call = call} what h = record {
      ends = λ s p. Ends-wrapped Q E what (call s) (h.ends s p);
    }

    -- A result that is at hand, from what implies its property.
    pub hoare_return : (a : A) → ((v : V) → P v → Q a v) → Hoare P (return a) Q E
    unfolding return
    hoare_return a h = record { ends = λ s p. h (view s) p }

    pub hoare_fail : (e : Bytes) → ((v : V) → P v → E v) → Hoare P (fail e) Q E
    unfolding fail
    hoare_fail e h = record { ends = λ s p. h (view s) p }

    -- No keys satisfy the assumption.
    pub hoare_never : {call : Call S A} → ((v : V) → P v → true ≡ false) → Hoare P call Q E
    hoare_never unmet = record { ends = λ s p. absurd (true≢false (unmet (view s) p)) }

    -- Weaker properties of the result and of a failure.
    pub hoare_weaken :
        {call : Call S A} {Q' : A → V → Type 0} {E' : V → Type 0}
        → Hoare P call Q E
        → ((a : A) (v : V) → Q a v → Q' a v)
        → ((v : V) → E v → E' v)
        → Hoare P call Q' E'
    hoare_weaken {call = call} {Q' = Q'} {E' = E'} c h k = record {
      ends = λ s p. Ends-weaken Q Q' E E' (call s) (c.ends s p) h k;
    }

    -- What the assumption implies of the values at hand.
    pub hoare_assume :
        {call : Call S A} {X : Type 0}
        → ((v : V) → P v → X)
        → (X → Hoare P call Q E)
        → Hoare P call Q E
    hoare_assume known c = record { ends = λ s p. (c (known (view s) p)).ends s p }

    -- A stronger assumption.
    pub hoare_given :
        {call : Call S A} {P' : V → Type 0}
        → ((v : V) → P v → P' v)
        → Hoare P' call Q E
        → Hoare P call Q E
    hoare_given h c = record { ends = λ s p. c.ends s (h (view s) p) }
