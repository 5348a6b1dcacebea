-- ===== src/Fleet/Rules.antt =====
-- What each call of the host makes of the containers and the status, for chains of calls.
use clowk_voodu.Base.{◌≡◌, sym, subst, ◌⊎◌, false, refl, [], All, Bytes, Result, ok, err}
use clowk_voodu.Calls.{Call}
use clowk_voodu.Calls.Hoare.{Ends}
use clowk_voodu.Pods.{container_name}
use clowk_voodu.Fleet.{Host, logging, otherwise, or_given}
use clowk_voodu.Fleet.World.{World, has, Distinct, IsListing}
use clowk_voodu.Fleet.Laws.{
  world, Changes, Quiet, IsHost, DrawsFresh, Answers, Succeeds, FrozenUnread, Run,
}
use clowk_voodu.Fleet.Ends.{
  Ends-Keeps, Ends-Lists, Ends-ReadsBlob, Ends-Changes, Ends-logged, Ends-or_given, Ends-Names,
  Ends-Parks, Ends-ListsLegacy,
}

module _ {S : Type 0} (host : Host S) where
  module _ {P E : World → Type 0} where
    pub run_quiet :
        {A : Type 0} {call : Call S A}
        → Quiet host call
        → ((v : World) → P v → E v)
        → Run host P call (λ a. P) E
    run_quiet {call = call} quiet weak = record {
      ends = λ s p. Ends-Keeps host P E (world host s) (call s) (quiet s) p weak;
    }

    -- What a change has to keep, whether it succeeds or fails.
    pub run_change :
        {A : Type 0} {R : World → Type 0} {call : Call S A} (change : World → World)
        → ((s : S) → P (world host s) → Changes host change (world host s) (call s))
        → ((v : World) → P v → E v)
        → ((v : World) → Distinct v.slots → P v → E (change v) × R (change v))
        → ((s : S) → Distinct (host.slots s))
        → Run host P call (λ a. R) E
    run_change {R = R} {call = call} change law weak step distinct = record {
      ends = λ s p.
          let both = step (world host s) (distinct s) p in
          Ends-Changes host R E change (world host s) (call s) (law s p) (weak (world host s) p)
            both.0 both.1;
    }

    -- What is known of the answer of such a call.
    pub run_answer :
        {A : Type 0} {call : Call S A} (Answer : A → Type 0)
        → Quiet host call
        → ((s : S) → Answers host Answer (call s))
        → ((v : World) → P v → E v)
        → Run host P call (λ a v. Answer a × P v) E
    run_answer {A} {call = call} Answer quiet answers weak = record {
      ends = λ s p.
          Ends-answer (call s) (Ends-Keeps host P E (world host s) (call s) (quiet s) p weak)
            (answers s);
    }
      where
        Ends-answer :
            (r : S × Result Bytes A)
            → Ends (world host) (λ a. P) E r
            → Answers host Answer r
            → Ends (world host) (λ a v. Answer a × P v) E r
        Ends-answer (s, err e) q x = q
        Ends-answer (s, ok a) q x = (x, q)

    -- A change that does not fail.
    pub run_certain :
        {A : Type 0} {R : World → Type 0} {call : Call S A} (change : World → World)
        → ((s : S) → P (world host s) → Changes host change (world host s) (call s))
        → ((s : S) → Succeeds host (call s))
        → ((v : World) → P v → R (change v))
        → Run host P call (λ a. R) E
    run_certain {A} {R = R} {call = call} change law sure step = record {
      ends = λ s p. Ends-certain (world host s) (call s) (law s p) (sure s) (step (world host s) p);
    }
      where
        Ends-certain :
            (w : World) (r : S × Result Bytes A)
            → Changes host change w r
            → Succeeds host r
            → R (change w)
            → Ends (world host) (λ a. R) E r
        Ends-certain w (s, err e) made never done = absurd never
        Ends-certain w (s, ok a) made never done = subst R (sym made) done

    -- A call that is known at each state by itself.
    pub run_each :
        {A : Type 0} {call : Call S A} {Q : A → World → Type 0}
        → ((w : World) → Distinct w.slots → P w → Run host (λ v. v ≡ w) call Q E)
        → ((s : S) → Distinct (host.slots s))
        → Run host P call Q E
    run_each h distinct = record { ends = λ s p. (h (world host s) (distinct s) p).ends s refl }

    -- A fact that holds before a call holds of the same values after it.
    pub with_fact :
        {A : Type 0} {call : Call S A} {Q : A → World → Type 0} (X : Type 0)
        → Run host P call Q E
        → Run host (λ v. P v × X) call (λ a v. X × Q a v) E
    with_fact {A} {call = call} {Q = Q} X h = record {
      ends = λ s p. Ends-with (call s) (h.ends s p.0) p.1;
    }
      where
        Ends-with :
            (r : S × Result Bytes A)
            → Ends (world host) Q E r
            → X
            → Ends (world host) (λ a v. X × Q a v) E r
        Ends-with (s, err e) q x = q
        Ends-with (s, ok a) q x = (x, q)

    -- An error that is only logged leaves what held after it.
    pub run_logging :
        {Q : World → Type 0} {call : Call S (Unit {0})}
        → Run host Q call (λ done. P) P
        → Run host Q (logging call) (λ done. P) E
    unfolding logging
    run_logging {call = call} h = record {
      ends = λ s q. Ends-logged host P E (call s) (h.ends s q);
    }

    -- The answer of a quiet call, with what stands for an error.
    pub run_answer_or :
        {A : Type 0} (Answer : A → Type 0) (fallback : A) (call : Call S A)
        → Quiet host call
        → ((s : S) → Answers host Answer (call s))
        → Answer fallback
        → Run host P (otherwise fallback call) (λ a v. Answer a × P v) E
    unfolding otherwise
    run_answer_or {A} Answer fallback call quiet answers spare = record {
      ends = λ s p.
          Ends-answer (call s) (Ends-Keeps host P P (world host s) (call s) (quiet s) p (λ v q. q))
            (answers s);
    }
      where
        Ends-answer :
            (r : S × Result Bytes A)
            → Ends (world host) (λ a. P) P r
            → Answers host Answer r
            → Ends (world host) (λ a v. Answer a × P v) E (or_given fallback r)
        Ends-answer (s, err e) q x = (spare, q)
        Ends-answer (s, ok a) q x = (x, q)

    pub run_otherwise :
        {A : Type 0} {call : Call S A} {Q : World → Type 0} (fallback : A)
        → Run host Q call (λ a. P) P
        → Run host Q (otherwise fallback call) (λ a. P) E
    unfolding otherwise
    run_otherwise {call = call} fallback h = record {
      ends = λ s q. Ends-or_given host P E fallback (call s) (h.ends s q);
    }

    module _ (laws : IsHost host) where
      pub run_list :
          ((v : World) → P v → E v)
          → Run host P host.list_by_identity (λ listed v. P v × IsListing listed v.slots) E
      run_list weak = record {
        ends = λ s p.
            Ends-Lists host P E (world host s) (host.list_by_identity s) (laws.list_law s) p weak;
      }

      pub run_get_status :
          ((v : World) → P v → E v) → Run host P host.get_status (λ b v. P v × (b ≡ v.blob)) E
      run_get_status weak = record {
        ends = λ s p.
            Ends-ReadsBlob host P E (world host s) (host.get_status s) (laws.get_status_law s) p
              weak;
      }

      pub run_new_replica_id :
          (scope name : Bytes)
          → DrawsFresh host scope name
          → ((v : World) → P v → E v)
          → Run host P host.new_replica_id
              (λ id v. P v × (has (container_name scope name id) v.slots ≡ false))
              E
      run_new_replica_id scope name fresh weak = record {
        ends = λ s p.
            Ends-Names host P E scope name (world host s) (host.new_replica_id s)
              (laws.replica_id_law s) (fresh s) p weak;
      }

      pub run_list_legacy :
          ((v : World) → P v → E v)
          → Run host P host.list_legacy_by_app (λ ns v. P v × All (λ n. has n v.slots ≡ false) ns) E
      run_list_legacy weak = record {
        ends = λ s p.
            Ends-ListsLegacy host P E (world host s) (host.list_legacy_by_app s) (laws.legacy_law s)
              p weak;
      }

      pub run_frozen :
          Run host P
            (otherwise [] host.frozen_replica_ids)
            (λ ids v. P v × ((ids ≡ host.parked) ⊎ ((ids ≡ []) × FrozenUnread host P)))
            E
      unfolding otherwise
      run_frozen = record {
        ends = λ s p.
            Ends-Parks host P E (FrozenUnread host P) (world host s) (host.frozen_replica_ids s)
              (laws.frozen_law s) (λ failed. (s, p, failed)) p;
      }
