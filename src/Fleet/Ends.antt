-- ===== src/Fleet/Ends.antt =====
-- What one call of the host may end in, from its law.
use clowk_voodu.Base.{
  ◌≡◌, sym, subst, ◌⊎◌, inl, inr, false, refl, List, [], All, Bytes, Result, ok, err,
}
use clowk_voodu.Calls.Hoare.{Ends}
use clowk_voodu.Pods.{container_name}
use clowk_voodu.Fleet.{ContainerSlot, Blob, Host, logged, or_given}
use clowk_voodu.Fleet.World.{World, has, IsListing}
use clowk_voodu.Fleet.Laws.{
  world, Keeps, Lists, ReadsBlob, Changes, Parks, Fails, ListsLegacy, Names,
}

module _ {S : Type 0} (host : Host S) where
  module _ (P E : World → Type 0) where
    pub Ends-Keeps :
        {A : Type 0} (w : World) (r : S × Result Bytes A)
        → Keeps host w r
        → P w
        → ((v : World) → P v → E v)
        → Ends (world host) (λ a. P) E r
    Ends-Keeps w (s, err e) same p weak = subst E (sym same) (weak w p)
    Ends-Keeps w (s, ok a) same p weak = subst P (sym same) p

    pub Ends-Lists :
        (w : World) (r : S × Result Bytes (List ContainerSlot))
        → Lists host w r
        → P w
        → ((v : World) → P v → E v)
        → Ends (world host) (λ listed v. P v × IsListing listed v.slots) E r
    Ends-Lists w (s, err e) same p weak = subst E (sym same) (weak w p)
    Ends-Lists w (s, ok listed) (same, is) p weak =
        subst (λ (v : World). P v × IsListing listed v.slots) (sym same) (p, is)

    pub Ends-ReadsBlob :
        (w : World) (r : S × Result Bytes Blob)
        → ReadsBlob host w r
        → P w
        → ((v : World) → P v → E v)
        → Ends (world host) (λ b v. P v × (b ≡ v.blob)) E r
    Ends-ReadsBlob w (s, err e) same p weak = subst E (sym same) (weak w p)
    Ends-ReadsBlob w (s, ok b) (same, is) p weak =
        subst (λ (v : World). P v × (b ≡ v.blob)) (sym same) (p, is)

    pub Ends-Changes :
        {A : Type 0} (change : World → World) (w : World) (r : S × Result Bytes A)
        → Changes host change w r
        → E w
        → E (change w)
        → P (change w)
        → Ends (world host) (λ a. P) E r
    Ends-Changes change w (s, err e) (inl same) before after done = subst E (sym same) before
    Ends-Changes change w (s, err e) (inr made) before after done = subst E (sym made) after
    Ends-Changes change w (s, ok a) made before after done = subst P (sym made) done

    pub Ends-logged :
        (r : S × Result Bytes (Unit {0}))
        → Ends (world host) (λ done. P) P r
        → Ends (world host) (λ done. P) E (logged r)
    Ends-logged (s, err e) h = h
    Ends-logged (s, ok a) h = h

    pub Ends-or_given :
        {A : Type 0} (fallback : A) (r : S × Result Bytes A)
        → Ends (world host) (λ a. P) P r
        → Ends (world host) (λ a. P) E (or_given fallback r)
    Ends-or_given fallback (s, err e) h = h
    Ends-or_given fallback (s, ok a) h = h

    pub Ends-Names :
        (scope name : Bytes) (w : World) (r : S × Result Bytes Bytes)
        → Keeps host w r
        → Names host scope name r
        → P w
        → ((v : World) → P v → E v)
        → Ends (world host) (λ id v. P v × (has (container_name scope name id) v.slots ≡ false)) E r
    Ends-Names scope name w (s, err e) same fresh p weak = subst E (sym same) (weak w p)
    Ends-Names scope name w (s, ok id) same fresh p weak = (subst P (sym same) p, fresh)

    -- After an error, and only then, the ids count as none.
    pub Ends-Parks :
        (X : Type 0) (w : World) (r : S × Result Bytes (List Bytes))
        → Parks host w r
        → (Fails host r → X)
        → P w
        → Ends
            (world host)
            (λ ids v. P v × ((ids ≡ host.parked) ⊎ ((ids ≡ []) × X)))
            E
            (or_given [] r)
    Ends-Parks X w (s, err e) same failed p = (subst P (sym same) p, inr (refl, failed tt))
    Ends-Parks X w (s, ok ids) (same, is) failed p = (subst P (sym same) p, inl is)

    pub Ends-ListsLegacy :
        (w : World) (r : S × Result Bytes (List Bytes))
        → ListsLegacy host w r
        → P w
        → ((v : World) → P v → E v)
        → Ends (world host) (λ ns v. P v × All (λ n. has n v.slots ≡ false) ns) E r
    Ends-ListsLegacy w (s, err e) same p weak = subst E (sym same) (weak w p)
    Ends-ListsLegacy w (s, ok ns) (same, is) p weak =
        subst (λ (v : World). P v × All (λ n. has n v.slots ≡ false) ns) (sym same) (p, is)
