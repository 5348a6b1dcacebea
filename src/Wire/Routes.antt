-- ===== src/Wire/Routes.antt =====
-- The routes that are kept.
use clowk_voodu.Base.{
  ◌≡◌, refl, sym, ap, ◌∙◌, inl, inr, ◌⊎◌, Bool, true, false, not, ◌&&◌, ◌||◌, Option, none, some,
  List, [], ◌∷◌, if◌then◌else◌, Bool-cases, arith,
}
use mathlib.Core.Bool.{true≢false}
use clowk_voodu.Store.Records.{WirePeer}
use clowk_voodu.Wire.{
  Route, eq_route, Table, Command, replace_route, delete_route, run_command, is_in, wanted_routes,
  is_container_route, container_routes, replace_all, delete_unwanted, delete_shown, after_replaced,
  routes,
}

eq_route→eq : (r q : Route) → eq_route r q ≡ true → r ≡ q
eq_route→eq (a, m) (b, n) h =
    let addresses : a ≡ b = ground (arith, h) in
    let lengths : m ≡ n = ground (arith, h) in rw (addresses, lengths) refl

in-container_routes :
    (q : Route) (shown : List Route)
    → is_in q (container_routes shown) ≡ is_container_route q && is_in q shown
unfolding container_routes
in-container_routes q [] = ground arith
in-container_routes q (r ∷ shown) = elim (Bool-cases (eq_route r q)) [
  | inl same ↦
      let e = ap is_container_route (eq_route→eq r q same) in
      ground (arith, in-container_routes q shown, same, e)
  | inr other ↦ ground (arith, in-container_routes q shown, other)
]

chosen {ℓ} :
    {A : Type ℓ} (b : Bool) (x y z : A)
    → (if b then x else y) ≡ z
    → ((b ≡ true) × (x ≡ z)) ⊎ ((b ≡ false) × (y ≡ z))
chosen true x y z e = inl (refl, e)
chosen false x y z e = inr (refl, e)

-- A command that did not stop the commands has run.
ran :
    (failed : Bool) (t t' : Table) (next : Table × Bool)
    → (if failed then (t, false) else next) ≡ (t', true)
    → next ≡ (t', true)
ran true t t' next e = absurd (true≢false (sym (ap (λ (r : Table × Bool). r.1) e)))
ran false t t' next e = e

module _ (fails : Command → Bool) where
  replaced :
      (wanted : List Route) (t t' : Table) (q : Route)
      → replace_all fails wanted t ≡ (t', true)
      → t' q ≡ is_in q wanted || t q
  unfolding replace_all
  replaced [] t t' q e = ap (λ (r : Table × Bool). r.0 q) (sym e)
  replaced (r ∷ wanted) t t' q e =
      let next = run_command (replace_route r) t in
      let rest =
        replaced wanted next t' q
          (ran (fails (replace_route r)) t t' (replace_all fails wanted next) e) in
      rest ∙ ground arith

  unwanted_deleted :
      (wanted rs : List Route) (t t' : Table) (q : Route)
      → delete_unwanted fails wanted rs t ≡ (t', true)
      → t' q ≡ t q && not (is_in q rs && not (is_in q wanted))
  unfolding delete_unwanted
  unwanted_deleted wanted [] t t' q e = ap (λ (r : Table × Bool). r.0 q) (sym e) ∙ ground arith
  unwanted_deleted wanted (r ∷ rs) t t' q e =
      let next = run_command (delete_route r) t in
      elim (chosen (is_in r wanted) (delete_unwanted fails wanted rs t) _ (t', true) e) [
        | inl (kept, f) ↦
            let rest = unwanted_deleted wanted rs t t' q f in
            elim (Bool-cases (eq_route r q)) [
              | inl same ↦
                  let is_wanted : is_in q wanted ≡ true =
                    sym (ap (λ p. is_in p wanted) (eq_route→eq r q same)) ∙ kept in
                  rest ∙ ground (arith, is_wanted)
              | inr other ↦ rest ∙ ground (arith, other)
            ]
        | inr (gone, f) ↦
            let rest =
              unwanted_deleted wanted rs next t' q
                (ran (fails (delete_route r)) t t' (delete_unwanted fails wanted rs next) f) in
            elim (Bool-cases (eq_route r q)) [
              | inl same ↦
                  let not_wanted : is_in q wanted ≡ false =
                    sym (ap (λ p. is_in p wanted) (eq_route→eq r q same)) ∙ gone in
                  rest ∙ ground (arith, not_wanted, same)
              | inr other ↦ rest ∙ ground (arith, other)
            ]
      ]

  -- Where no command fails and the listing shows a route exactly if it is there, that route is there
  -- afterwards: if it looks like a subnet of a peer, exactly if it is that of a peer with a valid
  -- address, and otherwise if it was there before or is such a subnet.
  pub routes-exact :
      (show : Table → Option (List Route)) (peers : List WirePeer) (t t' : Table) (q : Route)
      → ((u : Table) (shown : List Route) → show u ≡ some shown → is_in q shown ≡ u q)
      → routes fails show peers t ≡ (t', true)
      → t' q ≡ (
          if is_container_route q
          then is_in q (wanted_routes peers)
          else is_in q (wanted_routes peers) || t q)
  unfolding routes
  routes-exact show peers t t' q shows e = after (replace_all fails (wanted_routes peers) t) refl e
    where
      wanted : List Route
      wanted = wanted_routes peers

      listed :
          (u : Table) (answer : Option (List Route))
          → show u ≡ answer
          → delete_shown fails show wanted u answer ≡ (t', true)
          → t' q ≡ u q && not (is_container_route q && u q && not (is_in q wanted))
      listed u none s f = absurd (true≢false (sym (ap (λ (r : Table × Bool). r.1) f)))
      listed u (some shown) s f =
          unwanted_deleted wanted (container_routes shown) u t' q f
          ∙ rw (in-container_routes q shown, shows u shown s) refl

      after :
          (r : Table × Bool)
          → replace_all fails wanted t ≡ r
          → after_replaced fails show wanted r ≡ (t', true)
          → t' q ≡ (if is_container_route q then is_in q wanted else is_in q wanted || t q)
      after (u, false) s f = absurd (true≢false (sym (ap (λ (r : Table × Bool). r.1) f)))
      after (u, true) s f = listed u (show u) refl f ∙ ground (arith, replaced wanted t u q s)
