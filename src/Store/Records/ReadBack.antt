-- ===== src/Store/Records/ReadBack.antt =====
-- Frozen replicas and tokens that are written and read back.
use clowk_voodu.Base.{ℕ, ◌≡◌, refl, sym, ap, ◌∙◌, subst, Option, none, some, List, [], ◌∷◌, Bytes}
use clowk_voodu.Base.Text.{codes}
use clowk_voodu.Etcd.{View, put_key, delete_key, ◌>>=◌}
use clowk_voodu.Etcd.Hoare.{Hoare, hoare_bind, hoare_wrapping, hoare_return, hoare_assume}
use clowk_voodu.Etcd.Client.{Client, IsClient, hoare_delete}
use clowk_voodu.Store.{Codec}
use clowk_voodu.Store.Records.{
  Pat, pat_key, put_pat, put_pat_id, get_pat, touch_found, touch_pat, frozen_key, or_empty,
  get_frozen, delete_frozen, set_frozen,
}
use clowk_voodu.Store.Json.{
  IsCodec, Elsewhere, Decodes, Decodes-put, Decodes-unique, put-Elsewhere, delete-Elsewhere,
  put_own, delete_own, put_json-rule, get_json-rule,
}

same-Elsewhere : (key : Bytes) (w v : View) → v ≡ w → Elsewhere key w v
same-Elsewhere key w v e j other = ap (λ (u : View). u j) e

module _ {S : Type 0} (client : Client S) (laws : IsClient client) (codec : Codec (List Bytes))
    (own : IsCodec codec (λ ids. ids)) (kind scope name : Bytes) where
  -- What is read of a written list.
  abbrev Frozen : List Bytes → View → Type 0
  Frozen ids v =
      (got : Option (List Bytes))
      → Decodes codec got (v (frozen_key kind scope name))
      → or_empty client codec got ≡ ids

  nothing-or_empty :
      (held : Option Bytes) (got : Option (List Bytes))
      → held ≡ none
      → Decodes codec got held
      → or_empty client codec got ≡ []
  nothing-or_empty held none e d = refl
  nothing-or_empty held (some ids) e (text, h, decoded) = cc

  delete_frozen-Frozen :
      (w : View)
      → Hoare client.etcd.view
          (λ v. v ≡ w)
          (delete_frozen client codec kind scope name)
          (λ done v. Frozen [] v × Elsewhere (frozen_key kind scope name) w v)
          (Elsewhere (frozen_key kind scope name) w)
  unfolding delete_frozen
  delete_frozen-Frozen w =
      let key = frozen_key kind scope name in
      hoare_bind client.etcd.view {Q = λ deleted v. Frozen [] v × Elsewhere key w v}
        (hoare_wrapping client.etcd.view (codes "etcd delete frozen: ") (
          hoare_delete client laws key (λ v e. same-Elsewhere key w v e)
            (λ v e. delete-Elsewhere key w v (same-Elsewhere key w v e))
            (λ deleted v e absent. (
              λ got d. nothing-or_empty (delete_key key v key) got (delete_own key v) d,
              delete-Elsewhere key w v (same-Elsewhere key w v e),
            ))))
        (λ deleted. hoare_return client.etcd.view tt (λ v h. h))

  set_frozen-Frozen :
      (w : View) (ids : List Bytes)
      → Hoare client.etcd.view
          (λ v. v ≡ w)
          (set_frozen client codec kind scope name ids)
          (λ done v. Frozen ids v × Elsewhere (frozen_key kind scope name) w v)
          (Elsewhere (frozen_key kind scope name) w)
  unfolding set_frozen
  set_frozen-Frozen w [] = delete_frozen-Frozen w
  set_frozen-Frozen w (id ∷ ids) =
      let key = frozen_key kind scope name in
      put_json-rule client laws (λ v e. same-Elsewhere key w v e) codec
        {R = λ v. Frozen (id ∷ ids) v × Elsewhere key w v} (codes "encode frozen payload: ")
        (codes "etcd put frozen: ") key (id ∷ ids)
        (λ v text e encoded. put-Elsewhere key w v text (same-Elsewhere key w v e))
        (λ v text e encoded. (
          λ got d. ap (or_empty client codec) (
              Decodes-put own (id ∷ ids) text (put_key key text v key) got encoded
                (put_own key text v) d),
          put-Elsewhere key w v text (same-Elsewhere key w v e),
        ))

  -- A list that SetFrozenReplicaIDs wrote, also an empty one, is what GetFrozenReplicaIDs returns next,
  -- for a JSON that decodes what it encoded; where a call fails, all other keys are as they were.
  pub get_frozen-set_frozen :
      (w : View) (ids : List Bytes)
      → Hoare client.etcd.view
          (λ v. v ≡ w)
          (set_frozen client codec kind scope name ids >>= λ done.
            get_frozen client codec kind scope name)
          (λ got v. got ≡ ids)
          (Elsewhere (frozen_key kind scope name) w)
  unfolding get_frozen
  get_frozen-set_frozen w ids = hoare_bind client.etcd.view (set_frozen-Frozen w ids) (λ done.
      hoare_bind client.etcd.view
        (get_json-rule client laws (λ v h. h.1) codec (codes "etcd get frozen: ")
          (codes "decode frozen payload: ") (frozen_key kind scope name))
        (λ got. hoare_return client.etcd.view (or_empty client codec got) (λ v h. h.0.0 got h.1)))

-- Where a token is stored under its own identifier.
abbrev pub NamedPat : Codec Pat → Bytes → View → Type 0
NamedPat codec id w = (p : Pat) → Decodes codec (some p) (w (pat_key id)) → p.id ≡ id

abbrev touched : (Pat → Pat) → ℕ → Option Pat → Option Pat
touched form at none = none
touched form at (some p) = some (form (record p { last_used_at = at }))

-- The token is the same but for the time of its last use.
abbrev pub Touched : Codec Pat → (Pat → Pat) → Bytes → ℕ → View → View → Type 0
Touched codec form id at w v =
    (got : Option Pat)
    → Decodes codec got (w (pat_key id))
    → Decodes codec (touched form at got) (v (pat_key id))

module _ {S : Type 0} (client : Client S) (laws : IsClient client) (codec : Codec Pat)
    (form : Pat → Pat) (own : IsCodec codec form) (w : View) where
  touch_found-Touched :
      (b : ℕ) (id : Bytes) (at : ℕ) (got : Option Pat)
      → NamedPat codec (b ∷ id) w
      → Hoare client.etcd.view
          (λ v. (v ≡ w) × Decodes codec got (v (pat_key (b ∷ id))))
          (touch_found client codec at got)
          (λ done v. Touched codec form (b ∷ id) at w v × Elsewhere (pat_key (b ∷ id)) w v)
          (Elsewhere (pat_key (b ∷ id)) w)
  unfolding put_pat
  touch_found-Touched b id at none named = hoare_return client.etcd.view tt (λ v h. (
    λ got d.
        rw (Decodes-unique codec (w (pat_key (b ∷ id))) got none d (nothing_held v h.0 h.1)) h.1,
    same-Elsewhere (pat_key (b ∷ id)) w v h.0,
  ))
    where
      nothing_held : (v : View) → v ≡ w → v (pat_key (b ∷ id)) ≡ none → w (pat_key (b ∷ id)) ≡ none
      nothing_held v e h = ap (λ (u : View). u (pat_key (b ∷ id))) (sym e) ∙ h
  touch_found-Touched b id at (some p) named =
      hoare_assume client.etcd.view
        {X = (p.id ≡ b ∷ id) × Decodes codec (some p) (w (pat_key (b ∷ id)))}
        (λ v h.
          let d = subst (λ (u : View). Decodes codec (some p) (u (pat_key (b ∷ id)))) h.0 h.1 in
          (named p d, d))
        (λ known.
          subst
            (λ i.
              Hoare client.etcd.view (λ v. (v ≡ w) × Decodes codec (some p) (v (pat_key (b ∷ id))))
                (put_pat_id client codec (record p { last_used_at = at }) i)
                (λ done v. Touched codec form (b ∷ id) at w v × Elsewhere (pat_key (b ∷ id)) w v)
                (Elsewhere (pat_key (b ∷ id)) w))
            (sym known.0) (stored known.1))
    where
      stored :
          Decodes codec (some p) (w (pat_key (b ∷ id)))
          → Hoare client.etcd.view
              (λ v. (v ≡ w) × Decodes codec (some p) (v (pat_key (b ∷ id))))
              (put_pat_id client codec (record p { last_used_at = at }) (b ∷ id))
              (λ done v. Touched codec form (b ∷ id) at w v × Elsewhere (pat_key (b ∷ id)) w v)
              (Elsewhere (pat_key (b ∷ id)) w)
      stored known =
          let key = pat_key (b ∷ id) in
          put_json-rule client laws (λ v h. same-Elsewhere key w v h.0) codec
            {R = λ v. Touched codec form (b ∷ id) at w v × Elsewhere key w v} _ _ key
            (record p { last_used_at = at })
            (λ v text h encoded. put-Elsewhere key w v text (same-Elsewhere key w v h.0))
            (λ v text h encoded. (
              λ got d.
                  rw (Decodes-unique codec (w key) got (some p) d known)
                    (text, put_own key text v, own.read_back _ text encoded),
              put-Elsewhere key w v text (same-Elsewhere key w v h.0),
            ))

  -- TouchPAT of an identifier that is not empty, on keys w where the token stored under it has it as
  -- its own: the token stored there is afterwards the same but for the time of its last use, in the
  -- form that JSON makes of it, and where there is none, none is stored. All other keys are as they were, also
  -- where a call fails.
  pub touch_pat_lem :
      (b : ℕ) (id : Bytes) (at : ℕ)
      → NamedPat codec (b ∷ id) w
      → Hoare client.etcd.view
          (λ v. v ≡ w)
          (touch_pat client codec (b ∷ id) at)
          (λ done v. Touched codec form (b ∷ id) at w v × Elsewhere (pat_key (b ∷ id)) w v)
          (Elsewhere (pat_key (b ∷ id)) w)
  unfolding touch_pat get_pat
  touch_pat_lem b id at named =
      hoare_bind client.etcd.view
        (get_json-rule client laws (λ v e. same-Elsewhere (pat_key (b ∷ id)) w v e) codec _ _
          (pat_key (b ∷ id)))
        (λ got. touch_found-Touched b id at got named)
