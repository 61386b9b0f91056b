-- ===== src/Gateway/Walk/Hop.antt =====
-- What `_next_alias` of src/resgraph/gateway/server.py may name.
use resgraph.Prelude.{
  ◌≡◌, refl, sym, ap, subst, ◌∙◌, String, Bool, true, false, not, ◌&&◌, some, List, [], ◌∷◌, map,
  arith, In, In-filter, some-inj, Bool-cases, Option-cases, inl, inr,
}
use resgraph.Gateway.Dispatch.{Backend, is_down, choose}
use resgraph.Gateway.Dispatch.Choose.{choose-some}
use resgraph.Gateway.Plan.{Endpoint}
use resgraph.Gateway.Plan.Expand.{backend_key, has_at}
use resgraph.Gateway.Walk.{
  provider_of, Chain, tried_of, is_tried, get_route, Dispatch, routed, over_budget, may_hop,
  hop_backends, alias_of_chosen, next_alias,
}
use resgraph.Gateway.Walk.Routes.{get_route-In, routed-IsKeyed, IsRoutable}

In-map :
    {A B : Type 0} (f : A → B) (b : B) (xs : List A)
    → In b (map f xs)
    → (a : A) × In a xs × (b ≡ f a)
In-map f b [] h = absurd h
In-map f b (x ∷ xs) (inl e) = (x, inl refl, e)
In-map f b (x ∷ xs) (inr h) = let r = In-map f b xs h in (r.0, inr r.1, r.2)

module _ {W : Type 0} (d : Dispatch W) (routes : List String) (setups : List Endpoint)
    (aliases : List (String × List Endpoint)) (paid : Endpoint → Bool) where
  -- The code's names: a backend is called by its key, and no provider has an `@`.
  pub record IsNamed : Type 0 where
    pub by_key : (w : W) (key : String) → (d.backends w key).name ≡ key
    pub no_at :
        (e : Endpoint) → IsRoutable d routes setups aliases paid e → has_at (provider_of e) ≡ false

  -- The next hop is a routable endpoint of a provider that was not tried and is not down, and within
  -- the budget, unless that is ignored. It is never an expanded endpoint, which has a dispatch state
  -- of its own: its backend is its provider.
  pub record IsHop (w : W) (ignore_budget : Bool) (chain : Chain) (e : Endpoint) : Type 0 where
    pub routable : IsRoutable d routes setups aliases paid e
    pub untried : is_tried (backend_key e) (tried_of chain) ≡ false
    pub up : is_down (d.backends w (backend_key e)).health.state ≡ false
    pub affordable :
        (not ignore_budget && over_budget d routes setups aliases paid (d.allows w) e) ≡ false
    pub plain : backend_key e ≡ provider_of e

  -- A plain setup's backend is its provider.
  key-plain :
      IsNamed
      → (f e : Endpoint) → IsRoutable d routes setups aliases paid e
      → backend_key f ≡ provider_of e
      → backend_key f ≡ provider_of f
  unfolding backend_key
  key-plain names f e i h = elim (Bool-cases (has_at f.eid)) [
    | inr k ↦ rw k
    | inl k ↦
        let key : f.eid ≡ provider_of e = rw k at h in
        ground (arith, k, ap has_at key, names.no_at e i)
  ]

  may-IsHop :
      IsNamed
      → (w : W) (ignore_budget : Bool) (chain : Chain) (r : String × Endpoint)
      → IsRoutable d routes setups aliases paid r.1
      → backend_key r.1 ≡ provider_of r.1
      → may_hop d routes setups aliases paid w ignore_budget (tried_of chain) r ≡ true
      → IsHop w ignore_budget chain r.1
  unfolding may_hop
  may-IsHop names w ignore_budget chain r i key may = record {
    routable = i;
    untried =
        ap (λ n. is_tried n (tried_of chain)) (sym (names.by_key w (backend_key r.1)))
        ∙ ground arith;
    up = ground arith;
    affordable = ground arith;
    plain = key;
  }

  chosen-IsHop :
      IsNamed
      → (w : W) (ignore_budget : Bool) (chain : Chain) (e : Endpoint) (r : String × Endpoint)
      → In r (routed d routes setups aliases paid w)
      → may_hop d routes setups aliases paid w ignore_budget (tried_of chain) r ≡ true
      → get_route (backend_key r.1) (routed d routes setups aliases paid w) ≡ some e
      → IsHop w ignore_budget chain e
  chosen-IsHop names w ignore_budget chain e r i may found =
      let k = routed-IsKeyed d routes setups aliases paid w r i in
      let ke =
        routed-IsKeyed d routes setups aliases paid w (backend_key r.1, e)
          (get_route-In _ _ e found) in
      let plain = key-plain names r.1 e ke.2 ke.1 in
      let same = some-inj r.1 e (
        sym k.0
        ∙ ap (λ p. get_route p (routed d routes setups aliases paid w)) (k.1 ∙ sym plain)
        ∙ found) in
      subst (IsHop w ignore_budget chain) same
        (may-IsHop names w ignore_budget chain r k.2 plain may)

  -- The next hop of the walk is an endpoint that the routes name, of a backend that was not tried and
  -- that is not down, and within the budget unless that is ignored. And it is a plain setup, whose
  -- backend is its provider: where the chosen backend belongs to an expanded endpoint, there is no hop.
  -- The conditions: a backend is called by its key, and no provider of a routable endpoint has an `@`.
  pub next_alias-IsHop :
      IsNamed
      → (w : W) (ignore_budget : Bool) (chain : Chain) (e : Endpoint)
      → next_alias d routes setups aliases paid w ignore_budget chain ≡ some e
      → IsHop w ignore_budget chain e
  unfolding next_alias alias_of_chosen hop_backends
  next_alias-IsHop names w ignore_budget chain e h =
      elim (Option-cases
        (choose (d.clock w) (hop_backends d routes setups aliases paid w ignore_budget chain))) [
          | inl k ↦ absurd (ground (arith, (rw k at h)))
          | inr (b, k) ↦
              let c = choose-some (d.clock w) _ b k in
              let (r, r_in, same) =
                In-map (λ (r : String × Endpoint). d.backends w (backend_key r.1)) b _ c.0 in
              let f =
                (In-filter (may_hop d routes setups aliases paid w ignore_budget (tried_of chain)) r
                    (routed d routes setups aliases paid w)).0
                  r_in in
              chosen-IsHop names w ignore_budget chain e r f.0 f.1 (
                ap (λ n. get_route n (routed d routes setups aliases paid w))
                  (sym (ap (λ (x : Backend). x.name) same ∙ names.by_key w (backend_key r.1)))
                ∙ (rw k at h))
        ]
