-- ===== src/Gateway/Walk/Routes.antt =====
-- The routes of src/resgraph/gateway/server.py: each provider once, with an endpoint that an alias names.
use resgraph.Prelude.{
  ◌≡◌, refl, sym, ap, ap₂, subst, ◌∙◌, String, Bool, true, false, Option, none, some, List, [], ◌∷◌,
  ◌++◌, str_eq, eq_iff, arith, In, In-append_cases, In-append_left, In-append_right, some-inj,
  Bool-cases, Option-cases, inl, inr,
}
use resgraph.Gateway.Dispatch.{Backend}
use resgraph.Gateway.Plan.{Endpoint, candidates}
use resgraph.Gateway.Plan.Expand.{backend_key}
use resgraph.Gateway.Walk.{
  provider_of, get_route, set_default, Dispatch, first_named, serve_chosen, serve_among,
  serving_endpoint, routed_from, routed,
}

get_route-append :
    (p : String) (out : List (String × Endpoint)) (e : Endpoint) (more : List (String × Endpoint))
    → get_route p out ≡ some e
    → get_route p (out ++ more) ≡ some e
get_route-append p [] e more h = absurd (ground arith)
get_route-append p ((q, f) ∷ out) e more h = ground (arith, get_route-append p out e more)

get_route-last :
    (p : String) (out : List (String × Endpoint)) (e : Endpoint)
    → get_route p out ≡ none
    → get_route p (out ++ ((p, e) ∷ [])) ≡ some e
get_route-last p [] e h = rw ((eq_iff p p).1 refl)
get_route-last p ((q, f) ∷ out) e h = ground (arith, get_route-last p out e)

pub get_route-In :
    (p : String) (out : List (String × Endpoint)) (e : Endpoint)
    → get_route p out ≡ some e
    → In (p, e) out
get_route-In p [] e h = absurd (ground arith)
get_route-In p ((q, f) ∷ out) e h = elim (Bool-cases (str_eq p q)) [
  | inl k ↦ inl (ap₂ (λ a b. (a, b)) ((eq_iff p q).0 k) (sym (some-inj f e (rw k at h))))
  | inr k ↦ inr (get_route-In p out e (rw k at h))
]

-- The routes are keyed by their providers, each once.
abbrev pub IsKeyed : (Endpoint → Type 0) → List (String × Endpoint) → Type 0
IsKeyed P out =
    (r : String × Endpoint)
    → In r out
    → (get_route r.0 out ≡ some r.1) × (r.0 ≡ provider_of r.1) × P r.1

set_default-IsKeyed :
    (P : Endpoint → Type 0) (e : Endpoint) (out : List (String × Endpoint))
    → P e
    → IsKeyed P out
    → IsKeyed P (set_default (provider_of e) e out)
set_default-IsKeyed P e out good h = elim (Option-cases (get_route (provider_of e) out)) [
  | inr (f, k) ↦ rw k h
  | inl k ↦ rw k (λ r i. elim (In-append_cases r out ((provider_of e, e) ∷ []) i) [
    | inl old ↦ (get_route-append r.0 out r.1 _ (h r old).0, (h r old).1, (h r old).2)
    | inr (inl new) ↦
        let key : r.0 ≡ provider_of e = ap (λ q. q.0) new in
        let same : r.1 ≡ e = ap (λ q. q.1) new in
        (
          ap (λ p. get_route p (out ++ ((provider_of e, e) ∷ []))) key
              ∙ get_route-last (provider_of e) out e k
              ∙ ap some (sym same),
          key ∙ ap provider_of (sym same),
          subst P (sym same) good,
        )
    | inr (inr none_left) ↦ absurd none_left
  ])
]

module _ {W : Type 0} (d : Dispatch W) (routes : List String) (setups : List Endpoint)
    (aliases : List (String × List Endpoint)) (paid : Endpoint → Bool) where
  first_named-In :
      (w : W) (name : String) (default : Endpoint) (es : List Endpoint)
      → In (first_named d routes setups aliases paid w name default es) (default ∷ es)
  unfolding first_named
  first_named-In w name default [] = inl refl
  first_named-In w name default (e ∷ es) =
      elim (Bool-cases (str_eq (d.backends w (backend_key e)).name name)) [
        | inl k ↦ subst (λ x. In x (default ∷ e ∷ es)) (sym (named k)) (inr (inl refl))
        | inr k ↦
            subst (λ x. In x (default ∷ e ∷ es)) (sym (unnamed k))
              (elim (first_named-In w name default es) [
                | inl same ↦ inl same
                | inr later ↦ inr (inr later)
              ])
      ]
    where
      named :
          str_eq (d.backends w (backend_key e)).name name ≡ true
          → first_named d routes setups aliases paid w name default (e ∷ es) ≡ e
      named k = rw k

      unnamed :
          str_eq (d.backends w (backend_key e)).name name ≡ false
          → first_named d routes setups aliases paid w name default (e ∷ es)
            ≡ first_named d routes setups aliases paid w name default es
      unnamed k = rw k

  serve_chosen-In :
      (w : W) (o : Option Backend) (e : Endpoint) (es : List Endpoint)
      → In (serve_chosen d routes setups aliases paid w o e es) (e ∷ es)
  unfolding serve_chosen
  serve_chosen-In w none e es = inl refl
  serve_chosen-In w (some nxt) e es = elim (first_named-In w nxt.name e (e ∷ es)) [
    | inl same ↦ inl same
    | inr later ↦ later
  ]

  -- The endpoint that serves an alias is one of its candidates.
  serve_among-In :
      (w : W) (es : List Endpoint) (e : Endpoint)
      → serve_among d routes setups aliases paid w es ≡ some e
      → In e es
  unfolding serve_among
  serve_among-In w [] e h = absurd (ground arith)
  serve_among-In w (f ∷ []) e h = inl (sym (some-inj f e h))
  serve_among-In w (f ∷ g ∷ es) e h =
      subst (λ x. In x (f ∷ g ∷ es)) (some-inj _ e h) (serve_chosen-In w _ f (g ∷ es))

  -- The endpoints that the routes may name.
  abbrev pub routable_of : List String → List Endpoint
  routable_of [] = []
  routable_of (model ∷ models) = candidates model aliases setups ++ routable_of models

  abbrev pub IsRoutable : Endpoint → Type 0
  IsRoutable e = In e (routable_of routes)

  routed_from-IsKeyed :
      (w : W) (models : List String) (out : List (String × Endpoint))
      → ((e : Endpoint) → In e (routable_of models) → IsRoutable e)
      → IsKeyed IsRoutable out
      → IsKeyed IsRoutable (routed_from d routes setups aliases paid w models out)
  unfolding routed_from serving_endpoint
  routed_from-IsKeyed w [] out sub h = h
  routed_from-IsKeyed w (model ∷ models) out sub h =
      elim (Option-cases
        (serve_among d routes setups aliases paid w (candidates model aliases setups))) [
          | inl k ↦
              rw k (routed_from-IsKeyed w models out (λ e i. sub e (In-append_right e _ _ i)) h)
          | inr (e, k) ↦ rw k (
              routed_from-IsKeyed w models (set_default (provider_of e) e out)
                (λ f i. sub f (In-append_right f _ _ i))
                (set_default-IsKeyed IsRoutable e out
                  (sub e (In-append_left e _ _ (serve_among-In w _ e k))) h))
        ]

  pub routed-IsKeyed : (w : W) → IsKeyed IsRoutable (routed d routes setups aliases paid w)
  unfolding routed
  routed-IsKeyed w = routed_from-IsKeyed w routes [] (λ e i. i) (λ r i. absurd i)
