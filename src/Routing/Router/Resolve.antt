-- ===== src/Routing/Router/Resolve.antt =====
-- How `ProviderRouter` of src/vortex_ai_gateway/routing.py resolves a model.
use vortex_ai_gateway.Base.{
  ◌≡◌, ◌≢◌, is_empty, ◌⊎◌, inl, inr, refl, ap, any, Text, true, false, Option, none, some, List, [],
  ◌∷◌, ◌++◌, arith, Dict, lookup, mem_text, text_eq, text_eq_iff, text_eq_refl, Option-cases,
  Bool-cases,
}
use Prim.{absurd}
use vortex_ai_gateway.Routing.Table.{ModelRoute, matches, parsed}
use vortex_ai_gateway.Routing.Router.{
  Built, ProviderRouter, chosen, unroutable, choose, first_match, provider_for, add_name,
  routed_names, names_outside, keys_of, new_router,
}

-- A key that a dictionary has can be looked up.
lookup-keys {ℓ} :
    {V : Type ℓ} (k : Text) (d : Dict V)
    → mem_text k (keys_of d) ≡ true
    → (v : V) × (lookup k d ≡ some v)
unfolding lookup
lookup-keys k [] h = ground arith
lookup-keys k ((j, v) ∷ d) h = elim (Bool-cases (text_eq j k)) [
  | inl same ↦ (v, ground arith)
  | inr other ↦ let rest = lookup-keys k d (ground arith) in (rest.0, ground (arith, rest.1))
]

pub names_outside-nil :
    (n : Text) (ns known : List Text)
    → names_outside ns known ≡ []
    → mem_text n ns ≡ true
    → mem_text n known ≡ true
unfolding names_outside
names_outside-nil n [] known h there = ground arith
names_outside-nil n (m ∷ ns) known h there =
    ground (arith, names_outside-nil n ns known, text_eq_iff m n)

first_match-routed :
    (model name : Text) (rs : List ModelRoute) (default : Option Text)
    → first_match model rs ≡ some name
    → mem_text name (routed_names rs default) ≡ true
unfolding first_match routed_names add_name
first_match-routed model name [] default h = ground arith
first_match-routed model name (r ∷ rs) default h =
    ground (arith, first_match-routed model name rs default, text_eq_iff r.provider name)

default-routed :
    (name : Text) (rs : List ModelRoute)
    → is_empty name ≡ false
    → mem_text name (routed_names rs (some name)) ≡ true
unfolding routed_names add_name
default-routed name [] named = ground (arith, text_eq_refl name)
default-routed name (r ∷ rs) named =
    ground (arith, default-routed name rs named, text_eq_iff r.provider name)

pub List-cases {ℓ} :
    {A : Type ℓ} (xs : List A) → (xs ≡ []) ⊎ ((x : A) × (ys : List A) × (xs ≡ x ∷ ys))
List-cases [] = inl refl
List-cases (x ∷ ys) = inr (x, ys, refl)

-- The router that `new_router` returns is made of what it was given.
pub new_router-parsed :
    (routes : List ModelRoute) (providers : Dict Built) (default : Option Text)
    (router : ProviderRouter)
    → new_router routes providers default ≡ parsed router
    → (names_outside (routed_names routes default) (keys_of providers) ≡ [])
      × (router ≡ record { routes = routes; providers = providers; default = default })
unfolding new_router
new_router-parsed routes providers default router h =
    elim (List-cases (names_outside (routed_names routes default) (keys_of providers))) [
      | inl complete ↦ (complete, ground arith)
      | inr (n, ns, missing) ↦ ground arith
    ]

-- How a list of routes claims a model: by a first route that matches, or not at all.
first_match-cases :
    (model : Text) (rs : List ModelRoute)
    → ((before : List ModelRoute) × (r : ModelRoute) × (after : List ModelRoute) × (rs
          ≡ before ++ (r ∷ after))
        × (any (λ q. matches q model) before ≡ false)
        × (matches r model ≡ true)
        × (first_match model rs ≡ some r.provider))
      ⊎ ((any (λ q. matches q model) rs ≡ false) × (first_match model rs ≡ none))
unfolding first_match
first_match-cases model [] = inr (refl, refl)
first_match-cases model (r ∷ rs) = elim (Bool-cases (matches r model)) [
  | inl claims ↦ inl ([], r, rs, refl, refl, claims, ground arith)
  | inr passes ↦ elim (first_match-cases model rs) [
    | inl found ↦
        let (before, q, after, split, none_before, claims, first) = found in
        inl (r ∷ before, q, after, ap (λ xs. r ∷ xs) split, ground arith, claims, ground arith)
    | inr nothing ↦ inr (ground (arith, nothing.0), ground (arith, nothing.1))
  ]
]

name_given :
    (name : Text) (default : Option Text)
    → default ≡ some name
    → default ≢ some []
    → is_empty name ≡ false
name_given [] default given named = absurd (named given)
name_given (c ∷ s) default given named = refl

-- A router that was built, with a default that is not the empty name, resolves every model, and never by way of a provider that it lacks: to the
-- provider of the first rule that claims the model, to the default if no rule does, and to the
-- refusal `model_not_found` only if no rule does and there is no default.
pub provider_for-resolves :
    (routes : List ModelRoute) (providers : Dict Built) (default : Option Text)
    (router : ProviderRouter) (model : Text)
    → default ≢ some []
    → new_router routes providers default ≡ parsed router
    → ((before : List ModelRoute) × (r : ModelRoute) × (after : List ModelRoute) × (p : Built)
        × (routes ≡ before ++ (r ∷ after))
        × (any (λ q. matches q model) before ≡ false)
        × (matches r model ≡ true)
        × (lookup r.provider providers ≡ some p)
        × (provider_for router model ≡ chosen r.provider p))
      ⊎ ((any (λ q. matches q model) routes ≡ false)
          × (((name : Text) × (p : Built) × (default ≡ some name)
                × (lookup name providers ≡ some p)
                × (provider_for router model ≡ chosen name p))
              ⊎ ((default ≡ none) × (provider_for router model ≡ unroutable))))
unfolding provider_for choose
provider_for-resolves routes providers default router model named h =
    let (complete, made) = new_router-parsed routes providers default router h in
    let built = λ (n : Text) (wanted : mem_text n (routed_names routes default) ≡ true).
      lookup-keys n providers
        (names_outside-nil n (routed_names routes default) (keys_of providers) complete wanted) in
    elim (first_match-cases model routes) [
      | inl found ↦
          let (before, r, after, split, passed, claims, first) = found in
          let (p, there) =
            built r.provider (first_match-routed model r.provider routes default first) in
          inl (before, r, after, p, split, passed, claims, there, ground arith)
      | inr nothing ↦ inr (
        nothing.0,
        elim (Option-cases default) [
          | inl no_default ↦ inr (no_default, ground (arith, nothing.1))
          | inr (name, given) ↦
              let wanted : mem_text name (routed_names routes default) ≡ true =
                ground (arith, default-routed name routes (name_given name default given named)) in
              let (p, there) = built name wanted in
              inl (name, p, given, there, ground (arith, nothing.1))
        ],
      )
    ]
