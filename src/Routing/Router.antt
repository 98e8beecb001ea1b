-- ===== src/Routing/Router.antt =====
-- `ProviderRouter` and `build_router` of src/vortex_ai_gateway/routing.py. What a provider does is the
-- business of the providers' modules; here it is what was built: an adapter with its retry loop and
-- its breaker, or a chain of those.
pub mod Resolve
use vortex_ai_gateway.Base.{
  ℕ, Text, codes, Bool, true, false, not, ◌&&◌, ◌||◌, Option, none, some, List, [], ◌∷◌, ◌++◌,
  is_empty, strip, any, map, if◌then◌else◌, Dict, contains, insert, lookup, mem_text,
}
use vortex_ai_gateway.Config.{Settings}
use vortex_ai_gateway.Routing.Table.{
  ModelRoute, matches, RoutingConfigError, missing_providers, unknown_providers, unreachable_chains,
  missing_key, Parsed, parsed, invalid, parse_routes, parse_fallback_chains,
}

pub data Built : Type 0 where
  resilient : Text → Built
  fallback : List Text → Built

pub record ProviderRouter : Type 0 where
  pub routes : List ModelRoute
  pub providers : Dict Built
  pub default : Option Text

-- How `provider_for` ends; `key_error` is the failure of `self.providers[name]`.
pub data Choice : Type 0 where
  chosen : Text → Built → Choice
  key_error : Text → Choice
  unroutable : Choice

choose : Text → Dict Built → Choice
unfolding lookup
choose name providers = elim (lookup name providers) [
  | none ↦ key_error name
  | some p ↦ chosen name p
]

-- The provider named by the first route that claims the model.
unfoldable pub first_match : Text → List ModelRoute → Option Text
unfolding matches
first_match model [] = none
first_match model (r ∷ rs) =
    let rest = first_match model rs in if matches r model then some r.provider else rest

-- `provider_for`
unfoldable pub provider_for : ProviderRouter → Text → Choice
unfolding choose first_match
provider_for router model = elim (first_match model router.routes) [
  | some name ↦ choose name router.providers
  | none ↦ elim router.default [ some name ↦ choose name router.providers | none ↦ unroutable ]
]

-- Names without their repetitions, for a set.
unfoldable pub add_name : Text → List Text → List Text
add_name n ns = if mem_text n ns then ns else n ∷ ns

unfoldable pub routed_names : List ModelRoute → Option Text → List Text
unfolding add_name
routed_names [] none = []
routed_names [] (some d) = if is_empty d then [] else d ∷ []
routed_names (r ∷ rs) default = add_name r.provider (routed_names rs default)

-- The names that are not among the others, for the difference of sets.
unfoldable pub names_outside : List Text → List Text → List Text
names_outside [] known = []
names_outside (n ∷ ns) known =
    let rest = names_outside ns known in if mem_text n known then rest else n ∷ rest

abbrev pub keys_of {ℓ} : {V : Type ℓ} → Dict V → List Text
keys_of d = map (λ e. e.0) d

-- `ProviderRouter.__init__`
unfoldable pub new_router : List ModelRoute → Dict Built → Option Text → Parsed ProviderRouter
unfolding routed_names names_outside
new_router routes providers default =
    elim (names_outside (routed_names routes default) (keys_of providers)) [
      | [] ↦ parsed (record { routes = routes; providers = providers; default = default })
      | n ∷ ns ↦ invalid (missing_providers (n ∷ ns))
    ]
