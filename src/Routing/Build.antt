-- ===== src/Routing/Build.antt =====
-- `build_router` of src/vortex_ai_gateway/routing.py. A set of names is a list here, in the order of the
-- table and not sorted: on that depends only which of several faults of one kind is named first.
pub mod Members
pub mod Sound
use vortex_ai_gateway.Base.{
  Text, codes, Bool, true, false, not, ◌&&◌, ◌||◌, Option, none, some, List, [], ◌∷◌, ◌++◌,
  is_empty, strip, all, text_eq, if◌then◌else◌, Dict, insert, lookup, mem_text,
}
use vortex_ai_gateway.Config.{Settings}
use vortex_ai_gateway.Routing.Table.{
  ModelRoute, RoutingConfigError, unknown_providers, unreachable_chains, missing_key, Parsed,
  parsed, invalid, parse_routes, parse_fallback_chains,
}
use vortex_ai_gateway.Routing.Router.{
  Built, resilient, fallback, ProviderRouter, routed_names, names_outside, keys_of, new_router,
}

-- The keys of `ADAPTERS`
abbrev pub adapters : List Text
adapters = codes "openai" ∷ codes "anthropic" ∷ codes "ollama" ∷ []

-- The checks of `_build_adapter`: the vendors that require a key have one.
unfoldable pub has_key : Settings → Text → Bool
has_key s name =
    if text_eq name (codes "openai")
    then not (is_empty s.openai_api_key)
    else if text_eq name (codes "anthropic")
    then not (is_empty s.anthropic_api_key)
    else true

-- `settings.default_provider.strip() or None`
unfoldable pub default_of : Settings → Option Text
unfolding strip
default_of s = if is_empty (strip s.default_provider) then none else some (strip s.default_provider)

-- The members of the chains whose head is routed to.
unfoldable pub chained : List Text → Dict (List Text) → List Text
chained routed [] = []
chained routed ((head, members) ∷ chains) =
    if mem_text head routed then members ++ chained routed chains else chained routed chains

-- How `build_router` ends; `key_error` is the failure of `resilient[member]`.
pub data Construction : Type 0 where
  configured : ProviderRouter → Construction
  unconfigured key_error : Construction
  rejected : RoutingConfigError → Construction

-- The first name whose adapter cannot be built.
unfoldable pub keyless : Settings → List Text → Option Text
unfolding has_key
keyless s [] = none
keyless s (n ∷ ns) = if has_key s n then keyless s ns else some n

-- `resilient`
unfoldable pub wrap_all : List Text → Dict Built
unfolding insert
wrap_all [] = []
wrap_all (n ∷ ns) = insert n (resilient n) (wrap_all ns)

-- The loop over the chains, which puts each in the place of its head.
unfoldable pub add_chains : Dict (List Text) → Dict Built → Dict Built
unfolding insert
add_chains [] providers = providers
add_chains ((head, members) ∷ chains) providers =
    add_chains chains (insert head (fallback members) providers)

-- Every member that a chain looks up was built.
unfoldable pub members_built : List Text → Dict (List Text) → Bool
members_built names [] = true
members_built names ((head, members) ∷ chains) =
    all (λ m. mem_text m names) members && members_built names chains

unfoldable pub of_router : Parsed ProviderRouter → Construction
of_router (parsed r) = configured r
of_router (invalid e) = rejected e

-- Once the names are known, and the chains are reachable.
unfoldable pub assemble :
    Settings → List ModelRoute → Option Text → Dict (List Text) → List Text → Construction
unfolding keyless members_built new_router add_chains wrap_all of_router
assemble s routes default chains names = elim (keyless s names) [
  | some n ↦ rejected (missing_key n)
  | none ↦
      if members_built names chains
      then of_router (new_router routes (add_chains chains (wrap_all names)) default)
      else key_error
]

unfoldable pub check_reachable :
    Settings
    → List ModelRoute
    → Option Text
    → Dict (List Text)
    → List Text
    → List Text
    → Construction
unfolding assemble
check_reachable s routes default chains names [] = assemble s routes default chains names
check_reachable s routes default chains names (h ∷ hs) = rejected (unreachable_chains (h ∷ hs))

unfoldable pub check_known :
    Settings
    → List ModelRoute
    → Option Text
    → Dict (List Text)
    → List Text
    → List Text
    → Construction
unfolding check_reachable names_outside routed_names
check_known s routes default chains names [] =
    check_reachable s routes default chains names
      (names_outside (keys_of chains) (routed_names routes default))
check_known s routes default chains names (n ∷ ns) = rejected (unknown_providers (n ∷ ns))

unfoldable pub with_chains :
    Settings → List ModelRoute → Option Text → Parsed (Dict (List Text)) → Construction
unfolding check_known chained
with_chains s routes default (invalid e) = rejected e
with_chains s routes default (parsed chains) =
    let names = routed_names routes default ++ chained (routed_names routes default) chains in
    check_known s routes default chains names (names_outside names adapters)

unfoldable pub with_routes : Settings → Option Text → Parsed (List ModelRoute) → Construction
unfolding with_chains parse_fallback_chains
with_routes s default (invalid e) = rejected e
with_routes s none (parsed []) = unconfigured
with_routes s (some d) (parsed []) =
    with_chains s [] (some d) (parse_fallback_chains s.fallback_chains)
with_routes s default (parsed (r ∷ rs)) =
    with_chains s (r ∷ rs) default (parse_fallback_chains s.fallback_chains)

-- `build_router`
unfoldable pub build_router : Settings → Construction
unfolding with_routes parse_routes default_of
build_router s = with_routes s (default_of s) (parse_routes s.model_routes)
