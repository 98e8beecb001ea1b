-- ===== src/Routing/Tests.antt =====
-- The theorems on routing at concrete tables, and test runs of the patterns.
use vortex_ai_gateway.Base.{
  pos, ◌≡◌, all, mem_text, ◌&&◌, false, insert, ◌⊎◌, refl, Text, codes, true, false, Option, none,
  some, List, [], ◌∷◌, ◌++◌, any, Dict, lookup, fnmatchcase,
}
use vortex_ai_gateway.Routing.Table.{
  unreachable_chains, ModelRoute, matches, parsed, parse_routes, parse_fallback_chains,
}
use vortex_ai_gateway.Routing.Table.Chains.{IsChain, parse_fallback_chains-AreChains}
use vortex_ai_gateway.Routing.Router.{
  Built, resilient, fallback, ProviderRouter, chosen, unroutable, provider_for, new_router,
  routed_names, names_outside,
}
use vortex_ai_gateway.Routing.Build.{adapters, has_key, configured, rejected, build_router}
use vortex_ai_gateway.Routing.Build.Members.{members_of}
use vortex_ai_gateway.Routing.Build.Sound.{build_router-served}
use vortex_ai_gateway.Config.{prod, key, Settings}
use vortex_ai_gateway.Routing.Router.Resolve.{provider_for-resolves}

star_run : fnmatchcase (codes "claude-3-haiku-x") (codes "claude-*-haiku*") ≡ true
unfolding fnmatchcase
star_run = refl

case_run : fnmatchcase (codes "GPT-4o") (codes "gpt-4o*") ≡ false
unfolding fnmatchcase
case_run = refl

set_run : fnmatchcase (codes "o3") (codes "o[!12a-z]") ≡ true
unfolding fnmatchcase
set_run = refl

open_bracket_run : fnmatchcase (codes "a[b") (codes "?[b") ≡ true
unfolding fnmatchcase
open_bracket_run = refl

abbrev chain : List Text
chain = codes "openai" ∷ codes "anthropic" ∷ []

parse_fallback_chains-AreChains_example : IsChain (codes "openai") chain
unfolding parse_fallback_chains lookup
parse_fallback_chains-AreChains_example =
    parse_fallback_chains-AreChains (codes " openai > anthropic , ") ((codes "openai", chain) ∷ [])
      (codes "openai") chain refl refl

abbrev gpt : ModelRoute
gpt = record { pattern = codes "gpt-*"; provider = codes "openai" }

abbrev claude : ModelRoute
claude = record { pattern = codes "claude-*"; provider = codes "anthropic" }

routes_run : parse_routes (codes "gpt-*=openai,, claude-* = anthropic") ≡ parsed (gpt ∷ claude ∷ [])
unfolding parse_routes
routes_run = refl

abbrev built : Dict Built
built = (codes "openai", fallback chain) ∷ (codes "anthropic", resilient (codes "anthropic")) ∷ []

abbrev no_default : Option Text
no_default = none

abbrev router : ProviderRouter
router = record { routes = gpt ∷ claude ∷ []; providers = built; default = no_default }

provider_for-resolves_example :
    ((before : List ModelRoute) × (r : ModelRoute) × (after : List ModelRoute) × (p : Built) × (gpt
          ∷ claude ∷ []
        ≡ before ++ (r ∷ after))
      × (any (λ q. matches q (codes "claude-x")) before ≡ false)
      × (matches r (codes "claude-x") ≡ true)
      × (lookup r.provider built ≡ some p)
      × (provider_for router (codes "claude-x") ≡ chosen r.provider p))
    ⊎ ((any (λ q. matches q (codes "claude-x")) (gpt ∷ claude ∷ []) ≡ false)
        × (((name : Text) × (p : Built) × (no_default ≡ some name)
              × (lookup name built ≡ some p)
              × (provider_for router (codes "claude-x") ≡ chosen name p))
            ⊎ ((no_default ≡ none) × (provider_for router (codes "claude-x") ≡ unroutable))))
unfolding new_router
provider_for-resolves_example =
    provider_for-resolves (gpt ∷ claude ∷ []) built no_default router (codes "claude-x") (λ e. cc)
      refl

abbrev site : Settings
site = record {
  environment = prod;
  api_keys = codes "k";
  key_db_path = [];
  model_routes = codes "gpt-*=openai";
  default_provider = [];
  openai_api_key = codes "sk";
  anthropic_api_key = codes "sk";
  fallback_chains = codes "openai>anthropic";
  cache_enabled = false;
  cache_ttl_seconds = pos 0;
  cache_ttls = [];
  cache_scope = key;
  rate_limit_default_rpm = pos 0;
  rate_limit_default_tpm = pos 0;
  rate_limit_assumed_completion_tokens = pos 512;
}

abbrev site_router : ProviderRouter
site_router = record {
  routes = gpt ∷ [];
  providers =
      (codes "anthropic", resilient (codes "anthropic")) ∷ (codes "openai", fallback chain) ∷ [];
  default = no_default;
}

site_run : build_router site ≡ configured site_router
unfolding build_router parse_routes parse_fallback_chains routed_names names_outside new_router
    lookup insert
site_run = refl

unrouted_chain_run :
    build_router (record site { fallback_chains = codes "ollama>openai" })
    ≡ rejected (unreachable_chains (codes "ollama" ∷ []))
unfolding build_router parse_routes parse_fallback_chains routed_names names_outside new_router
    lookup insert
unrouted_chain_run = refl

build_router-served_example :
    all (λ n. mem_text n adapters && has_key site n) (members_of (fallback chain)) ≡ true
unfolding lookup
build_router-served_example =
    build_router-served site site_router (codes "openai") (fallback chain) site_run refl
