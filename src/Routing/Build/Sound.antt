-- ===== src/Routing/Build/Sound.antt =====
-- What `build_router` of src/vortex_ai_gateway/routing.py lets start.
use vortex_ai_gateway.Base.{
  ◌≡◌, ◌≢◌, inl, inr, refl, Text, true, Option, none, some, List, [], ◌∷◌, ◌++◌, all, Dict, lookup,
  mem_text, subst, ap, sym, ◌∙◌, arith, ◌&&◌, Bool-cases, Option-cases,
}
use Prim.{absurd}
use vortex_ai_gateway.Config.{Settings}
use vortex_ai_gateway.Routing.Table.{
  RoutingConfigError, unknown_providers, unreachable_chains, ModelRoute, Parsed, parsed, invalid,
  parse_routes, parse_fallback_chains,
}
use vortex_ai_gateway.Routing.Table.Chains.{Parsed-cases}
use vortex_ai_gateway.Routing.Router.{
  Built, ProviderRouter, names_outside, keys_of, routed_names, new_router,
}
use vortex_ai_gateway.Routing.Router.Resolve.{names_outside-nil, new_router-parsed}
use vortex_ai_gateway.Routing.Build.{
  adapters, has_key, default_of, chained, Construction, configured, key_error, rejected, keyless,
  wrap_all, add_chains, members_built, of_router, assemble, check_reachable, check_known,
  with_chains, with_routes, build_router,
}
use vortex_ai_gateway.Routing.Build.Members.{
  mem_text-append, all-mem, all_mono, members_built-reachable, keyless-none, members_of,
  wrap_all-built, add_chains-built,
}

-- What a router was made from, once it is configured.
record IsMade (s : Settings) (router : ProviderRouter) : Type 0 where
  names : List Text
  chains : Dict (List Text)
  known : names_outside names adapters ≡ []
  keyed : keyless s names ≡ none
  linked : members_built names chains ≡ true
  made : router.providers ≡ add_chains chains (wrap_all names)

assemble-IsMade :
    (s : Settings) (routes : List ModelRoute) (default : Option Text) (chains : Dict (List Text))
    (names : List Text) (router : ProviderRouter)
    → names_outside names adapters ≡ []
    → assemble s routes default chains names ≡ configured router
    → IsMade s router
unfolding assemble of_router
assemble-IsMade s routes default chains names router known h =
    let providers = add_chains chains (wrap_all names) in
    elim (Option-cases (keyless s names)) [
      | inr (n, missing) ↦ absurd (ground arith)
      | inl keyed ↦ elim (Bool-cases (members_built names chains)) [
        | inr broken ↦ absurd (ground arith)
        | inl linked ↦ elim (Parsed-cases (new_router routes providers default)) [
          | inl (e, bad) ↦ absurd (ground arith)
          | inr (r, good) ↦ record {
            names = names;
            chains = chains;
            known = known;
            keyed = keyed;
            linked = linked;
            made =
                (let same : router ≡ r = ground arith in
                  ap (λ x. x.providers) same
                  ∙ ap (λ x. x.providers) (new_router-parsed routes providers default r good).1);
          }
        ]
      ]
    ]

record IsSound (s : Settings) (c : Construction) : Type 0 where
  no_key_error : c ≢ key_error
  made : (router : ProviderRouter) → c ≡ configured router → IsMade s router

rejected-IsSound : (s : Settings) (e : RoutingConfigError) → IsSound s (rejected e)
rejected-IsSound s e = record {
  no_key_error = λ h. ground arith;
  made = λ router h. absurd (ground arith);
}

assemble-no_key_error :
    (s : Settings) (routes : List ModelRoute) (default : Option Text) (chains : Dict (List Text))
    (names : List Text)
    → members_built names chains ≡ true
    → assemble s routes default chains names ≢ key_error
unfolding assemble of_router
assemble-no_key_error s routes default chains names linked h =
    elim (Option-cases (keyless s names)) [
      | inr (n, missing) ↦ ground arith
      | inl keyed ↦
          elim (Parsed-cases (new_router routes (add_chains chains (wrap_all names)) default)) [
            | inl (e, bad) ↦ ground arith
            | inr (r, good) ↦ ground arith
          ]
    ]

check_reachable-IsSound :
    (s : Settings) (routes : List ModelRoute) (default : Option Text) (chains : Dict (List Text))
    (names outside : List Text)
    → names_outside names adapters ≡ []
    → (outside ≡ [] → members_built names chains ≡ true)
    → IsSound s (check_reachable s routes default chains names outside)
unfolding check_reachable
check_reachable-IsSound s routes default chains names [] known linked = record {
  no_key_error = assemble-no_key_error s routes default chains names (linked refl);
  made = λ router h. assemble-IsMade s routes default chains names router known h;
}
check_reachable-IsSound s routes default chains names (n ∷ ns) known linked =
    rejected-IsSound s (unreachable_chains (n ∷ ns))

check_known-IsSound :
    (s : Settings) (routes : List ModelRoute) (default : Option Text) (chains : Dict (List Text))
    (names unknown : List Text)
    → unknown ≡ names_outside names adapters
    → (names_outside (keys_of chains) (routed_names routes default) ≡ []
        → members_built names chains ≡ true)
    → IsSound s (check_known s routes default chains names unknown)
unfolding check_known
check_known-IsSound s routes default chains names [] known linked =
    check_reachable-IsSound s routes default chains names
      (names_outside (keys_of chains) (routed_names routes default)) (sym known) linked
check_known-IsSound s routes default chains names (n ∷ ns) known linked =
    rejected-IsSound s (unknown_providers (n ∷ ns))

with_chains-IsSound :
    (s : Settings) (routes : List ModelRoute) (default : Option Text)
    (chains : Parsed (Dict (List Text)))
    → IsSound s (with_chains s routes default chains)
unfolding with_chains
with_chains-IsSound s routes default (invalid e) = rejected-IsSound s e
with_chains-IsSound s routes default (parsed chains) =
    let routed = routed_names routes default in
    let names = routed ++ chained routed chains in
    check_known-IsSound s routes default chains names (names_outside names adapters) refl
      (λ reachable.
        members_built-reachable names routed chains reachable
          (λ x there. ground (arith, mem_text-append x routed (chained routed chains))))

with_routes-IsSound :
    (s : Settings) (default : Option Text) (routes : Parsed (List ModelRoute))
    → IsSound s (with_routes s default routes)
unfolding with_routes
with_routes-IsSound s default (invalid e) = rejected-IsSound s e
with_routes-IsSound s none (parsed []) = record {
  no_key_error = λ h. ground arith;
  made = λ router h. absurd (ground arith);
}
with_routes-IsSound s (some d) (parsed []) =
    with_chains-IsSound s [] (some d) (parse_fallback_chains s.fallback_chains)
with_routes-IsSound s none (parsed (r ∷ rs)) =
    with_chains-IsSound s (r ∷ rs) none (parse_fallback_chains s.fallback_chains)
with_routes-IsSound s (some d) (parsed (r ∷ rs)) =
    with_chains-IsSound s (r ∷ rs) (some d) (parse_fallback_chains s.fallback_chains)

-- Whatever the settings, building the router never fails by looking up a member of a chain that was
-- not built: it yields a router or none, or a `RoutingConfigError`.
pub build_router-no_key_error : (s : Settings) → build_router s ≢ key_error
unfolding build_router
build_router-no_key_error s =
    let sound = with_routes-IsSound s (default_of s) (parse_routes s.model_routes) in
    sound.no_key_error

-- In a router that was built, each provider, and each member of a chain, is an adapter that the
-- gateway has, with an API key configured if its vendor requires one.
pub build_router-served :
    (s : Settings) (router : ProviderRouter) (name : Text) (b : Built)
    → build_router s ≡ configured router
    → lookup name router.providers ≡ some b
    → all (λ n. mem_text n adapters && has_key s n) (members_of b) ≡ true
unfolding build_router
build_router-served s router name b h there =
    let sound = with_routes-IsSound s (default_of s) (parse_routes s.model_routes) in
    let m = sound.made router h in
    let found : lookup name (add_chains m.chains (wrap_all m.names)) ≡ some b =
      subst (λ d. lookup name d ≡ some b) m.made there in
    let mine = all-mem m.names m.names (λ x h. h) in
    let within =
      add_chains-built m.chains m.names (wrap_all m.names) name b m.linked
        (λ n c e. wrap_all-built m.names m.names n c mine e) found in
    all_mono m.names (members_of b) (λ n. mem_text n adapters && has_key s n)
      (λ x listed.
        let known = names_outside-nil x m.names adapters m.known listed in
        let keyed = keyless-none s x m.names m.keyed listed in rw known (rw keyed refl))
      within
