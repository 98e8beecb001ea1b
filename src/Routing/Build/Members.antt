-- ===== src/Routing/Build/Members.antt =====
-- The names of the adapters that `build_router` of src/vortex_ai_gateway/routing.py builds, and those that
-- the chains refer to.
use vortex_ai_gateway.Base.{
  ◌≡◌, inl, inr, refl, Text, Bool, true, none, some, List, [], ◌∷◌, ◌++◌, all, Dict, lookup, insert,
  lookup-insert, mem_text, text_eq, text_eq_iff, eq_of_text_eq, subst, arith, ◌||◌, Bool-cases,
}
use Prim.{absurd}
use vortex_ai_gateway.Config.{Settings}
use vortex_ai_gateway.Routing.Router.{Built, resilient, fallback, names_outside, keys_of}
use vortex_ai_gateway.Routing.Build.{has_key, chained, keyless, wrap_all, add_chains, members_built}

pub mem_text-append :
    (x : Text) (xs ys : List Text) → mem_text x (xs ++ ys) ≡ (mem_text x xs || mem_text x ys)
mem_text-append x [] ys = refl
mem_text-append x (y ∷ xs) ys = ground (arith, mem_text-append x xs ys)

pub all-mem :
    (names ms : List Text)
    → ((x : Text) → mem_text x ms ≡ true → mem_text x names ≡ true)
    → all (λ m. mem_text m names) ms ≡ true
all-mem names [] h = refl
all-mem names (m ∷ ms) h =
    let first = h m (ground (arith, text_eq_iff m m)) in
    let rest = all-mem names ms (λ x there. h x (ground arith)) in ground (arith, first, rest)

pub all_mono :
    (names ms : List Text) (test : Text → Bool)
    → ((x : Text) → mem_text x names ≡ true → test x ≡ true)
    → all (λ m. mem_text m names) ms ≡ true
    → all test ms ≡ true
all_mono names [] test h there = refl
all_mono names (m ∷ ms) test h there =
    let first = h m (ground arith) in
    let rest = all_mono names ms test h (ground arith) in ground (arith, first, rest)

-- The members of the chains are built if every chain is headed by a name that is routed to.
pub members_built-reachable :
    (names routed : List Text) (chains : Dict (List Text))
    → names_outside (keys_of chains) routed ≡ []
    → ((x : Text) → mem_text x (chained routed chains) ≡ true → mem_text x names ≡ true)
    → members_built names chains ≡ true
unfolding members_built chained names_outside
members_built-reachable names routed [] h kept = refl
members_built-reachable names routed ((head, members) ∷ chains) h kept =
    let here : mem_text head routed ≡ true = ground arith in
    let mine =
      all-mem names members
        (λ x there. kept x (ground (arith, mem_text-append x members (chained routed chains)))) in
    let rest =
      members_built-reachable names routed chains (ground arith)
        (λ x there. kept x (ground (arith, mem_text-append x members (chained routed chains)))) in
    ground (arith, mine, rest)

keyless-cons :
    (s : Settings) (m : Text) (ns : List Text)
    → keyless s (m ∷ ns) ≡ none
    → (has_key s m ≡ true) × (keyless s ns ≡ none)
unfolding keyless
keyless-cons s m ns h = elim (Bool-cases (has_key s m)) [
  | inl keyed ↦ (keyed, ground (arith, keyed))
  | inr missing ↦ ground (arith, missing)
]

pub keyless-none :
    (s : Settings) (n : Text) (ns : List Text)
    → keyless s ns ≡ none
    → mem_text n ns ≡ true
    → has_key s n ≡ true
keyless-none s n [] h there = absurd (ground arith)
keyless-none s n (m ∷ ns) h there =
    let (keyed, rest) = keyless-cons s m ns h in
    elim (Bool-cases (text_eq m n)) [
      | inl same ↦ subst (λ x. has_key s x ≡ true) (eq_of_text_eq m n same) keyed
      | inr other ↦ keyless-none s n ns rest (ground arith)
    ]

-- The adapters behind what was built for a name.
abbrev pub members_of : Built → List Text
members_of (resilient n) = n ∷ []
members_of (fallback ms) = ms

pub wrap_all-built :
    (ns names : List Text) (n : Text) (b : Built)
    → all (λ m. mem_text m names) ns ≡ true
    → lookup n (wrap_all ns) ≡ some b
    → all (λ m. mem_text m names) (members_of b) ≡ true
unfolding wrap_all lookup
wrap_all-built [] names n b h there = ground (arith, there)
wrap_all-built (m ∷ ns) names n b h there =
    ground (arith, lookup-insert n m (resilient m) (wrap_all ns), wrap_all-built ns names n b)

pub add_chains-built :
    (chains : Dict (List Text)) (names : List Text) (providers : Dict Built) (n : Text) (b : Built)
    → members_built names chains ≡ true
    → ((m : Text) (c : Built)
        → lookup m providers ≡ some c
        → all (λ x. mem_text x names) (members_of c) ≡ true)
    → lookup n (add_chains chains providers) ≡ some b
    → all (λ x. mem_text x names) (members_of b) ≡ true
unfolding add_chains members_built
add_chains-built [] names providers n b h old there = old n b there
add_chains-built ((head, members) ∷ chains) names providers n b h old there =
    add_chains-built chains names (insert head (fallback members) providers) n b (ground arith)
      (λ m c found. ground (arith, old m c, lookup-insert m head (fallback members) providers))
      there
