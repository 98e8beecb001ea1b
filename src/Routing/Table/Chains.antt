-- ===== src/Routing/Table/Chains.antt =====
-- What `parse_fallback_chains` of src/vortex_ai_gateway/routing.py lets through.
use vortex_ai_gateway.Base.{
  ◌≡◌, refl, sym, subst, ◌≤◌, Text, true, false, not, ◌⊎◌, inl, inr, some, List, [], ◌∷◌, is_empty,
  all, length, strip, split_on, Dict, lookup, insert, lookup-insert, text_eq, text_eq_iff, arith,
  Bool-cases,
}
use vortex_ai_gateway.Routing.Table.{
  Parsed, parsed, invalid, RoutingConfigError, repeats, head_of, check_chain, map_strip,
  parse_chain, and_then, parse_chains_from, parse_fallback_chains,
}

-- A chain that a deployment can hop along: two members at least, each with a name, none twice, and
-- filed under its first.
pub record IsChain (head : Text) (members : List Text) : Type 0 where
  pub long : 2 ≤ length members
  pub named : all (λ m. not (is_empty m)) members ≡ true
  pub distinct : repeats members ≡ false
  pub headed : head_of members ≡ head

abbrev pub AreChains : Dict (List Text) → Type 0
AreChains chains =
    (head : Text) (members : List Text) → lookup head chains ≡ some members → IsChain head members

pub Parsed-cases {ℓ} :
    {A : Type ℓ} (p : Parsed A)
    → ((e : RoutingConfigError) × (p ≡ invalid e)) ⊎ ((a : A) × (p ≡ parsed a))
Parsed-cases (invalid e) = inl (e, refl)
Parsed-cases (parsed a) = inr (a, refl)

check_chain-IsChain :
    (rule : Text) (members : List Text) (chains chains' : Dict (List Text))
    → check_chain rule members chains ≡ parsed chains'
    → IsChain (head_of members) members × (chains' ≡ insert (head_of members) members chains)
unfolding check_chain
check_chain-IsChain rule members chains chains' h = (
  record { long = ground arith; named = ground arith; distinct = ground arith; headed = refl },
  ground arith,
)

insert-AreChains :
    (members : List Text) (chains : Dict (List Text))
    → IsChain (head_of members) members
    → AreChains chains
    → AreChains (insert (head_of members) members chains)
insert-AreChains members chains new old head found there =
    let looked = lookup-insert head (head_of members) members chains in
    elim (Bool-cases (text_eq (head_of members) head)) [
      | inl same ↦
          let at = (text_eq_iff (head_of members) head).0 same in
          let is : found ≡ members = ground arith in
          record {
            long = ground (arith, new.long);
            named = subst (λ m. all (λ x. not (is_empty x)) m ≡ true) (sym is) new.named;
            distinct = ground (arith, new.distinct);
            headed = ground arith;
          }
      | inr other ↦ old head found (ground arith)
    ]

parse_chain-AreChains :
    (rule : Text) (chains chains' : Dict (List Text))
    → AreChains chains
    → parse_chain rule chains ≡ parsed chains'
    → AreChains chains'
unfolding parse_chain
parse_chain-AreChains rule chains chains' old h = elim (Bool-cases (is_empty rule)) [
  | inl blank ↦ subst AreChains (ground arith) old
  | inr written ↦
      let members = map_strip (split_on b'>' rule) in
      let checked = check_chain-IsChain rule members chains chains' (ground arith) in
      subst AreChains (sym checked.1) (insert-AreChains members chains checked.0 old)
]

parse_chains_from-AreChains :
    (entries : List Text) (chains chains' : Dict (List Text))
    → AreChains chains
    → parse_chains_from entries chains ≡ parsed chains'
    → AreChains chains'
unfolding parse_chains_from and_then
parse_chains_from-AreChains [] chains chains' old h = subst AreChains (ground arith) old
parse_chains_from-AreChains (entry ∷ entries) chains chains' old h =
    elim (Parsed-cases (parse_chain (strip entry) chains)) [
      | inl (e, bad) ↦ ground arith
      | inr (next, good) ↦
          parse_chains_from-AreChains entries next chains'
            (parse_chain-AreChains (strip entry) chains next old good) (ground arith)
    ]

-- Whatever the setting says, a table of chains that it is read as holds proper chains only: each
-- has two members at least, all named and none twice, and is filed under its first member.
pub parse_fallback_chains-AreChains :
    (spec : Text) (chains : Dict (List Text)) (head : Text) (members : List Text)
    → parse_fallback_chains spec ≡ parsed chains
    → lookup head chains ≡ some members
    → IsChain head members
unfolding parse_fallback_chains
parse_fallback_chains-AreChains spec chains head members h there =
    parse_chains_from-AreChains (split_on b',' spec) [] chains (λ j m none_there. ground arith) h
      head members there
