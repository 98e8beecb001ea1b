-- ===== src/Routing/Table.antt =====
-- The routing table and the fallback chains of src/vortex_ai_gateway/routing.py, read from their settings.
pub mod Chains
use vortex_ai_gateway.Base.{
  ℕ, Text, Bool, true, false, not, ◌&&◌, ◌||◌, Option, none, some, List, [], ◌∷◌, ◌++◌, is_empty,
  strip, split_on, partition, all, length, ltb, if◌then◌else◌, fnmatchcase, Dict, contains, insert,
  lookup, mem_text,
}

pub record ModelRoute : Type 0 where
  pub pattern : Text
  pub provider : Text

-- `ModelRoute.matches`
unfoldable pub matches : ModelRoute → Text → Bool
matches route model = fnmatchcase model route.pattern

-- `RoutingConfigError`, by where it is raised.
pub data RoutingConfigError : Type 0 where
  malformed_rule malformed_chain : Text → RoutingConfigError
  repeated_member repeated_head : Text → RoutingConfigError
  missing_providers unknown_providers unreachable_chains : List Text → RoutingConfigError
  missing_key : Text → RoutingConfigError

pub data Parsed {ℓ} (A : Type ℓ) : Type ℓ where
  parsed : A → Parsed A
  invalid : RoutingConfigError → Parsed A

-- One entry of the table, already stripped and not empty.
unfoldable pub parse_rule : Text → Parsed ModelRoute
unfolding partition strip
parse_rule rule =
    let (before, found, after) = partition b'=' rule in
    let pattern = strip before in
    let provider = strip after in
    if not found || is_empty pattern || is_empty provider
    then invalid (malformed_rule rule)
    else parsed (record { pattern = pattern; provider = provider })

add_route : Parsed ModelRoute → Parsed (List ModelRoute) → Parsed (List ModelRoute)
add_route (invalid e) rest = invalid e
add_route (parsed r) (invalid e) = invalid e
add_route (parsed r) (parsed rs) = parsed (r ∷ rs)

parse_entries : List Text → Parsed (List ModelRoute)
unfolding parse_rule strip add_route
parse_entries [] = parsed []
parse_entries (entry ∷ entries) =
    let rule = strip entry in
    let rest = parse_entries entries in
    if is_empty rule then rest else add_route (parse_rule rule) rest

-- `parse_routes`
unfoldable pub parse_routes : Text → Parsed (List ModelRoute)
unfolding parse_entries split_on
parse_routes spec = parse_entries (split_on b',' spec)

-- `len(set(members)) != len(members)`, read as a member that occurs again.
unfoldable pub repeats : List Text → Bool
repeats [] = false
repeats (m ∷ ms) = mem_text m ms || repeats ms

pub map_strip : List Text → List Text
unfolding strip
map_strip [] = []
map_strip (m ∷ ms) = strip m ∷ map_strip ms

-- The first member of a chain; the empty text for none.
abbrev pub head_of : List Text → Text
head_of [] = []
head_of (m ∷ ms) = m

-- One chain, checked against those before it.
unfoldable pub check_chain : Text → List Text → Dict (List Text) → Parsed (Dict (List Text))
unfolding repeats insert lookup
check_chain rule members chains =
    if ltb (length members) 2 || not (all (λ m. not (is_empty m)) members)
    then invalid (malformed_chain rule)
    else if repeats members
    then invalid (repeated_member rule)
    else if contains (head_of members) chains
    then invalid (repeated_head (head_of members))
    else parsed (insert (head_of members) members chains)

pub parse_chain : Text → Dict (List Text) → Parsed (Dict (List Text))
unfolding check_chain map_strip split_on
parse_chain rule chains =
    if is_empty rule
    then parsed chains
    else check_chain rule (map_strip (split_on b'>' rule)) chains

pub and_then :
    (Dict (List Text) → Parsed (Dict (List Text)))
    → Parsed (Dict (List Text))
    → Parsed (Dict (List Text))
and_then next (invalid e) = invalid e
and_then next (parsed chains) = next chains

-- The loop over the entries, with the chains so far.
pub parse_chains_from : List Text → Dict (List Text) → Parsed (Dict (List Text))
unfolding parse_chain strip and_then
parse_chains_from [] chains = parsed chains
parse_chains_from (entry ∷ entries) chains =
    and_then (parse_chains_from entries) (parse_chain (strip entry) chains)

-- `parse_fallback_chains`
unfoldable pub parse_fallback_chains : Text → Parsed (Dict (List Text))
unfolding parse_chains_from split_on
parse_fallback_chains spec = parse_chains_from (split_on b',' spec) []
