-- ===== src/Cache/Ttls.antt =====
-- `parse_cache_ttls` of src/vortex_ai_gateway/cache.py.
use vortex_ai_gateway.Base.{
  ℕ, Text, not, ◌||◌, Option, none, some, List, [], ◌∷◌, is_empty, strip, split_on, partition, Dict,
  insert, ℤ, pos, negsuc, parse_int, if◌then◌else◌,
}

-- `CacheConfigError`, by its three messages.
pub data CacheConfigError : Type 0 where
  malformed_rule non_integer negative : Text → CacheConfigError

pub data Ttls : Type 0 where
  ttls : Dict ℕ → Ttls
  invalid : CacheConfigError → Ttls

set_ttl : Text → Text → Option ℤ → Dict ℕ → Ttls
unfolding insert
set_ttl rule path none d = invalid (non_integer rule)
set_ttl rule path (some (pos n)) d = ttls (insert path n d)
set_ttl rule path (some (negsuc n)) d = invalid (negative rule)

-- One entry, already stripped.
read_rule : Text → Dict ℕ → Ttls
unfolding set_ttl partition strip parse_int
read_rule rule d =
    let (before, found, after) = partition b'=' rule in
    let path = strip before in
    let raw = strip after in
    if is_empty rule
    then ttls d
    else if not found || is_empty path || is_empty raw
    then invalid (malformed_rule rule)
    else set_ttl rule path (parse_int raw) d

and_then : (Dict ℕ → Ttls) → Ttls → Ttls
and_then next (ttls d) = next d
and_then next (invalid e) = invalid e

read_entries : List Text → Dict ℕ → Ttls
unfolding read_rule and_then strip
read_entries [] d = ttls d
read_entries (entry ∷ entries) d = and_then (read_entries entries) (read_rule (strip entry) d)

-- `parse_cache_ttls`
unfoldable pub parse_cache_ttls : Text → Ttls
unfolding read_entries split_on
parse_cache_ttls spec = read_entries (split_on b',' spec) []
