-- ===== src/Metrics.antt =====
-- `LabelBudget` of src/vortex_ai_gateway/metrics.py, the cap on the values of a label. The lock makes a call one
-- step; the set of values is a list, last first.
pub mod Labels
mod Tests
use vortex_ai_gateway.Base.{
  ℕ, Text, codes, Option, none, some, List, [], ◌∷◌, is_empty, mem_text, length, ltb, option_or,
  if◌then◌else◌,
}

-- `UNKNOWN`
abbrev pub unknown : Text
unknown = codes "unknown"

-- `__init__`; the source refuses a limit of zero.
pub record LabelBudget : Type 0 where
  pub limit : ℕ
  pub overflow : Text

-- A value that is not empty, on the values seen before.
unfoldable pub admit_value : LabelBudget → Text → List Text → Text × List Text
admit_value b value seen =
    if mem_text value seen
    then (value, seen)
    else if ltb (length seen) b.limit
    then (value, value ∷ seen)
    else (b.overflow, seen)

-- `__call__`
unfoldable pub label_of : LabelBudget → Option Text → List Text → Text × List Text
unfolding admit_value
label_of b value seen =
    if is_empty (option_or value [])
    then (unknown, seen)
    else admit_value b (option_or value []) seen

-- A run of calls.
unfoldable pub label_all : LabelBudget → List (Option Text) → List Text → List Text × List Text
unfolding label_of
label_all b [] seen = ([], seen)
label_all b (v ∷ vs) seen =
    let (label, seen') = label_of b v seen in
    let (labels, final) = label_all b vs seen' in (label ∷ labels, final)
