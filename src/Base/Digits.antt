-- ===== src/Base/Digits.antt =====
-- Python's `int` of a stripped text, over the ASCII digits: a sign, and digits with single underscores
-- between them; and `str.lower` of an ASCII text.
use Prim.Native.Nat.{ℕ, zero, suc, ◌+◌, ◌-◌, ◌*◌}
use mathlib.Core.Bool.{Bool, true, false, ◌&&◌}
use mathlib.Core.Option.{Option, none, some}
use mathlib.Core.List.{[], ◌∷◌, map}
use vortex_ai_gateway.Base.Tests.{leb, ◌==◌, if◌then◌else◌}
use vortex_ai_gateway.Base.Strings.{Text}
use vortex_ai_gateway.Base.Int.{ℤ, pos, negsuc}

pub data Sign : Type 0 where
  digit : ℕ → Sign
  underscore other : Sign

classify : ℕ → Sign
classify c =
    if leb b'0' c && leb c b'9' then digit (c - b'0') else if c == b'_' then underscore else other

-- Digits after `n`, where a number may end or take an underscore only after a digit.
digits : Bool → ℕ → Text → Option ℕ
unfolding classify
digits false n [] = none
digits true n [] = some n
digits after_digit n (c ∷ s) = elim (classify c) [
  | digit d ↦ digits true (n * 10 + d) s
  | underscore ↦ if after_digit then digits false n s else none
  | other ↦ none
]

negated : Option ℕ → Option ℤ
negated none = none
negated (some zero) = some (pos 0)
negated (some (suc n)) = some (negsuc n)

natural : Option ℕ → Option ℤ
natural none = none
natural (some n) = some (pos n)

-- `int(s)`, `none` for its `ValueError`
unfoldable pub parse_int : Text → Option ℤ
unfolding digits negated natural
parse_int [] = none
parse_int (c ∷ s) =
    if c == b'-'
    then negated (digits false 0 s)
    else if c == b'+'
    then natural (digits false 0 s)
    else natural (digits false 0 (c ∷ s))

lower_code : ℕ → ℕ
lower_code c = if leb b'A' c && leb c b'Z' then c + 32 else c

unfoldable pub lower : Text → Text
unfolding lower_code
lower s = map lower_code s
