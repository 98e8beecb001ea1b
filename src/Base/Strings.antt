-- ===== src/Base/Strings.antt =====
-- Texts as lists of code points, and the operations of Python's `str` that the gateway uses.
use Prim.Native.Nat.{ℕ}
use Prim.Native.Char.{code}
use Prim.Native.String.{String}
use mathlib.Core.Path.{◌≡◌, refl}
use mathlib.Core.Logic.{◌↔◌}
use mathlib.Core.Bool.{Bool, true, false, ◌&&◌, ◌||◌}
use mathlib.Core.List.{List, [], ◌∷◌, ◌++◌, reverse}
use native.Mathlib.Omega.{arith}
use vortex_ai_gateway.Base.Tests.{leb, ◌==◌, if◌then◌else◌}

abbrev pub Text : Type 0
Text = List ℕ

abbrev pub codes : String → Text
codes String.[] = []
codes (String.◌∷◌ c s) = code c ∷ codes s

abbrev pub text_eq : Text → Text → Bool
text_eq [] [] = true
text_eq [] (d ∷ t) = false
text_eq (c ∷ s) [] = false
text_eq (c ∷ s) (d ∷ t) = c == d && text_eq s t

pub text_eq_refl : (s : Text) → text_eq s s ≡ true
text_eq_refl [] = refl
text_eq_refl (c ∷ s) = ground (arith, text_eq_refl s)

pub eq_of_text_eq : (s t : Text) → text_eq s t ≡ true → s ≡ t
eq_of_text_eq [] [] h = refl
eq_of_text_eq [] (d ∷ t) h = cc
eq_of_text_eq (c ∷ s) [] h = cc
eq_of_text_eq (c ∷ s) (d ∷ t) h = ground (arith, eq_of_text_eq s t)

pub text_eq_iff : (s t : Text) → (text_eq s t ≡ true) ↔ (s ≡ t)
text_eq_iff s t = (eq_of_text_eq s t, λ e. rw e (text_eq_refl t))

-- `not text`, for the empty text.
abbrev pub is_empty : Text → Bool
is_empty [] = true
is_empty (c ∷ s) = false

-- The code points that `str.strip` removes (`str.isspace`).
abbrev pub is_space : ℕ → Bool
is_space c =
    c == 32
    || (leb 9 c && leb c 13)
    || (leb 28 c && leb c 31)
    || c == 0x85
    || c == 0xa0
    || c == 0x1680
    || (leb 0x2000 c && leb c 0x200a)
    || c == 0x2028
    || c == 0x2029
    || c == 0x202f
    || c == 0x205f
    || c == 0x3000

unfoldable pub lstrip : Text → Text
lstrip [] = []
lstrip (c ∷ s) = if is_space c then lstrip s else c ∷ s

unfoldable pub strip : Text → Text
unfolding lstrip
strip s = reverse (lstrip (reverse (lstrip s)))

abbrev push_head : ℕ → List Text → List Text
push_head c [] = (c ∷ []) ∷ []
push_head c (p ∷ ps) = (c ∷ p) ∷ ps

-- `s.split(sep)` for one code point: never empty.
unfoldable pub split_on : ℕ → Text → List Text
split_on sep [] = [] ∷ []
split_on sep (c ∷ s) = let rest = split_on sep s in if c == sep then [] ∷ rest else push_head c rest

-- `s.partition(sep)`: before, whether the separator is there, after.
unfoldable pub partition : ℕ → Text → Text × Bool × Text
partition sep [] = ([], false, [])
partition sep (c ∷ s) =
    let (before, found, after) = partition sep s in
    if c == sep then ([], true, s) else (c ∷ before, found, after)

-- `c in s`
abbrev pub contains_code : ℕ → Text → Bool
contains_code c [] = false
contains_code c (d ∷ s) = c == d || contains_code c s

-- Splitting off a head that lacks the separator.
pub partition-append :
    (sep : ℕ) (s t : Text)
    → contains_code sep s ≡ false
    → partition sep (s ++ sep ∷ t) ≡ (s, true, t)
unfolding partition
partition-append sep [] t h = ground arith
partition-append sep (c ∷ s) t h = ground (arith, partition-append sep s t)

pub append_cancel : (s t u : Text) → s ++ t ≡ s ++ u → t ≡ u
append_cancel [] t u e = e
append_cancel (c ∷ s) t u e = append_cancel s t u (cc)

pub text_eq_append : (s t u : Text) → text_eq (s ++ t) (s ++ u) ≡ text_eq t u
text_eq_append [] t u = refl
text_eq_append (c ∷ s) t u = ground (arith, text_eq_append s t u)

-- Two texts that end their heads with the same separator agree head by head and rest by rest.
pub text_eq_sep :
    (sep : ℕ) (a b s t : Text)
    → contains_code sep a ≡ false
    → contains_code sep b ≡ false
    → text_eq (a ++ sep ∷ s) (b ++ sep ∷ t) ≡ (text_eq a b && text_eq s t)
text_eq_sep sep [] [] s t ha hb = ground arith
text_eq_sep sep [] (d ∷ b) s t ha hb = ground arith
text_eq_sep sep (c ∷ a) [] s t ha hb = ground arith
text_eq_sep sep (c ∷ a) (d ∷ b) s t ha hb = ground (arith, text_eq_sep sep a b s t)
