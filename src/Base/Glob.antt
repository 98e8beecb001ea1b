-- ===== src/Base/Glob.antt =====
-- Python's `fnmatch.fnmatchcase`: `*`, `?`, and bracketed sets with `!` and ranges. A bracket that
-- is not closed stands for itself.
use Prim.Native.Nat.{ℕ, zero, suc, ◌+◌}
use mathlib.Core.Bool.{Bool, true, false, not, ◌&&◌, ◌||◌}
use mathlib.Core.List.{List, [], ◌∷◌}
use vortex_ai_gateway.Base.Tests.{leb, ◌==◌, if◌then◌else◌}
use vortex_ai_gateway.Base.Lists.{length}
use vortex_ai_gateway.Base.Strings.{Text, partition}

-- A piece of a pattern. A range from a to b with b below a holds nothing.
pub data Piece : Type 0 where
  star any_one : Piece
  one_of none_of : List (ℕ × ℕ) → Piece
  exactly : ℕ → Piece

-- The end of the range that starts with `a`, and how many code points it takes up.
range_end : ℕ → Text → ℕ × ℕ
range_end a [] = (a, 0)
range_end a (b ∷ []) = (a, 0)
range_end a (b ∷ c ∷ s) = if b == b'-' then (c, 2) else (a, 0)

-- The members of a bracketed set: `a-b` is a range unless the dash is the first or the last.
ranges_after : ℕ → Text → List (ℕ × ℕ)
unfolding range_end
ranges_after skip [] = []
ranges_after (suc skip) (a ∷ s) = ranges_after skip s
ranges_after zero (a ∷ s) = let end = range_end a s in (a, end.0) ∷ ranges_after end.1 s

in_ranges : ℕ → List (ℕ × ℕ) → Bool
in_ranges c [] = false
in_ranges c ((a, b) ∷ rs) = (leb a c && leb c b) || in_ranges c rs

-- The text of a set after `[` or `[!`: a bracket in the first place is a member.
set_text : Text → Text × Bool
unfolding partition
set_text [] = ([], false)
set_text (c ∷ s) = let (inside, closed, _) = partition b']' s in (c ∷ inside, closed)

-- A set that starts after `[`, with the code points it takes up, or the bracket itself.
bracket : Text → Piece × ℕ
unfolding ranges_after set_text
bracket [] = (exactly b'[', 0)
bracket (c ∷ s) =
    let (excluded, closed) = set_text s in
    let (included, closed') = set_text (c ∷ s) in
    if c == b'!'
    then (if closed
        then (none_of (ranges_after 0 excluded), length excluded + 2)
        else (exactly b'[', 0))
    else (if closed'
        then (one_of (ranges_after 0 included), length included + 1)
        else (exactly b'[', 0))

-- The piece that a pattern starts with, and how many further code points it takes up.
first_piece : ℕ → Text → Piece × ℕ
unfolding bracket
first_piece c s =
    if c == b'*'
    then (star, 0)
    else if c == b'?'
    then (any_one, 0)
    else if c == b'['
    then bracket s
    else (exactly c, 0)

-- The pieces of a pattern, after so many code points that a set has taken up.
pieces_after : ℕ → Text → List Piece
unfolding first_piece
pieces_after skip [] = []
pieces_after (suc skip) (c ∷ s) = pieces_after skip s
pieces_after zero (c ∷ s) = let first = first_piece c s in first.0 ∷ pieces_after first.1 s

-- Some end of the text matches.
some_end : (Text → Bool) → Text → Bool
some_end test [] = test []
some_end test (c ∷ s) = test (c ∷ s) || some_end test s

match_one : Piece → ℕ → Bool
unfolding in_ranges
match_one star c = false
match_one any_one c = true
match_one (one_of rs) c = in_ranges c rs
match_one (none_of rs) c = not (in_ranges c rs)
match_one (exactly d) c = c == d

match_piece : Piece → (Text → Bool) → Text → Bool
unfolding some_end match_one
match_piece star rest s = some_end rest s
match_piece p rest [] = false
match_piece p rest (c ∷ s) = match_one p c && rest s

match_pieces : List Piece → Text → Bool
unfolding match_piece
match_pieces [] [] = true
match_pieces [] (c ∷ s) = false
match_pieces (p ∷ ps) s = match_piece p (match_pieces ps) s

-- `fnmatch.fnmatchcase(name, pattern)`
unfoldable pub fnmatchcase : Text → Text → Bool
unfolding match_pieces pieces_after
fnmatchcase name pattern = match_pieces (pieces_after 0 pattern) name
