-- ===== src/Providers/Anthropic/Ordinals.antt =====
-- How `stream` of src/vortex_ai_gateway/providers/anthropic.py numbers the tool calls: Anthropic numbers
-- every block, the contract only the calls.
use vortex_ai_gateway.Base.{
  ℕ, ℤ, zero, suc, ◌+◌, ◌≡◌, refl, ap, ◌∙◌, sym, Text, Bool, true, false, not, ◌&&◌, ◌||◌, Option,
  none, some, List, [], ◌∷◌, ◌++◌, length, subst, eq_ℤ, inl, inr, arith,
}
use Prim.{absurd}
use vortex_ai_gateway.Contracts.Json.{Json}
use vortex_ai_gateway.Providers.Errors.{Raised}
use vortex_ai_gateway.Providers.Anthropic.Stream.{
  Delta, role_delta, content_delta, tool_start, tool_arguments, no_delta, Chunk, StreamState, Round,
  goes_on, ends_with, fails_with, set_ordinal, started,
}
use vortex_ai_gateway.Providers.Anthropic.Rounds.{read_event, round, stream_from}
use vortex_ai_gateway.Providers.Anthropic.Steps.{starts_of, starts, Steps, index_of, round-Steps}

-- `n`, `n + 1` and so on, `m` of them
unfoldable pub count_from : ℕ → ℕ → List ℕ
count_from n zero = []
count_from n (suc m) = n ∷ count_from (n + 1) m

module _ (name : Text) (str : Json → Text) (wants_usage : Bool) where
  mem : ℤ → List ℤ → Bool
  mem k [] = false
  mem k (j ∷ js) = eq_ℤ j k || mem k js

  abbrev keys : List (ℤ × ℕ) → List ℤ
  keys [] = []
  keys ((j, n) ∷ os) = j ∷ keys os

  -- No event starts a tool block whose index is in `seen` or was started before it.
  unfoldable pub fresh : List ℤ → List (Option Json) → Bool
  unfolding mem index_of read_event
  fresh seen [] = true
  fresh seen (payload ∷ later) = elim (index_of (read_event name str wants_usage payload)) [
    | none ↦ fresh seen later
    | some k ↦ not (mem k seen) && fresh (seen ++ (k ∷ [])) later
  ]

  set_ordinal-fresh :
      (k : ℤ) (n : ℕ) (os : List (ℤ × ℕ))
      → mem k (keys os) ≡ false
      → (keys (set_ordinal k n os) ≡ keys os ++ (k ∷ []))
        × (length (set_ordinal k n os) ≡ length os + 1)
  unfolding mem set_ordinal
  set_ordinal-fresh k n [] new = (refl, omega arith)
  set_ordinal-fresh k n ((j, m) ∷ os) new = ground (arith, new, set_ordinal-fresh k n os)

  -- The ordinals count up from `n`.
  Counts : ℕ → List ℕ → Type 0
  Counts n ns = ns ≡ count_from n (length ns)

  starts_of-append :
      (d : Option Delta) (xs ys : List ℕ) → starts_of d (xs ++ ys) ≡ starts_of d xs ++ ys
  unfolding starts_of
  starts_of-append none xs ys = refl
  starts_of-append (some role_delta) xs ys = refl
  starts_of-append (some (content_delta t)) xs ys = refl
  starts_of-append (some (tool_start n id tool)) xs ys = refl
  starts_of-append (some (tool_arguments n t)) xs ys = refl
  starts_of-append (some no_delta) xs ys = refl

  starts-append : (cs ds : List Chunk) → starts (cs ++ ds) ≡ starts cs ++ starts ds
  unfolding starts
  starts-append [] ds = refl
  starts-append (c ∷ cs) ds =
      ap (starts_of c.delta) (starts-append cs ds)
      ∙ starts_of-append c.delta (starts cs) (starts ds)

  Counts-nil : (n : ℕ) (ns : List ℕ) → ns ≡ [] → Counts n ns
  unfolding Counts count_from
  Counts-nil n ns e = rw e refl

  Counts-skip :
      (os os' : List (ℤ × ℕ)) (cs rest : List Chunk)
      → starts cs ≡ []
      → os' ≡ os
      → Counts (length os') (starts rest)
      → Counts (length os) (starts (cs ++ rest))
  Counts-skip os os' cs rest bare same counts =
      let joined = starts-append cs rest ∙ ap (λ xs. xs ++ starts rest) bare in
      subst (Counts (length os)) (sym joined)
        (subst (λ o. Counts (length o) (starts rest)) same counts)

  Counts-next :
      (n n' : ℕ) (cs rest : List Chunk)
      → starts cs ≡ n ∷ []
      → n' ≡ n + 1
      → Counts n' (starts rest)
      → Counts n (starts (cs ++ rest))
  unfolding Counts count_from
  Counts-next n n' cs rest one more counts =
      let joined = starts-append cs rest ∙ ap (λ xs. xs ++ starts rest) one in
      subst (λ ns. ns ≡ count_from n (length ns)) (sym joined)
        (ap (λ ns. n ∷ ns)
          (subst (λ m. starts rest ≡ count_from m (length (starts rest))) more counts))

  -- What a round and the rounds after it send.
  abbrev continued : Round → List (Option Json) → List Chunk × Option Raised
  continued (goes_on chunks s) later =
      let (rest, e) = stream_from name str wants_usage s later in (chunks ++ rest, e)
  continued (ends_with chunks) later = (chunks, none)
  continued (fails_with chunks e) later = (chunks, some e)

  stream_from-continued :
      (s : StreamState) (payload : Option Json) (later : List (Option Json))
      → stream_from name str wants_usage s (payload ∷ later)
        ≡ continued (round name str wants_usage s payload) later
  unfolding stream_from
  stream_from-continued s payload later =
      elim (round name str wants_usage s payload)
        as (λ r.
          (elim r as (λ x. List Chunk × Option Raised) [
            | goes_on chunks s' ↦
                let (rest, e) = stream_from name str wants_usage s' later in (chunks ++ rest, e)
            | ends_with chunks ↦ (chunks, none)
            | fails_with chunks e ↦ (chunks, some e)
          ])
          ≡ continued r later) [
            | goes_on chunks s' ↦ refl
            | ends_with chunks ↦ refl
            | fails_with chunks e ↦ refl
          ]

  CountsOn : List (Option Json) → Type 0
  CountsOn later =
      (s : StreamState)
      → fresh (keys s.tool_ordinals) later ≡ true
      → Counts (length s.tool_ordinals) (starts (stream_from name str wants_usage s later).0)

  continued-Counts :
      (os : List (ℤ × ℕ)) (k : Option ℤ) (r : Round) (later : List (Option Json))
      → Steps os k r
      → elim k [
        | none ↦ fresh (keys os) later
        | some i ↦ not (mem i (keys os)) && fresh (keys os ++ (i ∷ [])) later
      ]
        ≡ true
      → CountsOn later
      → Counts (length os) (starts (continued r later).0)
  unfolding Steps CountsOn starts
  continued-Counts os k (ends_with cs) later steps ok counts =
      Counts-nil (length os) (starts cs) steps
  continued-Counts os k (fails_with cs e) later steps ok counts =
      Counts-nil (length os) (starts cs) steps
  continued-Counts os none (goes_on cs s) later (inl (quiet, bare, same)) ok counts =
      Counts-skip os s.tool_ordinals cs (stream_from name str wants_usage s later).0 bare same
        (counts s (rw same ok))
  continued-Counts os none (goes_on cs s) later (inr (i, begun, one, set)) ok counts =
      absurd (ground arith)
  continued-Counts os (some j) (goes_on cs s) later (inl (quiet, bare, same)) ok counts =
      absurd (ground arith)
  continued-Counts os (some j) (goes_on cs s) later (inr (i, begun, one, set)) ok counts =
      let same : j ≡ i = ground (arith, begun) in
      let absent : mem i (keys os) ≡ false = ground (arith, ok, same) in
      let (known, more) = set_ordinal-fresh i (length os) os absent in
      let still : fresh (keys s.tool_ordinals) later ≡ true =
        ground (arith, ok, same, known, set) in
      Counts-next (length os) (length s.tool_ordinals) cs
        (stream_from name str wants_usage s later).0 one (ap (λ o. length o) set ∙ more)
        (counts s still)

  -- From variables whose tool blocks have the indexes in `keys`, on events that start no block twice, the
  -- calls that are started are numbered on from the calls before.
  stream_from-Counts : (later : List (Option Json)) → CountsOn later
  unfolding CountsOn stream_from fresh round starts
  stream_from-Counts [] s ok = Counts-nil (length s.tool_ordinals) (starts []) refl
  stream_from-Counts (payload ∷ later) s ok =
      subst (λ (out : List Chunk × Option Raised). Counts (length s.tool_ordinals) (starts out.0))
        (sym (stream_from-continued s payload later))
        (continued-Counts s.tool_ordinals (index_of (read_event name str wants_usage payload))
          (round name str wants_usage s payload) later
          (round-Steps name str wants_usage s (read_event name str wants_usage payload)) ok
          (stream_from-Counts later))

  -- Of a stream whose events start no tool block with the index of another, the tool calls that the
  -- caller sees started are numbered 0, 1, 2 and so on in the order of their start, whatever blocks
  -- of other kinds stand between them, and whether or not the stream ends well.
  pub stream_from-ordinals :
      (model : Text) (payloads : List (Option Json))
      → fresh [] payloads ≡ true
      → let ordinals = starts (stream_from name str wants_usage (started model) payloads).0 in
        ordinals ≡ count_from 0 (length ordinals)
  unfolding CountsOn Counts started
  stream_from-ordinals model payloads ok = stream_from-Counts payloads (started model) ok
