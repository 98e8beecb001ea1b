-- ===== src/Providers/Anthropic/Alternate.antt =====
-- What `_translate_messages` of src/vortex_ai_gateway/providers/anthropic.py sends: Anthropic rejects two
-- turns in a row of one speaker, and empty turns.
use vortex_ai_gateway.Base.{
  ◌≡◌, refl, ap, ◌∙◌, sym, Text, Bool, true, false, not, ◌&&◌, Option, none, some, List, [], ◌∷◌,
  ◌++◌, map, arith, Bool-cases, inl, inr,
}
use mathlib.Core.List.{append_assoc, append-nil}
use mathlib.Core.Path.{ap₂}
use Prim.{absurd}
use vortex_ai_gateway.Contracts.Messages.{RoleMessage}
use vortex_ai_gateway.Providers.Errors.{Result, returned, raised}
use vortex_ai_gateway.Providers.Anthropic.Turns.{
  Loaded, Block, Speaker, Turn, Said, framing, spoken, same_role, and_then, said, extend, add,
  translate_from, system_prompt, translate_messages,
}

is_nil {ℓ} : {A : Type ℓ} → List A → Bool
is_nil [] = true
is_nil (x ∷ xs) = false

differs : Option Speaker → Speaker → Bool
differs none role = true
differs (some role') role = not (same_role role' role)

module _ {J : Type 0} where
  -- No turn is empty, and none has the speaker of the turn before it.
  unfoldable pub alternating : Option Speaker → List (Turn J) → Bool
  unfolding is_nil differs
  alternating before [] = true
  alternating before (t ∷ ts) =
      not (is_nil t.content) && (differs before t.role && alternating (some t.role) ts)

  -- All blocks of the turns, in order.
  unfoldable pub contents : List (Turn J) → List (Block J)
  contents [] = []
  contents (t ∷ ts) = t.content ++ contents ts

is_nil-append {ℓ} :
    {A : Type ℓ} (xs : List A) (y : A) (ys : List A) → is_nil (xs ++ (y ∷ ys)) ≡ false
unfolding is_nil
is_nil-append [] y ys = refl
is_nil-append (x ∷ xs) y ys = refl

module _ (J : Type 0) (name : Text) (loads : Text → Loaded J) (empty_object : J) where
  extend-alternating :
      (before : Option Speaker) (role : Speaker) (b : Block J) (bs : List (Block J)) (t : Turn J)
      (ts : List (Turn J))
      → alternating before (t ∷ ts) ≡ true
      → alternating before (extend J name loads empty_object role (b ∷ bs) (t ∷ ts)) ≡ true
  unfolding alternating extend differs is_nil
  extend-alternating before role b bs t [] ok = elim (Bool-cases (same_role t.role role)) [
    | inl same ↦ ground (arith, ok, same, is_nil-append t.content b bs)
    | inr apart ↦ ground (arith, ok, apart)
  ]
  extend-alternating before role b bs t (u ∷ ts) ok =
      let rest = extend-alternating (some t.role) role b bs u ts in ground (arith, ok, rest)

  extend-contents :
      (role : Speaker) (bs : List (Block J)) (ts : List (Turn J))
      → contents (extend J name loads empty_object role bs ts) ≡ contents ts ++ bs
  unfolding contents extend
  extend-contents role bs [] = append-nil bs
  extend-contents role bs (t ∷ []) =
      let bare = ap (λ xs. xs ++ bs) (append-nil t.content) in
      elim (Bool-cases (same_role t.role role)) [
        | inl same ↦ rw same (append-nil (t.content ++ bs) ∙ sym bare)
        | inr apart ↦ rw apart (ap (λ xs. t.content ++ xs) (append-nil bs) ∙ sym bare)
      ]
  extend-contents role bs (t ∷ u ∷ ts) =
      ap (λ xs. t.content ++ xs) (extend-contents role bs (u ∷ ts))
      ∙ sym (append_assoc t.content (contents (u ∷ ts)) bs)

  add-alternating :
      (role : Speaker) (bs : List (Block J)) (turns : List (Turn J))
      → alternating none turns ≡ true
      → alternating none (add J name loads empty_object role bs turns) ≡ true
  unfolding alternating add extend differs is_nil
  add-alternating role [] turns ok = ok
  add-alternating role (b ∷ bs) [] ok = refl
  add-alternating role (b ∷ bs) (t ∷ ts) ok = extend-alternating none role b bs t ts ok

  add-contents :
      (role : Speaker) (bs : List (Block J)) (turns : List (Turn J))
      → contents (add J name loads empty_object role bs turns) ≡ contents turns ++ bs
  unfolding add
  add-contents role [] turns = sym (append-nil (contents turns))
  add-contents role (b ∷ bs) turns = extend-contents role (b ∷ bs) turns

  -- What is left of a translation that forgets where its turns begin.
  unfoldable pub flat : Result (List Text × List (Turn J)) → Result (List Text × List (Block J))
  flat (returned (system, turns)) = returned (system, contents turns)
  flat (raised e) = raised e

  after :
      List Text
      → List (Block J)
      → Result (List Text × List (Block J))
      → Result (List Text × List (Block J))
  after system bs (returned (later, more)) = returned (system ++ later, bs ++ more)
  after system bs (raised e) = raised e

  after-after :
      (system system' : List Text) (bs bs' : List (Block J))
      (out : Result (List Text × List (Block J)))
      → after (system ++ system') (bs ++ bs') out ≡ after system bs (after system' bs' out)
  unfolding after
  after-after system system' bs bs' (returned (later, more)) =
      ap₂ (λ x y. returned (x, y)) (append_assoc system system' later) (append_assoc bs bs' more)
  after-after system system' bs bs' (raised e) = refl

  -- The texts of the system prompt in a conversation, and all that is said in it, in order: the first
  -- failure if there is any.
  unfoldable pub all_said : List (Said J) → Result (List Text × List (Block J))
  unfolding after
  all_said [] = returned ([], [])
  all_said (framing t ∷ ms) = after (t ∷ []) [] (all_said ms)
  all_said (spoken role (returned bs) ∷ ms) = after [] bs (all_said ms)
  all_said (spoken role (raised e) ∷ ms) = raised e

  translate_from-alternating :
      (ms : List (Said J)) (system : List Text) (turns : List (Turn J))
      (out : List Text × List (Turn J))
      → alternating none turns ≡ true
      → translate_from J name loads empty_object ms system turns ≡ returned out
      → alternating none out.1 ≡ true
  unfolding translate_from
  translate_from-alternating [] system turns out ok e = ground (arith, ok, e)
  translate_from-alternating (framing t ∷ ms) system turns out ok e =
      translate_from-alternating ms (system ++ (t ∷ [])) turns out ok e
  translate_from-alternating (spoken role (returned bs) ∷ ms) system turns out ok e =
      translate_from-alternating ms system (add J name loads empty_object role bs turns) out
        (add-alternating role bs turns ok) e
  translate_from-alternating (spoken role (raised x) ∷ ms) system turns out ok e =
      absurd (ground arith)

  translate_from-contents :
      (ms : List (Said J)) (system : List Text) (turns : List (Turn J))
      → flat (translate_from J name loads empty_object ms system turns)
        ≡ after system (contents turns) (all_said ms)
  unfolding translate_from flat after all_said
  translate_from-contents [] system turns =
      ap₂ (λ x y. returned (x, y)) (sym (append-nil system)) (sym (append-nil (contents turns)))
  translate_from-contents (framing t ∷ ms) system turns =
      translate_from-contents ms (system ++ (t ∷ [])) turns
      ∙ ap (λ bs. after (system ++ (t ∷ [])) bs (all_said ms)) (sym (append-nil (contents turns)))
      ∙ after-after system (t ∷ []) (contents turns) [] (all_said ms)
  translate_from-contents (spoken role (returned bs) ∷ ms) system turns =
      translate_from-contents ms system (add J name loads empty_object role bs turns)
      ∙ ap₂ (λ x y. after x y (all_said ms)) (sym (append-nil system)) (add-contents role bs turns)
      ∙ after-after system [] (contents turns) bs (all_said ms)
  translate_from-contents (spoken role (raised e) ∷ ms) system turns = refl

  after-nil : (out : Result (List Text × List (Block J))) → after [] [] out ≡ out
  unfolding after
  after-nil (returned (later, more)) = refl
  after-nil (raised e) = refl

  -- The turns of a translation, none if it failed; and a translation with its blocks in one list.
  unfoldable pub turns_of : Result (Option Text × List (Turn J)) → List (Turn J)
  turns_of (returned (system, turns)) = turns
  turns_of (raised e) = []

  unfoldable pub unbroken :
      Result (Option Text × List (Turn J)) → Result (Option Text × List (Block J))
  unfolding contents
  unbroken (returned (system, turns)) = returned (system, contents turns)
  unbroken (raised e) = raised e

  unfoldable pub prompted :
      Result (List Text × List (Block J)) → Result (Option Text × List (Block J))
  unfolding system_prompt
  prompted (returned (texts, blocks)) =
      returned (system_prompt J name loads empty_object texts, blocks)
  prompted (raised e) = raised e

  prompted-flat :
      (out : Result (List Text × List (Turn J)))
      → unbroken (
          and_then
            (λ (x : List Text × List (Turn J)).
              returned (system_prompt J name loads empty_object x.0, x.1))
            out)
        ≡ prompted (flat out)
  unfolding and_then unbroken prompted flat
  prompted-flat (returned (texts, turns)) = refl
  prompted-flat (raised e) = refl

  turns_of-alternating :
      (out : Result (List Text × List (Turn J)))
      → ((x : List Text × List (Turn J)) → out ≡ returned x → alternating none x.1 ≡ true)
      → alternating none (
          turns_of (
            and_then
              (λ (x : List Text × List (Turn J)).
                returned (system_prompt J name loads empty_object x.0, x.1))
              out))
        ≡ true
  unfolding and_then turns_of alternating
  turns_of-alternating (returned (texts, turns)) ok = ok (texts, turns) refl
  turns_of-alternating (raised e) ok = refl

  -- A translated conversation has no empty turn, and no two turns in a row of one speaker. Its turns
  -- hold, in order, exactly the blocks of the messages that are not of the system, and its system
  -- prompt is made of the texts of those that are; and it fails with the failure of the first message
  -- that does.
  pub translate_messages-alternating :
      (ms : List RoleMessage)
      → let out = translate_messages J name loads empty_object ms in
        (alternating none (turns_of out) ≡ true)
        × (unbroken out ≡ prompted (all_said (map (said J name loads empty_object) ms)))
  unfolding translate_messages alternating contents all_said
  translate_messages-alternating ms =
      let parts = map (said J name loads empty_object) ms in
      let out = translate_from J name loads empty_object parts [] [] in
      (
        turns_of-alternating out (λ x e. translate_from-alternating parts [] [] x refl e),
        prompted-flat out
            ∙ ap prompted (translate_from-contents parts [] [] ∙ after-nil (all_said parts)),
      )
