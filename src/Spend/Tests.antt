-- ===== src/Spend/Tests.antt =====
-- The theorem on the ledger, at a server that keeps its hashes in dictionaries.
use vortex_ai_gateway.Base.{
  ℕ, ◌+◌, ◌≡◌, refl, ap, ◌∙◌, Text, codes, true, false, some, [], ◌∷◌, ◌&&◌, Dict, lookup, insert,
  erase, lookup-insert, lookup-erase, option_or, text_eq, eq_of_text_eq, text_eq_refl, sym,
  if◌then◌else◌, Bool-cases, inl, inr, arith,
}
use vortex_ai_gateway.Spend.{
  Distinct, Server, prompt, quantity_in, totals_at, key_of, record_usage, day_totals,
}
use vortex_ai_gateway.Spend.Ledger.{amount, day_totals-record_usage}

-- A dictionary with the first entry of each key.
once : Dict ℕ → Dict ℕ
unfolding erase
once [] = []
once ((f, n) ∷ fs) = (f, n) ∷ erase f (once fs)

lookup-once : (g : Text) (d : Dict ℕ) → lookup g (once d) ≡ lookup g d
unfolding once lookup
lookup-once g [] = refl
lookup-once g ((f, n) ∷ fs) = ground (arith, lookup-erase g f (once fs), lookup-once g fs)

erase-Distinct : (k : Text) (d : Dict ℕ) → Distinct d → Distinct (erase k d)
unfolding erase Distinct
erase-Distinct k [] distinct = tt
erase-Distinct k ((j, w) ∷ d) (new, distinct) = elim (Bool-cases (text_eq j k)) [
  | inl same ↦ rw same (erase-Distinct k d distinct)
  | inr other ↦ rw other (ground (arith, lookup-erase j k d, new), erase-Distinct k d distinct)
]

once-Distinct : (d : Dict ℕ) → Distinct (once d)
unfolding once Distinct
once-Distinct [] = tt
once-Distinct ((f, n) ∷ fs) = (
  ground (arith, lookup-erase f f (once fs), text_eq_refl f),
  erase-Distinct f (once fs) (once-Distinct fs),
)

abbrev hash : Text → Dict (Dict ℕ) → Dict ℕ
hash k s = option_or (lookup k s) []

abbrev add : Text → Text → ℕ → Dict (Dict ℕ) → Dict (Dict ℕ)
add k f n s = insert k (insert f (option_or (lookup f (hash k s)) 0 + n) (hash k s)) s

once-add :
    (j k f g : Text) (n : ℕ) (s : Dict (Dict ℕ))
    → lookup g (once (hash j (add k f n s))) ≡ (
        if text_eq k j && text_eq f g
        then some (option_or (lookup f (once (hash k s))) 0 + n)
        else lookup g (once (hash j s)))
once-add j k f g n s =
    let v = option_or (lookup f (hash k s)) 0 + n in
    let stored = lookup-insert j k (insert f v (hash k s)) s in
    elim (Bool-cases (text_eq k j)) [
      | inl same ↦
          lookup-once g (hash j (add k f n s))
          ∙ rw (stored, same, lookup-once f (hash k s), lookup-once g (hash j s))
              (lookup-insert g f v (hash k s)
                ∙ ap (λ i. if text_eq f g then some v else lookup g (hash i s))
                    (eq_of_text_eq k j same))
      | inr other ↦
          lookup-once g (hash j (add k f n s)) ∙ rw (stored, other) (sym (lookup-once g (hash j s)))
    ]

abbrev hashes : Server
hashes = record {
  State = Dict (Dict ℕ);
  hgetall = λ k s. once (hash k s);
  hincrby = add;
  hgetall-Distinct = λ k s. once-Distinct (hash k s);
  hgetall-hincrby = once-add;
}

abbrev ledger : Dict (Dict ℕ)
ledger =
    record_usage hashes (codes "vx") true (codes "k1") (codes "2026-01-02") (codes "a|b") 10 5 true
      []

-- A second request of the model `a|b`, whose name holds the separator.
day_totals-record_usage_example :
    let s' =
      record_usage hashes
        (codes "vx")
        true
        (codes "k1")
        (codes "2026-01-02")
        (codes "a|b")
        7
        3
        false
        ledger in
    quantity_in prompt (
      totals_at (codes "a|b") (day_totals hashes (codes "vx") (codes "k1") (codes "2026-01-02") s'))
    ≡ quantity_in prompt (
        totals_at
          (codes "a|b")
          (day_totals hashes (codes "vx") (codes "k1") (codes "2026-01-02") ledger))
      + 7
unfolding amount key_of
day_totals-record_usage_example =
    day_totals-record_usage hashes (codes "vx") (codes "k1") (codes "k1") (codes "2026-01-02")
      (codes "2026-01-02") (codes "a|b") (codes "a|b") 7 3 false prompt ledger refl
