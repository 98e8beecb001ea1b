-- ===== src/Auth/Keys/Revocation.antt =====
-- Revocation in src/vortex_ai_gateway/keys.py: it lasts, it keeps its first time, and it touches one key.
use vortex_ai_gateway.Base.{
  ℕ, ◌≡◌, Text, Option, none, some, List, [], ◌∷◌, if◌then◌else◌, text_eq, text_eq_iff,
  text_eq_refl, Option-cases, inl, inr, arith,
}
use vortex_ai_gateway.Auth.Keys.{
  Row, parse_key_id, select, stamp, update, revoke, create, check_row, verify, Change, creation,
  revocation, change, change_all,
}

abbrev stamp_found : ℕ → Option Row → Option Row
stamp_found now none = none
stamp_found now (some r) = some (stamp now r)

-- A revocation stamps the row of its key, if that is live, and leaves every other row as it was.
pub select-revoke :
    (now : ℕ) (key_id other : Text) (rows : List Row)
    → select other (revoke now key_id rows).1
      ≡ (if text_eq key_id other then stamp_found now (select other rows) else select other rows)
unfolding revoke update select
select-revoke now key_id other [] = ground arith
select-revoke now key_id other (r ∷ rows) = ground (
  arith,
  select-revoke now key_id other rows,
  text_eq_iff r.entry.key_id key_id,
  text_eq_iff r.entry.key_id other,
  text_eq_iff key_id other,
)

-- When the key was retired, if there is such a key and it was.
abbrev pub retired_at : Option Row → Option ℕ
retired_at none = none
retired_at (some r) = r.entry.revoked_at

change-retired :
    (sha256 : Text → Text) (c : Change sha256) (t : ℕ) (key_id : Text) (rows : List Row)
    → retired_at (select key_id rows) ≡ some t
    → retired_at (select key_id (change sha256 c rows)) ≡ some t
unfolding change create select
change-retired sha256 (creation new secret name now rpm tpm) t key_id rows h =
    elim (Option-cases (select new rows)) [
      | inl fresh ↦ ground (arith, text_eq_iff new key_id)
      | inr (r, taken) ↦ ground arith
    ]
change-retired sha256 (revocation now other) t key_id rows h =
    ground (arith, select-revoke now other key_id rows)

change_all-retired :
    (sha256 : Text → Text) (cs : List (Change sha256)) (t : ℕ) (key_id : Text) (rows : List Row)
    → retired_at (select key_id rows) ≡ some t
    → retired_at (select key_id (change_all sha256 cs rows)) ≡ some t
unfolding change_all
change_all-retired sha256 [] t key_id rows h = h
change_all-retired sha256 (c ∷ cs) t key_id rows h =
    change_all-retired sha256 cs t key_id (change sha256 c rows)
      (change-retired sha256 c t key_id rows h)

verify-retired :
    (sha256 : Text → Text) (token key_id : Text) (t : ℕ) (rows : List Row)
    → parse_key_id token ≡ some key_id
    → retired_at (select key_id rows) ≡ some t
    → verify sha256 token rows ≡ none
unfolding verify check_row
verify-retired sha256 token key_id t rows named retired = elim (Option-cases (select key_id rows)) [
  | inl missing ↦ ground arith
  | inr (r, found) ↦ ground arith
]

-- Once a live key is revoked, no token that names it authenticates again, whatever keys are created
-- or revoked afterwards, and its row keeps the time of that first revocation.
pub revoked_for_good :
    (sha256 : Text → Text) (now : ℕ) (key_id token : Text) (rows : List Row) (r : Row)
    (later : List (Change sha256))
    → select key_id rows ≡ some r
    → r.entry.revoked_at ≡ none
    → parse_key_id token ≡ some key_id
    → let rows' = change_all sha256 later (revoke now key_id rows).1 in
      (verify sha256 token rows' ≡ none) × (retired_at (select key_id rows') ≡ some now)
revoked_for_good sha256 now key_id token rows r later found live named =
    let rows' = (revoke now key_id rows).1 in
    let retired : retired_at (select key_id rows') ≡ some now =
      ground (arith, select-revoke now key_id key_id rows, text_eq_refl key_id) in
    let kept = change_all-retired sha256 later now key_id rows' retired in
    (verify-retired sha256 token key_id now (change_all sha256 later rows') named kept, kept)
