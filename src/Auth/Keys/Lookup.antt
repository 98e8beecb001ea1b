-- ===== src/Auth/Keys/Lookup.antt =====
-- What `verify` answers of src/vortex_ai_gateway/keys.py: a minted key is accepted, and what is
-- accepted is in the table.
use vortex_ai_gateway.Base.{
  ℕ, ◌≡◌, ◌↔◌, Text, false, none, some, List, ◌++◌, is_empty, contains_code, partition-append,
  arith, text_eq_refl, text_eq_iff, Option-cases, inl, inr, codes, ◌∷◌,
}
use vortex_ai_gateway.Auth.Keys.{
  Row, ApiKeyRecord, MintedKey, parse_key_id, token_of, select, create, new_entry, check_row,
  verify,
}

-- A well-formed token names its key: the secret may hold underscores, the key ID may not.
pub parse_key_id-token_of :
    (key_id secret : Text)
    → contains_code b'_' key_id ≡ false
    → is_empty key_id ≡ false
    → is_empty secret ≡ false
    → parse_key_id (token_of key_id secret) ≡ some key_id
unfolding parse_key_id
parse_key_id-token_of key_id secret clean named kept = ground (
  arith,
  partition-append b'_' (codes "vtx") (key_id ++ (b'_' ∷ secret)),
  partition-append b'_' key_id secret clean,
)

-- A key minted under a new ID authenticates at once, with the record that was returned for it.
pub verify-create :
    (sha256 : Text → Text) (key_id secret name : Text) (now rpm tpm : ℕ) (rows : List Row)
    → contains_code b'_' key_id ≡ false
    → is_empty key_id ≡ false
    → is_empty secret ≡ false
    → select key_id rows ≡ none
    → (m : MintedKey) × (rows' : List Row) × (create sha256 key_id secret name now rpm tpm rows
        ≡ some (m, rows'))
      × (verify sha256 m.token rows' ≡ some m.entry)
unfolding create verify check_row select
verify-create sha256 key_id secret name now rpm tpm rows clean named kept fresh =
    let token = token_of key_id secret in
    let entry = new_entry key_id name now rpm tpm in
    (
      record { entry = entry; token = token },
      record { token_hash = sha256 token; entry = entry } ∷ rows,
      ground arith,
      ground (
        arith,
        parse_key_id-token_of key_id secret clean named kept,
        text_eq_refl key_id,
        text_eq_refl (sha256 token),
      ),
    )

check_row_iff :
    (sha256 : Text → Text) (token : Text) (r : Row) (e : ApiKeyRecord)
    → (check_row sha256 token (some r) ≡ some e)
      ↔ ((r.token_hash ≡ sha256 token) × (r.entry ≡ e) × (e.revoked_at ≡ none))
unfolding check_row
check_row_iff sha256 token r e = ground (arith, text_eq_iff r.token_hash (sha256 token))

-- Whatever token is accepted, its key is in the table, live, under the ID that the token names, and
-- with the token's hash; and any other token is refused.
pub verify-some_iff :
    (sha256 : Text → Text) (token : Text) (rows : List Row) (e : ApiKeyRecord)
    → (verify sha256 token rows ≡ some e) ↔ (
        (key_id : Text) × (r : Row) × (parse_key_id token ≡ some key_id)
        × (select key_id rows ≡ some r)
        × (r.token_hash ≡ sha256 token)
        × (r.entry ≡ e)
        × (e.revoked_at ≡ none))
unfolding verify
verify-some_iff sha256 token rows e = (
  λ h. elim (Option-cases (parse_key_id token)) [
    | inl missing ↦ ground arith
    | inr (key_id, named) ↦ elim (Option-cases (select key_id rows)) [
      | inl missing ↦ ground arith
      | inr (r, found) ↦
          let row_ok = (check_row_iff sha256 token r e).0 (ground arith) in
          (key_id, r, named, found, row_ok.0, row_ok.1, row_ok.2)
    ]
  ],
  λ found.
      let (key_id, r, named, stored, hash, entry, live) = found in
      ground (arith, check_row_iff sha256 token r e),
)
