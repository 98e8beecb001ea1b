-- ===== src/Auth/Keys.antt =====
-- `KeyStore` of src/vortex_ai_gateway/keys.py. The SQLite table is the list of its rows, one per key
-- ID, and SHA-256 is a parameter. Times are whole milliseconds.
pub mod Lookup
pub mod Revocation
use vortex_ai_gateway.Base.{
  ℕ, Text, codes, Bool, true, false, not, ◌&&◌, ◌||◌, Option, none, some, List, [], ◌∷◌, ◌++◌,
  is_empty, is_some, partition, text_eq, if◌then◌else◌, option_or,
}

pub record ApiKeyRecord : Type 0 where
  pub key_id : Text
  pub name : Text
  pub created_at : ℕ
  pub revoked_at : Option ℕ
  pub rpm : ℕ
  pub tpm : ℕ

abbrev pub revoked : ApiKeyRecord → Bool
revoked r = is_some r.revoked_at

-- A row of `api_keys`: the hash of its token, and the rest.
pub record Row : Type 0 where
  pub token_hash : Text
  pub entry : ApiKeyRecord

pub record MintedKey : Type 0 where
  pub entry : ApiKeyRecord
  pub token : Text

-- `parse_key_id`: splitting at the first two underscores is partitioning twice.
unfoldable pub parse_key_id : Text → Option Text
unfolding partition
parse_key_id token =
    let (prefix, found, rest) = partition b'_' token in
    let (key_id, found', secret) = partition b'_' rest in
    if found
      && found'
      && text_eq prefix (codes "vtx")
      && not (is_empty key_id)
      && not (is_empty secret)
    then some key_id
    else none

abbrev pub token_of : Text → Text → Text
token_of key_id secret = codes "vtx" ++ (b'_' ∷ (key_id ++ (b'_' ∷ secret)))

-- `SELECT * FROM api_keys WHERE key_id = ?`, `fetchone`
unfoldable pub select : Text → List Row → Option Row
select key_id [] = none
select key_id (r ∷ rows) = if text_eq r.entry.key_id key_id then some r else select key_id rows

abbrev pub entry_of : Option Row → Option ApiKeyRecord
entry_of none = none
entry_of (some r) = some r.entry

-- `SET revoked_at = ?` in a row where it is null.
abbrev pub stamp : ℕ → Row → Row
stamp now r = elim r.entry.revoked_at [
  | none ↦ record { token_hash = r.token_hash; entry = record r.entry { revoked_at = some now } }
  | some _ ↦ r
]

-- `UPDATE api_keys SET revoked_at = ? WHERE key_id = ? AND revoked_at IS NULL`
unfoldable pub update : ℕ → Text → List Row → List Row
update now key_id [] = []
update now key_id (r ∷ rows) =
    (if text_eq r.entry.key_id key_id then stamp now r else r) ∷ update now key_id rows

-- `revoke`
unfoldable pub revoke : ℕ → Text → List Row → Option ApiKeyRecord × List Row
revoke now key_id rows =
    let rows' = update now key_id rows in (entry_of (select key_id rows'), rows')

abbrev pub new_entry : Text → Text → ℕ → ℕ → ℕ → ApiKeyRecord
new_entry key_id name now rpm tpm = record {
  key_id = key_id;
  name = name;
  created_at = now;
  revoked_at = none;
  rpm = rpm;
  tpm = tpm;
}

module _ (sha256 : Text → Text) where
  -- `create`, given the random key ID and secret: `none` is SQLite's refusal of a second row with
  -- the same primary key.
  unfoldable pub create : Text → Text → Text → ℕ → ℕ → ℕ → List Row → Option (MintedKey × List Row)
  unfolding select
  create key_id secret name now rpm tpm rows =
      let entry = new_entry key_id name now rpm tpm in
      let token = token_of key_id secret in
      if is_some (select key_id rows)
      then none
      else some (
        record { entry = entry; token = token },
        record { token_hash = sha256 token; entry = entry } ∷ rows,
      )

  -- What `verify` does with the row that it found or not.
  pub check_row : Text → Option Row → Option ApiKeyRecord
  check_row token none = none
  check_row token (some r) =
      if not (text_eq r.token_hash (sha256 token)) || revoked r.entry then none else some r.entry

  -- `verify`
  unfoldable pub verify : Text → List Row → Option ApiKeyRecord
  unfolding check_row select parse_key_id
  verify token rows = elim (parse_key_id token) [
    | none ↦ none
    | some key_id ↦ check_row token (select key_id rows)
  ]

  -- An operation on the table.
  pub data Change : Type 0 where
    creation : Text → Text → Text → ℕ → ℕ → ℕ → Change
    revocation : ℕ → Text → Change

  pub change : Change → List Row → List Row
  unfolding create revoke
  change (creation key_id secret name now rpm tpm) rows =
      elim (create key_id secret name now rpm tpm rows) [ none ↦ rows | some m ↦ m.1 ]
  change (revocation now key_id) rows = (revoke now key_id rows).1

  unfoldable pub change_all : List Change → List Row → List Row
  unfolding change
  change_all [] rows = rows
  change_all (c ∷ cs) rows = change_all cs (change c rows)
