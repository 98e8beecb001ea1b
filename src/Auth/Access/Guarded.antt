-- ===== src/Auth/Access/Guarded.antt =====
-- Who gets past src/vortex_ai_gateway/auth.py.
use vortex_ai_gateway.Base.{
  ◌≡◌, refl, ◌↔◌, ◌⊎◌, inl, inr, Text, true, false, not, Option, none, some, List, is_empty,
  is_some, mem_text, arith, Option-cases, Bool-cases,
}
use vortex_ai_gateway.Config.{Settings, allowed_api_keys}
use vortex_ai_gateway.Auth.Identity.{Principal}
use vortex_ai_gateway.Auth.Keys.{ApiKeyRecord, Row, verify}
use vortex_ai_gateway.Auth.Access.{
  Answer, Refusal, accepted, refused, extract_bearer_token, is_guarded, is_nil, ensure_key_source,
  identify, require_api_key, from_record, from_token,
}

Answer-cases {ℓ} :
    {A : Type ℓ} (a : Answer A)
    → ((why : Refusal) × (a ≡ refused why)) ⊎ ((x : A) × (a ≡ accepted x))
Answer-cases (refused why) = inl (why, refl)
Answer-cases (accepted x) = inr (x, refl)

module _ (sha256 fingerprint : Text → Text) where
  identify-stored :
      (rows : List Row) (s : Settings) (token : Text) (p : Principal)
      → identify sha256 fingerprint (some rows) s token ≡ accepted p
      → (r : ApiKeyRecord) × (verify sha256 token rows ≡ some r) × (p ≡ from_record r s)
  unfolding identify
  identify-stored rows s token p h = elim (Option-cases (verify sha256 token rows)) [
    | inl missing ↦ ground arith
    | inr (r, found) ↦ (r, found, ground arith)
  ]

  identify-listed :
      (s : Settings) (token : Text) (p : Principal)
      → is_nil (allowed_api_keys s) ≡ false
      → identify sha256 fingerprint none s token ≡ accepted p
      → (mem_text token (allowed_api_keys s) ≡ true) × (p ≡ from_token sha256 fingerprint token s)
  unfolding identify
  identify-listed s token p listed h = elim (Bool-cases (mem_text token (allowed_api_keys s))) [
    | inl there ↦ (there, ground arith)
    | inr missing ↦ ground arith
  ]

  -- What accepts a request is a readable token and its identity.
  require_api_key-accepted :
      (store : Option (List Row)) (s : Settings) (header : Option Text) (p : Principal)
      → require_api_key sha256 fingerprint store s header ≡ accepted p
      → (token : Text) × (extract_bearer_token header ≡ accepted token)
        × (identify sha256 fingerprint store s token ≡ accepted p)
  unfolding require_api_key
  require_api_key-accepted store s header p h = elim (Answer-cases (extract_bearer_token header)) [
    | inl (why, bad) ↦ ground arith
    | inr (token, good) ↦ (token, good, ground arith)
  ]

-- In staging and production, with a key store exactly if a path to one is configured, a gateway
-- that started lets nobody in but the holder of a stored live key, or of a key of the list: the
-- request's header holds a token that the store verifies, or that stands in the list.
pub guarded_gateway :
    (sha256 fingerprint : Text → Text) (store : Option (List Row)) (s : Settings)
    (header : Option Text) (p : Principal)
    → is_guarded s.environment ≡ true
    → ensure_key_source s ≡ true
    → is_some store ≡ not (is_empty s.key_db_path)
    → require_api_key sha256 fingerprint store s header ≡ accepted p
    → (token : Text) × (extract_bearer_token header ≡ accepted token)
      × (((rows : List Row) × (r : ApiKeyRecord) × (store ≡ some rows)
            × (verify sha256 token rows ≡ some r)
            × (p ≡ from_record r s))
          ⊎ ((mem_text token (allowed_api_keys s) ≡ true)
              × (p ≡ from_token sha256 fingerprint token s)))
unfolding ensure_key_source
guarded_gateway sha256 fingerprint none s header p guarded started wired let_in =
    let (token, good, same) = require_api_key-accepted sha256 fingerprint none s header p let_in in
    (token, good, inr (identify-listed sha256 fingerprint s token p (ground arith) same))
guarded_gateway sha256 fingerprint (some rows) s header p guarded started wired let_in =
    let (token, good, same) =
      require_api_key-accepted sha256 fingerprint (some rows) s header p let_in in
    let (r, found, known) = identify-stored sha256 fingerprint rows s token p same in
    (token, good, inl (rows, r, refl, found, known))

-- With a key store, a request is let in exactly when its header holds a token of a stored live key,
-- as that key's principal: the list of the settings counts for nothing then.
pub require_api_key-stored_iff :
    (sha256 fingerprint : Text → Text) (rows : List Row) (s : Settings) (header : Option Text)
    (p : Principal)
    → (require_api_key sha256 fingerprint (some rows) s header ≡ accepted p) ↔ (
        (token : Text) × (r : ApiKeyRecord) × (extract_bearer_token header ≡ accepted token)
        × (verify sha256 token rows ≡ some r)
        × (p ≡ from_record r s))
unfolding require_api_key identify
require_api_key-stored_iff sha256 fingerprint rows s header p = (
  λ let_in.
      let (token, good, same) =
        require_api_key-accepted sha256 fingerprint (some rows) s header p let_in in
      let (r, found, known) = identify-stored sha256 fingerprint rows s token p same in
      (token, r, good, found, known),
  λ h. let (token, r, good, found, known) = h in ground arith,
)
