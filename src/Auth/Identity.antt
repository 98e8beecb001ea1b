-- ===== src/Auth/Identity.antt =====
-- `Principal` of src/vortex_ai_gateway/auth.py: the authenticated caller. A limit of zero is none.
use vortex_ai_gateway.Base.{ℕ, Text, Bool, ◌||◌, ltb}

pub record Principal : Type 0 where
  pub key_id : Text
  pub name : Text
  pub rpm : ℕ
  pub tpm : ℕ

abbrev pub metered : Principal → Bool
metered p = ltb 0 p.rpm || ltb 0 p.tpm
