-- ===== src/Signer/Key.antt =====
-- signer/src/key.rs. The hexadecimal codec and the curve are foreign.
pub mod RoundTrip
use rust_recall.Base.{ℕ, String, Result, context, ◌>>=◌, if◌then◌else◌}
use rust_recall.Base.Text.{starts_with}
use rust_recall.Base.Text.Trim.{trim, drop_chars}
use rust_recall.Fvm.{Bytes, Fvm}

-- The crates `hex`, `fendermint_crypto` and `rand`
pub record Keys (F : Fvm) : Type 1 where
  pub hex_decode : String → Result Bytes
  pub hex_encode : Bytes → String
  -- `SecretKey::try_from`, and `serialize`
  pub key_of_bytes : Bytes → Result F.SecretKey
  pub key_bytes : F.SecretKey → Bytes
  -- the state of the random number generator
  pub Rng : Type 0
  pub random : Rng → F.SecretKey × Rng

module _ (F : Fvm) (S : Keys F) where
  unfoldable pub parse_secret_key : String → Result F.SecretKey
  parse_secret_key text = do
    let trimmed = trim text
    let hex_str = if starts_with trimmed "0x" then drop_chars 2 trimmed else trimmed
    raw_secret ← context (S.hex_decode hex_str) "cannot decode hex private key"
    context (S.key_of_bytes raw_secret) "failed to parse secret key"

  unfoldable pub random_secretkey : S.Rng → F.SecretKey × S.Rng
  random_secretkey rng = S.random rng
