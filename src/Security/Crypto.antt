-- ===== src/Security/Crypto.antt =====
-- Identities and signatures of crates/gpumesh-security/src/lib.rs, over the crates `hex`, `base64`,
-- `sha2` and `ed25519_dalek`.
pub mod Laws
pub mod Toy
use gpu_share.Base.{
  Parsed, bad, good, ◌&◌, ℕ, String, Bool, true, false, Option, none, some, List, [], ◌∷◌, ◌≡◌,
  length, take, not, ◌==◌, nat_eq, string_eq, no_whitespace, if◌then◌else◌,
}
use gpu_share.Common.{Result, ok, err, identity, ◌>>=◌, ◌>>◌, bail_if}

pub record Crypto : Type 0 where
  pub hex_encode : List ℕ → String
  pub hex_decode : String → Parsed (List ℕ)
  pub b64_encode : List ℕ → String
  pub b64_decode : String → Parsed (List ℕ)
  pub sha256 : List ℕ → List ℕ
  -- `SigningKey::from_bytes(seed).verifying_key()`, as bytes.
  pub verifying_key : List ℕ → List ℕ
  pub sign : List ℕ → List ℕ → List ℕ
  -- `VerifyingKey::from_bytes`: the error's text if the bytes are no key.
  pub key_from_bytes : List ℕ → Parsed (List ℕ)
  -- `vk.verify(message, sig)`: the error's text if the signature does not fit.
  pub verify : List ℕ → List ℕ → List ℕ → Parsed (Unit {0})
  -- What the crates document: the codecs read what they write, a key has 32 bytes and a signature
  -- 64, and a signature verifies under the key of its seed.
  pub hex_decode-encode : (b : List ℕ) → hex_decode (hex_encode b) ≡ good b
  pub b64_decode-encode : (b : List ℕ) → b64_decode (b64_encode b) ≡ good b
  pub b64_decode_empty : b64_decode "" ≡ good []
  pub b64_no_whitespace : (b : List ℕ) → no_whitespace (b64_encode b) ≡ true
  pub length-verifying_key : (seed : List ℕ) → length (verifying_key seed) ≡ 32
  pub length-sign : (seed m : List ℕ) → length (sign seed m) ≡ 64
  pub key-verifying_key :
      (seed : List ℕ) → key_from_bytes (verifying_key seed) ≡ good (verifying_key seed)
  pub verify-sign : (seed m : List ℕ) → verify (verifying_key seed) m (sign seed m) ≡ good tt

-- `map_err(|e| GpuMeshError::Identity(prefix + e))?`
abbrev pub or_identity : {A : Type 0} → String → Parsed A → Result A
or_identity p (bad e) = err (identity (p & e))
or_identity p (good a) = ok a

-- The identity file, whose text form serde_json gives.
pub record IdentityFile : Type 0 where
  pub secret_key_hex : String
  pub node_id : String

pub record NodeIdentity : Type 0 where
  pub seed : List ℕ
  pub node_id : String

module _ (c : Crypto) where
  unfoldable pub node_id_from_verifying : List ℕ → String
  node_id_from_verifying vk = c.hex_encode (take 16 (c.sha256 vk))

  unfoldable pub from_seed : List ℕ → NodeIdentity
  from_seed seed = record { seed = seed; node_id = node_id_from_verifying (c.verifying_key seed) }

  -- `load`, from the parsed file on.
  unfoldable pub load : IdentityFile → Result NodeIdentity
  load file = do
    bytes ← or_identity "" (c.hex_decode file.secret_key_hex)
    bail_if (not (length bytes == 32)) (identity "invalid secret key length")
    let id = from_seed bytes
    bail_if (not (id.node_id == file.node_id)) (identity "node_id mismatch with secret key")
    ok id

  -- The file that `save` writes.
  unfoldable pub to_file : NodeIdentity → IdentityFile
  to_file id = record { secret_key_hex = c.hex_encode id.seed; node_id = id.node_id }

  unfoldable pub public_key_hex : NodeIdentity → String
  public_key_hex id = c.hex_encode (c.verifying_key id.seed)

  unfoldable pub sign_b64 : NodeIdentity → List ℕ → String
  sign_b64 id message = c.b64_encode (c.sign id.seed message)

  unfoldable pub node_id_from_public_hex : String → Result String
  node_id_from_public_hex public_hex = do
    bytes ← or_identity "" (c.hex_decode public_hex)
    bail_if (not (length bytes == 32)) (identity "public key must be 32 bytes")
    vk ← or_identity "" (c.key_from_bytes bytes)
    ok (node_id_from_verifying vk)

  unfoldable pub verify_signature : String → List ℕ → String → Result (Unit {0})
  verify_signature public_hex message sig_b64 = do
    pk ← or_identity "" (c.hex_decode public_hex)
    bail_if (not (length pk == 32)) (identity "bad public key")
    vk ← or_identity "" (c.key_from_bytes pk)
    sig_bytes ← or_identity "" (c.b64_decode sig_b64)
    bail_if (not (length sig_bytes == 64)) (identity "bad signature length")
    or_identity "signature verify failed: " (c.verify vk message sig_bytes)
